-- ===== src/Entity.antt =====
-- server/lib/src/entity/mod.rs: the constants of the message format. In Rust `-` and `+` bind
-- tighter than `<<`, so `1 << 6 - 1` is `1 << 5`.
pub mod MsgType
pub mod Head
pub mod Env
pub mod Msg
pub mod ResourceId
pub mod Reqwest
pub mod ServerInfo
use prim.Prelude.{ℕ, ◌+◌, ◌-◌, ◌*◌, ◌^◌}

abbrev pub head_len : ℕ
head_len = 32

abbrev pub extension_threshold : ℕ
extension_threshold = 1 * 2 ^ (6 - 1)

abbrev pub payload_threshold : ℕ
payload_threshold = 1 * 2 ^ (14 - 1)

abbrev pub group_id_threshold : ℕ
group_id_threshold = 1 * 2 ^ 36

-- server/lib/src/net/mod.rs
abbrev pub body_size : ℕ
body_size = extension_threshold + payload_threshold
