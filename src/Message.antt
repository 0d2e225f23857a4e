-- ===== src/Message.antt =====
-- server/message: what becomes of the messages of a user.
pub mod State
pub mod Number
pub mod Deliver
pub mod Dispatch
pub mod Storage
pub mod Group
pub mod Key
pub mod Routing
pub mod Copies
pub mod Broadcast
pub mod Failure
use prim.Prelude.{ℕ, Bool, leb}
use prim.Entity.{group_id_threshold}

-- `is_group_msg` of service/handler/mod.rs.
abbrev pub is_group_msg : ℕ → Bool
is_group_msg user_id = leb group_id_threshold user_id
