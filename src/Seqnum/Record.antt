-- ===== src/Seqnum/Record.antt =====
-- server/seqnum/src/util/mod.rs: a record of the file, a key of 16 bytes and a number of eight.
use prim.Prelude.{ℕ, Option, some, ◌>>=◌}
use prim.External.ByteOrder.{Bytes, ByteOrder}
use prim.Entity.Reqwest.{read_at, write_at}

module _ ⦃bo : ByteOrder⦄ where
  -- The buffer afterwards.
  unfoldable pub as_bytes : ℕ → ℕ → Bytes → Option Bytes
  unfolding write_at
  as_bytes key seqnum buf = do buf ← write_at 0 16 key buf; write_at 16 8 seqnum buf

  unfoldable pub from_bytes : Bytes → Option (ℕ × ℕ)
  unfolding read_at
  from_bytes buf = do key ← read_at 0 16 buf; seqnum ← read_at 16 8 buf; some (key, seqnum)
