-- ===== src/Net/Transport.antt =====
-- What the program relies on of the streams of the QUIC library, which are not part of the
-- repository: reading exactly as many bytes as a buffer holds, and writing all bytes of one.
pub mod Model
use prim.Prelude.{ℕ, ◌≤◌, ◌<◌, ◌≡◌, Option, none, some, ◌++◌, length, take, drop}
use prim.External.ByteOrder.{Bytes}

pub record RecvStream (S : Type 0) : Type 0 where
  pub read_exact : ℕ → S → Option (Bytes × S)
  -- The bytes that arrive before the stream ends.
  pub pending : S → Bytes
  -- Enough bytes are waited for; where the stream ends early the read is an error.
  pub read-some :
      (n : ℕ) (s : S)
      → n ≤ length (pending s)
      → (s' : S) × (read_exact n s ≡ some (take n (pending s), s'))
        × (pending s' ≡ drop n (pending s))
  pub read-none : (n : ℕ) (s : S) → length (pending s) < n → read_exact n s ≡ none

pub record SendStream (T : Type 0) : Type 0 where
  pub write_all : Bytes → T → Option T
  pub written : T → Bytes
  pub written-write_all :
      (bs : Bytes) (t t' : T) → write_all bs t ≡ some t' → written t' ≡ written t ++ bs
