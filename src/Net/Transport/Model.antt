-- ===== src/Net/Transport/Model.antt =====
-- Streams in memory: the bytes to be read, and those written so far.
use prim.Prelude.{
  ℕ, ◌≤◌, ◌<◌, ◌≡◌, refl, Option, none, some, ◌++◌, length, take, drop, leb, le→leb, if◌then◌else◌,
  arith,
}
use prim.External.ByteOrder.{Bytes}
use prim.Net.Transport.{RecvStream, SendStream}

unfoldable pub read_memory : ℕ → Bytes → Option (Bytes × Bytes)
read_memory n s = if leb n (length s) then some (take n s, drop n s) else none

pub read_memory-some :
    (n : ℕ) (s : Bytes) → n ≤ length s → read_memory n s ≡ some (take n s, drop n s)
unfolding read_memory
read_memory-some n s h = rw (le→leb n (length s) h) refl

pub read_memory-none : (n : ℕ) (s : Bytes) → length s < n → read_memory n s ≡ none
unfolding read_memory
read_memory-none n s h = ground arith

pub written_memory :
    (bs t t' : Bytes) → Path (Option Bytes) (some (t ++ bs)) (some t') → t' ≡ t ++ bs
written_memory bs t t' e = ground arith

instance abbrev pub memory_recv : RecvStream Bytes
memory_recv = record {
  read_exact = read_memory;
  pending = λ s. s;
  read-some = λ n s h. (drop n s, read_memory-some n s h, refl);
  read-none = read_memory-none;
}

instance abbrev pub memory_send : SendStream Bytes
memory_send = record {
  write_all = λ bs t. some (t ++ bs);
  written = λ t. t;
  written-write_all = written_memory;
}
