-- ===== src/Entity/Env.antt =====
-- What the constructors of messages take from the machine: the clock, which `timestamp()` of
-- server/lib/src/util/mod.rs reads, and the bytes that `Vec::set_len` leaves uninitialised.
use prim.Prelude.{ℕ, zero, suc, ◌+◌, ◌%◌, ◌≡◌, refl, ap, [], ◌∷◌, length, arith}
use prim.External.ByteOrder.{Bytes, IsBytes}

pub record Env : Type 0 where
  pub now : ℕ
  pub memory : ℕ → ℕ

memory_from : (ℕ → ℕ) → ℕ → ℕ → Bytes
memory_from memory i zero = []
memory_from memory i (suc n) = (memory i % 256) ∷ memory_from memory (i + 1) n

-- `Vec::with_capacity(n)` and `set_len(n)`
unfoldable pub uninit : Env → ℕ → Bytes
unfolding memory_from
uninit env n = memory_from env.memory 0 n

length-memory_from : (memory : ℕ → ℕ) (i n : ℕ) → length (memory_from memory i n) ≡ n
unfolding memory_from
length-memory_from memory i zero = refl
length-memory_from memory i (suc n) = ap suc (length-memory_from memory (i + 1) n)

memory_from-IsBytes : (memory : ℕ → ℕ) (i n : ℕ) → IsBytes (memory_from memory i n)
unfolding memory_from
memory_from-IsBytes memory i zero = tt
memory_from-IsBytes memory i (suc n) = (omega arith, memory_from-IsBytes memory (i + 1) n)

pub length-uninit : (env : Env) (n : ℕ) → length (uninit env n) ≡ n
unfolding uninit
length-uninit env n = length-memory_from env.memory 0 n

pub uninit-IsBytes : (env : Env) (n : ℕ) → IsBytes (uninit env n)
unfolding uninit
uninit-IsBytes env n = memory_from-IsBytes env.memory 0 n
