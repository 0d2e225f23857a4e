-- ===== src/Net/Search.antt =====
-- `pre_check` finds the first delimiter.
use prim.Prelude.{
  ℕ, zero, suc, ◌+◌, ◌≤◌, ◌≡◌, refl, inl, inr, Bool, true, false, ◌&&◌, [], ◌∷◌, length, take, ◌==◌,
  if◌then◌else◌, arith, Bool-cases,
}
use prim.External.ByteOrder.{Bytes}
use prim.Net.Delimiter.{advance, search_from, pre_check}

-- The list starts with the delimiter.
unfoldable pub delimits : Bytes → Bool
delimits (a ∷ b ∷ c ∷ d ∷ rest) = (a == 255) && ((b == 255) && ((c == 255) && (d == 255)))
delimits _ = false

-- The reference: every position is tried, and the length stands for none.
unfoldable pub first_delimiter : Bytes → ℕ
unfolding delimits
first_delimiter [] = 0
first_delimiter (x ∷ rest) =
    let later = first_delimiter rest in if delimits (x ∷ rest) then 0 else suc later

search_from-first :
    (fuel i : ℕ) (rest : Bytes)
    → length rest ≤ fuel
    → search_from fuel i rest ≡ i + first_delimiter rest
unfolding search_from advance first_delimiter delimits
search_from-first zero i [] h = refl
search_from-first zero i (a ∷ rest) h = absurd (omega arith)
search_from-first (suc fuel) i [] h = refl
search_from-first (suc fuel) i (a ∷ []) h = refl
search_from-first (suc fuel) i (a ∷ b ∷ []) h = refl
search_from-first (suc fuel) i (a ∷ b ∷ c ∷ []) h = refl
search_from-first (suc fuel) i (a ∷ b ∷ c ∷ d ∷ rest) h = ground (
  arith,
  search_from-first fuel (i + 1) (b ∷ c ∷ d ∷ rest),
  search_from-first fuel (i + 2) (c ∷ d ∷ rest),
  search_from-first fuel (i + 3) (d ∷ rest),
  search_from-first fuel (i + 4) rest,
)

-- `pre_check`, which skips the bytes that cannot start a delimiter, gives the position of the first
-- delimiter, or the length of the buffer where there is none.
pub pre_check_lem : (msg : Bytes) → pre_check msg ≡ first_delimiter msg
unfolding pre_check
pre_check_lem msg = omega (arith, search_from-first (length msg) 0 msg)

delimits-take : (n : ℕ) (msg : Bytes) → delimits (take n msg) ≡ true → delimits msg ≡ true
unfolding delimits
delimits-take zero msg h = absurd (ground arith)
delimits-take (suc zero) (a ∷ msg) h = absurd (ground arith)
delimits-take (suc (suc zero)) (a ∷ b ∷ msg) h = absurd (ground arith)
delimits-take (suc (suc (suc zero))) (a ∷ b ∷ c ∷ msg) h = absurd (ground arith)
delimits-take (suc (suc (suc (suc n)))) (a ∷ b ∷ c ∷ d ∷ msg) h = h
delimits-take (suc n) [] h = h
delimits-take (suc (suc n)) (a ∷ []) h = h
delimits-take (suc (suc (suc n))) (a ∷ b ∷ []) h = h
delimits-take (suc (suc (suc (suc n)))) (a ∷ b ∷ c ∷ []) h = h

-- A part of a message without a delimiter has none.
first_delimiter-take :
    (n : ℕ) (msg : Bytes)
    → first_delimiter msg ≡ length msg
    → first_delimiter (take n msg) ≡ length (take n msg)
unfolding first_delimiter
first_delimiter-take zero msg h = refl
first_delimiter-take (suc n) [] h = refl
first_delimiter-take (suc n) (a ∷ rest) h = elim (Bool-cases (delimits (a ∷ rest))) [
  | inl here ↦ absurd (ground (arith, here))
  | inr absent ↦ elim (Bool-cases (delimits (a ∷ take n rest))) [
    | inl here ↦ absurd (ground (arith, absent, delimits-take (suc n) (a ∷ rest) here))
    | inr absent' ↦ ground (arith, absent, absent', first_delimiter-take n rest)
  ]
]

pub pre_check-take :
    (n : ℕ) (msg : Bytes)
    → pre_check msg ≡ length msg
    → pre_check (take n msg) ≡ length (take n msg)
pre_check-take n msg h =
    omega (arith, pre_check_lem msg, pre_check_lem (take n msg), first_delimiter-take n msg)
