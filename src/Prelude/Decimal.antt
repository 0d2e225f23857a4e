-- ===== src/Prelude/Decimal.antt =====
-- `u64::to_string`: the decimal digits as bytes.
use prim.Prelude.{
  inl, inr, Bool-cases, sym, ap, ◌∙◌, ℕ, zero, suc, ◌+◌, ◌-◌, ◌*◌, ◌/◌, ◌%◌, ◌^◌, ◌≤◌, ◌<◌, ◌≡◌,
  refl, List, [], ◌∷◌, ◌++◌, length, length-append, ltb, if◌then◌else◌, arith,
}
use native.Mathlib.Nat.{pow-suc}

-- The fuel bounds the number of digits.
digits_of : ℕ → ℕ → List ℕ
digits_of zero n = []
digits_of (suc fuel) n =
    let rest = digits_of fuel (n / 10) in
    if ltb n 10 then (48 + n) ∷ [] else rest ++ ((48 + n % 10) ∷ [])

unfoldable pub to_string : ℕ → List ℕ
unfolding digits_of
to_string n = digits_of (suc n) n

-- The number that a list of digits denotes, after the digits read so far.
abbrev pub parse_from : ℕ → List ℕ → ℕ
parse_from acc [] = acc
parse_from acc (c ∷ cs) = parse_from (acc * 10 + (c - 48)) cs

parse_from-append :
    (acc : ℕ) (xs ys : List ℕ) → parse_from acc (xs ++ ys) ≡ parse_from (parse_from acc xs) ys
parse_from-append acc [] ys = refl
parse_from-append acc (x ∷ xs) ys = parse_from-append (acc * 10 + (x - 48)) xs ys

parse_from-digits_of : (fuel n : ℕ) → n < fuel → parse_from 0 (digits_of fuel n) ≡ n
unfolding digits_of
parse_from-digits_of zero n h = absurd (omega arith)
parse_from-digits_of (suc fuel) n h = ground (
  arith,
  parse_from-append 0 (digits_of fuel (n / 10)) ((48 + n % 10) ∷ []),
  parse_from-digits_of fuel (n / 10),
)

-- The digits read back give the number: the fuel is enough.
pub parse_from-to_string : (n : ℕ) → parse_from 0 (to_string n) ≡ n
unfolding to_string
parse_from-to_string n = parse_from-digits_of (suc n) n (omega arith)

length-digits_of : (k fuel n : ℕ) → n < 10 ^ suc k → length (digits_of fuel n) ≤ suc k
unfolding digits_of
length-digits_of k zero n h = omega arith
length-digits_of zero (suc fuel) n h = ground arith
length-digits_of (suc k) (suc fuel) n h = ground (
  arith,
  length-append (digits_of fuel (n / 10)) ((48 + n % 10) ∷ []),
  pow-suc 10 (suc k),
  length-digits_of k fuel (n / 10),
)

-- A `u64` has at most twenty digits.
pub length-to_string : (n : ℕ) → n < 2 ^ 64 → length (to_string n) ≤ 20
unfolding to_string
length-to_string n h = length-digits_of 19 (suc n) n (omega arith)

to_string_ten : to_string 1024 ≡ 49 ∷ 48 ∷ 50 ∷ 52 ∷ []
unfolding to_string
to_string_ten = refl

-- Every byte is one of a digit or a later one.
abbrev pub AreDigits : List ℕ → Type 0
AreDigits [] = Unit {0}
AreDigits (c ∷ cs) = (48 ≤ c) × AreDigits cs

AreDigits-append : (xs ys : List ℕ) → AreDigits xs → AreDigits ys → AreDigits (xs ++ ys)
AreDigits-append [] ys d e = e
AreDigits-append (x ∷ xs) ys (d, ds) e = (d, AreDigits-append xs ys ds e)

digits_of-AreDigits : (fuel n : ℕ) → AreDigits (digits_of fuel n)
unfolding digits_of
digits_of-AreDigits zero n = tt
digits_of-AreDigits (suc fuel) n = elim (Bool-cases (ltb n 10)) [
  | inl small ↦ rw small (omega arith, tt)
  | inr large ↦ rw large (
      AreDigits-append (digits_of fuel (n / 10)) ((48 + n % 10) ∷ [])
        (digits_of-AreDigits fuel (n / 10)) (omega arith, tt))
]

pub to_string-AreDigits : (n : ℕ) → AreDigits (to_string n)
unfolding to_string
to_string-AreDigits n = digits_of-AreDigits (suc n) n

pub to_string_injective : (a b : ℕ) → to_string a ≡ to_string b → a ≡ b
to_string_injective a b e =
    sym (parse_from-to_string a) ∙ ap (parse_from 0) e ∙ parse_from-to_string b
