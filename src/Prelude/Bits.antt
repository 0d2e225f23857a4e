-- ===== src/Prelude/Bits.antt =====
-- `|`, `&` and shifts of machine words as arithmetic, at every width. The native operations are
-- defined by a recursion on binary digits with fuel; here the fuel is dropped.
use Prim.Native.Nat.{
  ℕ, zero, suc, ◌+◌, ◌-◌, ◌*◌, ◌/◌, ◌%◌, ◌^◌, ◌≤◌, ◌<◌, min, max, bit_and, bit_or, digits,
  bit_and-bitwise, bit_or-bitwise,
}
use mathlib.Core.Path.{◌≡◌, refl, ap, ◌∙◌}
use native.Mathlib.Nat.{pow-suc, one-le-pow}
use native.Mathlib.Omega.{arith}

-- The remaining fuel does not matter once it covers the number.
enough_fuel :
    (z : ℕ → ℕ) (f : ℕ → ℕ → ℕ) (n m a b : ℕ) → a ≤ n → a ≤ m → digits z f n a b ≡ digits z f m a b
enough_fuel z f zero m zero b p q = base m
  where
    base : (m : ℕ) → digits z f zero zero b ≡ digits z f m zero b
    base zero = refl
    base (suc m) = refl
enough_fuel z f zero m (suc a) b p q = absurd (omega arith)
enough_fuel z f (suc n) zero zero b p q = refl
enough_fuel z f (suc n) zero (suc a) b p q = absurd (omega arith)
enough_fuel z f (suc n) (suc m) zero b p q = refl
enough_fuel z f (suc n) (suc m) (suc a) b p q =
    omega (arith, enough_fuel z f n m (suc a / 2) (b / 2) (omega arith) (omega arith))

pub or_halves : (a b : ℕ) → bit_or a b ≡ bit_or (a / 2) (b / 2) * 2 + max (a % 2) (b % 2)
or_halves zero b = omega (arith, bit_or-bitwise 0 b, bit_or-bitwise 0 (b / 2))
or_halves (suc a) b = omega (
  arith,
  bit_or-bitwise (suc a) b,
  bit_or-bitwise (suc a / 2) (b / 2),
  enough_fuel (λ y. y) max a (suc a / 2) (suc a / 2) (b / 2) (omega arith) (omega arith),
)

pub and_halves : (a b : ℕ) → bit_and a b ≡ bit_and (a / 2) (b / 2) * 2 + min (a % 2) (b % 2)
and_halves zero b = omega (arith, bit_and-bitwise 0 b, bit_and-bitwise 0 (b / 2))
and_halves (suc a) b = omega (
  arith,
  bit_and-bitwise (suc a) b,
  bit_and-bitwise (suc a / 2) (b / 2),
  enough_fuel (λ y. 0) min a (suc a / 2) (suc a / 2) (b / 2) (omega arith) (omega arith),
)

-- Both go from `a / 2` to `a`: induction on a bound of the left operand.
or_comm_below : (n a b : ℕ) → a + b ≤ n → bit_or a b ≡ bit_or b a
or_comm_below zero zero zero h = refl
or_comm_below zero zero (suc b) h = absurd (omega arith)
or_comm_below zero (suc a) b h = absurd (omega arith)
or_comm_below (suc n) zero zero h = refl
or_comm_below (suc n) zero (suc b) h =
    omega
      (arith, or_halves 0 (suc b), or_halves (suc b) 0, or_comm_below n 0 (suc b / 2) (omega arith))
or_comm_below (suc n) (suc a) b h = omega (
  arith,
  or_halves (suc a) b,
  or_halves b (suc a),
  or_comm_below n (suc a / 2) (b / 2) (omega arith),
)

pub or_comm : (a b : ℕ) → bit_or a b ≡ bit_or b a
or_comm a b = or_comm_below (a + b) a b (omega arith)

zero-or : (b : ℕ) → bit_or 0 b ≡ b
zero-or b = bit_or-bitwise 0 b

zero-and : (b : ℕ) → bit_and 0 b ≡ 0
zero-and b = bit_and-bitwise 0 b

and-zero_below : (n a : ℕ) → a ≤ n → bit_and a 0 ≡ 0
and-zero_below n zero h = refl
and-zero_below zero (suc a) h = absurd (omega arith)
and-zero_below (suc n) (suc a) h =
    omega (arith, and_halves (suc a) 0, and-zero_below n (suc a / 2) (omega arith))

pub and-zero : (a : ℕ) → bit_and a 0 ≡ 0
and-zero a = and-zero_below a a (omega arith)

mul-pow-suc : (q k : ℕ) → q * 2 ^ suc k ≡ 2 * (q * 2 ^ k)
mul-pow-suc q k = omega (arith, ap (λ (t : ℕ). q * t) (pow-suc 2 k))

-- `(q << k) | r` is a sum where `r` fits the k low bits.
pub or_fields : (k q r : ℕ) → r < 2 ^ k → bit_or (q * 2 ^ k) r ≡ q * 2 ^ k + r
or_fields zero q r fits = ground (arith, or_comm q 0, zero-or q)
or_fields (suc k) q r fits =
    ground
      (arith, or_halves (q * 2 ^ suc k) r, mul-pow-suc q k, or_fields k q (r / 2) (omega arith))

pub or_fields_low : (k q r : ℕ) → r < 2 ^ k → bit_or r (q * 2 ^ k) ≡ q * 2 ^ k + r
or_fields_low k q r fits = or_comm r (q * 2 ^ k) ∙ or_fields k q r fits

-- A word and a mask, both cut at bit k: the halves are masked apart.
pub and_fields :
    (k q r m l : ℕ)
    → r < 2 ^ k
    → l < 2 ^ k
    → bit_and (q * 2 ^ k + r) (m * 2 ^ k + l) ≡ bit_and q m * 2 ^ k + bit_and r l
and_fields zero q r m l p s = ground (arith, zero-and l)
and_fields (suc k) q r m l p s = ground (
  arith,
  and_halves (q * 2 ^ suc k + r) (m * 2 ^ suc k + l),
  and_halves r l,
  mul-pow-suc q k,
  mul-pow-suc m k,
  mul-pow-suc (bit_and q m) k,
  and_fields k q (r / 2) m (l / 2) (omega arith) (omega arith),
)

-- A mask of k ones keeps a number of k bits.
and_ones : (k r : ℕ) → r < 2 ^ k → bit_and r (2 ^ k - 1) ≡ r
and_ones zero r h = ground (arith, zero-and 0)
and_ones (suc k) r h = ground (
  arith,
  and_halves r (2 ^ suc k - 1),
  pow-suc 2 k,
  one-le-pow k 2,
  and_ones k (r / 2) (omega arith),
)

-- `a & (2^k - 1)` is the remainder.
pub and_low : (k a : ℕ) → bit_and a (2 ^ k - 1) ≡ a % 2 ^ k
and_low k a = ground (
  arith,
  one-le-pow k 2,
  and_fields k (a / 2 ^ k) (a % 2 ^ k) 0 (2 ^ k - 1),
  and-zero (a / 2 ^ k),
  and_ones k (a % 2 ^ k),
)

-- A mask of j ones over k zeros clears the k low bits of a word of k + j bits.
pub and_high : (k j a : ℕ) → a / 2 ^ k < 2 ^ j → bit_and a ((2 ^ j - 1) * 2 ^ k) ≡ a / 2 ^ k * 2 ^ k
and_high k j a h = ground (
  arith,
  one-le-pow k 2,
  and_fields k (a / 2 ^ k) (a % 2 ^ k) (2 ^ j - 1) 0,
  and-zero (a % 2 ^ k),
  and_ones j (a / 2 ^ k),
)
