-- ===== src/External/ByteOrder/Model.antt =====
-- Big-endian numerals, most significant byte first: a value of `ByteOrder` that runs in tests.
use mathlib.Core.Path.{ap₂}
use native.Mathlib.Nat.{
  pow-suc, one-le-pow, div-add-mod', div-lt_iff_lt-mul, mul-add-div_right, div-eq_of_lt, mod-lt,
  mod-eq_of_lt, mul-add-mod_self_right,
}
use prim.Prelude.{
  ℕ, zero, suc, ◌+◌, ◌*◌, ◌/◌, ◌%◌, ◌^◌, ◌≤◌, ◌<◌, ◌≡◌, refl, ap, [], ◌∷◌, length, arith,
}
use prim.External.ByteOrder.{Bytes, IsBytes, ByteOrder}

unfoldable pub read_be : ℕ → Bytes → ℕ
read_be zero bs = 0
read_be (suc w) [] = 0
read_be (suc w) (b ∷ bs) = b % 256 * 256 ^ w + read_be w bs

unfoldable pub write_be : ℕ → ℕ → Bytes
write_be zero n = []
write_be (suc w) n = (n / 256 ^ w % 256) ∷ write_be w (n % 256 ^ w)

pub length-write_be : (w n : ℕ) → length (write_be w n) ≡ w
unfolding write_be
length-write_be zero n = refl
length-write_be (suc w) n = ap suc (length-write_be w (n % 256 ^ w))

pub write_be-IsBytes : (w n : ℕ) → IsBytes (write_be w n)
unfolding write_be
write_be-IsBytes zero n = tt
write_be-IsBytes (suc w) n = (omega arith, write_be-IsBytes w (n % 256 ^ w))

digit-lt : (d p r : ℕ) → d < 256 → r < p → d * p + r < p * 256
digit-lt d p r h k = grind arith

pub read_be-lt : (w : ℕ) (bs : Bytes) → read_be w bs < 256 ^ w
unfolding read_be
read_be-lt zero bs = omega arith
read_be-lt (suc w) [] = omega (arith, one-le-pow (suc w) 256 (omega arith))
read_be-lt (suc w) (b ∷ bs) =
    rw pow-suc (digit-lt (b % 256) (256 ^ w) (read_be w bs) (omega arith) (read_be-lt w bs))

top_digit : (n p : ℕ) → 1 ≤ p → n < p * 256 → n / p % 256 % 256 * p + n % p ≡ n
top_digit n p h k =
    let small : n / p < 256 = (div-lt_iff_lt-mul h).1 (omega arith) in
    ground (arith, div-add-mod' n p)

pub read_be-write_be : (w n : ℕ) → n < 256 ^ w → read_be w (write_be w n) ≡ n
unfolding read_be write_be
read_be-write_be zero n h = omega arith
read_be-write_be (suc w) n h =
    rw (read_be-write_be w (n % 256 ^ w) (mod-lt n (one-le-pow w 256 (omega arith))))
      (top_digit n (256 ^ w) (one-le-pow w 256 (omega arith)) (rw pow-suc at h))

split_digit :
    (d p r : ℕ)
    → d < 256
    → r < p
    → (((d % 256 * p + r) / p % 256) ≡ d) × ((d % 256 * p + r) % p ≡ r)
split_digit d p r h k =
    let quotient : (d % 256 * p + r) / p ≡ d % 256 + r / p =
      mul-add-div_right (omega arith) (d % 256) r in
    let small : r / p ≡ 0 = div-eq_of_lt k in
    (omega arith, rw (mul-add-mod_self_right (d % 256) p r) (mod-eq_of_lt k))

pub write_be-read_be :
    (w : ℕ) (bs : Bytes) → length bs ≡ w → IsBytes bs → write_be w (read_be w bs) ≡ bs
unfolding read_be write_be
write_be-read_be zero [] e h = refl
write_be-read_be zero (b ∷ bs) e h = absurd (omega arith)
write_be-read_be (suc w) [] e h = absurd (omega arith)
write_be-read_be (suc w) (b ∷ bs) e h =
    let parts = split_digit b (256 ^ w) (read_be w bs) h.0 (read_be-lt w bs) in
    ap₂ ◌∷◌ parts.0 (rw (parts.1) (write_be-read_be w bs (omega arith) h.1))

instance abbrev pub big_endian : ByteOrder
big_endian = record {
  read = read_be;
  write = write_be;
  length-write = length-write_be;
  write-IsBytes = write_be-IsBytes;
  read-lt = read_be-lt;
  read-write = read_be-write_be;
  write-read = write_be-read_be;
}
