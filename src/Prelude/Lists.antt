-- ===== src/Prelude/Lists.antt =====
-- Lists measured and cut by native numbers, under the library's names, and slices that panic.
use Prim.Native.Nat.{ℕ, zero, suc, ◌+◌, ◌-◌, ◌≤◌, min}
use Prim.Native.Nat.add
use mathlib.Core.Path.{◌≡◌, refl, ap, sym, ◌∙◌}
use mathlib.Core.Bool.{◌&&◌}
use mathlib.Core.List.{List, [], ◌∷◌, ◌++◌}
use mathlib.Core.Option.{Option, none, some}
use native.Mathlib.Omega.{arith}
use prim.Prelude.Tests.{leb, if◌then◌else◌, le→leb}

module _ {ℓ} {A : Type ℓ} where
  abbrev pub length : List A → ℕ
  length [] = 0
  length (x ∷ xs) = suc (length xs)

  abbrev pub take : ℕ → List A → List A
  take zero xs = []
  take (suc n) [] = []
  take (suc n) (x ∷ xs) = x ∷ take n xs

  abbrev pub drop : ℕ → List A → List A
  drop zero xs = xs
  drop (suc n) [] = []
  drop (suc n) (x ∷ xs) = drop n xs

  abbrev pub get_elem? : List A → ℕ → Option A
  get_elem? [] i = none
  get_elem? (x ∷ xs) zero = some x
  get_elem? (x ∷ xs) (suc i) = get_elem? xs i

  -- `&xs[a..b]`: `none` is the panic of a range that is reversed or ends out of bounds.
  unfoldable pub slice : ℕ → ℕ → List A → Option (List A)
  slice a b xs = if leb a b && leb b (length xs) then some (take (b - a) (drop a xs)) else none

  -- `&xs[a..]`
  unfoldable pub slice_from : ℕ → List A → Option (List A)
  slice_from a xs = if leb a (length xs) then some (drop a xs) else none

  -- `xs[a..a + ys.len()].copy_from_slice(ys)` in range: what stands before and after stays.
  unfoldable pub overwrite : ℕ → List A → List A → List A
  overwrite a ys xs = take a xs ++ (ys ++ drop (a + length ys) xs)

module _ {ℓ} {A : Type ℓ} where
  pub length-append : (xs ys : List A) → length (xs ++ ys) ≡ length xs + length ys
  length-append [] ys = omega arith
  length-append (x ∷ xs) ys = omega (arith, length-append xs ys)

  pub length-take : (n : ℕ) (xs : List A) → length (take n xs) ≡ min n (length xs)
  length-take zero xs = omega arith
  length-take (suc n) [] = omega arith
  length-take (suc n) (x ∷ xs) = omega (arith, length-take n xs)

  pub length-drop : (n : ℕ) (xs : List A) → length (drop n xs) ≡ length xs - n
  length-drop zero xs = omega arith
  length-drop (suc n) [] = omega arith
  length-drop (suc n) (x ∷ xs) = omega (arith, length-drop n xs)

  pub take-append-drop : (n : ℕ) (xs : List A) → take n xs ++ drop n xs ≡ xs
  take-append-drop zero xs = refl
  take-append-drop (suc n) [] = refl
  take-append-drop (suc n) (x ∷ xs) = ap (◌∷◌ x) (take-append-drop n xs)

  pub take-append : (n : ℕ) (xs ys : List A) → length xs ≡ n → take n (xs ++ ys) ≡ xs
  take-append zero [] ys h = refl
  take-append zero (x ∷ xs) ys h = absurd (omega arith)
  take-append (suc n) [] ys h = absurd (omega arith)
  take-append (suc n) (x ∷ xs) ys h = ap (◌∷◌ x) (take-append n xs ys (omega arith))

  pub drop-append : (n : ℕ) (xs ys : List A) → length xs ≡ n → drop n (xs ++ ys) ≡ ys
  drop-append zero [] ys h = refl
  drop-append zero (x ∷ xs) ys h = absurd (omega arith)
  drop-append (suc n) [] ys h = absurd (omega arith)
  drop-append (suc n) (x ∷ xs) ys h = drop-append n xs ys (omega arith)

  drop-nil : (n : ℕ) → drop {A = A} n [] ≡ []
  drop-nil zero = refl
  drop-nil (suc n) = refl

  pub drop-drop : (m n : ℕ) (xs : List A) → drop n (drop m xs) ≡ drop (m + n) xs
  drop-drop zero n xs = ap (λ (k : ℕ). drop k xs) (omega arith)
  drop-drop (suc m) n [] = drop-nil n ∙ sym (drop-nil (suc m + n))
  drop-drop (suc m) n (x ∷ xs) = rw (add.suc m n) (drop-drop m n xs)

  pub take_all : (n : ℕ) (xs : List A) → length xs ≤ n → take n xs ≡ xs
  take_all zero [] h = refl
  take_all zero (x ∷ xs) h = absurd (omega arith)
  take_all (suc n) [] h = refl
  take_all (suc n) (x ∷ xs) h = ap (◌∷◌ x) (take_all n xs (omega arith))

  -- The middle part of a list, cut out by its position.
  pub slice-append :
      (i j : ℕ) (xs ys zs : List A)
      → length xs ≡ i
      → i + length ys ≡ j
      → slice i j (xs ++ (ys ++ zs)) ≡ some ys
  unfolding slice
  slice-append i j xs ys zs p q = rw (
    drop-append i xs (ys ++ zs) p,
    take-append (j - i) ys zs (omega arith),
    le→leb i j (omega arith),
    le→leb j (length (xs ++ (ys ++ zs)))
        (omega (arith, length-append xs (ys ++ zs), length-append ys zs)),
  )

  -- And overwritten there by a list of its own length.
  pub overwrite-append :
      (i : ℕ) (xs ys ys' zs : List A)
      → length xs ≡ i
      → length ys' ≡ length ys
      → overwrite i ys' (xs ++ (ys ++ zs)) ≡ xs ++ (ys' ++ zs)
  unfolding overwrite
  overwrite-append i xs ys ys' zs p q = rw (
    take-append i xs (ys ++ zs) p,
    ← drop-drop i (length ys') (xs ++ (ys ++ zs)),
    drop-append i xs (ys ++ zs) p,
    drop-append (length ys') ys zs (sym q),
  )
