-- ===== src/External/Primitive/Lookup.antt =====
-- The variant with a number, looked up in the list of all variants.
use prim.Prelude.{
  ℕ, ◌≡◌, Option, none, some, List, [], ◌∷◌, ◌==◌, if◌then◌else◌, ==_iff, arith, Bool-cases, inl,
  inr,
}

module _ {A : Type 0} (value : A → ℕ) where
  unfoldable pub lookup : ℕ → List A → Option A
  lookup n [] = none
  lookup n (a ∷ rest) = if value a == n then some a else lookup n rest

  pub value-lookup : (n : ℕ) (l : List A) (a : A) → lookup n l ≡ some a → value a ≡ n
  unfolding lookup
  value-lookup n [] a h = cc
  value-lookup n (b ∷ rest) a h = elim (Bool-cases (value b == n)) [
    | inl e ↦ ground (arith, ==_iff (value b) n)
    | inr e ↦ value-lookup n rest a (ground arith)
  ]
