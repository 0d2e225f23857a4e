-- ===== src/External/Primitive.antt =====
-- What the program relies on of `#[derive(FromPrimitive)]` of the crate `num_derive`: the variant
-- with a given discriminant, if there is one.
pub mod Lookup
use prim.Prelude.{ℕ, ◌≡◌, Option, some}

pub record FromPrimitive {A : Type 0} (value : A → ℕ) : Type 0 where
  pub from_u16 : ℕ → Option A
  pub from_u16-value : (a : A) → from_u16 (value a) ≡ some a
  pub value-from_u16 : (n : ℕ) (a : A) → from_u16 n ≡ some a → value a ≡ n
