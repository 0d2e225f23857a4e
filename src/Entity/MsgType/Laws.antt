-- ===== src/Entity/MsgType/Laws.antt =====
-- Numbers and message types correspond.
use prim.Prelude.{ℕ, ◌≤◌, ◌≡◌, ◌≢◌, ◌↔◌, inl, inr, arith, Option-cases}
use prim.External.Primitive.{FromPrimitive}
use prim.Entity.MsgType.{MsgType, na, value, from}

pub value-lt : (t : MsgType) → value t ≤ 162
unfolding value
value-lt t = ground arith

module _ ⦃p : FromPrimitive value⦄ where
  pub from-value : (t : MsgType) → from (value t) ≡ t
  unfolding from
  from-value t = ground (arith, p.from_u16-value t)

  -- A number is read as the type that has it as its discriminant, and as `NA` exactly where no
  -- type but `NA` has it.
  pub from_lem : (n : ℕ) (t : MsgType) → t ≢ na → (from n ≡ t) ↔ (value t ≡ n)
  unfolding from
  from_lem n t h = (
    λ e. elim (Option-cases (p.from_u16 n)) [
      | inl q ↦ absurd (h (ground arith))
      | inr (a, q) ↦ ground (arith, p.value-from_u16 n a)
    ],
    λ e. ground (arith, p.from_u16-value t),
  )
