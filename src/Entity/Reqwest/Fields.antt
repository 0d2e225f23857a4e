-- ===== src/Entity/Reqwest/Fields.antt =====
-- A field of a message is read and written where it stands.
use prim.Prelude.{
  ℕ, ◌+◌, ◌^◌, ◌≤◌, ◌<◌, ◌≡◌, refl, sym, ◌∙◌, ap, some, List, [], ◌∷◌, ◌++◌, length, length-take,
  take, drop, take-append-drop, slice-append, overwrite-append, arith,
}
use prim.External.ByteOrder.{Bytes, ByteOrder}
use prim.Entity.Reqwest.{ReqwestMsg, read_at, write_at}

pub length-nil {ℓ} : {A : Type ℓ} (xs : List A) → length xs ≡ 0 → xs ≡ []
length-nil [] h = refl
length-nil (x ∷ xs) h = absurd (omega arith)

module _ ⦃bo : ByteOrder⦄ where
  -- A message with these four parts.
  unfoldable pub layout : ℕ → ℕ → ℕ → Bytes → ReqwestMsg
  layout length id resource payload =
      bo.write 2 length ++ (bo.write 8 id ++ (bo.write 2 resource ++ payload))

  pub read_at-append :
      (a w n : ℕ) (before after : Bytes)
      → length before ≡ a
      → n < 256 ^ w
      → read_at a w (before ++ (bo.write w n ++ after)) ≡ some n
  unfolding read_at
  read_at-append a w n before after e h =
      rw
        (
          slice-append a (a + w) before (bo.write w n) after e (omega (arith, bo.length-write w n)),
          bo.read-write w n h,
        )
        refl

  pub write_at-append :
      (a w n : ℕ) (before old after : Bytes)
      → length before ≡ a
      → length old ≡ w
      → write_at a w n (before ++ (old ++ after)) ≡ some (before ++ (bo.write w n ++ after))
  unfolding write_at
  write_at-append a w n before old after e h =
      rw
        (
          slice-append a (a + w) before old after e (omega arith),
          overwrite-append a before old (bo.write w n) after e (bo.length-write w n ∙ sym h),
        )
        refl

  -- Writing over the first bytes of what follows `before`.
  pub write_at-after :
      (a w n : ℕ) (before rest : Bytes)
      → length before ≡ a
      → w ≤ length rest
      → write_at a w n (before ++ rest) ≡ some (before ++ (bo.write w n ++ drop w rest))
  write_at-after a w n before rest e h =
      ap (λ (r : Bytes). write_at a w n (before ++ r)) (sym (take-append-drop w rest))
      ∙ write_at-append a w n before (take w rest) (drop w rest) e
          (omega (arith, length-take w rest))
