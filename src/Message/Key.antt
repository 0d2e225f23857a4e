-- ===== src/Message/Key.antt =====
-- The key under which the messages of a conversation are numbered.
use prim.Prelude.{
  ℕ, ◌+◌, ◌*◌, ◌^◌, ◌<◌, ◌≡◌, sym, ◌∙◌, ap₂, ◌⊎◌, inl, inr, ◌↔◌, true, false, ltb, if◌then◌else◌,
  arith, Bool-cases,
}
use prim.Prelude.Bits.{or_fields}
use prim.Message.{is_group_msg}
use prim.Message.Number.{conversation_key}

-- Two messages are of one conversation: to the same group, or between the same two users.
pub data SameConversation (sender receiver sender' receiver' : ℕ) : Type 0 where
  of_group :
      is_group_msg receiver ≡ true
      → receiver ≡ receiver'
      → SameConversation sender receiver sender' receiver'
  of_users :
      is_group_msg receiver ≡ false
      → is_group_msg receiver' ≡ false
      → ((sender ≡ sender') × (receiver ≡ receiver'))
        ⊎ ((sender ≡ receiver') × (receiver ≡ sender'))
      → SameConversation sender receiver sender' receiver'

-- The key holds two ids: the group twice, or the two users in order.
abbrev first : ℕ → ℕ → ℕ
first a r = if is_group_msg r then r else if ltb a r then a else r

abbrev second : ℕ → ℕ → ℕ
second a r = if is_group_msg r then r else if ltb a r then r else a

conversation_key_parts :
    (a r : ℕ) → a < 2 ^ 36 → r < 2 ^ 64 → conversation_key a r ≡ first a r * 2 ^ 64 + second a r
unfolding conversation_key
conversation_key_parts a r p q =
    ground (arith, or_fields 64 r r, or_fields 64 a r, or_fields 64 r a)

halves :
    (x y x' y' : ℕ)
    → y < 2 ^ 64
    → y' < 2 ^ 64
    → x * 2 ^ 64 + y ≡ x' * 2 ^ 64 + y'
    → (x ≡ x') × (y ≡ y')
halves x y x' y' p q e = (omega arith, omega arith)

same_parts :
    (a r b s : ℕ)
    → a < 2 ^ 36
    → b < 2 ^ 36
    → first a r ≡ first b s
    → second a r ≡ second b s
    → SameConversation a r b s
same_parts a r b s p q e f = elim (Bool-cases (is_group_msg r)) [
  | inl group ↦ of_group group (ground arith)
  | inr user ↦ of_users user (ground arith) (ground arith)
]

parts_same :
    (a r b s : ℕ) → SameConversation a r b s → (first a r ≡ first b s) × (second a r ≡ second b s)
parts_same a r b s (of_group g e) = ground arith
parts_same a r b s (of_users g h (inl e)) = ground arith
parts_same a r b s (of_users g h (inr e)) = ground arith

second_lt : (a r : ℕ) → a < 2 ^ 36 → r < 2 ^ 64 → second a r < 2 ^ 64
second_lt a r p q = ground arith

-- Two messages of users (ids below 2^36) are numbered under the same key exactly if they go to the
-- same group or are between the same two users, in either direction.
pub conversation_key_iff :
    (sender receiver sender' receiver' : ℕ)
    → sender < 2 ^ 36
    → sender' < 2 ^ 36
    → receiver < 2 ^ 64
    → receiver' < 2 ^ 64
    → (conversation_key sender receiver ≡ conversation_key sender' receiver')
      ↔ SameConversation sender receiver sender' receiver'
conversation_key_iff a r b s p q u v =
    let left = conversation_key_parts a r p u in
    let right = conversation_key_parts b s q v in
    (
      λ e.
          let (x, y) =
            halves (first a r) (second a r) (first b s) (second b s) (second_lt a r p u)
              (second_lt b s q v) (sym left ∙ e ∙ right) in
          same_parts a r b s p q x y,
      λ c. let (x, y) = parts_same a r b s c in left ∙ ap₂ (λ m n. m * 2 ^ 64 + n) x y ∙ sym right,
    )
