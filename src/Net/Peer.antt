-- ===== src/Net/Peer.antt =====
-- server/lib/src/util/mod.rs: `who_we_are`, the name of a conversation of two users, and
-- `should_connect_to_peer`, which of two nodes opens the connection.
use prim.Prelude.{
  refl, ◌↔◌, List, [], ◌∷◌, ◌++◌, ltb, ◌≤◌, ◌⊎◌, inl, inr, Bool-cases, ap₂, sym, ◌∙◌, ltb→lt,
  ltb→le, ℕ, ◌≡◌, Bool, true, false, not, ◌&&◌, bit_and, ◌==◌, if◌then◌else◌, arith,
}
use prim.Prelude.Decimal.{to_string, AreDigits, to_string-AreDigits, to_string_injective}

unfoldable pub should_connect_to_peer : ℕ → ℕ → Bool → Bool
should_connect_to_peer self_id peer_id new_peer =
    let peer_odd = bit_and peer_id 1 == 1 in
    let me_odd = bit_and self_id 1 == 1 in
    if peer_odd && me_odd
    then new_peer
    else if peer_odd && not me_odd
    then not new_peer
    else if not peer_odd && me_odd
    then not new_peer
    else new_peer

-- Of two nodes, one of which is new to the other, exactly one opens the connection.
pub should_connect_to_peer_lem :
    (a b : ℕ) (new_peer : Bool)
    → should_connect_to_peer a b new_peer ≡ not (should_connect_to_peer b a (not new_peer))
unfolding should_connect_to_peer
should_connect_to_peer_lem a b true = ground arith
should_connect_to_peer_lem a b false = ground arith

-- A text is the list of its bytes.
unfoldable pub who_we_are : ℕ → ℕ → List ℕ
who_we_are id1 id2 =
    if ltb id1 id2
    then to_string id1 ++ (b'-' ∷ to_string id2)
    else to_string id2 ++ (b'-' ∷ to_string id1)

-- Two texts that end at the first dash.
same_parts :
    (xs xs' ys ys' : List ℕ)
    → AreDigits xs
    → AreDigits xs'
    → xs ++ (b'-' ∷ ys) ≡ xs' ++ (b'-' ∷ ys')
    → (xs ≡ xs') × (ys ≡ ys')
same_parts [] [] ys ys' d d' e = (refl, ground (arith, e))
same_parts [] (x ∷ xs') ys ys' d d' e = absurd (ground (arith, e, d'))
same_parts (x ∷ xs) [] ys ys' d d' e = absurd (ground (arith, e, d))
same_parts (x ∷ xs) (x' ∷ xs') ys ys' d d' e =
    let rest : xs ++ (b'-' ∷ ys) ≡ xs' ++ (b'-' ∷ ys') = ground (arith, e) in
    let (p, q) = same_parts xs xs' ys ys' (d.1) (d'.1) rest in (ground (arith, e, p), q)

same_names :
    (a b c d : ℕ)
    → to_string a ++ (b'-' ∷ to_string b) ≡ to_string c ++ (b'-' ∷ to_string d)
    → (a ≡ c) × (b ≡ d)
same_names a b c d e =
    let (p, q) =
      same_parts (to_string a) (to_string c) (to_string b) (to_string d) (to_string-AreDigits a)
        (to_string-AreDigits c) e in
    (to_string_injective a c p, to_string_injective b d q)

-- The smaller id stands first.
who_we_are_ordered :
    (a b : ℕ)
    → (lo : ℕ) × (hi : ℕ) × (lo ≤ hi)
      × (who_we_are a b ≡ to_string lo ++ (b'-' ∷ to_string hi))
      × (((lo ≡ a) × (hi ≡ b)) ⊎ ((lo ≡ b) × (hi ≡ a)))
unfolding who_we_are
who_we_are_ordered a b = elim (Bool-cases (ltb a b)) [
  | inl less ↦ let h = ltb→lt a b less in (a, b, omega arith, rw less refl, inl (refl, refl))
  | inr more ↦ (b, a, ltb→le a b more, rw more refl, inr (refl, refl))
]

-- Two conversations have the same name only if they are of the same two users, in either order.
who_we_are_lem :
    (a b c d : ℕ) → who_we_are a b ≡ who_we_are c d → ((a ≡ c) × (b ≡ d)) ⊎ ((a ≡ d) × (b ≡ c))
who_we_are_lem a b c d e =
    let (lo, hi, order, name, which) = who_we_are_ordered a b in
    let (lo', hi', order', name', which') = who_we_are_ordered c d in
    let same = same_names lo hi lo' hi' (sym name ∙ e ∙ name') in
    ground (arith, same, which, which')

-- And the name does not depend on the order.
who_we_are_comm : (a b : ℕ) → who_we_are a b ≡ who_we_are b a
who_we_are_comm a b =
    let (lo, hi, order, name, which) = who_we_are_ordered a b in
    let (lo', hi', order', name', which') = who_we_are_ordered b a in
    let low : lo ≡ lo' = ground (arith, order, order', which, which') in
    let high : hi ≡ hi' = ground (arith, order, order', which, which') in
    name ∙ ap₂ (λ x y. to_string x ++ (b'-' ∷ to_string y)) low high ∙ sym name'

-- Two conversations have the same name exactly if they are of the same two users, in either order.
pub who_we_are_iff :
    (a b c d : ℕ) → (who_we_are a b ≡ who_we_are c d) ↔ (((a ≡ c) × (b ≡ d)) ⊎ ((a ≡ d) × (b ≡ c)))
who_we_are_iff a b c d = (
  who_we_are_lem a b c d,
  λ h. elim h [
    | inl (p, q) ↦ ap₂ who_we_are p q
    | inr (p, q) ↦ ap₂ who_we_are p q ∙ who_we_are_comm d c
  ],
)
