-- ===== src/Seqnum/Invariant.antt =====
-- What holds between requests: the records on the disk reach up to the counters.
use prim.Prelude.{
  ℕ, ◌+◌, ◌%◌, ◌^◌, ◌≤◌, ◌<◌, ◌≡◌, ◌≢◌, refl, subst, ◌⊎◌, inl, inr, none, some, List, [], ◌∷◌, ◌==◌,
  ==_iff, arith, Bool-cases, Option-cases,
}
use native.Mathlib.Nat.{add-mod_right, zero-mod}
use prim.Seqnum.Store.{NumberMap, insert}
use prim.Seqnum.Handler.{next_seqnum}
use prim.Seqnum.Log.{Entry, Kept}
use prim.Seqnum.Saving.{Extends}
use prim.Seqnum.History.{Above}

-- The counter of the key is beyond `a`.
abbrev pub Passed : ℕ → ℕ → NumberMap → Type 0
Passed a key counters = (c : ℕ) × (counters key ≡ some c) × (a < c)

-- The records `logs` and the counters, where `span` is `t` and no counter is beyond `bound`.
pub record Covered (t bound : ℕ) (counters : NumberMap) (logs : List (List Entry)) : Type 0 where
  pub saved : (k c : ℕ) → counters k ≡ some c → t < c → (r : ℕ) × Kept k r logs × (c ≤ r + t)
  pub below : (k r : ℕ) → Kept k r logs → Passed r k counters
  pub multiple : (k r : ℕ) → Kept k r logs → r % t ≡ 0
  pub bounded : (k c : ℕ) → counters k ≡ some c → (1 ≤ c) × (c ≤ bound)

-- Every number given out from `least` on is behind its counter, which has been saved.
abbrev pub AllSeen : ℕ → ℕ → NumberMap → List Entry → Type 0
AllSeen t least counters [] = Unit {0}
AllSeen t least counters ((k, m) ∷ replies) =
    ((m < least) ⊎ (Passed m k counters × Passed t k counters)) × AllSeen t least counters replies

-- The two ways in which `next_seqnum` finds the number.
abbrev pub IsNext : ℕ → ℕ → NumberMap → Type 0
IsNext key n counters = (counters key ≡ some n) ⊎ ((counters key ≡ none) × (n ≡ 1))

pub next_seqnum-IsNext :
    (key bound : ℕ) (counters : NumberMap)
    → ((k c : ℕ) → counters k ≡ some c → (1 ≤ c) × (c ≤ bound))
    → 1 ≤ bound
    → bound + 1 < 2 ^ 64
    → (n : ℕ) × (next_seqnum key counters ≡ (n, insert key (n + 1) counters))
      × IsNext key n counters
      × (1 ≤ n)
      × (n ≤ bound)
unfolding next_seqnum
next_seqnum-IsNext key bound counters bounded one small = elim (Option-cases (counters key)) [
  | inl new ↦ (1, rw new refl, inr (new, refl), omega arith, one)
  | inr (c, old) ↦
      let limits = bounded key c old in
      let wraps : (c + 1) % 2 ^ 64 ≡ c + 1 = omega (arith, limits) in
      (c, rw (old, wraps) refl, inl old, limits.0, limits.1)
]

pub insert-same : (key n : ℕ) (counters : NumberMap) → insert key n counters key ≡ some n
unfolding insert
insert-same key n counters = ground (arith, ==_iff key key)

insert-source :
    (key n k c : ℕ) (counters : NumberMap)
    → insert key n counters k ≡ some c
    → ((key ≡ k) × (n ≡ c)) ⊎ (counters k ≡ some c)
unfolding insert
insert-source key n k c counters e = elim (Bool-cases (k == key)) [
  | inl same ↦ inl (ground (arith, same, ==_iff k key))
  | inr other ↦ inr (ground (arith, other))
]

Passed-insert :
    (key n k a : ℕ) (counters : NumberMap)
    → IsNext key n counters
    → Passed a k counters
    → Passed a k (insert key (n + 1) counters)
unfolding insert
Passed-insert key n k a counters next (c, e, h) = elim (Bool-cases (k == key)) [
  | inr other ↦ (c, ground (arith, other), h)
  | inl same ↦ (n + 1, ground (arith, same), ground (arith, same, ==_iff k key, next))
]

pub AllSeen-insert :
    (t least key n : ℕ) (counters : NumberMap) (replies : List Entry)
    → IsNext key n counters
    → AllSeen t least counters replies
    → AllSeen t least (insert key (n + 1) counters) replies
AllSeen-insert t least key n counters [] next h = tt
AllSeen-insert t least key n counters ((k, m) ∷ replies) next (inl low, hs) =
    (inl low, AllSeen-insert t least key n counters replies next hs)
AllSeen-insert t least key n counters ((k, m) ∷ replies) next (inr (p, q), hs) = (
  inr (Passed-insert key n k m counters next p, Passed-insert key n k t counters next q),
  AllSeen-insert t least key n counters replies next hs,
)

-- The next number of a key is above all that were seen.
pub AllSeen-Above :
    (t least key n : ℕ) (counters : NumberMap) (replies : List Entry)
    → IsNext key n counters
    → AllSeen t least counters replies
    → Above least key n replies
AllSeen-Above t least key n counters [] next h = tt
AllSeen-Above t least key n counters ((k, m) ∷ replies) next (inl low, hs) =
    (inr (inl low), AllSeen-Above t least key n counters replies next hs)
AllSeen-Above t least key n counters ((k, m) ∷ replies) next (inr ((c, e, h), q), hs) = (
  elim (Bool-cases (k == key)) [
    | inr other ↦ inl (λ same. ground (arith, other, ==_iff k key))
    | inl same ↦ inr (inr (ground (arith, same, ==_iff k key, next, e, h)))
  ],
  AllSeen-Above t least key n counters replies next hs,
)

step-multiple : (t r n : ℕ) → r % t ≡ 0 → n ≡ r + t → n % t ≡ 0
step-multiple t r n h e = rw (e, add-mod_right r t) h

-- A number that is not saved leaves its counter within reach of the last record.
unsaved_lem :
    (t bound key n m : ℕ) (counters : NumberMap) (logs : List (List Entry))
    → IsNext key n counters
    → Covered t bound counters logs
    → n % t ≢ 0
    → 1 ≤ t
    → n + 1 ≡ m
    → t < m
    → (r : ℕ) × Kept key r logs × (m ≤ r + t)
unsaved_lem t bound key n m counters logs (inr (new, one)) c part pos e h =
    let unit : 1 ≡ t = omega arith in
    let whole : n % 1 ≡ 0 = omega arith in absurd (part (subst (λ i. n % i ≡ 0) unit whole))
unsaved_lem t bound key n m counters logs (inl old) c part pos e h =
    let beyond : n ≢ t = λ same. part (step-multiple t 0 n (zero-mod t) (omega arith)) in
    let (r, kept, reach) = c.saved key n old (omega arith) in
    let short : n ≢ r + t = λ same. part (step-multiple t r n (c.multiple key r kept) same) in
    (r, kept, omega arith)

-- One more number, in a record if it is a multiple of the span.
pub Covered-next :
    (t bound key n : ℕ) (counters : NumberMap) (logs logs' : List (List Entry))
    → 1 ≤ t
    → IsNext key n counters
    → n ≤ bound
    → Covered t bound counters logs
    → (((n % t ≡ 0) × Extends logs (key, n) logs') ⊎ ((n % t ≢ 0) × (logs ≡ logs')))
    → Covered t (bound + 1) (insert key (n + 1) counters) logs'
Covered-next t bound key n counters logs logs' pos next small c (inl (whole, x)) = record {
  saved = λ k m e h. elim (insert-source key (n + 1) k m counters e) [
    | inl (same, same') ↦ (n, subst (λ i. Kept i n logs') same x.adds, omega arith)
    | inr old ↦ let (r, kept, reach) = c.saved k m old h in (r, x.keeps k r kept, reach)
  ];
  below = λ k r kept. elim (x.only k r kept) [
    | inl old ↦ Passed-insert key n k r counters next (c.below k r old)
    | inr (same, same') ↦ (
      n + 1,
      subst (λ i. insert key (n + 1) counters i ≡ some (n + 1)) same
          (insert-same key (n + 1) counters),
      omega arith,
    )
  ];
  multiple = λ k r kept. elim (x.only k r kept) [
    | inl old ↦ c.multiple k r old
    | inr (same, same') ↦ subst (λ i. i % t ≡ 0) same' whole
  ];
  bounded = λ k m e. elim (insert-source key (n + 1) k m counters e) [
    | inl (same, same') ↦ omega arith
    | inr old ↦ omega (arith, c.bounded k m old)
  ];
}
Covered-next t bound key n counters logs logs' pos next small c (inr (part, same_logs)) =
    subst (Covered t (bound + 1) (insert key (n + 1) counters)) same_logs (record {
      saved = λ k m e h. elim (insert-source key (n + 1) k m counters e) [
        | inl (same, same') ↦
            subst (λ i. (r : ℕ) × Kept i r logs × (m ≤ r + t)) same
              (unsaved_lem t bound key n m counters logs next c part pos same' h)
        | inr old ↦ c.saved k m old h
      ];
      below = λ k r kept. Passed-insert key n k r counters next (c.below k r kept);
      multiple = c.multiple;
      bounded = λ k m e. elim (insert-source key (n + 1) k m counters e) [
        | inl (same, same') ↦ omega arith
        | inr old ↦ omega (arith, c.bounded k m old)
      ];
    })
