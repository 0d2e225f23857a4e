-- ===== src/Seqnum/Noted.antt =====
-- What the map of the loaded records holds: the largest number of each key.
use prim.Prelude.{
  ℕ, ◌≤◌, ◌≡◌, subst, ◌⊎◌, inl, inr, some, List, [], ◌∷◌, ltb, ltb→lt, ltb→le, ◌==◌, ==_iff,
  Bool-cases, arith, Option-cases,
}
use prim.Seqnum.Store.{NumberMap, insert, no_numbers}
use prim.Seqnum.Loading.{larger, note}
use prim.Seqnum.Log.{Entry, Recorded, Kept, noted, all_noted}

-- The map has a number of the key, at least `n`.
abbrev pub Reaches : ℕ → ℕ → NumberMap → Type 0
Reaches key n numbers = (m : ℕ) × (numbers key ≡ some m) × (n ≤ m)

note-Reaches : (key n : ℕ) (numbers : NumberMap) → Reaches key n (note key n numbers)
unfolding note insert larger
note-Reaches key n numbers = elim (Option-cases (numbers key)) [
  | inl e ↦ (n, ground (arith, e, ==_iff key key), omega arith)
  | inr (old, e) ↦ elim (Bool-cases (ltb old n)) [
    | inl less ↦ (n, ground (arith, e, less, ==_iff key key), omega arith)
    | inr more ↦ (old, ground (arith, e, more, ==_iff key key), ltb→le old n more)
  ]
]

note-grows :
    (key n k a : ℕ) (numbers : NumberMap) → Reaches k a numbers → Reaches k a (note key n numbers)
unfolding note insert larger
note-grows key n k a numbers (m, e, h) = elim (Bool-cases (k == key)) [
  | inr other ↦ (m, ground (arith, other), h)
  | inl same ↦ elim (Bool-cases (ltb m n)) [
    | inl less ↦ (n, ground (arith, same, less, ==_iff k key), omega (arith, ltb→lt m n less))
    | inr more ↦ (m, ground (arith, same, more, ==_iff k key), h)
  ]
]

noted-grows :
    (log : List Entry) (k a : ℕ) (numbers : NumberMap)
    → Reaches k a numbers
    → Reaches k a (noted log numbers)
unfolding noted
noted-grows [] k a numbers h = h
noted-grows ((key, n) ∷ log) k a numbers h =
    noted-grows log k a (note key n numbers) (note-grows key n k a numbers h)

noted-Reaches :
    (log : List Entry) (k a : ℕ) (numbers : NumberMap)
    → Recorded k a log
    → Reaches k a (noted log numbers)
unfolding noted
noted-Reaches [] k a numbers h = absurd h
noted-Reaches ((key, n) ∷ log) k a numbers (inl (same, same')) =
    noted-grows log k a (note key n numbers) (
      subst (λ i. Reaches i a (note key n numbers)) same
        (subst (λ i. Reaches key i (note key n numbers)) same' (note-Reaches key n numbers)))
noted-Reaches ((key, n) ∷ log) k a numbers (inr h) = noted-Reaches log k a (note key n numbers) h

all_noted-grows :
    (logs : List (List Entry)) (k a : ℕ) (numbers : NumberMap)
    → Reaches k a numbers
    → Reaches k a (all_noted logs numbers)
unfolding all_noted
all_noted-grows [] k a numbers h = h
all_noted-grows (log ∷ logs) k a numbers h =
    all_noted-grows logs k a (noted log numbers) (noted-grows log k a numbers h)

-- The map reaches every record that was read.
pub all_noted-Reaches :
    (logs : List (List Entry)) (k a : ℕ) (numbers : NumberMap)
    → Kept k a logs
    → Reaches k a (all_noted logs numbers)
unfolding all_noted
all_noted-Reaches [] k a numbers h = absurd h
all_noted-Reaches (log ∷ logs) k a numbers (inl h) =
    all_noted-grows logs k a (noted log numbers) (noted-Reaches log k a numbers h)
all_noted-Reaches (log ∷ logs) k a numbers (inr h) =
    all_noted-Reaches logs k a (noted log numbers) h

note-source :
    (key n k m : ℕ) (numbers : NumberMap)
    → note key n numbers k ≡ some m
    → (numbers k ≡ some m) ⊎ ((key ≡ k) × (n ≡ m))
unfolding note insert larger
note-source key n k m numbers e = elim (Bool-cases (k == key)) [
  | inr other ↦ inl (ground (arith, other))
  | inl same ↦ elim (Option-cases (numbers key)) [
    | inl none_yet ↦ inr (ground (arith, same, none_yet, ==_iff k key))
    | inr (old, found) ↦ elim (Bool-cases (ltb old n)) [
      | inl less ↦ inr (ground (arith, same, found, less, ==_iff k key))
      | inr more ↦ inl (ground (arith, same, found, more, ==_iff k key))
    ]
  ]
]

noted-source :
    (log : List Entry) (k m : ℕ) (numbers : NumberMap)
    → noted log numbers k ≡ some m
    → (numbers k ≡ some m) ⊎ Recorded k m log
unfolding noted
noted-source [] k m numbers e = inl e
noted-source ((key, n) ∷ log) k m numbers e = elim (noted-source log k m (note key n numbers) e) [
  | inr later ↦ inr (inr later)
  | inl found ↦ elim (note-source key n k m numbers found) [
    | inl before ↦ inl before
    | inr here ↦ inr (inl here)
  ]
]

all_noted-source :
    (logs : List (List Entry)) (k m : ℕ) (numbers : NumberMap)
    → all_noted logs numbers k ≡ some m
    → (numbers k ≡ some m) ⊎ Kept k m logs
unfolding all_noted
all_noted-source [] k m numbers e = inl e
all_noted-source (log ∷ logs) k m numbers e =
    elim (all_noted-source logs k m (noted log numbers) e) [
      | inr later ↦ inr (inr later)
      | inl found ↦ elim (noted-source log k m numbers found) [
        | inl before ↦ inl before
        | inr here ↦ inr (inl here)
      ]
    ]

-- Every number that loading finds is in a record.
pub all_noted-Kept :
    (logs : List (List Entry)) (k m : ℕ) → all_noted logs no_numbers k ≡ some m → Kept k m logs
all_noted-Kept logs k m e = elim (all_noted-source logs k m no_numbers e) [
  | inl found ↦ absurd (ground arith)
  | inr kept ↦ kept
]
