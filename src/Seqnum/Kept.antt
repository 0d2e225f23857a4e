-- ===== src/Seqnum/Kept.antt =====
-- Creating files and appending to them keeps the records that there are.
use prim.Prelude.{
  ℕ, zero, suc, ◌≤◌, ◌<◌, ◌≡◌, refl, ◌⊎◌, inl, inr, List, [], ◌∷◌, ◌++◌, length, arith,
}
use prim.Seqnum.Store.{modify, create_below}
use prim.Seqnum.Log.{Entry, IsEntry, AreEntries, AreLogs, Recorded, Kept}

Recorded-append :
    (k m : ℕ) (e : Entry) (log : List Entry) → Recorded k m log → Recorded k m (log ++ (e ∷ []))
Recorded-append k m e [] h = absurd h
Recorded-append k m e (_ ∷ log) (inl h) = inl h
Recorded-append k m e (_ ∷ log) (inr h) = inr (Recorded-append k m e log h)

Recorded-last : (k m : ℕ) (log : List Entry) → Recorded k m (log ++ ((k, m) ∷ []))
Recorded-last k m [] = inl (refl, refl)
Recorded-last k m (_ ∷ log) = inr (Recorded-last k m log)

Recorded-either :
    (k m : ℕ) (e : Entry) (log : List Entry)
    → Recorded k m (log ++ (e ∷ []))
    → Recorded k m log ⊎ ((e.0 ≡ k) × (e.1 ≡ m))
Recorded-either k m e [] (inl h) = inr h
Recorded-either k m e [] (inr h) = absurd h
Recorded-either k m e (_ ∷ log) (inl h) = inl (inl h)
Recorded-either k m e (_ ∷ log) (inr h) = elim (Recorded-either k m e log h) [
  | inl old ↦ inl (inr old)
  | inr new ↦ inr new
]

AreEntries-append :
    (e : Entry) (log : List Entry) → AreEntries log → IsEntry e → AreEntries (log ++ (e ∷ []))
AreEntries-append e [] h i = (i, tt)
AreEntries-append e (_ ∷ log) (h, hs) i = (h, AreEntries-append e log hs i)

abbrev pub add : ℕ → Entry → List (List Entry) → List (List Entry)
add id e logs = modify id (λ log. log ++ (e ∷ [])) logs

pub Kept-add :
    (k m id : ℕ) (e : Entry) (logs : List (List Entry)) → Kept k m logs → Kept k m (add id e logs)
unfolding modify
Kept-add k m id e [] h = absurd h
Kept-add k m zero e (log ∷ logs) (inl h) = inl (Recorded-append k m e log h)
Kept-add k m zero e (log ∷ logs) (inr h) = inr h
Kept-add k m (suc id) e (log ∷ logs) (inl h) = inl h
Kept-add k m (suc id) e (log ∷ logs) (inr h) = inr (Kept-add k m id e logs h)

pub Kept-added :
    (k m id : ℕ) (logs : List (List Entry)) → id < length logs → Kept k m (add id (k, m) logs)
unfolding modify
Kept-added k m id [] h = absurd (omega arith)
Kept-added k m zero (log ∷ logs) h = inl (Recorded-last k m log)
Kept-added k m (suc id) (log ∷ logs) h = inr (Kept-added k m id logs (omega arith))

pub Kept-either :
    (k m id : ℕ) (e : Entry) (logs : List (List Entry))
    → Kept k m (add id e logs)
    → Kept k m logs ⊎ ((e.0 ≡ k) × (e.1 ≡ m))
unfolding modify
Kept-either k m id e [] h = absurd h
Kept-either k m zero e (log ∷ logs) (inl h) = elim (Recorded-either k m e log h) [
  | inl old ↦ inl (inl old)
  | inr new ↦ inr new
]
Kept-either k m zero e (log ∷ logs) (inr h) = inl (inr h)
Kept-either k m (suc id) e (log ∷ logs) (inl h) = inl (inl h)
Kept-either k m (suc id) e (log ∷ logs) (inr h) = elim (Kept-either k m id e logs h) [
  | inl old ↦ inl (inr old)
  | inr new ↦ inr new
]

pub AreLogs-add :
    (id : ℕ) (e : Entry) (logs : List (List Entry))
    → AreLogs logs
    → IsEntry e
    → AreLogs (add id e logs)
unfolding modify
AreLogs-add id e [] h i = tt
AreLogs-add zero e (log ∷ logs) (h, hs) i = (AreEntries-append e log h i, hs)
AreLogs-add (suc id) e (log ∷ logs) (h, hs) i = (h, AreLogs-add id e logs hs i)

pub length-modify :
    {A : Type 0} (id : ℕ) (f : A → A) (l : List A) → length (modify id f l) ≡ length l
unfolding modify
length-modify id f [] = refl
length-modify zero f (x ∷ l) = refl
length-modify (suc id) f (x ∷ l) = omega (arith, length-modify id f l)

-- New files are empty.
pub Kept-create_below :
    (k m n : ℕ) (logs : List (List Entry)) → Kept k m logs → Kept k m (create_below n logs)
unfolding create_below
Kept-create_below k m zero logs h = h
Kept-create_below k m (suc n) [] h = absurd h
Kept-create_below k m (suc n) (log ∷ logs) (inl h) = inl h
Kept-create_below k m (suc n) (log ∷ logs) (inr h) = inr (Kept-create_below k m n logs h)

pub create_below-Kept :
    (k m n : ℕ) (logs : List (List Entry)) → Kept k m (create_below n logs) → Kept k m logs
unfolding create_below
create_below-Kept k m zero logs h = h
create_below-Kept k m (suc n) [] (inl h) = absurd h
create_below-Kept k m (suc n) [] (inr h) = create_below-Kept k m n [] h
create_below-Kept k m (suc n) (log ∷ logs) (inl h) = inl h
create_below-Kept k m (suc n) (log ∷ logs) (inr h) = inr (create_below-Kept k m n logs h)

pub AreLogs-create_below :
    (n : ℕ) (logs : List (List Entry)) → AreLogs logs → AreLogs (create_below n logs)
unfolding create_below
AreLogs-create_below zero logs h = h
AreLogs-create_below (suc n) [] h = (tt, AreLogs-create_below n [] tt)
AreLogs-create_below (suc n) (log ∷ logs) (h, hs) = (h, AreLogs-create_below n logs hs)

pub length-create_below :
    {A : Type 0} (n : ℕ) (l : List (List A))
    → (n ≤ length (create_below n l)) × (length l ≤ length (create_below n l))
unfolding create_below
length-create_below zero l = omega arith
length-create_below {A = A} (suc n) [] = omega (arith, length-create_below {A = A} n [])
length-create_below (suc n) (x ∷ l) = omega (arith, length-create_below n l)
