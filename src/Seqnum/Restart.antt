-- ===== src/Seqnum/Restart.antt =====
-- What a restart makes of the records: every counter goes on beyond what it had reached.
use prim.Prelude.{
  ℕ, ◌+◌, ◌^◌, ◌≤◌, ◌<◌, ◌≡◌, refl, ap, inl, inr, Bool, true, false, Option, none, some, List, [],
  ◌∷◌, arith,
}
use prim.Seqnum.Store.{NumberMap, no_numbers, create_below}
use prim.Seqnum.Loading.{resumed}
use prim.Seqnum.Log.{Entry, Kept, all_noted}
use prim.Seqnum.Noted.{all_noted-Reaches, all_noted-Kept}
use prim.Seqnum.Kept.{Kept-create_below, create_below-Kept}
use prim.Seqnum.History.{span}
use prim.Seqnum.Invariant.{Covered, Passed, AllSeen}

-- The counters after loading the records.
abbrev pub reloaded : Bool → List (List Entry) → NumberMap
reloaded exactly_mode logs key = resumed exactly_mode (all_noted logs no_numbers key)

resumed-some :
    (exactly_mode : Bool) (o : Option ℕ) (m : ℕ)
    → o ≡ some m
    → m + span exactly_mode < 2 ^ 64
    → resumed exactly_mode o ≡ some (m + span exactly_mode)
unfolding resumed
resumed-some true o m e h = rw e (ap some (omega arith))
resumed-some false o m e h = rw e (ap some (omega arith))

resumed-source :
    (exactly_mode : Bool) (o : Option ℕ) (c : ℕ)
    → resumed exactly_mode o ≡ some c
    → (m : ℕ) × (o ≡ some m)
unfolding resumed
resumed-source exactly_mode none c e = absurd (ground arith)
resumed-source exactly_mode (some m) c e = (m, refl)

module _ (exactly_mode : Bool) (bound : ℕ) (counters : NumberMap) (logs : List (List Entry))
    (c : Covered (span exactly_mode) bound counters logs)
    (small : bound + span exactly_mode < 2 ^ 64) where
  -- Where the counter of a key resumes: at the span beyond its largest record.
  resumed-Kept :
      (k m : ℕ)
      → Kept k m logs
      → (r : ℕ) × (reloaded exactly_mode logs k ≡ some (r + span exactly_mode))
        × Kept k r logs
        × (m ≤ r)
        × (r < bound)
  resumed-Kept k m kept =
      let (r, found, reach) = all_noted-Reaches logs k m no_numbers kept in
      let kept_r = all_noted-Kept logs k r found in
      let (old, e, less) = c.below k r kept_r in
      let limit : r < bound = omega (arith, c.bounded k old e) in
      (
        r,
        resumed-some exactly_mode (all_noted logs no_numbers k) r found (omega arith),
        kept_r,
        reach,
        limit,
      )

  -- A counter that is beyond the span resumes at least where it was.
  resumed-Passed :
      (k a : ℕ)
      → Passed a k counters
      → Passed (span exactly_mode) k counters
      → Passed a k (reloaded exactly_mode logs)
        × Passed (span exactly_mode) k (reloaded exactly_mode logs)
  resumed-Passed k a (old, e, h) (old', e', h') =
      let same : old' ≡ old = ground (arith, e, e') in
      let (m, kept, reach) = c.saved k old e (omega arith) in
      let (r, found, kept_r, more, limit) = resumed-Kept k m kept in
      ((r + span exactly_mode, found, omega arith), (r + span exactly_mode, found, omega arith))

  pub AllSeen-reloaded :
      (least : ℕ) (replies : List Entry)
      → AllSeen (span exactly_mode) least counters replies
      → AllSeen (span exactly_mode) least (reloaded exactly_mode logs) replies
  AllSeen-reloaded least [] h = tt
  AllSeen-reloaded least ((k, m) ∷ replies) (inl low, hs) =
      (inl low, AllSeen-reloaded least replies hs)
  AllSeen-reloaded least ((k, m) ∷ replies) (inr (p, q), hs) =
      (inr (resumed-Passed k m p q), AllSeen-reloaded least replies hs)

  -- The records of a loaded counter.
  reloaded-source :
      (k n : ℕ)
      → reloaded exactly_mode logs k ≡ some n
      → (r : ℕ) × Kept k r logs × (n ≡ r + span exactly_mode) × (r < bound)
  reloaded-source k n e =
      let (m, found) = resumed-source exactly_mode (all_noted logs no_numbers k) n e in
      let kept = all_noted-Kept logs k m found in
      let (old, e', less) = c.below k m kept in
      let limit : m < bound = omega (arith, c.bounded k old e') in
      let value = resumed-some exactly_mode (all_noted logs no_numbers k) m found (omega arith) in
      (m, kept, ground (arith, e, value), limit)

  pub Covered-reloaded :
      1 ≤ span exactly_mode
      → Covered (span exactly_mode) (bound + span exactly_mode) (reloaded exactly_mode logs) logs
  Covered-reloaded pos = record {
    saved =
        λ k n e h. let (r, kept, exact, limit) = reloaded-source k n e in (r, kept, omega arith);
    below = λ k r kept.
        let (m, found, kept_m, more, limit) = resumed-Kept k r kept in
        (m + span exactly_mode, found, omega arith);
    multiple = c.multiple;
    bounded =
        λ k n e. let (r, kept, exact, limit) = reloaded-source k n e in (omega arith, omega arith);
  }

pub Covered-create_below :
    (t bound n : ℕ) (counters : NumberMap) (logs : List (List Entry))
    → Covered t bound counters logs
    → Covered t bound counters (create_below n logs)
Covered-create_below t bound n counters logs c = record {
  saved = λ k m e h.
      let (r, kept, reach) = c.saved k m e h in (r, Kept-create_below k r n logs kept, reach);
  below = λ k r kept. c.below k r (create_below-Kept k r n logs kept);
  multiple = λ k r kept. c.multiple k r (create_below-Kept k r n logs kept);
  bounded = c.bounded;
}
