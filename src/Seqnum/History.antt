-- ===== src/Seqnum/History.antt =====
-- Requests and restarts, one after the other: a step relation on the store, run on a list of events.
use prim.Prelude.{
  ℕ, suc, ◌^◌, ◌<◌, ◌≢◌, ◌⊎◌, Bool, true, false, Option, none, some, ◌>>=◌, List, [], ◌∷◌,
}
use prim.External.ByteOrder.{ByteOrder}
use prim.Entity.Env.{Env}
use prim.Seqnum.Store.{Store, no_numbers}
use prim.Seqnum.Handler.{save_threshold, issue}
use prim.Seqnum.Loading.{start}
use prim.Seqnum.Log.{Entry}
use prim.Seqnum.Saving.{quiet}

-- A worker answers a request for a number of a key, or the process is stopped between two requests
-- and started again.
pub data Event : Type 0 where
  request : Env → ℕ → ℕ → Event
  restart : Event

-- The worker exists and the key is a `u128`.
abbrev pub IsEvent : ℕ → Event → Type 0
IsEvent cpus (request env w key) = (w < cpus) × (key < 2 ^ 128)
IsEvent cpus restart = Unit {0}

abbrev pub AreEvents : ℕ → List Event → Type 0
AreEvents cpus [] = Unit {0}
AreEvents cpus (e ∷ events) = IsEvent cpus e × AreEvents cpus events

-- How many requests there are.
abbrev pub requests : List Event → ℕ
requests [] = 0
requests (request env w key ∷ events) = suc (requests events)
requests (restart ∷ events) = requests events

-- No process has run yet.
abbrev pub blank : Store
blank = record { counters = no_numbers; files = []; next_id = 0; workers = [] }

-- The numbers given out, newest first, with their keys.
abbrev pub replied : ℕ → Option ℕ → List Entry → List Entry
replied key none replies = replies
replied key (some n) replies = (key, n) ∷ replies

module _ ⦃bo : ByteOrder⦄ where
  unfoldable pub step : Bool → ℕ → Event → Store × List Entry → Option (Store × List Entry)
  step exactly_mode cpus (request env w key) (s, replies) = do
    (s, issued) ← issue env quiet exactly_mode w key s
    some (s, replied key issued replies)
  step exactly_mode cpus restart (s, replies) = do
    s ← start exactly_mode cpus s.files
    some (s, replies)

  unfoldable pub run_all : Bool → ℕ → List Event → Store × List Entry → Option (Store × List Entry)
  unfolding step
  run_all exactly_mode cpus [] s = some s
  run_all exactly_mode cpus (e ∷ events) s = do
    s ← step exactly_mode cpus e s
    run_all exactly_mode cpus events s

-- How far a restart moves a counter beyond the largest record of its key.
abbrev pub span : Bool → ℕ
span true = 1
span false = save_threshold

-- The smallest number that is never given out twice.
abbrev pub floor : Bool → ℕ
floor true = 0
floor false = save_threshold

-- `n` is larger than every earlier number of the key that is at least `least`.
abbrev pub Above : ℕ → ℕ → ℕ → List Entry → Type 0
Above least key n [] = Unit {0}
Above least key n ((k, m) ∷ replies) =
    ((k ≢ key) ⊎ (m < least) ⊎ (m < n)) × Above least key n replies

-- The numbers of every key go up, from `least` on.
abbrev pub Ascending : ℕ → List Entry → Type 0
Ascending least [] = Unit {0}
Ascending least ((key, n) ∷ replies) = Above least key n replies × Ascending least replies
