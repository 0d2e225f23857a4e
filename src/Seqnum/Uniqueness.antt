-- ===== src/Seqnum/Uniqueness.antt =====
-- No number is given out twice, whatever the order of requests and restarts.
use prim.Prelude.{ℕ, ◌+◌, ◌*◌, ◌^◌, ◌≤◌, ◌<◌, ◌≡◌, refl, Bool, some, List, [], ◌∷◌, length, arith}
use prim.External.ByteOrder.{ByteOrder}
use prim.Seqnum.Store.{Store}
use prim.Seqnum.Handler.{save_threshold}
use prim.Seqnum.Log.{Entry}
use prim.Seqnum.Saving.{Ready}
use prim.Seqnum.History.{
  Event, request, restart, requests, AreEvents, blank, run_all, span, floor, Ascending,
}
use prim.Seqnum.Steps.{Inv, one-span, issue-After, start-After}

module _ ⦃bo : ByteOrder⦄ where
  run_all-After :
      (m : Bool) (cpus bound : ℕ) (events : List Event) (s : Store) (replies : List Entry)
      (logs : List (List Entry))
      → Inv m bound s replies logs
      → Ready cpus s.workers logs
      → AreEvents cpus events
      → 1 ≤ bound
      → bound + length events * save_threshold < 2 ^ 64
      → (t : Store × List Entry) × (run_all m cpus events (s, replies) ≡ some t)
        × Ascending (floor m) (t.1)
        × (length (t.1) ≡ requests events + length replies)
  unfolding run_all
  run_all-After m cpus bound [] s replies logs inv ready h one small =
      ((s, replies), refl, inv.ascending, omega arith)
  run_all-After m cpus bound (request env w key ∷ events) s replies logs inv ready (h, hs) one
        small =
      let a =
        issue-After m cpus bound env w key s replies logs inv ready h.0 h.1 one (omega arith) in
      let (t, returns, ascending, counts) =
        run_all-After m cpus (bound + 1) events a.store a.replies a.logs a.inv a.ready hs
          (omega arith) (omega arith) in
      (t, rw a.returns returns, ascending, omega (arith, counts, a.counts))
  run_all-After m cpus bound (restart ∷ events) s replies logs inv ready (h, hs) one small =
      let a = start-After m cpus bound s replies logs inv (omega (arith, one-span m)) in
      let (t, returns, ascending, counts) =
        run_all-After m cpus (bound + span m) events a.store a.replies a.logs a.inv a.ready hs
          (omega arith) (omega (arith, one-span m)) in
      (t, rw a.returns returns, ascending, omega (arith, counts, a.counts))

  blank-Inv : (m : Bool) → Inv m 1 blank [] []
  blank-Inv m = record {
    files = refl;
    are_logs = tt;
    covered = record {
      saved = λ k c e h. absurd (ground arith);
      below = λ k r h. absurd h;
      multiple = λ k r h. absurd h;
      bounded = λ k c e. absurd (ground arith);
    };
    seen = tt;
    ascending = tt;
  }

  -- A service is started on an empty directory and then answers requests and is restarted in any
  -- order, on any of its workers, with writes that succeed. Every request is answered with a
  -- number, and the numbers of each key go up: all of them in exact mode, those from 0x4000 on
  -- otherwise. There are fewer than 2^48 events, so that no counter overflows.
  pub run_all_lem :
      (exactly_mode : Bool) (cpus : ℕ) (events : List Event)
      → AreEvents cpus events
      → length events < 2 ^ 48
      → (end : Store × List Entry) × (run_all exactly_mode cpus (restart ∷ events) (blank, [])
          ≡ some end)
        × Ascending (floor exactly_mode) (end.1)
        × (length (end.1) ≡ requests events)
  unfolding run_all
  run_all_lem m cpus events h few =
      let a = start-After m cpus 1 blank [] [] (blank-Inv m) (omega (arith, one-span m)) in
      let (t, returns, ascending, counts) =
        run_all-After m cpus (1 + span m) events a.store a.replies a.logs a.inv a.ready h
          (omega arith) (omega (arith, one-span m)) in
      (t, rw a.returns returns, ascending, omega (arith, counts, a.counts))
