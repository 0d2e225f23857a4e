-- ===== src/Seqnum/Steps.antt =====
-- What one request and one restart keep: the records cover the counters and the numbers go up.
use prim.Prelude.{
  ℕ, zero, suc, ◌+◌, ◌-◌, ◌%◌, ◌^◌, ◌≤◌, ◌<◌, ◌≡◌, ◌≢◌, refl, sym, ap, ◌∙◌, subst, ◌⊎◌, inl, inr,
  Bool, true, false, ◌||◌, bit_and, Option, some, List, ◌∷◌, map, length, get_elem?, ◌==◌, arith,
  Bool-cases, ltb, ltb→lt, ltb→le,
}
use prim.Prelude.Bits.{and_low}
use prim.External.ByteOrder.{ByteOrder}
use prim.Entity.Env.{Env}
use prim.Seqnum.Store.{NumberMap, no_numbers, insert, Store, Worker, create_below}
use prim.Seqnum.Handler.{save_threshold, issue}
use prim.Seqnum.Loading.{load, start, start_workers}
use prim.Seqnum.Log.{Entry, AreLogs, encode, load_files-encode, create_below-encode}
use prim.Seqnum.Kept.{AreLogs-create_below, length-create_below}
use prim.Seqnum.Saving.{Ready, save-Saved}
use prim.Seqnum.History.{request, restart, step, span, floor, Ascending}
use prim.Seqnum.Invariant.{
  Covered, AllSeen, Passed, next_seqnum-IsNext, AllSeen-insert, AllSeen-Above, Covered-next,
  insert-same,
}
use prim.Seqnum.Restart.{reloaded, AllSeen-reloaded, Covered-reloaded, Covered-create_below}

module _ ⦃bo : ByteOrder⦄ where
  pub record Inv (m : Bool) (bound : ℕ) (s : Store) (replies : List Entry)
      (logs : List (List Entry)) : Type 0 where
    pub files : s.files ≡ map encode logs
    pub are_logs : AreLogs logs
    pub covered : Covered (span m) bound s.counters logs
    pub seen : AllSeen (span m) (floor m) s.counters replies
    pub ascending : Ascending (floor m) replies

  -- The state after a step.
  pub record After (m : Bool) (cpus bound count : ℕ) (result : Option (Store × List Entry))
      : Type 0 where
    pub store : Store
    pub replies : List Entry
    pub logs : List (List Entry)
    pub returns : result ≡ some (store, replies)
    pub counts : length replies ≡ count
    pub inv : Inv m bound store replies logs
    pub ready : Ready cpus store.workers logs

  pub one-span : (m : Bool) → (1 ≤ span m) × (span m ≤ 16384)
  one-span true = omega arith
  one-span false = omega arith

  -- A number is saved exactly where it is a multiple of the span.
  saved_cases :
      (m : Bool) (n : ℕ)
      → (((m || (bit_and n (save_threshold - 1) == 0)) ≡ true) × (n % span m ≡ 0))
        ⊎ (((m || (bit_and n (save_threshold - 1) == 0)) ≡ false) × (n % span m ≢ 0))
  saved_cases true n = inl (refl, omega arith)
  saved_cases false n = ground (arith, and_low 14 n)

  -- The number given out has passed the floor only where its counter has passed the span.
  seen-next :
      (m : Bool) (key n : ℕ) (counters : NumberMap)
      → 1 ≤ n
      → (n < floor m)
        ⊎ (Passed n key (insert key (n + 1) counters)
            × Passed (span m) key (insert key (n + 1) counters))
  seen-next true key n counters h = inr (
    (n + 1, insert-same key (n + 1) counters, omega arith),
    (n + 1, insert-same key (n + 1) counters, omega arith),
  )
  seen-next false key n counters h = elim (Bool-cases (ltb n save_threshold)) [
    | inl low ↦ inl (ltb→lt n save_threshold low)
    | inr high ↦
        let reach = ltb→le n save_threshold high in
        inr (
          (n + 1, insert-same key (n + 1) counters, omega arith),
          (n + 1, insert-same key (n + 1) counters, omega arith),
        )
  ]

  pub issue-After :
      (m : Bool) (cpus bound : ℕ) (env : Env) (w key : ℕ) (s : Store) (replies : List Entry)
      (logs : List (List Entry))
      → Inv m bound s replies logs
      → Ready cpus s.workers logs
      → w < cpus
      → key < 2 ^ 128
      → 1 ≤ bound
      → bound + 1 < 2 ^ 64
      → After m cpus
          (bound + 1)
          (suc (length replies))
          (step m cpus (request env w key) (s, replies))
  unfolding step issue
  issue-After m cpus bound env w key s replies logs inv ready hw hk one small =
      let (n, found, next, pos, limit) =
        next_seqnum-IsNext key bound s.counters inv.covered.bounded one small in
      let moved = record s { counters = insert key (n + 1) s.counters } in
      let seen : AllSeen (span m) (floor m) (insert key (n + 1) s.counters) ((key, n) ∷ replies) = (
        seen-next m key n s.counters pos,
        AllSeen-insert (span m) (floor m) key n s.counters replies next inv.seen,
      ) in
      let ascending : Ascending (floor m) ((key, n) ∷ replies) =
        (AllSeen-Above (span m) (floor m) key n s.counters replies next inv.seen, inv.ascending) in
      elim (saved_cases m n) [
        | inl (test, whole) ↦
            let saved =
              save-Saved env cpus w key n moved logs inv.files inv.are_logs ready hw
                (hk, omega arith) in
            record {
              store = saved.after;
              replies = (key, n) ∷ replies;
              logs = saved.logs';
              returns = rw (found, test, saved.returns) refl;
              counts = refl;
              inv = record {
                files = saved.files;
                are_logs = saved.extends.are_logs;
                covered =
                    subst (λ c. Covered (span m) (bound + 1) c saved.logs') (sym saved.counters)
                      (Covered-next (span m) bound key n s.counters logs saved.logs' (one-span m).0
                        next limit inv.covered (inl (whole, saved.extends)));
                seen =
                    subst (λ c. AllSeen (span m) (floor m) c ((key, n) ∷ replies))
                      (sym saved.counters) seen;
                ascending = ascending;
              };
              ready = saved.ready;
            }
        | inr (test, part) ↦ record {
          store = moved;
          replies = (key, n) ∷ replies;
          logs = logs;
          returns = rw (found, test) refl;
          counts = refl;
          inv = record {
            files = inv.files;
            are_logs = inv.are_logs;
            covered =
                Covered-next (span m) bound key n s.counters logs logs (one-span m).0 next limit
                  inv.covered (inr (part, refl));
            seen = seen;
            ascending = ascending;
          };
          ready = ready;
        }
      ]

  length-start_workers :
      (cpus id : ℕ) (files : List (List ℕ)) → length (start_workers cpus id files) ≡ cpus
  unfolding start_workers
  length-start_workers zero id files = refl
  length-start_workers (suc cpus) id files = ap suc (length-start_workers cpus (id + 1) files)

  start_workers-file :
      (cpus id w : ℕ) (files : List (List ℕ)) (worker : Worker)
      → get_elem? (start_workers cpus id files) w ≡ some worker
      → worker.file < id + cpus
  unfolding start_workers
  start_workers-file zero id w files worker h = cc
  start_workers-file (suc cpus) id zero files worker h = ground arith
  start_workers-file (suc cpus) id (suc w) files worker h =
      omega (arith, start_workers-file cpus (id + 1) w files worker h)

  pub start-After :
      (m : Bool) (cpus bound : ℕ) (s : Store) (replies : List Entry) (logs : List (List Entry))
      → Inv m bound s replies logs
      → bound + span m < 2 ^ 64
      → After m cpus (bound + span m) (length replies) (step m cpus restart (s, replies))
  unfolding step start load
  start-After m cpus bound s replies logs inv small =
      let created = create_below cpus s.files in
      record {
        store = record {
          counters = reloaded m logs;
          files = created;
          next_id = cpus;
          workers = start_workers cpus 0 created;
        };
        replies = replies;
        logs = create_below cpus logs;
        returns = rw (inv.files, load_files-encode logs no_numbers inv.are_logs) refl;
        counts = refl;
        inv = record {
          files = ap (create_below cpus) inv.files ∙ create_below-encode cpus logs;
          are_logs = AreLogs-create_below cpus logs inv.are_logs;
          covered =
              Covered-create_below (span m) (bound + span m) cpus (reloaded m logs) logs
                (Covered-reloaded m bound s.counters logs inv.covered small (one-span m).0);
          seen =
              AllSeen-reloaded m bound s.counters logs inv.covered small (floor m) replies inv.seen;
          ascending = inv.ascending;
        };
        ready = record {
          enough = omega (arith, length-start_workers cpus 0 created);
          opened = λ w worker h. omega (
            arith,
            start_workers-file cpus 0 w created worker h,
            length-create_below {A = Entry} cpus logs,
          );
        };
      }
