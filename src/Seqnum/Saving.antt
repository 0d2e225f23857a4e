-- ===== src/Seqnum/Saving.antt =====
-- What one call of `save` leaves: one more record, whichever file it went to.
use prim.Prelude.{
  ℕ, zero, suc, ◌+◌, ◌≤◌, ◌<◌, ◌≡◌, refl, sym, ap, ◌∙◌, subst, ◌⊎◌, inl, inr, Bool, true, not, ◌&&◌,
  Option, none, some, List, [], ◌∷◌, ◌++◌, map, length, get_elem?, ltb, arith, Bool-cases,
}
use prim.External.ByteOrder.{ByteOrder}
use prim.Entity.Env.{Env, uninit, length-uninit}
use prim.Seqnum.Store.{Store, Worker, modify, append_to, create_below, size_of}
use prim.Seqnum.Handler.{Io, max_file_size, rotate, receive, append_record, save}
use prim.Seqnum.Log.{
  Entry, IsEntry, AreLogs, Kept, encode, encode_entry, as_bytes-encode_entry, append_to-encode,
  create_below-encode,
}
use prim.Seqnum.Kept.{
  add, Kept-add, Kept-added, Kept-either, AreLogs-add, length-modify, Kept-create_below,
  create_below-Kept, AreLogs-create_below, length-create_below,
}

-- No compaction has finished, and the write succeeds.
abbrev pub quiet : Io
quiet = record { received = none; failure = none }

-- The workers that serve requests, each with a file that exists.
pub record Ready (cpus : ℕ) (workers : List Worker) (logs : List (List Entry)) : Type 0 where
  pub enough : cpus ≤ length workers
  pub opened :
      (w : ℕ) (worker : Worker) → get_elem? workers w ≡ some worker → worker.file < length logs

pub record Extends (logs : List (List Entry)) (e : Entry) (logs' : List (List Entry)) : Type 0 where
  pub keeps : (k m : ℕ) → Kept k m logs → Kept k m logs'
  pub adds : Kept (e.0) (e.1) logs'
  pub only : (k m : ℕ) → Kept k m logs' → Kept k m logs ⊎ ((e.0 ≡ k) × (e.1 ≡ m))
  pub are_logs : AreLogs logs'

get_elem?-some :
    {A : Type 0} (l : List A) (w : ℕ) → w < length l → (x : A) × (get_elem? l w ≡ some x)
get_elem?-some [] w h = absurd (omega arith)
get_elem?-some (x ∷ l) zero h = (x, refl)
get_elem?-some (_ ∷ l) (suc w) h = get_elem?-some l w (omega arith)

get_elem?-modify :
    {A : Type 0} (l : List A) (w v : ℕ) (new x : A)
    → get_elem? (modify w (λ _. new) l) v ≡ some x
    → (get_elem? l v ≡ some x) ⊎ (new ≡ x)
unfolding modify
get_elem?-modify [] w v new x h = inl h
get_elem?-modify (_ ∷ l) zero zero new x h = inr (ground arith)
get_elem?-modify (_ ∷ l) zero (suc v) new x h = inl h
get_elem?-modify (_ ∷ l) (suc w) zero new x h = inl h
get_elem?-modify (_ ∷ l) (suc w) (suc v) new x h = get_elem?-modify l w v new x h

Ready-modify :
    (cpus w : ℕ) (new : Worker) (workers : List Worker) (logs logs' : List (List Entry))
    → Ready cpus workers logs
    → length logs ≤ length logs'
    → new.file < length logs'
    → Ready cpus (modify w (λ _. new) workers) logs'
Ready-modify cpus w new workers logs logs' ready longer exists = record {
  enough = omega (arith, ready.enough, length-modify w (λ (_ : Worker). new) workers);
  opened = λ v worker h. elim (get_elem?-modify workers w v new worker h) [
    | inl old ↦ omega (arith, ready.opened v worker old, longer)
    | inr same ↦ subst (λ (x : Worker). x.file < length logs') same exists
  ];
}

-- The store after `save`, which has the files of `logs'`.
pub record Saved ⦃bo : ByteOrder⦄ (cpus : ℕ) (logs : List (List Entry)) (e : Entry) (s : Store)
    (result : Option (Store × Bool)) : Type 0 where
  pub after : Store
  pub logs' : List (List Entry)
  pub returns : result ≡ some (after, true)
  pub counters : after.counters ≡ s.counters
  pub files : after.files ≡ map encode logs'
  pub ready : Ready cpus after.workers logs'
  pub extends : Extends logs e logs'

module _ ⦃bo : ByteOrder⦄ where
  -- The rotation, if there is one, creates empty files.
  record Rotated (logs : List (List Entry)) (s : Store) (result : Worker × Store) : Type 0 where
    worker : Worker
    after : Store
    logs' : List (List Entry)
    returns : result ≡ (worker, after)
    counters : after.counters ≡ s.counters
    workers : after.workers ≡ s.workers
    files : after.files ≡ map encode logs'
    exists : worker.file < length logs'
    longer : length logs ≤ length logs'
    keeps : (k m : ℕ) → Kept k m logs → Kept k m logs'
    kept : (k m : ℕ) → Kept k m logs' → Kept k m logs
    are_logs : AreLogs logs'

  rotate-Rotated :
      (worker : Worker) (s : Store) (logs : List (List Entry))
      → s.files ≡ map encode logs
      → AreLogs logs
      → worker.file < length logs
      → Rotated logs s (rotate worker s)
  unfolding rotate
  rotate-Rotated worker s logs files are_logs exists =
      elim (Bool-cases (ltb max_file_size worker.size && not worker.waiting)) [
        | inr short ↦ record {
          worker = worker;
          after = s;
          logs' = logs;
          returns = rw short refl;
          counters = refl;
          workers = refl;
          files = files;
          exists = exists;
          longer = omega arith;
          keeps = λ k m h. h;
          kept = λ k m h. h;
          are_logs = are_logs;
        }
        | inl long ↦
            let created = create_below (s.next_id + 1) s.files in
            record {
              worker = record {
                file = s.next_id;
                size = size_of s.next_id created;
                waiting = true;
              };
              after = record s { files = created; next_id = s.next_id + 1 };
              logs' = create_below (s.next_id + 1) logs;
              returns = rw long refl;
              counters = refl;
              workers = refl;
              files =
                  ap (create_below (s.next_id + 1)) files
                  ∙ create_below-encode (s.next_id + 1) logs;
              exists = omega (arith, length-create_below (s.next_id + 1) logs);
              longer = (length-create_below (s.next_id + 1) logs).1;
              keeps = λ k m h. Kept-create_below k m (s.next_id + 1) logs h;
              kept = λ k m h. create_below-Kept k m (s.next_id + 1) logs h;
              are_logs = AreLogs-create_below (s.next_id + 1) logs are_logs;
            }
      ]

  pub save-Saved :
      (env : Env) (cpus w key n : ℕ) (s : Store) (logs : List (List Entry))
      → s.files ≡ map encode logs
      → AreLogs logs
      → Ready cpus s.workers logs
      → w < cpus
      → IsEntry (key, n)
      → Saved cpus logs (key, n) s (save env quiet w key n s)
  unfolding save receive append_record
  save-Saved env cpus w key n s logs files are_logs ready h small =
      let (worker, found) = get_elem?-some s.workers w (omega (arith, ready.enough)) in
      let r = rotate-Rotated worker s logs files are_logs (ready.opened w worker found) in
      let rw_record = as_bytes-encode_entry key n (uninit env 24) (length-uninit env 24) in
      record {
        after = record (r.after) {
          files = append_to r.worker.file (encode_entry (key, n)) r.after.files;
          workers = modify w (λ _. record (r.worker) { size = r.worker.size + 24 }) r.after.workers;
        };
        logs' = add r.worker.file (key, n) r.logs';
        returns = rw (found, r.returns, rw_record) refl;
        counters = r.counters;
        files =
            ap (append_to r.worker.file (encode_entry (key, n))) r.files
            ∙ append_to-encode r.worker.file (key, n) r.logs';
        ready =
            Ready-modify cpus w (record (r.worker) { size = r.worker.size + 24 }) r.after.workers
              logs (add r.worker.file (key, n) r.logs')
              (subst (λ (x : List Worker). Ready cpus x logs) (sym r.workers) ready)
              (omega (
                arith,
                r.longer,
                length-modify r.worker.file (λ (log : List Entry). log ++ ((key, n) ∷ [])) r.logs',
              ))
              (omega (
                arith,
                r.exists,
                length-modify r.worker.file (λ (log : List Entry). log ++ ((key, n) ∷ [])) r.logs',
              ));
        extends = record {
          keeps = λ k m h. Kept-add k m r.worker.file (key, n) r.logs' (r.keeps k m h);
          adds = Kept-added key n r.worker.file r.logs' r.exists;
          only = λ k m h. elim (Kept-either k m r.worker.file (key, n) r.logs' h) [
            | inl old ↦ inl (r.kept k m old)
            | inr new ↦ inr new
          ];
          are_logs = AreLogs-add r.worker.file (key, n) r.logs' r.are_logs small;
        };
      }
