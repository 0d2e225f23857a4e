-- ===== src/Seqnum/Loading.antt =====
-- `load` of server/seqnum/src/main.rs, and the start of the service after it.
use prim.Prelude.{
  ℕ, zero, suc, ◌+◌, ◌%◌, ◌^◌, Bool, true, false, Option, none, some, ◌>>=◌, List, [], ◌∷◌, length,
  take, drop, ltb, if◌then◌else◌,
}
use prim.External.ByteOrder.{Bytes, ByteOrder}
use prim.Seqnum.Record.{from_bytes}
use prim.Seqnum.Store.{NumberMap, no_numbers, insert, Worker, Store, create_below, size_of}
use prim.Seqnum.Handler.{save_threshold}

-- `and_modify` to the larger number, or `or_insert`.
unfoldable pub larger : ℕ → Option ℕ → ℕ
larger n none = n
larger n (some old) = if ltb old n then n else old

unfoldable pub note : ℕ → ℕ → NumberMap → NumberMap
unfolding larger insert
note key n numbers = insert key (larger n (numbers key)) numbers

-- The number that a counter restarts from.
unfoldable pub resumed : Bool → Option ℕ → Option ℕ
resumed exactly_mode none = none
resumed true (some n) = some ((n + 1) % 2 ^ 64)
resumed false (some n) = some ((n + save_threshold) % 2 ^ 64)

-- The threads start one after the other, each with the next id.
unfoldable pub start_workers : ℕ → ℕ → List Bytes → List Worker
unfolding size_of
start_workers zero id files = []
start_workers (suc cpus) id files =
    record { file = id; size = size_of id files; waiting = false }
    ∷ start_workers cpus (id + 1) files

module _ ⦃bo : ByteOrder⦄ where
  -- The loop over one file; `read_exact` fails where fewer than 24 bytes are left. The fuel is the
  -- length of the file.
  unfoldable pub load_file : ℕ → Bytes → NumberMap → Option NumberMap
  unfolding note
  load_file zero file numbers = some numbers
  load_file (suc fuel) file numbers = if ltb (length file) 24 then some numbers else do
    (key, n) ← from_bytes (take 24 file)
    load_file fuel (drop 24 file) (note key n numbers)

  unfoldable pub load_files : List Bytes → NumberMap → Option NumberMap
  unfolding load_file
  load_files [] numbers = some numbers
  load_files (file ∷ files) numbers = do
    numbers ← load_file (length file) file numbers
    load_files files numbers

  -- `load`: the counters.
  unfoldable pub load : Bool → List Bytes → Option NumberMap
  unfolding load_files resumed
  load exactly_mode files = do
    numbers ← load_files files no_numbers
    some (λ key. resumed exactly_mode (numbers key))

  -- A process starts on the files that the last one left.
  unfoldable pub start : Bool → ℕ → List Bytes → Option Store
  unfolding load create_below start_workers
  start exactly_mode cpus files = do
    counters ← load exactly_mode files
    let files = create_below cpus files
    some (record {
      counters = counters;
      files = files;
      next_id = cpus;
      workers = start_workers cpus 0 files;
    })
