-- ===== src/Seqnum/Handler.antt =====
-- server/seqnum/src/service/handler/seqnum.rs: the next number of a key, its record in the file of
-- the worker, and the reply.
use prim.Prelude.{
  ℕ, ◌+◌, ◌-◌, ◌*◌, ◌%◌, ◌^◌, bit_and, Bool, true, false, not, ◌&&◌, ◌||◌, Option, none, some,
  ◌>>=◌, take, get_elem?, slice, ◌==◌, ltb, if◌then◌else◌,
}
use prim.External.ByteOrder.{Bytes, ByteOrder}
use prim.External.Primitive.{FromPrimitive}
use prim.Entity.Env.{Env, uninit}
use prim.Entity.ResourceId
use prim.Entity.Reqwest
use prim.Entity.Reqwest.{ReqwestMsg}
use prim.Seqnum.Record.{as_bytes}
use prim.Seqnum.Store.{NumberMap, insert, Worker, Store, create_below, modify, append_to, size_of}

abbrev pub max_file_size : ℕ
max_file_size = 24 * 2 ^ 28

abbrev pub save_threshold : ℕ
save_threshold = 0x4000

-- What the machine decides during one call: the size that a finished compaction sends, if one has,
-- and after how many bytes the write to the file fails, if it does.
pub record Io : Type 0 where
  pub received : Option ℕ
  pub failure : Option ℕ

fetched : ℕ → NumberMap → Option ℕ → ℕ × NumberMap
unfolding insert
fetched key counters (some v) = (v, insert key ((v + 1) % 2 ^ 64) counters)
fetched key counters none = (1, insert key 2 counters)

-- `entry(key)`: `fetch_add(1)` on a counter, 1 for a new key.
unfoldable pub next_seqnum : ℕ → NumberMap → ℕ × NumberMap
unfolding fetched
next_seqnum key counters = fetched key counters (counters key)

-- The first part of `save`: a worker whose file is too long goes on with a new one.
unfoldable pub rotate : Worker → Store → Worker × Store
unfolding create_below size_of
rotate worker s =
    if ltb max_file_size worker.size && not worker.waiting
    then (let files = create_below (s.next_id + 1) s.files in
        (
          record { file = s.next_id; size = size_of s.next_id files; waiting = true },
          record s { files = files; next_id = s.next_id + 1 },
        ))
    else (worker, s)

-- The second part: the size of a finished compaction is added.
unfoldable pub receive : Option ℕ → Worker → Worker
receive none worker = worker
receive (some len) worker =
    if worker.waiting then record worker { size = worker.size + len; waiting = false } else worker

-- The third part: the record is appended. `false` is the error of the write.
unfoldable pub append_record : Option ℕ → ℕ → Worker → Bytes → Store → Store × Bool
unfolding append_to modify
append_record none w worker buf s = (
  record s {
    files = append_to worker.file buf s.files;
    workers = modify w (λ _. record worker { size = worker.size + 24 }) s.workers;
  },
  true,
)
append_record (some n) w worker buf s = (
  record s {
    files = append_to worker.file (take n buf) s.files;
    workers = modify w (λ _. worker) s.workers;
  },
  false,
)

module _ ⦃bo : ByteOrder⦄ where
  -- `save` of the worker with index `w`; `none` where there is no such worker.
  unfoldable pub save : Env → Io → ℕ → ℕ → ℕ → Store → Option (Store × Bool)
  unfolding rotate receive append_record as_bytes
  save env io w key seqnum s = do
    worker ← get_elem? s.workers w
    let (worker, s) = rotate worker s
    let worker = receive io.received worker
    buf ← as_bytes key seqnum (uninit env 24)
    some (append_record io.failure w worker buf s)

  -- The number for a key and the store afterwards; `exactly_mode` saves every number, otherwise
  -- each multiple of the threshold is saved. No number where the write fails.
  unfoldable pub issue : Env → Io → Bool → ℕ → ℕ → Store → Option (Store × Option ℕ)
  unfolding next_seqnum save
  issue env io exactly_mode w key s =
      let (seqnum, counters) = next_seqnum key s.counters in
      let s = record s { counters = counters } in
      if exactly_mode || (bit_and seqnum (save_threshold - 1) == 0)
      then (do
        (s, saved) ← save env io w key seqnum s
        some (s, if saved then some seqnum else none))
      else some (s, some seqnum)

  -- `ReqwestHandler::run`: the reply, or the error of the write.
  unfoldable pub run :
      ⦃p : FromPrimitive ResourceId.value⦄
      → Env
      → Io
      → Bool
      → ℕ
      → ReqwestMsg
      → Store
      → Option (Store × Option ReqwestMsg)
  unfolding issue
  run env io exactly_mode w msg s = do
    payload ← Reqwest.payload msg
    key ← slice 0 16 payload
    (s, issued) ← issue env io exactly_mode w (bo.read 16 key) s
    elim issued [
      | none ↦ some (s, none)
      | some seqnum ↦ do
        resource_id ← Reqwest.resource_id msg
        reply ← Reqwest.with_resource_id_payload env resource_id (bo.write 8 seqnum)
        some (s, some reply)
    ]
