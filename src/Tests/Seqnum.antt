-- ===== src/Tests/Seqnum.antt =====
-- The sequence number service on concrete requests.
use prim.Prelude.{
  ℕ, ◌+◌, ◌≡◌, ◌⊎◌, refl, true, false, Option, none, some, ◌>>=◌, List, [], ◌∷◌, ◌++◌, length, drop,
  take, slice, arith,
}
use prim.External.ByteOrder.{Bytes}
use prim.External.ByteOrder.Model.{big_endian, read_be, write_be}
use prim.Entity.Env.{Env}
use prim.Entity.ResourceId
use prim.Entity.ResourceId.Numbers.{numbered}
use prim.Entity.Reqwest
use prim.Entity.Reqwest.{
  ReqwestMsg, with_resource_id_payload, set_req_id, body_length, pre_alloc, set_body, read_at,
  write_at,
}
use prim.Entity.Reqwest.Laws.{Holds, with_resource_id_payload_lem, set_body-pre_alloc}
use prim.Seqnum.Store.{Store, no_numbers, insert}
use prim.Seqnum.Log.{Entry}
use prim.Seqnum.Handler.{issue, run}
use prim.Seqnum.Saving.{quiet}
use prim.Seqnum.History.{Event, request, restart, requests, blank, run_all, Ascending, floor}
use prim.Seqnum.Uniqueness.{run_all_lem}
use prim.Seqnum.Compaction.{read_old, running, read_old_lem}
use prim.Seqnum.Reply.{run_lem}

abbrev machine : Env
machine = record { now = 1700000000000; memory = λ i. i + 200 }

abbrev key : Bytes
key = 0 ∷ 0 ∷ 0 ∷ 0 ∷ 0 ∷ 0 ∷ 0 ∷ 0 ∷ 0 ∷ 0 ∷ 0 ∷ 0 ∷ 0 ∷ 0 ∷ 1 ∷ 7 ∷ []

with_resource_id_payload_example :
    (msg : ReqwestMsg) × ((with_resource_id_payload machine ResourceId.seqnum key >>= set_req_id 99)
      ≡ some msg)
    × Holds msg 99 ResourceId.seqnum key
with_resource_id_payload_example =
    with_resource_id_payload_lem machine 99 ResourceId.seqnum key (omega arith) (omega arith)

default-counts : body_length Reqwest.default ≡ some 12
unfolding body_length read_at slice read_be
default-counts = refl

set_body-pre_alloc_example :
    (pre_alloc machine 12 >>= set_body (drop 2 Reqwest.default)) ≡ some Reqwest.default
set_body-pre_alloc_example =
    set_body-pre_alloc machine Reqwest.default 12 (omega arith) default-counts refl

abbrev events : List Event
events = request machine 0 7 ∷ request machine 1 7 ∷ restart ∷ request machine 0 7 ∷ []

run_all_example :
    (end : Store × List Entry) × (run_all true 2 (restart ∷ events) (blank, []) ≡ some end)
    × Ascending (floor true) (end.1)
    × (length (end.1) ≡ requests events)
run_all_example = run_all_lem true 2 events (omega arith) (omega arith)

read_old_example : (later : ℕ → Option ℕ) × (read_old 1000 (key ++ key) no_numbers ≡ running later)
read_old_example = read_old_lem 1000 (key ++ key) no_numbers (omega arith)

-- Where numbers are saved at multiples of 0x4000 only, a restart before the first of them gives out
-- the same numbers again.
given_twice :
    (run_all false 1
        (restart ∷ request machine 0 7 ∷ restart ∷ request machine 0 7 ∷ [])
        (blank, [])
      >>= λ end. some (end.1))
    ≡ some ((7, 1) ∷ (7, 1) ∷ [])
unfolding run_all prim.Seqnum.Loading.start issue
given_twice = refl

abbrev first : Option ℕ
first = some 1

abbrev fresh : Store
fresh = record {
  counters = no_numbers;
  files = [] ∷ [];
  next_id = 1;
  workers = record { file = 0; size = 0; waiting = false } ∷ [];
}

abbrev issued : Store
issued = record fresh { counters = insert 263 2 no_numbers }

issued-first : issue machine quiet false 0 (read_be 16 (take 16 key)) fresh ≡ some (issued, first)
unfolding issue read_be
issued-first = refl

run_example :
    ((first ≡ none)
      × (run machine quiet false 0 with_resource_id_payload_example.0 fresh ≡ some (issued, none)))
    ⊎ ((n : ℕ) × (reply : ReqwestMsg) × (first ≡ some n)
        × (run machine quiet false 0 with_resource_id_payload_example.0 fresh
            ≡ some (issued, some reply))
        × Holds reply 0 ResourceId.seqnum (write_be 8 n))
run_example =
    run_lem machine quiet false 0 99 ResourceId.seqnum key with_resource_id_payload_example.0 fresh
      issued first with_resource_id_payload_example.2 (omega arith) issued-first
