-- ===== src/Net/Calls/Link.antt =====
-- The task of a stream of requests: the table of the calls that wait for an answer and the loops
-- that fill and empty it. `single` is `ClientReqwest::build` of
-- server/lib-net-tokio/src/net/client.rs and `ServerReqwest::run` of net/server.rs, `shared` is
-- `ClientReqwestShare::build`, which keeps wakers and placeholders in two maps of the same keys,
-- fills the placeholder before it wakes and closes the channel where a write fails.
use prim.Prelude.{
  ℕ, ◌+◌, ◌-◌, ◌%◌, ◌^◌, bit_and, Bool, true, false, not, ◌&&◌, ◌||◌, Option, none, some, List, [],
  ◌∷◌, ◌++◌, length, ◌==◌, ltb, if◌then◌else◌,
}
use prim.Prelude.Dict.{Dict, lookup, insert, erase}
use prim.External.ByteOrder.{ByteOrder}
use prim.Entity.Reqwest
use prim.Entity.Reqwest.{ReqwestMsg}
use prim.Net.Calls.{
  Answer, response, Call, Channel, open_channel, full, closed_channel, poll, Polled, ready,
}

pub data Variant : Type 0 where
  single shared : Variant

-- `client` answers requests without the high bits, `server` those with them.
pub data Side : Type 0 where
  client server : Side

abbrev pub high_bits : ℕ
high_bits = 0xF000_0000_0000_0000

-- A message with this id is a response, and not a request of the other end.
abbrev pub is_response : Side → ℕ → Bool
is_response client id = bit_and id high_bits == 0
is_response server id = not (bit_and id high_bits == 0)

-- Between the first and the second of the two acts, to wake and to fill the placeholder, tasks on
-- other threads run.
pub data Delivery : Type 0 where
  idle : Delivery
  halfway : ℕ → Answer → Delivery

-- Calls are numbered as they are made. `outbox` is the channel to the task, whose requests name their call;
-- `writing` is what is being written, `timers` the ids of the tasks that sleep, and `arrived` every
-- message that was read. `alive`, `sends` and `reads` say which loops run, and `load` is the counter
-- that the manager chooses by.
pub record Link : Type 0 where
  pub calls : ℕ → Call
  pub next : ℕ
  pub outbox : List (ReqwestMsg × Option ℕ)
  pub writing : Option (Option ℕ)
  pub table : Dict ℕ
  pub timers : List ℕ
  pub delivery : Delivery
  pub arrived : List ReqwestMsg
  pub forwarded : List ReqwestMsg
  pub alive : Bool
  pub sends : Bool
  pub reads : Bool
  pub closed : Bool
  pub load : ℕ

abbrev pub update : (ℕ → Call) → ℕ → Call → ℕ → Call
update calls n c m = if m == n then c else calls m

abbrev pub capacity : ℕ
capacity = 16384

abbrev pub channel_of : Link → Channel
channel_of l =
    if l.closed
    then closed_channel
    else if ltb (length l.outbox) capacity
    then open_channel
    else full

abbrev pub wake : ℕ → Link → Link
wake n l = record l { calls = update l.calls n (record (l.calls n) { woken = true }) }

abbrev pub fill_slot : ℕ → Answer → Link → Link
fill_slot n a l = record l { calls = update l.calls n (record (l.calls n) { slot = some a }) }

-- The first act on an answer for the call `n`, and the second.
unfoldable pub begin : Variant → ℕ → Answer → Link → Link
begin single n a l = record (wake n l) { delivery = halfway n a }
begin shared n a l = record (fill_slot n a l) { delivery = halfway n a }

unfoldable pub finish_delivery : Variant → Delivery → Link → Link
finish_delivery variant idle l = l
finish_delivery single (halfway n a) l = record (fill_slot n a l) { delivery = idle }
finish_delivery shared (halfway n a) l = record (wake n l) { delivery = idle }

-- The entry of `id` is removed, and its call gets the answer.
unfoldable pub resolve : Variant → ℕ → Answer → Link → Link
unfolding begin
resolve variant id a l = elim (lookup id l.table) [
  | none ↦ l
  | some n ↦ begin variant n a (record l { table = erase id l.table })
]

abbrev pub is_idle : Delivery → Bool
is_idle idle = true
is_idle (halfway n a) = false

-- The loops of the task run while it lives and is not between two acts.
abbrev pub runs : Link → Bool
runs l = l.alive && is_idle l.delivery

abbrev pub new_call : ℕ → ReqwestMsg → Call
new_call id req = record {
  req_id = id;
  req = some req;
  sender_task = none;
  sender_task_done = false;
  slot = none;
  woken = true;
  result = none;
}

-- `call` of the manager has made a request with this id.
unfoldable pub make_call : ℕ → ReqwestMsg → Link → Link
make_call id req l = record l {
  calls = update l.calls l.next (new_call id req);
  next = l.next + 1;
  load = (l.load + 1) % 2 ^ 64;
}

abbrev pub queue :
    ℕ → Option ReqwestMsg → List (ReqwestMsg × Option ℕ) → List (ReqwestMsg × Option ℕ)
queue n none outbox = outbox
queue n (some req) outbox = outbox ++ (req, some n) ∷ []

abbrev pub lighten : Polled → ℕ → ℕ
lighten (ready a) load = (load + 2 ^ 64 - 1) % 2 ^ 64
lighten _ load = load

-- The task of the call `n` runs, as its waker was called, and polls it.
unfoldable pub poll_call : ℕ → Link → Link
unfolding poll
poll_call n l =
    let (c, queued, polled) = poll (channel_of l) (record (l.calls n) { woken = false }) in
    record l {
      calls = update l.calls n c;
      outbox = queue n queued l.outbox;
      load = lighten polled l.load;
    }

-- The loop that writes takes a request or a response from the channel. A request is entered into
-- the table first.
unfoldable pub take_from : List (ReqwestMsg × Option ℕ) → Link → Link
take_from [] l = l
take_from ((req, none) ∷ rest) l = record l { outbox = rest; writing = some none }
take_from ((req, some n) ∷ rest) l = record l {
  outbox = rest;
  writing = some (some (l.calls n).req_id);
  table = insert (l.calls n).req_id n l.table;
}

abbrev pub closes : Variant → Bool
closes single = false
closes shared = true

abbrev pub sleep : Option ℕ → List ℕ → List ℕ
sleep none timers = timers
sleep (some id) timers = id ∷ timers

-- What was to be written is, or an error ends the loop. A task sleeps for a request either way.
unfoldable pub written : Variant → Bool → Option ℕ → Link → Link
written variant ok external l =
    let l : Link = record l { writing = none; timers = sleep external l.timers } in
    if ok then l else record l { sends = false; closed = l.closed || closes variant }

module _ ⦃bo : ByteOrder⦄ where
  -- A message was read. One that is too short for an id ends the task by a panic, and with it the
  -- channel.
  unfoldable pub receive : Variant → Side → ReqwestMsg → Link → Link
  unfolding resolve
  receive variant side msg l = elim (Reqwest.req_id msg) [
    | none ↦ record l { alive = false; sends = false; reads = false; closed = true }
    | some id ↦
        let l = record l { arrived = msg ∷ l.arrived } in
        if is_response side id
        then resolve variant id (response msg) l
        else record l { forwarded = msg ∷ l.forwarded }
  ]

unfoldable pub start : Link
start = record {
  calls = λ n. record {
    req_id = 0;
    req = none;
    sender_task = none;
    sender_task_done = false;
    slot = none;
    woken = false;
    result = none;
  };
  next = 0;
  outbox = [];
  writing = none;
  table = [];
  timers = [];
  delivery = idle;
  arrived = [];
  forwarded = [];
  alive = true;
  sends = true;
  reads = true;
  closed = false;
  load = 0;
}
