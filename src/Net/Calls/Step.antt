-- ===== src/Net/Calls/Step.antt =====
-- What happens to a stream of requests, one event after the other.
use prim.Prelude.{
  ℕ, Bool, true, false, not, ◌&&◌, ◌||◌, Option, none, some, List, [], ◌∷◌, ◌++◌, length, ◌==◌, ltb,
  if◌then◌else◌,
}
use prim.External.ByteOrder.{ByteOrder}
use prim.Entity.Reqwest.{ReqwestMsg}
use prim.Net.Calls.{Answer, timeout}
use prim.Net.Calls.Link.{
  Variant, single, shared, Side, client, server, Link, capacity, runs, wake, make_call, poll_call,
  take_from, written, receive, resolve, finish_delivery,
}

-- What may happen next: a request is made, a call is polled, the channel has room for the call that
-- waits for it, the loops of the task go on, the time of an id is up, the stream ends, or a task of
-- the program answers a request of the other end.
pub data Event : Type 0 where
  call : ℕ → ReqwestMsg → Event
  polled room : ℕ → Event
  take : Event
  wrote : Bool → Event
  read : ReqwestMsg → Event
  up : ℕ → Event
  second_act ended : Event
  answers : ReqwestMsg → Event

abbrev pub has_entry : ℕ → List ℕ → Bool
has_entry id [] = false
has_entry id (i ∷ rest) = if i == id then true else has_entry id rest

abbrev pub remove_one : ℕ → List ℕ → List ℕ
remove_one id [] = []
remove_one id (i ∷ rest) = let others = remove_one id rest in if i == id then rest else i ∷ others

abbrev pub is_waiting : Option ReqwestMsg → Bool
is_waiting none = false
is_waiting (some req) = true

abbrev pub returned : Option Answer → Bool
returned none = false
returned (some a) = true

abbrev pub no_writing : Option (Option ℕ) → Bool
no_writing none = true
no_writing (some external) = false

abbrev pub write_done : Variant → Bool → Option (Option ℕ) → Link → Link
write_done variant ok none l = l
write_done variant ok (some external) l = written variant ok external l

module _ ⦃bo : ByteOrder⦄ where
  -- An event that cannot happen changes nothing.
  unfoldable pub step : Variant → Side → Event → Link → Link
  unfolding make_call poll_call take_from written receive resolve finish_delivery
  step variant side (call id req) l = make_call id req l
  step variant side (polled n) l =
      if ltb n l.next && (l.calls n).woken && not (returned (l.calls n).result)
      then poll_call n l
      else l
  step variant side (room n) l =
      if ltb n l.next
        && is_waiting (l.calls n).sender_task
        && (ltb (length l.outbox) capacity || l.closed)
      then wake n l
      else l
  step variant side take l =
      if runs l && l.sends && no_writing l.writing then take_from l.outbox l else l
  step variant side (wrote ok) l =
      if runs l && l.sends then write_done variant ok l.writing l else l
  step variant side (read msg) l = if runs l && l.reads then receive variant side msg l else l
  step variant side (up id) l =
      if runs l && has_entry id l.timers
      then resolve variant id timeout (record l { timers = remove_one id l.timers })
      else l
  step variant side second_act l = if l.alive then finish_delivery variant l.delivery l else l
  step variant side ended l = if runs l then record l { reads = false } else l
  step variant side (answers req) l =
      if runs l && not l.closed then record l { outbox = l.outbox ++ (req, none) ∷ [] } else l

  unfoldable pub run : Variant → Side → List Event → Link → Link
  unfolding step
  run variant side [] l = l
  run variant side (e ∷ rest) l = run variant side rest (step variant side e l)

  -- The loops of the three kinds of streams.
  unfoldable pub client_step : Event → Link → Link
  unfolding step
  client_step = step single client

  unfoldable pub shared_step : Event → Link → Link
  unfolding step
  shared_step = step shared client

  unfoldable pub server_step : Event → Link → Link
  unfolding step
  server_step = step single server
