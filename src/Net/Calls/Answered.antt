-- ===== src/Net/Calls/Answered.antt =====
-- Every event keeps what is known of the answers.
use prim.Prelude.{
  ℕ, ◌≡◌, refl, some, List, [], ◌∷◌, ltb, ltb→lt, arith, if_lem, ◌&&◌, ◌||◌, not, length,
}
use prim.External.ByteOrder.{ByteOrder}
use prim.Net.Calls.{Answer, timeout}
use prim.Net.Calls.Link.{Variant, Side, Link, runs, start, capacity}
use prim.Net.Calls.Step.{
  Event, call, polled, room, take, wrote, read, up, second_act, ended, answers, step, run, returned,
  is_waiting, no_writing, has_entry, remove_one,
}
use prim.Net.Calls.Sound.{Earned, late}
use prim.Net.Calls.Kept.{
  IsSound, poll_call-Sound, wake-Sound, receive-Sound, resolve-Sound, finish_delivery-Sound,
  make_call-Sound, take_from-Sound, write_done-Sound, HandlesBelow-answer,
}

module _ ⦃bo : ByteOrder⦄ where
  pub step-Sound :
      (variant : Variant) (side : Side) (e : Event) (l : Link)
      → IsSound l
      → IsSound (step variant side e l)
  unfolding step
  step-Sound variant side (call id req) l s = make_call-Sound id req l s
  step-Sound variant side (polled n) l s =
      if_lem IsSound (ltb n l.next && (l.calls n).woken && not (returned (l.calls n).result)) _ _
        (λ e. poll_call-Sound n l (ltb→lt n l.next (ground (arith, e))) s) (λ e. s)
  step-Sound variant side (room n) l s =
      if_lem IsSound
        (ltb n l.next
          && is_waiting (l.calls n).sender_task
          && (ltb (length l.outbox) capacity || l.closed))
        _ _ (λ e. wake-Sound n l s) (λ e. s)
  step-Sound variant side take l s =
      if_lem IsSound (runs l && l.sends && no_writing l.writing) _ _
        (λ e. take_from-Sound l l.outbox s s) (λ e. s)
  step-Sound variant side (wrote ok) l s =
      if_lem IsSound (runs l && l.sends) _ _ (λ e. write_done-Sound variant ok l.writing l s)
        (λ e. s)
  step-Sound variant side (read msg) l s =
      if_lem IsSound (runs l && l.reads) _ _ (λ e. receive-Sound variant side msg l s) (λ e. s)
  step-Sound variant side (up id) l s =
      if_lem IsSound (runs l && has_entry id l.timers) _ _
        (λ e.
          resolve-Sound variant id timeout (record l { timers = remove_one id l.timers }) late s)
        (λ e. s)
  step-Sound variant side second_act l s =
      if_lem IsSound l.alive _ _ (λ e. finish_delivery-Sound variant l.delivery l refl s) (λ e. s)
  step-Sound variant side ended l s = if_lem IsSound (runs l) _ _ (λ e. s) (λ e. s)
  step-Sound variant side (answers req) l s =
      if_lem IsSound (runs l && not l.closed) _ _
        (λ e. record {
          slots = s.slots;
          results = s.results;
          entries = s.entries;
          half = s.half;
          handles = HandlesBelow-answer l.next req l.outbox s.handles;
        })
        (λ e. s)

  pub run-Sound :
      (variant : Variant) (side : Side) (es : List Event) (l : Link)
      → IsSound l
      → IsSound (run variant side es l)
  unfolding run
  run-Sound variant side [] l s = s
  run-Sound variant side (e ∷ rest) l s =
      run-Sound variant side rest (step variant side e l) (step-Sound variant side e l s)

  pub start-Sound : IsSound start
  unfolding start
  start-Sound = record {
    slots = λ n a e. absurd (ground (arith, e));
    results = λ n a e. absurd (ground (arith, e));
    entries = λ id n e. absurd (ground (arith, e));
    half = λ n a e. absurd (ground (arith, e));
    handles = tt;
  }

  -- Whatever happens and in whatever order, on a client's or a server's stream: what a call returns
  -- is a message that has arrived with the id of the call, or the error that its time was up.
  pub run_result :
      (variant : Variant) (side : Side) (es : List Event) (n : ℕ) (a : Answer)
      → let l = run variant side es start in
        (l.calls n).result ≡ some a → Earned l.arrived (l.calls n).req_id a
  run_result variant side es n a e = (run-Sound variant side es start start-Sound).results n a e
