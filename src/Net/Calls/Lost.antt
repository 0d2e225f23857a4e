-- ===== src/Net/Calls/Lost.antt =====
-- Where the waker is called before the placeholder is filled, an answer may be lost.
use prim.Prelude.{
  ℕ, ◌<◌, ◌≡◌, ◌≢◌, refl, sym, ◌∙◌, subst, true, false, none, some, List, [], ◌∷◌, ltb, lt→ltb,
  arith, if_lem, ◌&&◌, ◌||◌, not, length,
}
use prim.External.ByteOrder.{ByteOrder}
use prim.Entity.Reqwest
use prim.Entity.Reqwest.{ReqwestMsg}
use prim.Prelude.Dict.{lookup, erase, lookup-erase_self}
use prim.Net.Calls.{Answer, response, timeout, poll}
use prim.Net.Calls.Link.{
  Variant, single, Side, idle, halfway, update, Link, runs, capacity, wake, resolve, receive,
  is_response, begin, poll_call, finish_delivery, fill_slot, start,
}
use prim.Net.Calls.Step.{
  Event, call, polled, room, take, wrote, read, up, second_act, ended, answers, step, run, returned,
  is_waiting, no_writing, has_entry, remove_one,
}
use prim.Net.Calls.Sound.{lookup-erase-some}
use prim.Net.Calls.Reached.{Reached, run-Reached, start-Reached}
use prim.Net.Calls.Forgotten.{
  IsForgotten, update-Forgotten, poll_call-Forgotten, resolve-Forgotten, finish_delivery-Forgotten,
  take_from-Forgotten, write_done-Forgotten, make_call-Forgotten, receive-Forgotten,
}
use prim.Net.Calls.Once.{IsSent, IsAbsent-answer}

module _ ⦃bo : ByteOrder⦄ (n : ℕ) where
  wake-Forgotten :
      (m : ℕ) (l : Link)
      → is_waiting (l.calls m).sender_task ≡ true
      → IsForgotten n l
      → IsForgotten n (wake m l)
  wake-Forgotten m l waits f =
      update-Forgotten n m (record (l.calls m) { woken = true }) l
        (λ same.
          let e : (l.calls m).sender_task ≡ none =
            subst (λ k. (l.calls k).sender_task ≡ none) (sym same) f.asleep.2.1 in
          ground (arith, waits, e))
        f

  awake_apart : (m : ℕ) (l : Link) → (l.calls m).woken ≡ true → IsForgotten n l → m ≢ n
  awake_apart m l awake f same = cc (subst (λ k. (l.calls k).woken ≡ true) same awake, f.asleep.0)

  step-Forgotten :
      (variant : Variant) (side : Side) (e : Event) (l : Link)
      → IsForgotten n l
      → IsForgotten n (step variant side e l)
  unfolding step
  step-Forgotten variant side (call id req) l f = make_call-Forgotten n id req l f
  step-Forgotten variant side (polled m) l f =
      if_lem (IsForgotten n)
        (ltb m l.next && (l.calls m).woken && not (returned (l.calls m).result)) _ _
        (λ e. poll_call-Forgotten n m l (awake_apart m l (ground (arith, e)) f) f) (λ e. f)
  step-Forgotten variant side (room m) l f =
      if_lem (IsForgotten n)
        (ltb m l.next
          && is_waiting (l.calls m).sender_task
          && (ltb (length l.outbox) capacity || l.closed))
        _ _ (λ e. wake-Forgotten m l (ground (arith, e)) f) (λ e. f)
  step-Forgotten variant side take l f =
      if_lem (IsForgotten n) (runs l && l.sends && no_writing l.writing) _ _
        (λ e. take_from-Forgotten n l l.outbox f.absent f) (λ e. f)
  step-Forgotten variant side (wrote ok) l f =
      if_lem (IsForgotten n) (runs l && l.sends) _ _
        (λ e. write_done-Forgotten n variant ok l.writing l f) (λ e. f)
  step-Forgotten variant side (read msg) l f =
      if_lem (IsForgotten n) (runs l && l.reads) _ _ (λ e. receive-Forgotten n variant side msg l f)
        (λ e. f)
  step-Forgotten variant side (up id) l f =
      if_lem (IsForgotten n) (runs l && has_entry id l.timers) _ _
        (λ e.
          resolve-Forgotten n variant id timeout (record l { timers = remove_one id l.timers }) f)
        (λ e. f)
  step-Forgotten variant side second_act l f =
      if_lem (IsForgotten n) l.alive _ _
        (λ e. finish_delivery-Forgotten n variant l.delivery l refl f) (λ e. f)
  step-Forgotten variant side ended l f = if_lem (IsForgotten n) (runs l) _ _ (λ e. f) (λ e. f)
  step-Forgotten variant side (answers req) l f =
      if_lem (IsForgotten n) (runs l && not l.closed) _ _
        (λ e. record {
          asleep = f.asleep;
          made = f.made;
          absent = IsAbsent-answer n req l.outbox f.absent;
          unlisted = f.unlisted;
          not_half = f.not_half;
        })
        (λ e. f)

  run-Forgotten :
      (variant : Variant) (side : Side) (es : List Event) (l : Link)
      → IsForgotten n l
      → IsForgotten n (run variant side es l)
  unfolding run
  run-Forgotten variant side [] l f = f
  run-Forgotten variant side (e ∷ rest) l f =
      run-Forgotten variant side rest (step variant side e l) (step-Forgotten variant side e l f)

  -- The call waits for a response, and the loops of the task are between two events.
  pub record Waits (id : ℕ) (l : Link) : Type 0 where
    pub listed : lookup id l.table ≡ some n
    pub empty : (l.calls n).slot ≡ none
    pub sleeps : (l.calls n).woken ≡ false
    pub unreturned : (l.calls n).result ≡ none
    pub alive : l.alive ≡ true
    pub reads : l.reads ≡ true
    pub at_rest : l.delivery ≡ idle

  -- The waker is called, the call polled and the placeholder filled, in this order.
  abbrev pub overtaken : ReqwestMsg → List Event
  overtaken msg = read msg ∷ polled n ∷ second_act ∷ []

  -- The response has arrived, and the waker is called.
  abbrev notified : ℕ → ReqwestMsg → Link → Link
  notified id msg l = record l {
    calls = update l.calls n (record (l.calls n) { woken = true });
    table = erase id l.table;
    arrived = msg ∷ l.arrived;
    delivery = halfway n (response msg);
  }

  -- The call is polled.
  abbrev passed : Link → Link
  passed l = record l { calls = update l.calls n (record (l.calls n) { woken = false }) }

  read_step :
      (side : Side) (id : ℕ) (msg : ReqwestMsg) (l : Link)
      → Waits id l
      → Reqwest.req_id msg ≡ some id
      → is_response side id ≡ true
      → step single side (read msg) l ≡ notified id msg l
  unfolding step begin
  read_step side id msg l w has_id answer =
      rw (step, w.alive, w.at_rest, w.reads, receive, has_id, answer, resolve, w.listed)
        (ground (arith, w.alive, w.reads))

  polled_step :
      (side : Side) (l : Link)
      → n < l.next
      → IsSent (l.calls n)
      → (l.calls n).slot ≡ none
      → (l.calls n).woken ≡ true
      → (l.calls n).result ≡ none
      → step single side (polled n) l ≡ passed l
  unfolding step poll_call
  polled_step side l made sent empty awake unreturned =
      rw (step, lt→ltb n l.next made, awake, unreturned, poll_call, poll, sent.0, empty)
        (ground (arith, sent.0, unreturned))

  filled_step :
      (side : Side) (a : Answer) (l : Link)
      → l.alive ≡ true
      → l.delivery ≡ halfway n a
      → step single side second_act l ≡ record (fill_slot n a l) { delivery = idle }
  unfolding step finish_delivery
  filled_step side a l alive half = rw (step, alive, half, finish_delivery) (ground (arith, alive))

  -- The state after the three events.
  abbrev missed : ℕ → ReqwestMsg → Link → Link
  missed id msg l = record (fill_slot n (response msg) (passed (notified id msg l))) {
    delivery = idle;
  }

  run-overtaken :
      (side : Side) (id : ℕ) (msg : ReqwestMsg) (l : Link)
      → Reached l
      → Waits id l
      → Reqwest.req_id msg ≡ some id
      → is_response side id ≡ true
      → run single side (overtaken msg) l ≡ missed id msg l
  unfolding run
  run-overtaken side id msg l r w has_id answer =
      let sent = (r.once.listed id n w.listed).0 in
      rw
        (
          read_step side id msg l w has_id answer,
          polled_step side (notified id msg l) (r.sound.entries id n w.listed).1
              (ground (arith, sent)) (ground (arith, w.empty)) (ground arith)
              (ground (arith, w.unreturned)),
          filled_step side (response msg) (passed (notified id msg l)) w.alive refl,
        )
        refl

  missed-Forgotten :
      (id : ℕ) (msg : ReqwestMsg) (l : Link)
      → Reached l
      → Waits id l
      → IsForgotten n (missed id msg l)
  missed-Forgotten id msg l r w =
      let (sent, absent) = r.once.listed id n w.listed in
      record {
        asleep = ground (arith, sent, w.unreturned);
        made = (r.sound.entries id n w.listed).1;
        absent = absent;
        unlisted = λ k e.
            let same : k ≡ id =
              sym (r.sound.entries k n (lookup-erase-some k id n l.table e)).0
              ∙ (r.sound.entries id n w.listed).0 in
            cc (
              lookup-erase_self id l.table,
              subst (λ j. lookup j (erase id l.table) ≡ some n) same e,
            );
        not_half = λ a e. ground (arith, e);
      }

  -- `ClientReqwest` and `ServerReqwest` call the waker before they fill the placeholder. In every
  -- state that the events lead to: where a call sleeps while it waits for its response, and the
  -- response arrives, the call may be polled between the two, and then its placeholder holds the
  -- response but the call never returns, whatever happens later.
  pub response_lost :
      (side : Side) (es : List Event) (id : ℕ) (msg : ReqwestMsg)
      → let l = run single side es start in
        Waits id l
        → Reqwest.req_id msg ≡ some id
        → is_response side id ≡ true
        → let l' = run single side (overtaken msg) l in
          ((l'.calls n).slot ≡ some (response msg))
          × ((later : List Event) → ((run single side later l').calls n).result ≡ none)
  response_lost side es id msg w has_id answer =
      let l = run single side es start in
      let r = run-Reached single side es start start-Reached in
      rw (run-overtaken side id msg l r w has_id answer) (
        ground arith,
        λ later.
            (run-Forgotten single side later (missed id msg l)
              (missed-Forgotten id msg l r w)).asleep.1,
      )
