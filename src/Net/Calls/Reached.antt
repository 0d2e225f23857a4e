-- ===== src/Net/Calls/Reached.antt =====
-- What holds of every stream that the events lead to.
use prim.Prelude.{
  ℕ, ◌≡◌, refl, sym, ◌∙◌, subst, ◌==◌, inl, inr, Bool-cases, Bool, true, false, Option, none, some,
  List, [], ◌∷◌, ltb, arith, if_lem, ◌&&◌, ◌||◌, not, length,
}
use prim.External.ByteOrder.{ByteOrder}
use prim.Entity.Reqwest.{ReqwestMsg}
use prim.Net.Calls.{Call, timeout}
use prim.Net.Calls.Link.{Variant, Side, Link, runs, written, start, capacity, take_from}
use prim.Net.Calls.Step.{
  Event, call, polled, room, take, wrote, read, up, second_act, ended, answers, step, run,
  write_done, returned, is_waiting, no_writing, has_entry, remove_one,
}
use prim.Prelude.Dict.{Dict, lookup, insert, lookup-insert_ne}
use prim.Net.Calls.Answered.{step-Sound, start-Sound}
use prim.Net.Calls.Kept.{IsSound}
use prim.Net.Calls.Once.{IsSent, IsAbsent, Once, Once-answer}
use prim.Net.Calls.Sent.{
  IsOnce, poll_call-Once, wake-Once, receive-Once, resolve-Once, finish_delivery-Once,
  make_call-Once,
}

module _ ⦃bo : ByteOrder⦄ where
  listed_insert :
      (calls : ℕ → Call) (outbox : List (ReqwestMsg × Option ℕ)) (table : Dict ℕ) (n : ℕ)
      → IsSent (calls n)
      → IsAbsent n outbox
      → ((id m : ℕ) → lookup id table ≡ some m → IsSent (calls m) × IsAbsent m outbox)
      → (id m : ℕ) → lookup id (insert (calls n).req_id n table) ≡ some m
      → IsSent (calls m) × IsAbsent m outbox
  listed_insert calls outbox table n sent absent old id m e =
      elim (Bool-cases (id == (calls n).req_id)) [
        | inl same ↦
            subst (λ k. IsSent (calls k) × IsAbsent k outbox) (ground (arith, e, same))
              (sent, absent)
        | inr apart ↦
            old id m
              (sym (lookup-insert_ne id (calls n).req_id n table (ground (arith, apart))) ∙ e)
      ]

  take_from-Once :
      (l : Link) (outbox : List (ReqwestMsg × Option ℕ))
      → Once l.calls outbox l.table l.delivery
      → IsOnce l
      → IsOnce (take_from outbox l)
  unfolding take_from
  take_from-Once l [] o' o = o
  take_from-Once l ((req, none) ∷ rest) o' o = record {
    queued = o'.queued;
    distinct = o'.distinct;
    listed = o'.listed;
    half = o'.half;
    filled = o'.filled;
  }
  take_from-Once l ((req, some n) ∷ rest) o' o = record {
    queued = o'.queued.1;
    distinct = o'.distinct.1;
    listed =
        listed_insert l.calls rest l.table n o'.queued.0 o'.distinct.0
          (λ id m e. ((o'.listed id m e).0, (o'.listed id m e).1.1));
    half = o'.half;
    filled = o'.filled;
  }

  write_done-Once :
      (variant : Variant) (ok : Bool) (external : Option (Option ℕ)) (l : Link)
      → IsOnce l
      → IsOnce (write_done variant ok external l)
  unfolding written
  write_done-Once variant ok none l o = o
  write_done-Once variant true (some external) l o = o
  write_done-Once variant false (some external) l o = o

  step-Once :
      (variant : Variant) (side : Side) (e : Event) (l : Link)
      → IsSound l
      → IsOnce l
      → IsOnce (step variant side e l)
  unfolding step
  step-Once variant side (call id req) l s o = make_call-Once id req l s o
  step-Once variant side (polled n) l s o =
      if_lem IsOnce (ltb n l.next && (l.calls n).woken && not (returned (l.calls n).result)) _ _
        (λ e. poll_call-Once n l o) (λ e. o)
  step-Once variant side (room n) l s o =
      if_lem IsOnce
        (ltb n l.next
          && is_waiting (l.calls n).sender_task
          && (ltb (length l.outbox) capacity || l.closed))
        _ _ (λ e. wake-Once n l o) (λ e. o)
  step-Once variant side take l s o =
      if_lem IsOnce (runs l && l.sends && no_writing l.writing) _ _
        (λ e. take_from-Once l l.outbox o o) (λ e. o)
  step-Once variant side (wrote ok) l s o =
      if_lem IsOnce (runs l && l.sends) _ _ (λ e. write_done-Once variant ok l.writing l o) (λ e. o)
  step-Once variant side (read msg) l s o =
      if_lem IsOnce (runs l && l.reads) _ _ (λ e. receive-Once variant side msg l o) (λ e. o)
  step-Once variant side (up id) l s o =
      if_lem IsOnce (runs l && has_entry id l.timers) _ _
        (λ e. resolve-Once variant id timeout (record l { timers = remove_one id l.timers }) o)
        (λ e. o)
  step-Once variant side second_act l s o =
      if_lem IsOnce l.alive _ _ (λ e. finish_delivery-Once variant l.delivery l refl o) (λ e. o)
  step-Once variant side ended l s o = if_lem IsOnce (runs l) _ _ (λ e. o) (λ e. o)
  step-Once variant side (answers req) l s o =
      if_lem IsOnce (runs l && not l.closed) _ _
        (λ e. Once-answer l.calls l.outbox l.table l.delivery o req) (λ e. o)

  -- The two invariants together.
  pub record Reached (l : Link) : Type 0 where
    pub sound : IsSound l
    pub once : IsOnce l

  pub step-Reached :
      (variant : Variant) (side : Side) (e : Event) (l : Link)
      → Reached l
      → Reached (step variant side e l)
  step-Reached variant side e l r = record {
    sound = step-Sound variant side e l r.sound;
    once = step-Once variant side e l r.sound r.once;
  }

  pub start-Reached : Reached start
  unfolding start
  start-Reached = record {
    sound = start-Sound;
    once = record {
      queued = tt;
      distinct = tt;
      listed = λ id n e. absurd (ground (arith, e));
      half = λ n a e. absurd (ground (arith, e));
      filled = λ n a e. absurd (ground (arith, e));
    };
  }

  pub run-Reached :
      (variant : Variant) (side : Side) (es : List Event) (l : Link)
      → Reached l
      → Reached (run variant side es l)
  unfolding run
  run-Reached variant side [] l r = r
  run-Reached variant side (e ∷ rest) l r =
      run-Reached variant side rest (step variant side e l) (step-Reached variant side e l r)
