-- ===== src/Net/Calls/Stopped.antt =====
-- Calls of a stream whose writing loop has ended.
use prim.Prelude.{
  ℕ, ◌≡◌, ◌≢◌, refl, sym, subst, inl, inr, ◌==◌, ==_iff, Bool, true, false, none, some, List, [],
  ◌∷◌, ltb, arith, if_lem, ◌&&◌, ◌||◌, not, length, Option-cases,
}
use prim.External.ByteOrder.{ByteOrder}
use prim.Entity.Reqwest
use prim.Entity.Reqwest.{ReqwestMsg}
use prim.Prelude.Dict.{Dict, lookup, erase}
use prim.Net.Calls.{Answer, response, Call, Channel, timeout, poll}
use prim.Net.Calls.Link.{
  Variant, single, shared, Side, Delivery, idle, halfway, update, Link, runs, capacity, wake,
  resolve, receive, is_response, begin, poll_call, finish_delivery, channel_of, make_call, new_call,
}
use prim.Net.Calls.Step.{
  Event, call, polled, room, take, wrote, read, up, second_act, ended, answers, step, run, returned,
  is_waiting, no_writing, has_entry, remove_one,
}
use prim.Net.Calls.Sound.{halfway-inj, lookup-erase-some}
use prim.Net.Calls.Kept.{poll-Leaves}

-- Neither an answer nor a result.
abbrev pub IsOpen : Call → Type 0
IsOpen c = (c.slot ≡ none) × (c.result ≡ none)

-- The writing loop has ended, the call `n` has no answer, and no entry or event that would bring
-- one. Calls that are made later count: `n` may be a number that is not given yet.
pub record Unanswered (n : ℕ) (sends : Bool) (calls : ℕ → Call) (table : Dict ℕ)
    (delivery : Delivery) : Type 0 where
  pub stopped : sends ≡ false
  pub still_open : IsOpen (calls n)
  pub unlisted : (id : ℕ) → lookup id table ≢ some n
  pub not_half : (a : Answer) → delivery ≢ halfway n a

abbrev pub Hopeless : ℕ → Link → Type 0
Hopeless n l = Unanswered n l.sends l.calls l.table l.delivery

poll-IsOpen : (channel : Channel) (c : Call) → IsOpen c → IsOpen (poll channel c).0
poll-IsOpen channel c h =
    let left = poll-Leaves channel c in
    (
      elim (Option-cases (poll channel c).0.slot) [
        | inl empty ↦ empty
        | inr (a, there) ↦ absurd (cc (left.from_slot a there, h.0))
      ],
      elim (Option-cases (poll channel c).0.result) [
        | inl none_yet ↦ none_yet
        | inr (a, there) ↦ elim (left.from_result a there) [
          | inl was ↦ absurd (cc (was, h.1))
          | inr slot ↦ absurd (cc (slot, h.0))
        ]
      ],
    )

-- A change that keeps an open call open.
update-IsOpen :
    (calls : ℕ → Call) (m : ℕ) (c : Call) (n : ℕ)
    → (m ≡ n → IsOpen c)
    → IsOpen (calls n)
    → IsOpen (update calls m c n)
update-IsOpen calls m c n new h =
    if_lem IsOpen (n == m) c (calls n) (λ e. new (sym ((==_iff n m).0 e))) (λ e. h)

module _ (n : ℕ) where
  poll_call-Hopeless : (m : ℕ) (l : Link) → Hopeless n l → Hopeless n (poll_call m l)
  unfolding poll_call
  poll_call-Hopeless m l h = record {
    stopped = h.stopped;
    still_open =
        update-IsOpen l.calls m _ n
          (λ same.
            poll-IsOpen (channel_of l) (record (l.calls m) { woken = false })
              (subst (λ k. IsOpen (l.calls k)) (sym same) h.still_open))
          h.still_open;
    unlisted = h.unlisted;
    not_half = h.not_half;
  }

  wake-IsOpen :
      (m : ℕ) (calls : ℕ → Call)
      → IsOpen (calls n)
      → IsOpen (update calls m (record (calls m) { woken = true }) n)
  wake-IsOpen m calls h =
      update-IsOpen calls m _ n (λ same. subst (λ k. IsOpen (calls k)) (sym same) h) h

  wake-Hopeless : (m : ℕ) (l : Link) → Hopeless n l → Hopeless n (wake m l)
  wake-Hopeless m l h = record {
    stopped = h.stopped;
    still_open = wake-IsOpen m l.calls h.still_open;
    unlisted = h.unlisted;
    not_half = h.not_half;
  }

  begin-Hopeless :
      (variant : Variant) (m : ℕ) (a : Answer) (id : ℕ) (l : Link)
      → m ≢ n
      → Hopeless n l
      → Hopeless n (begin variant m a (record l { table = erase id l.table }))
  unfolding begin
  begin-Hopeless single m a id l apart h = record {
    stopped = h.stopped;
    still_open = wake-IsOpen m l.calls h.still_open;
    unlisted = λ k e. h.unlisted k (lookup-erase-some k id n l.table e);
    not_half = λ b e. apart (halfway-inj m n a b e).0;
  }
  begin-Hopeless shared m a id l apart h = record {
    stopped = h.stopped;
    still_open = update-IsOpen l.calls m _ n (λ same. absurd (apart same)) h.still_open;
    unlisted = λ k e. h.unlisted k (lookup-erase-some k id n l.table e);
    not_half = λ b e. apart (halfway-inj m n a b e).0;
  }

  resolve-Hopeless :
      (variant : Variant) (id : ℕ) (a : Answer) (l : Link)
      → Hopeless n l
      → Hopeless n (resolve variant id a l)
  unfolding resolve
  resolve-Hopeless variant id a l h = elim (Option-cases (lookup id l.table)) [
    | inl absent ↦ rw (resolve, absent) h
    | inr (m, there) ↦
        rw (resolve, there)
          (begin-Hopeless variant m a id l
            (λ same. h.unlisted id (subst (λ k. lookup id l.table ≡ some k) same there)) h)
  ]

  finish_delivery-Hopeless :
      (variant : Variant) (delivery : Delivery) (l : Link)
      → l.delivery ≡ delivery
      → Hopeless n l
      → Hopeless n (finish_delivery variant delivery l)
  unfolding finish_delivery
  finish_delivery-Hopeless variant idle l e h = h
  finish_delivery-Hopeless single (halfway m a) l e h = record {
    stopped = h.stopped;
    still_open =
        update-IsOpen l.calls m _ n
          (λ same. absurd (h.not_half a (subst (λ k. l.delivery ≡ halfway k a) same e)))
          h.still_open;
    unlisted = h.unlisted;
    not_half = λ b x. ground (arith, x);
  }
  finish_delivery-Hopeless shared (halfway m a) l e h = record {
    stopped = h.stopped;
    still_open = wake-IsOpen m l.calls h.still_open;
    unlisted = h.unlisted;
    not_half = λ b x. ground (arith, x);
  }

  make_call-Hopeless :
      (id : ℕ) (req : ReqwestMsg) (l : Link) → Hopeless n l → Hopeless n (make_call id req l)
  unfolding make_call
  make_call-Hopeless id req l h = record {
    stopped = h.stopped;
    still_open =
        update-IsOpen l.calls l.next (new_call id req) n (λ same. (refl, refl)) h.still_open;
    unlisted = h.unlisted;
    not_half = h.not_half;
  }

  module _ ⦃bo : ByteOrder⦄ where
    receive-Hopeless :
        (variant : Variant) (side : Side) (msg : ReqwestMsg) (l : Link)
        → Hopeless n l
        → Hopeless n (receive variant side msg l)
    unfolding receive
    receive-Hopeless variant side msg l h = elim (Option-cases (Reqwest.req_id msg)) [
      | inl short ↦
          rw (receive, short)
            (record {
              stopped = refl;
              still_open = h.still_open;
              unlisted = h.unlisted;
              not_half = h.not_half;
            })
      | inr (id, has_id) ↦
          rw (receive, has_id)
            (if_lem (Hopeless n) (is_response side id) _ _
              (λ answer.
                resolve-Hopeless variant id (response msg) (record l { arrived = msg ∷ l.arrived })
                  h)
              (λ request. h))
    ]

    step-Hopeless :
        (variant : Variant) (side : Side) (e : Event) (l : Link)
        → Hopeless n l
        → Hopeless n (step variant side e l)
    unfolding step
    step-Hopeless variant side (call id req) l h = make_call-Hopeless id req l h
    step-Hopeless variant side (polled m) l h =
        if_lem (Hopeless n) (ltb m l.next && (l.calls m).woken && not (returned (l.calls m).result))
          _ _ (λ e. poll_call-Hopeless m l h) (λ e. h)
    step-Hopeless variant side (room m) l h =
        if_lem (Hopeless n)
          (ltb m l.next
            && is_waiting (l.calls m).sender_task
            && (ltb (length l.outbox) capacity || l.closed))
          _ _ (λ e. wake-Hopeless m l h) (λ e. h)
    step-Hopeless variant side take l h =
        if_lem (Hopeless n) (runs l && l.sends && no_writing l.writing) _ _
          (λ e. absurd (ground (arith, e, h.stopped))) (λ e. h)
    step-Hopeless variant side (wrote ok) l h =
        if_lem (Hopeless n) (runs l && l.sends) _ _ (λ e. absurd (ground (arith, e, h.stopped)))
          (λ e. h)
    step-Hopeless variant side (read msg) l h =
        if_lem (Hopeless n) (runs l && l.reads) _ _ (λ e. receive-Hopeless variant side msg l h)
          (λ e. h)
    step-Hopeless variant side (up id) l h =
        if_lem (Hopeless n) (runs l && has_entry id l.timers) _ _
          (λ e.
            resolve-Hopeless variant id timeout (record l { timers = remove_one id l.timers }) h)
          (λ e. h)
    step-Hopeless variant side second_act l h =
        if_lem (Hopeless n) l.alive _ _ (λ e. finish_delivery-Hopeless variant l.delivery l refl h)
          (λ e. h)
    step-Hopeless variant side ended l h = if_lem (Hopeless n) (runs l) _ _ (λ e. h) (λ e. h)
    step-Hopeless variant side (answers req) l h =
        if_lem (Hopeless n) (runs l && not l.closed) _ _ (λ e. h) (λ e. h)

    run-Hopeless :
        (variant : Variant) (side : Side) (es : List Event) (l : Link)
        → Hopeless n l
        → Hopeless n (run variant side es l)
    unfolding run
    run-Hopeless variant side [] l h = h
    run-Hopeless variant side (e ∷ rest) l h =
        run-Hopeless variant side rest (step variant side e l) (step-Hopeless variant side e l h)

    -- Once the loop that writes has ended, by an error or a panic, a call that is not in the table
    -- then and has no answer, as one that is made later, never returns whatever happens, not even
    -- with the error that its time is up.
    pub never_returns :
        (variant : Variant) (side : Side) (later : List Event) (l : Link)
        → Hopeless n l
        → ((run variant side later l).calls n).result ≡ none
    never_returns variant side later l h = (run-Hopeless variant side later l h).still_open.1
