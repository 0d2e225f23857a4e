-- ===== src/Net/Calls/Awake.antt =====
-- Where the placeholder is filled before the waker is called, no answer is lost.
use prim.Prelude.{
  ℕ, ◌+◌, ◌<◌, ◌≡◌, ◌≢◌, refl, sym, ◌∙◌, ◌⊎◌, inl, inr, ◌==◌, Bool, true, false, Option, none, some,
  List, [], ◌∷◌, ltb, lt→ltb, arith, if_lem, ◌&&◌, ◌||◌, not, length, Option-cases,
}
use prim.External.ByteOrder.{ByteOrder}
use prim.Entity.Reqwest
use prim.Entity.Reqwest.{ReqwestMsg}
use prim.Prelude.Dict.{lookup}
use prim.Net.Calls.{Answer, response, Call, Channel, timeout, poll}
use prim.Net.Calls.Link.{
  shared, Side, Delivery, idle, halfway, Link, runs, capacity, wake, resolve, receive, is_response,
  begin, poll_call, finish_delivery, start, channel_of, make_call, new_call, take_from, written,
}
use prim.Net.Calls.Step.{
  Event, call, polled, room, take, wrote, read, up, second_act, ended, answers, step, run, returned,
  is_waiting, no_writing, has_entry, remove_one, write_done,
}
use prim.Net.Calls.Sound.{update_lem, halfway-inj, Sound-arrived}
use prim.Net.Calls.Kept.{IsSound}
use prim.Net.Calls.Once.{IsSent}
use prim.Net.Calls.Reached.{Reached, step-Reached, start-Reached}

-- A call whose placeholder is filled is polled soon: its waker was called, or is called next.
abbrev IsDue : ℕ → Delivery → ℕ → Call → Type 0
IsDue next delivery m c =
    (a : Answer)
    → c.slot ≡ some a
    → (m < next) × (c.result ≡ none → (c.woken ≡ true) ⊎ ((b : Answer) × (delivery ≡ halfway m b)))

abbrev Awake : Link → Type 0
Awake l = (m : ℕ) → IsDue l.next l.delivery m (l.calls m)

poll_empties :
    (channel : Channel) (c : Call)
    → ((a : Answer) → c.slot ≡ some a → IsSent c)
    → (poll channel c).0.slot ≡ none
unfolding poll
poll_empties channel c sent = elim (Option-cases c.slot) [
  | inl empty ↦ ground (arith, empty)
  | inr (a, there) ↦ ground (arith, there, sent a there)
]

module _ ⦃bo : ByteOrder⦄ where
  poll_call-Awake : (n : ℕ) (l : Link) → Reached l → Awake l → Awake (poll_call n l)
  unfolding poll_call
  poll_call-Awake n l r w =
      update_lem (IsDue l.next l.delivery) l.calls n
        (poll (channel_of l) (record (l.calls n) { woken = false })).0
        (λ a e. absurd (
          cc (
            e,
            poll_empties (channel_of l) (record (l.calls n) { woken = false }) (r.once.filled n),
          )))
        (λ m apart. w m)

  wake-Awake : (n : ℕ) (l : Link) → Awake l → Awake (wake n l)
  wake-Awake n l w =
      update_lem (IsDue l.next l.delivery) l.calls n (record (l.calls n) { woken = true })
        (λ a e. ((w n a e).0, λ u. inl refl)) (λ m apart. w m)

  resolve-Awake :
      (id : ℕ) (a : Answer) (l : Link)
      → IsSound l
      → l.delivery ≡ idle
      → Awake l
      → Awake (resolve shared id a l)
  unfolding resolve begin
  resolve-Awake id a l s at_rest w = elim (Option-cases (lookup id l.table)) [
    | inl absent ↦ rw (resolve, absent) w
    | inr (n, there) ↦
        rw (resolve, there)
          (update_lem (IsDue l.next (halfway n a)) l.calls n (record (l.calls n) { slot = some a })
            (λ b e. ((s.entries id n there).1, λ u. inr (a, refl)))
            (λ m apart b e. (
              (w m b e).0,
              λ u. elim ((w m b e).1 u) [
                | inl awake ↦ inl awake
                | inr (b', half) ↦ absurd (ground (arith, half, at_rest))
              ],
            )))
  ]

  finish_delivery-Awake :
      (delivery : Delivery) (l : Link)
      → l.delivery ≡ delivery
      → Awake l
      → Awake (finish_delivery shared delivery l)
  unfolding finish_delivery
  finish_delivery-Awake idle l e w = w
  finish_delivery-Awake (halfway n b) l e w =
      update_lem (IsDue l.next idle) l.calls n (record (l.calls n) { woken = true })
        (λ a f. ((w n a f).0, λ u. inl refl))
        (λ m apart a f. (
          (w m a f).0,
          λ u. elim ((w m a f).1 u) [
            | inl awake ↦ inl awake
            | inr (b', half) ↦ absurd (apart (sym (halfway-inj n m b b' (sym e ∙ half)).0))
          ],
        ))

  receive-Awake :
      (side : Side) (msg : ReqwestMsg) (l : Link)
      → IsSound l
      → l.delivery ≡ idle
      → Awake l
      → Awake (receive shared side msg l)
  unfolding receive
  receive-Awake side msg l s at_rest w = elim (Option-cases (Reqwest.req_id msg)) [
    | inl short ↦ rw (receive, short) w
    | inr (id, has_id) ↦
        rw (receive, has_id)
          (if_lem Awake (is_response side id) _ _
            (λ answer.
              resolve-Awake id (response msg) (record l { arrived = msg ∷ l.arrived })
                (Sound-arrived l.calls l.next l.outbox l.table l.delivery l.arrived s msg) at_rest
                w)
            (λ request. w))
  ]

  make_call-Awake : (id : ℕ) (req : ReqwestMsg) (l : Link) → Awake l → Awake (make_call id req l)
  unfolding make_call
  make_call-Awake id req l w =
      update_lem (IsDue (l.next + 1) l.delivery) l.calls l.next (new_call id req)
        (λ a e. absurd (ground (arith, e)))
        (λ m apart a e. (omega (arith, (w m a e).0), (w m a e).1))

  take_from-Awake :
      (l : Link) (outbox : List (ReqwestMsg × Option ℕ)) → Awake l → Awake (take_from outbox l)
  unfolding take_from
  take_from-Awake l [] w = w
  take_from-Awake l ((req, none) ∷ rest) w = w
  take_from-Awake l ((req, some n) ∷ rest) w = w

  write_done-Awake :
      (ok : Bool) (external : Option (Option ℕ)) (l : Link)
      → Awake l
      → Awake (write_done shared ok external l)
  unfolding written
  write_done-Awake ok none l w = w
  write_done-Awake true (some external) l w = w
  write_done-Awake false (some external) l w = w

  at_rest : (l : Link) → runs l ≡ true → l.delivery ≡ idle
  at_rest l e = ground (arith, e)

  step-Awake :
      (side : Side) (e : Event) (l : Link) → Reached l → Awake l → Awake (step shared side e l)
  unfolding step
  step-Awake side (call id req) l r w = make_call-Awake id req l w
  step-Awake side (polled n) l r w =
      if_lem Awake (ltb n l.next && (l.calls n).woken && not (returned (l.calls n).result)) _ _
        (λ e. poll_call-Awake n l r w) (λ e. w)
  step-Awake side (room n) l r w =
      if_lem Awake
        (ltb n l.next
          && is_waiting (l.calls n).sender_task
          && (ltb (length l.outbox) capacity || l.closed))
        _ _ (λ e. wake-Awake n l w) (λ e. w)
  step-Awake side take l r w =
      if_lem Awake (runs l && l.sends && no_writing l.writing) _ _
        (λ e. take_from-Awake l l.outbox w) (λ e. w)
  step-Awake side (wrote ok) l r w =
      if_lem Awake (runs l && l.sends) _ _ (λ e. write_done-Awake ok l.writing l w) (λ e. w)
  step-Awake side (read msg) l r w =
      if_lem Awake (runs l && l.reads) _ _
        (λ e. receive-Awake side msg l r.sound (at_rest l (ground (arith, e))) w) (λ e. w)
  step-Awake side (up id) l r w =
      if_lem Awake (runs l && has_entry id l.timers) _ _
        (λ e.
          resolve-Awake id timeout (record l { timers = remove_one id l.timers }) r.sound
            (at_rest l (ground (arith, e))) w)
        (λ e. w)
  step-Awake side second_act l r w =
      if_lem Awake l.alive _ _ (λ e. finish_delivery-Awake l.delivery l refl w) (λ e. w)
  step-Awake side ended l r w = if_lem Awake (runs l) _ _ (λ e. w) (λ e. w)
  step-Awake side (answers req) l r w = if_lem Awake (runs l && not l.closed) _ _ (λ e. w) (λ e. w)

  run-Awake :
      (side : Side) (es : List Event) (l : Link)
      → Reached l
      → Awake l
      → Reached (run shared side es l) × Awake (run shared side es l)
  unfolding run
  run-Awake side [] l r w = (r, w)
  run-Awake side (e ∷ rest) l r w =
      run-Awake side rest (step shared side e l) (step-Reached shared side e l r)
        (step-Awake side e l r w)

  start-Awake : Awake start
  unfolding start
  start-Awake m a e = absurd (ground (arith, e))

  poll_returns :
      (channel : Channel) (c : Call) (a : Answer)
      → c.slot ≡ some a
      → IsSent c
      → (poll channel (record c { woken = false })).0.result ≡ some a
  unfolding poll
  poll_returns channel c a there sent = ground (arith, there, sent)

  polled_returns :
      (side : Side) (n : ℕ) (a : Answer) (l : Link)
      → n < l.next
      → (l.calls n).woken ≡ true
      → (l.calls n).result ≡ none
      → (l.calls n).slot ≡ some a
      → IsSent (l.calls n)
      → ((step shared side (polled n) l).calls n).result ≡ some a
  unfolding step poll_call
  polled_returns side n a l made awake unreturned there sent =
      if_lem (λ k. (k.calls n).result ≡ some a)
        (ltb n l.next && (l.calls n).woken && not (returned (l.calls n).result)) (poll_call n l) l
        (λ e.
          if_lem (λ (c : Call). c.result ≡ some a) (n == n)
            (poll (channel_of l) (record (l.calls n) { woken = false })).0 (l.calls n)
            (λ same. poll_returns (channel_of l) (l.calls n) a there sent)
            (λ apart. absurd (ground (arith, apart))))
        (λ e. absurd (ground (arith, e, lt→ltb n l.next made, awake, unreturned)))

  -- `ClientReqwestShare` fills the placeholder first. In every state that the events lead to: where
  -- the placeholder of a call holds an answer and the call has not returned, and the task of the
  -- stream is not about to call its waker, it was called, and the next poll returns the answer.
  pub answer_kept :
      (side : Side) (es : List Event) (n : ℕ) (a : Answer)
      → let l = run shared side es start in
        (l.calls n).slot ≡ some a
        → (l.calls n).result ≡ none
        → ((b : Answer) → l.delivery ≢ halfway n b)
        → ((l.calls n).woken ≡ true) × (((step shared side (polled n) l).calls n).result ≡ some a)
  answer_kept side es n a there unreturned rest =
      let l = run shared side es start in
      let (r, w) = run-Awake side es start start-Reached start-Awake in
      let (made, due) = w n a there in
      let awake : (l.calls n).woken ≡ true = elim (due unreturned) [
        | inl was ↦ was
        | inr (b, half) ↦ absurd (rest b half)
      ] in
      (awake, polled_returns side n a l made awake unreturned there (r.once.filled n a there))
