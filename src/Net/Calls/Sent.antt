-- ===== src/Net/Calls/Sent.antt =====
-- Every event keeps the invariant `Once`.
use prim.Prelude.{
  ℕ, ◌<◌, ◌≡◌, refl, inl, inr, true, false, Option, none, some, List, [], ◌∷◌, Bool-cases,
  Option-cases, arith, if_lem,
}
use prim.Prelude.Dict.{Dict, lookup, erase}
use prim.External.ByteOrder.{ByteOrder}
use prim.Entity.Reqwest
use prim.Entity.Reqwest.{ReqwestMsg}
use prim.Net.Calls.{
  Answer, response, Call, Channel, poll, drive, open_channel, full, closed_channel,
}
use prim.Net.Calls.Link.{
  Variant, single, shared, Side, Delivery, idle, halfway, update, Link, queue, is_response,
  channel_of, begin, finish_delivery, resolve, make_call, poll_call, receive, wake, fill_slot,
  new_call,
}
use prim.Net.Calls.Sound.{HandlesBelow, update_lem}
use prim.Net.Calls.Kept.{IsSound}
use prim.Net.Calls.Once.{
  IsSent, AllSent, Once, Once-update, Once-erase, Once-halfway, Once-idle, Once-queue,
}

-- What a poll puts into the channel.
data Puts (c c' : Call) : Option ReqwestMsg → Type 0 where
  nothing :
      (IsSent c → IsSent c') → ((a : Answer) → c'.slot ≡ some a → c.slot ≡ some a) → Puts c c' none
  request : (req : ReqwestMsg) → c.sender_task_done ≡ false → IsSent c' → Puts c c' (some req)

drive-Puts :
    (channel : Channel) (req : ReqwestMsg) (c d : Call)
    → c.sender_task_done ≡ false
    → ((a : Answer) → d.slot ≡ some a → c.slot ≡ some a)
    → Puts c (drive channel req d).0 (drive channel req d).1
unfolding drive
drive-Puts open_channel req c d unsent slots = request req unsent (ground arith, ground arith)
drive-Puts closed_channel req c d unsent slots =
    nothing (λ sent. (ground arith, ground arith)) (λ a e. slots a (ground arith))
drive-Puts full req c d unsent slots = nothing (λ sent. absurd (cc (sent.0))) slots

poll-Puts : (channel : Channel) (c : Call) → Puts c (poll channel c).0 (poll channel c).1
unfolding poll
poll-Puts channel c = elim (Bool-cases c.sender_task_done) [
  | inl sent ↦ rw sent (nothing (λ h. (ground arith, ground (arith, h))) (λ a e. ground arith))
  | inr unsent ↦ elim (Option-cases c.sender_task) [
    | inr (req, waits) ↦ rw (poll, unsent, waits) (drive-Puts channel req _ _ refl (λ a e. e))
    | inl none_waits ↦ elim (Option-cases c.req) [
      | inr (req, has) ↦
          rw (poll, unsent, none_waits, has) (drive-Puts channel req _ _ refl (λ a e. e))
      | inl taken ↦
          rw (poll, unsent, none_waits, taken)
            (nothing (λ h. absurd (ground (arith, unsent, h.0))) (λ a e. e))
    ]
  ]
]

module _ ⦃bo : ByteOrder⦄ where
  abbrev pub IsOnce : Link → Type 0
  IsOnce l = Once l.calls l.outbox l.table l.delivery

  puts-Once :
      (calls : ℕ → Call) (outbox : List (ReqwestMsg × Option ℕ)) (table : Dict ℕ)
      (delivery : Delivery) (n : ℕ) (c : Call) (queued : Option ReqwestMsg)
      → Puts (record (calls n) { woken = false }) c queued
      → Once calls outbox table delivery
      → Once (update calls n c) (queue n queued outbox) table delivery
  puts-Once calls outbox table delivery n c _ (nothing keep slot) o =
      Once-update calls outbox table delivery o n c keep (λ a e. keep (o.filled n a (slot a e)))
  puts-Once calls outbox table delivery n c _ (request req unsent sent) o =
      Once-queue calls outbox table delivery o n req c unsent sent

  pub poll_call-Once : (n : ℕ) (l : Link) → IsOnce l → IsOnce (poll_call n l)
  unfolding poll_call
  poll_call-Once n l o =
      puts-Once l.calls l.outbox l.table l.delivery n _ _
        (poll-Puts (channel_of l) (record (l.calls n) { woken = false })) o

  pub wake-Once : (n : ℕ) (l : Link) → IsOnce l → IsOnce (wake n l)
  wake-Once n l o =
      Once-update l.calls l.outbox l.table l.delivery o n (record (l.calls n) { woken = true })
        (λ sent. sent) (o.filled n)

  fill_slot-Once :
      (n : ℕ) (a : Answer) (l : Link) → IsSent (l.calls n) → IsOnce l → IsOnce (fill_slot n a l)
  fill_slot-Once n a l sent o =
      Once-update l.calls l.outbox l.table l.delivery o n (record (l.calls n) { slot = some a })
        (λ s. s) (λ b e. sent)

  begin-Once :
      (variant : Variant) (n : ℕ) (a : Answer) (l : Link)
      → IsSent (l.calls n)
      → IsOnce l
      → IsOnce (begin variant n a l)
  unfolding begin
  begin-Once single n a l sent o =
      Once-halfway _ l.outbox l.table l.delivery (wake-Once n l o) n a (ground (arith, sent))
  begin-Once shared n a l sent o =
      Once-halfway _ l.outbox l.table l.delivery (fill_slot-Once n a l sent o) n a
        (ground (arith, sent))

  pub resolve-Once :
      (variant : Variant) (id : ℕ) (a : Answer) (l : Link)
      → IsOnce l
      → IsOnce (resolve variant id a l)
  unfolding resolve
  resolve-Once variant id a l o = elim (Option-cases (lookup id l.table)) [
    | inl absent ↦ rw (resolve, absent) o
    | inr (n, there) ↦
        rw (resolve, there)
          (begin-Once variant n a (record l { table = erase id l.table }) (o.listed id n there).0
            (Once-erase l.calls l.outbox l.table l.delivery o id))
  ]

  pub finish_delivery-Once :
      (variant : Variant) (delivery : Delivery) (l : Link)
      → l.delivery ≡ delivery
      → IsOnce l
      → IsOnce (finish_delivery variant delivery l)
  unfolding finish_delivery
  finish_delivery-Once variant idle l e o = o
  finish_delivery-Once single (halfway n a) l e o =
      Once-idle _ l.outbox l.table l.delivery (fill_slot-Once n a l (o.half n a e) o)
  finish_delivery-Once shared (halfway n a) l e o =
      Once-idle _ l.outbox l.table l.delivery (wake-Once n l o)

  pub receive-Once :
      (variant : Variant) (side : Side) (msg : ReqwestMsg) (l : Link)
      → IsOnce l
      → IsOnce (receive variant side msg l)
  unfolding receive
  receive-Once variant side msg l o = elim (Option-cases (Reqwest.req_id msg)) [
    | inl short ↦ rw (receive, short) o
    | inr (id, has_id) ↦
        rw (receive, has_id)
          (if_lem IsOnce (is_response side id) _ _
            (λ answer.
              resolve-Once variant id (response msg) (record l { arrived = msg ∷ l.arrived }) o)
            (λ request. o))
  ]

  AllSent-new :
      (calls : ℕ → Call) (next : ℕ) (c : Call) (outbox : List (ReqwestMsg × Option ℕ))
      → HandlesBelow next outbox
      → AllSent calls outbox
      → AllSent (update calls next c) outbox
  AllSent-new calls next c [] below h = tt
  AllSent-new calls next c ((req, none) ∷ rest) below h = AllSent-new calls next c rest below h
  AllSent-new calls next c ((req, some m) ∷ rest) below h =
      (ground (arith, h.0, below.0), AllSent-new calls next c rest below.1 h.1)

  pub make_call-Once :
      (id : ℕ) (req : ReqwestMsg) (l : Link) → IsSound l → IsOnce l → IsOnce (make_call id req l)
  unfolding make_call
  make_call-Once id req l s o =
      let old : (m : ℕ)
          → m < l.next
          → IsSent (l.calls m)
          → IsSent (update l.calls l.next (new_call id req) m) =
        λ m below sent. ground (arith, below, sent) in
      record {
        queued = AllSent-new l.calls l.next (new_call id req) l.outbox s.handles o.queued;
        distinct = o.distinct;
        listed = λ k n e. (old n (s.entries k n e).1 (o.listed k n e).0, (o.listed k n e).1);
        half = λ n a e. old n (s.half n a e).1 (o.half n a e);
        filled =
            update_lem (λ m k. (a : Answer) → k.slot ≡ some a → IsSent k) l.calls l.next
              (new_call id req) (λ a e. absurd (ground (arith, e))) (λ m apart. o.filled m);
      }
