-- ===== src/Net/Calls/Kept.antt =====
-- Each act of the task and of a call keeps what is known of the answers.
use prim.Prelude.{
  ℕ, ◌+◌, ◌<◌, ◌≡◌, refl, sym, ◌∙◌, ap, subst, ◌⊎◌, inl, inr, Bool, true, false, Option, none, some,
  List, [], ◌∷◌, ◌++◌, ◌==◌, ==_iff, Bool-cases, Option-cases, arith, if_lem,
}
use prim.Prelude.Dict.{Dict, lookup, insert, erase, lookup-insert_ne}
use prim.External.ByteOrder.{ByteOrder}
use prim.Entity.Reqwest
use prim.Entity.Reqwest.{ReqwestMsg}
use prim.Net.Calls.{Answer, response, Call, Channel, poll}
use prim.Net.Calls.Link.{
  Variant, single, shared, Side, Delivery, idle, halfway, update, Link, queue, is_response,
  channel_of, begin, finish_delivery, resolve, make_call, poll_call, take_from, written, receive,
  wake, fill_slot, new_call,
}
use prim.Net.Calls.Step.{write_done}
use prim.Net.Calls.Sound.{
  update_id, HandlesBelow, Earned, answered, Sound, update_lem, Sound-update, Sound-erase,
  Sound-arrived, Sound-halfway, Sound-idle,
}

-- What a poll leaves of a call.
pub record Leaves (c c' : Call) : Type 0 where
  pub same_id : c'.req_id ≡ c.req_id
  pub from_slot : (a : Answer) → c'.slot ≡ some a → c.slot ≡ some a
  pub from_result : (a : Answer) → c'.result ≡ some a → (c.result ≡ some a) ⊎ (c.slot ≡ some a)

pub poll-Leaves : (channel : Channel) (c : Call) → Leaves c (poll channel c).0
unfolding poll
poll-Leaves channel c = record {
  same_id = ground arith;
  from_slot = λ a e. ground arith;
  from_result = λ a e. ground arith;
}

HandlesBelow-queue :
    (next n : ℕ) (queued : Option ReqwestMsg) (outbox : List (ReqwestMsg × Option ℕ))
    → n < next
    → HandlesBelow next outbox
    → HandlesBelow next (queue n queued outbox)
HandlesBelow-queue next n none outbox below h = h
HandlesBelow-queue next n (some req) [] below h = (below, tt)
HandlesBelow-queue next n (some req) ((r, none) ∷ rest) below h =
    HandlesBelow-queue next n (some req) rest below h
HandlesBelow-queue next n (some req) ((r, some m) ∷ rest) below h =
    (h.0, HandlesBelow-queue next n (some req) rest below h.1)

pub HandlesBelow-answer :
    (next : ℕ) (req : ReqwestMsg) (outbox : List (ReqwestMsg × Option ℕ))
    → HandlesBelow next outbox
    → HandlesBelow next (outbox ++ (req, none) ∷ [])
HandlesBelow-answer next req [] h = tt
HandlesBelow-answer next req ((r, none) ∷ rest) h = HandlesBelow-answer next req rest h
HandlesBelow-answer next req ((r, some m) ∷ rest) h = (h.0, HandlesBelow-answer next req rest h.1)

HandlesBelow-suc :
    (next : ℕ) (outbox : List (ReqwestMsg × Option ℕ))
    → HandlesBelow next outbox
    → HandlesBelow (next + 1) outbox
HandlesBelow-suc next [] h = tt
HandlesBelow-suc next ((r, none) ∷ rest) h = HandlesBelow-suc next rest h
HandlesBelow-suc next ((r, some m) ∷ rest) h = (omega (arith, h.0), HandlesBelow-suc next rest h.1)

module _ ⦃bo : ByteOrder⦄ where
  abbrev pub IsSound : Link → Type 0
  IsSound l = Sound l.calls l.next l.outbox l.table l.delivery l.arrived

  pub poll_call-Sound : (n : ℕ) (l : Link) → n < l.next → IsSound l → IsSound (poll_call n l)
  unfolding poll_call
  poll_call-Sound n l below s =
      let c = record (l.calls n) { woken = false } in
      let left = poll-Leaves (channel_of l) c in
      let s' =
        Sound-update l.calls l.next l.outbox l.table l.delivery l.arrived s n
          (poll (channel_of l) c).0 left.same_id (λ a e. s.slots n a (left.from_slot a e))
          (λ a e. elim (left.from_result a e) [
            | inl was ↦ s.results n a was
            | inr slot ↦ s.slots n a slot
          ]) in
      record {
        slots = s'.slots;
        results = s'.results;
        entries = s'.entries;
        half = s'.half;
        handles = HandlesBelow-queue l.next n (poll (channel_of l) c).1 l.outbox below s.handles;
      }

  pub wake-Sound : (n : ℕ) (l : Link) → IsSound l → IsSound (wake n l)
  wake-Sound n l s =
      Sound-update l.calls l.next l.outbox l.table l.delivery l.arrived s n
        (record (l.calls n) { woken = true }) refl (s.slots n) (s.results n)

  fill_slot-Sound :
      (n : ℕ) (a : Answer) (l : Link)
      → Earned l.arrived (l.calls n).req_id a
      → IsSound l
      → IsSound (fill_slot n a l)
  fill_slot-Sound n a l earned s =
      Sound-update l.calls l.next l.outbox l.table l.delivery l.arrived s n
        (record (l.calls n) { slot = some a }) refl
        (λ b e. subst (λ x. Earned l.arrived (l.calls n).req_id x) (ground (arith, e)) earned)
        (s.results n)

  begin-Sound :
      (variant : Variant) (n : ℕ) (a : Answer) (l : Link)
      → Earned l.arrived (l.calls n).req_id a
      → n < l.next
      → IsSound l
      → IsSound (begin variant n a l)
  unfolding begin
  begin-Sound single n a l earned below s =
      Sound-halfway _ l.next l.outbox l.table l.delivery l.arrived (wake-Sound n l s) n a
        (subst (λ i. Earned l.arrived i a) (sym (update_id l.calls n _ refl n)) earned) below
  begin-Sound shared n a l earned below s =
      Sound-halfway _ l.next l.outbox l.table l.delivery l.arrived (fill_slot-Sound n a l earned s)
        n a (subst (λ i. Earned l.arrived i a) (sym (update_id l.calls n _ refl n)) earned) below

  pub resolve-Sound :
      (variant : Variant) (id : ℕ) (a : Answer) (l : Link)
      → Earned l.arrived id a
      → IsSound l
      → IsSound (resolve variant id a l)
  unfolding resolve
  resolve-Sound variant id a l earned s = elim (Option-cases (lookup id l.table)) [
    | inl absent ↦ rw (resolve, absent) s
    | inr (n, there) ↦
        let (is_id, below) = s.entries id n there in
        rw (resolve, there)
          (begin-Sound variant n a (record l { table = erase id l.table })
            (subst (λ i. Earned l.arrived i a) (sym is_id) earned) below
            (Sound-erase l.calls l.next l.outbox l.table l.delivery l.arrived s id))
  ]

  pub finish_delivery-Sound :
      (variant : Variant) (delivery : Delivery) (l : Link)
      → l.delivery ≡ delivery
      → IsSound l
      → IsSound (finish_delivery variant delivery l)
  unfolding finish_delivery
  finish_delivery-Sound variant idle l e s = s
  finish_delivery-Sound single (halfway n a) l e s =
      Sound-idle _ l.next l.outbox l.table l.delivery l.arrived
        (fill_slot-Sound n a l (s.half n a e).0 s)
  finish_delivery-Sound shared (halfway n a) l e s =
      Sound-idle _ l.next l.outbox l.table l.delivery l.arrived (wake-Sound n l s)

  pub receive-Sound :
      (variant : Variant) (side : Side) (msg : ReqwestMsg) (l : Link)
      → IsSound l
      → IsSound (receive variant side msg l)
  unfolding receive
  receive-Sound variant side msg l s = elim (Option-cases (Reqwest.req_id msg)) [
    | inl short ↦ rw (receive, short) s
    | inr (id, has_id) ↦
        let s' = Sound-arrived l.calls l.next l.outbox l.table l.delivery l.arrived s msg in
        rw (receive, has_id)
          (if_lem IsSound (is_response side id) _ _
            (λ answer.
              resolve-Sound variant id (response msg) (record l { arrived = msg ∷ l.arrived })
                (answered msg has_id (inl refl)) s')
            (λ request. s'))
  ]

  pub make_call-Sound :
      (id : ℕ) (req : ReqwestMsg) (l : Link) → IsSound l → IsSound (make_call id req l)
  unfolding make_call
  make_call-Sound id req l s =
      let fresh : (m : ℕ) → m < l.next → update l.calls l.next (new_call id req) m ≡ l.calls m =
        λ m below. ground (arith, below) in
      record {
        slots =
            update_lem (λ m k. (a : Answer) → k.slot ≡ some a → Earned l.arrived k.req_id a) l.calls
              l.next (new_call id req) (λ a e. absurd (ground (arith, e))) (λ m apart. s.slots m);
        results =
            update_lem (λ m k. (a : Answer) → k.result ≡ some a → Earned l.arrived k.req_id a)
              l.calls l.next (new_call id req) (λ a e. absurd (ground (arith, e)))
              (λ m apart. s.results m);
        entries = λ k m e.
            let (is_id, below) = s.entries k m e in
            (ap (λ (c : Call). c.req_id) (fresh m below) ∙ is_id, omega (arith, below));
        half = λ m a e.
            let (earned, below) = s.half m a e in
            (
              subst (λ (c : Call). Earned l.arrived c.req_id a) (sym (fresh m below)) earned,
              omega (arith, below),
            );
        handles = HandlesBelow-suc l.next l.outbox s.handles;
      }

  entries_insert :
      (calls : ℕ → Call) (next : ℕ) (table : Dict ℕ) (n : ℕ)
      → n < next
      → ((id m : ℕ) → lookup id table ≡ some m → ((calls m).req_id ≡ id) × (m < next))
      → (id m : ℕ) → lookup id (insert (calls n).req_id n table) ≡ some m
      → ((calls m).req_id ≡ id) × (m < next)
  entries_insert calls next table n below old id m e = elim (Bool-cases (id == (calls n).req_id)) [
    | inl same ↦
        let is_n : n ≡ m = ground (arith, e, same) in
        (
          subst (λ k. (calls k).req_id ≡ id) is_n (sym ((==_iff id (calls n).req_id).0 same)),
          subst (λ k. k < next) is_n below,
        )
    | inr apart ↦
        old id m (sym (lookup-insert_ne id (calls n).req_id n table (ground (arith, apart))) ∙ e)
  ]

  pub take_from-Sound :
      (l : Link) (outbox : List (ReqwestMsg × Option ℕ))
      → Sound l.calls l.next outbox l.table l.delivery l.arrived
      → IsSound l
      → IsSound (take_from outbox l)
  unfolding take_from
  take_from-Sound l [] s' s = s
  take_from-Sound l ((req, none) ∷ rest) s' s = record {
    slots = s.slots;
    results = s.results;
    entries = s.entries;
    half = s.half;
    handles = s'.handles;
  }
  take_from-Sound l ((req, some n) ∷ rest) s' s = record {
    slots = s.slots;
    results = s.results;
    entries = entries_insert l.calls l.next l.table n s'.handles.0 s.entries;
    half = s.half;
    handles = s'.handles.1;
  }

  pub write_done-Sound :
      (variant : Variant) (ok : Bool) (external : Option (Option ℕ)) (l : Link)
      → IsSound l
      → IsSound (write_done variant ok external l)
  unfolding written
  write_done-Sound variant ok none l s = s
  write_done-Sound variant true (some external) l s = s
  write_done-Sound variant false (some external) l s = s
