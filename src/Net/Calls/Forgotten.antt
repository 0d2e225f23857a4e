-- ===== src/Net/Calls/Forgotten.antt =====
-- A call that sleeps and that nothing of the stream refers to is never polled again.
use prim.Prelude.{
  ℕ, ◌<◌, ◌≡◌, ◌≢◌, sym, ◌∙◌, subst, ◌==◌, ==_iff, inl, inr, Bool-cases, Option-cases, Bool, true,
  false, Option, none, some, List, [], ◌∷◌, arith, if_lem,
}
use prim.External.ByteOrder.{ByteOrder}
use prim.Entity.Reqwest
use prim.Entity.Reqwest.{ReqwestMsg}
use prim.Prelude.Dict.{Dict, lookup, erase, insert, lookup-insert_ne}
use prim.Net.Calls.{Answer, response, Call}
use prim.Net.Calls.Link.{
  Variant, single, shared, Side, Delivery, idle, halfway, update, Link, written, take_from, begin,
  resolve, finish_delivery, receive, is_response, make_call, poll_call, new_call, queue,
}
use prim.Net.Calls.Step.{write_done}
use prim.Net.Calls.Sound.{lookup-erase-some, halfway-inj}
use prim.Net.Calls.Once.{IsSent, IsAbsent, IsAbsent-append}

-- The call was sent, sleeps and has not returned.
abbrev pub IsAsleep : Call → Type 0
IsAsleep c = (c.woken ≡ false) × (c.result ≡ none) × IsSent c

pub record Forgotten (n : ℕ) (calls : ℕ → Call) (next : ℕ) (outbox : List (ReqwestMsg × Option ℕ))
    (table : Dict ℕ) (delivery : Delivery) : Type 0 where
  pub asleep : IsAsleep (calls n)
  pub made : n < next
  pub absent : IsAbsent n outbox
  pub unlisted : (id : ℕ) → lookup id table ≢ some n
  pub not_half : (a : Answer) → delivery ≢ halfway n a

abbrev pub IsForgotten : ℕ → Link → Type 0
IsForgotten n l = Forgotten n l.calls l.next l.outbox l.table l.delivery

-- A change of another call.
update-IsAsleep :
    (calls : ℕ → Call) (m n : ℕ) (c : Call)
    → m ≢ n
    → IsAsleep (calls n)
    → IsAsleep (update calls m c n)
update-IsAsleep calls m n c apart h =
    if_lem IsAsleep (n == m) c (calls n) (λ e. absurd (apart (sym ((==_iff n m).0 e)))) (λ e. h)

IsAbsent-queue :
    (m n : ℕ) (queued : Option ReqwestMsg) (outbox : List (ReqwestMsg × Option ℕ))
    → m ≢ n
    → IsAbsent n outbox
    → IsAbsent n (queue m queued outbox)
IsAbsent-queue m n none outbox apart h = h
IsAbsent-queue m n (some req) outbox apart h = IsAbsent-append n m req outbox apart h

module _ (n : ℕ) where
  pub update-Forgotten :
      (m : ℕ) (c : Call) (l : Link)
      → m ≢ n
      → IsForgotten n l
      → Forgotten n (update l.calls m c) l.next l.outbox l.table l.delivery
  update-Forgotten m c l apart f = record {
    asleep = update-IsAsleep l.calls m n c apart f.asleep;
    made = f.made;
    absent = f.absent;
    unlisted = f.unlisted;
    not_half = f.not_half;
  }

  pub poll_call-Forgotten :
      (m : ℕ) (l : Link) → m ≢ n → IsForgotten n l → IsForgotten n (poll_call m l)
  unfolding poll_call
  poll_call-Forgotten m l apart f = record {
    asleep = update-IsAsleep l.calls m n _ apart f.asleep;
    made = f.made;
    absent = IsAbsent-queue m n _ l.outbox apart f.absent;
    unlisted = f.unlisted;
    not_half = f.not_half;
  }

  delivery-Forgotten :
      (calls : ℕ → Call) (l : Link) (table : Dict ℕ) (delivery : Delivery)
      → Forgotten n calls l.next l.outbox table l.delivery
      → ((a : Answer) → delivery ≢ halfway n a)
      → Forgotten n calls l.next l.outbox table delivery
  delivery-Forgotten calls l table delivery f not_half = record {
    asleep = f.asleep;
    made = f.made;
    absent = f.absent;
    unlisted = f.unlisted;
    not_half = not_half;
  }

  erase-Forgotten :
      (id : ℕ) (l : Link) → IsForgotten n l → IsForgotten n (record l { table = erase id l.table })
  erase-Forgotten id l f = record {
    asleep = f.asleep;
    made = f.made;
    absent = f.absent;
    unlisted = λ k e. f.unlisted k (lookup-erase-some k id n l.table e);
    not_half = f.not_half;
  }

  begin-Forgotten :
      (variant : Variant) (m : ℕ) (a : Answer) (l : Link)
      → m ≢ n
      → IsForgotten n l
      → IsForgotten n (begin variant m a l)
  unfolding begin
  begin-Forgotten single m a l apart f =
      delivery-Forgotten _ l l.table (halfway m a) (update-Forgotten m _ l apart f)
        (λ b e. apart (halfway-inj m n a b e).0)
  begin-Forgotten shared m a l apart f =
      delivery-Forgotten _ l l.table (halfway m a) (update-Forgotten m _ l apart f)
        (λ b e. apart (halfway-inj m n a b e).0)

  pub resolve-Forgotten :
      (variant : Variant) (id : ℕ) (a : Answer) (l : Link)
      → IsForgotten n l
      → IsForgotten n (resolve variant id a l)
  unfolding resolve
  resolve-Forgotten variant id a l f = elim (Option-cases (lookup id l.table)) [
    | inl none_listed ↦ rw (resolve, none_listed) f
    | inr (m, there) ↦
        rw (resolve, there)
          (begin-Forgotten variant m a (record l { table = erase id l.table })
            (λ same. f.unlisted id (subst (λ k. lookup id l.table ≡ some k) same there))
            (erase-Forgotten id l f))
  ]

  pub finish_delivery-Forgotten :
      (variant : Variant) (delivery : Delivery) (l : Link)
      → l.delivery ≡ delivery
      → IsForgotten n l
      → IsForgotten n (finish_delivery variant delivery l)
  unfolding finish_delivery
  finish_delivery-Forgotten variant idle l e f = f
  finish_delivery-Forgotten single (halfway m a) l e f =
      let apart : m ≢ n = λ same. f.not_half a (subst (λ k. l.delivery ≡ halfway k a) same e) in
      delivery-Forgotten _ l l.table idle (update-Forgotten m _ l apart f)
        (λ b x. ground (arith, x))
  finish_delivery-Forgotten shared (halfway m a) l e f =
      let apart : m ≢ n = λ same. f.not_half a (subst (λ k. l.delivery ≡ halfway k a) same e) in
      delivery-Forgotten _ l l.table idle (update-Forgotten m _ l apart f)
        (λ b x. ground (arith, x))

  unlisted_insert :
      (id m : ℕ) (table : Dict ℕ)
      → m ≢ n
      → ((k : ℕ) → lookup k table ≢ some n)
      → (k : ℕ) → lookup k (insert id m table) ≢ some n
  unlisted_insert id m table apart h k e = elim (Bool-cases (k == id)) [
    | inl same ↦ apart (ground (arith, e, same))
    | inr other ↦ h k (sym (lookup-insert_ne k id m table (ground (arith, other))) ∙ e)
  ]

  pub take_from-Forgotten :
      (l : Link) (outbox : List (ReqwestMsg × Option ℕ))
      → IsAbsent n outbox
      → IsForgotten n l
      → IsForgotten n (take_from outbox l)
  unfolding take_from
  take_from-Forgotten l [] absent f = f
  take_from-Forgotten l ((req, none) ∷ rest) absent f = record {
    asleep = f.asleep;
    made = f.made;
    absent = absent;
    unlisted = f.unlisted;
    not_half = f.not_half;
  }
  take_from-Forgotten l ((req, some m) ∷ rest) absent f = record {
    asleep = f.asleep;
    made = f.made;
    absent = absent.1;
    unlisted = unlisted_insert (l.calls m).req_id m l.table absent.0 f.unlisted;
    not_half = f.not_half;
  }

  pub write_done-Forgotten :
      (variant : Variant) (ok : Bool) (external : Option (Option ℕ)) (l : Link)
      → IsForgotten n l
      → IsForgotten n (write_done variant ok external l)
  unfolding written
  write_done-Forgotten variant ok none l f = f
  write_done-Forgotten variant true (some external) l f = f
  write_done-Forgotten variant false (some external) l f = f

  pub make_call-Forgotten :
      (id : ℕ) (req : ReqwestMsg) (l : Link) → IsForgotten n l → IsForgotten n (make_call id req l)
  unfolding make_call
  make_call-Forgotten id req l f = record {
    asleep =
        update-IsAsleep l.calls l.next n (new_call id req) (λ same. omega (arith, f.made)) f.asleep;
    made = omega (arith, f.made);
    absent = f.absent;
    unlisted = f.unlisted;
    not_half = f.not_half;
  }

  module _ ⦃bo : ByteOrder⦄ where
    pub receive-Forgotten :
        (variant : Variant) (side : Side) (msg : ReqwestMsg) (l : Link)
        → IsForgotten n l
        → IsForgotten n (receive variant side msg l)
    unfolding receive
    receive-Forgotten variant side msg l f = elim (Option-cases (Reqwest.req_id msg)) [
      | inl short ↦ rw (receive, short) f
      | inr (id, has_id) ↦
          rw (receive, has_id)
            (if_lem (IsForgotten n) (is_response side id) _ _
              (λ answer.
                resolve-Forgotten variant id (response msg) (record l { arrived = msg ∷ l.arrived })
                  f)
              (λ request. f))
    ]
