-- ===== src/Net/Calls/Once.antt =====
-- A request goes into the channel once, and its call waits for an answer only afterwards.
use prim.Prelude.{
  ℕ, ◌≡◌, sym, subst, ◌≢◌, true, false, Option, none, some, List, [], ◌∷◌, ◌++◌, arith,
}
use prim.Prelude.Dict.{Dict, lookup, erase}
use prim.Entity.Reqwest.{ReqwestMsg}
use prim.Net.Calls.{Answer, Call}
use prim.Net.Calls.Link.{Delivery, idle, halfway, update}
use prim.Net.Calls.Sound.{HandlesBelow, update_lem, halfway-inj, lookup-erase-some}

abbrev pub IsSent : Call → Type 0
IsSent c = (c.sender_task_done ≡ true) × (c.sender_task ≡ none)

abbrev pub AllSent : (ℕ → Call) → List (ReqwestMsg × Option ℕ) → Type 0
AllSent calls [] = Unit {0}
AllSent calls ((req, none) ∷ rest) = AllSent calls rest
AllSent calls ((req, some n) ∷ rest) = IsSent (calls n) × AllSent calls rest

abbrev pub IsAbsent : ℕ → List (ReqwestMsg × Option ℕ) → Type 0
IsAbsent n [] = Unit {0}
IsAbsent n ((req, none) ∷ rest) = IsAbsent n rest
IsAbsent n ((req, some m) ∷ rest) = (m ≢ n) × IsAbsent n rest

abbrev pub AreDistinct : List (ReqwestMsg × Option ℕ) → Type 0
AreDistinct [] = Unit {0}
AreDistinct ((req, none) ∷ rest) = AreDistinct rest
AreDistinct ((req, some n) ∷ rest) = IsAbsent n rest × AreDistinct rest

pub record Once (calls : ℕ → Call) (outbox : List (ReqwestMsg × Option ℕ)) (table : Dict ℕ)
    (delivery : Delivery) : Type 0 where
  pub queued : AllSent calls outbox
  pub distinct : AreDistinct outbox
  pub listed : (id n : ℕ) → lookup id table ≡ some n → IsSent (calls n) × IsAbsent n outbox
  pub half : (n : ℕ) (a : Answer) → delivery ≡ halfway n a → IsSent (calls n)
  pub filled : (n : ℕ) (a : Answer) → (calls n).slot ≡ some a → IsSent (calls n)

AllSent-update :
    (calls : ℕ → Call) (n : ℕ) (c : Call) (outbox : List (ReqwestMsg × Option ℕ))
    → ((m : ℕ) → IsSent (calls m) → IsSent (update calls n c m))
    → AllSent calls outbox
    → AllSent (update calls n c) outbox
AllSent-update calls n c [] keep h = tt
AllSent-update calls n c ((req, none) ∷ rest) keep h = AllSent-update calls n c rest keep h
AllSent-update calls n c ((req, some m) ∷ rest) keep h =
    (keep m h.0, AllSent-update calls n c rest keep h.1)

-- A request that was not sent yet is not in the channel.
IsAbsent-unsent :
    (calls : ℕ → Call) (n : ℕ) (outbox : List (ReqwestMsg × Option ℕ))
    → AllSent calls outbox
    → (calls n).sender_task_done ≡ false
    → IsAbsent n outbox
IsAbsent-unsent calls n [] h unsent = tt
IsAbsent-unsent calls n ((req, none) ∷ rest) h unsent = IsAbsent-unsent calls n rest h unsent
IsAbsent-unsent calls n ((req, some m) ∷ rest) h unsent = (
  λ same. cc (subst (λ k. (calls k).sender_task_done ≡ true) same h.0.0),
  IsAbsent-unsent calls n rest h.1 unsent,
)

pub IsAbsent-below :
    (next : ℕ) (outbox : List (ReqwestMsg × Option ℕ))
    → HandlesBelow next outbox
    → IsAbsent next outbox
IsAbsent-below next [] h = tt
IsAbsent-below next ((req, none) ∷ rest) h = IsAbsent-below next rest h
IsAbsent-below next ((req, some m) ∷ rest) h = (λ same. omega arith, IsAbsent-below next rest h.1)

pub IsAbsent-append :
    (n m : ℕ) (req : ReqwestMsg) (outbox : List (ReqwestMsg × Option ℕ))
    → m ≢ n
    → IsAbsent n outbox
    → IsAbsent n (outbox ++ (req, some m) ∷ [])
IsAbsent-append n m req [] apart h = (apart, tt)
IsAbsent-append n m req ((r, none) ∷ rest) apart h = IsAbsent-append n m req rest apart h
IsAbsent-append n m req ((r, some k) ∷ rest) apart h = (h.0, IsAbsent-append n m req rest apart h.1)

pub IsAbsent-answer :
    (n : ℕ) (req : ReqwestMsg) (outbox : List (ReqwestMsg × Option ℕ))
    → IsAbsent n outbox
    → IsAbsent n (outbox ++ (req, none) ∷ [])
IsAbsent-answer n req [] h = tt
IsAbsent-answer n req ((r, none) ∷ rest) h = IsAbsent-answer n req rest h
IsAbsent-answer n req ((r, some k) ∷ rest) h = (h.0, IsAbsent-answer n req rest h.1)

AllSent-answer :
    (calls : ℕ → Call) (req : ReqwestMsg) (outbox : List (ReqwestMsg × Option ℕ))
    → AllSent calls outbox
    → AllSent calls (outbox ++ (req, none) ∷ [])
AllSent-answer calls req [] h = tt
AllSent-answer calls req ((r, none) ∷ rest) h = AllSent-answer calls req rest h
AllSent-answer calls req ((r, some k) ∷ rest) h = (h.0, AllSent-answer calls req rest h.1)

AreDistinct-answer :
    (req : ReqwestMsg) (outbox : List (ReqwestMsg × Option ℕ))
    → AreDistinct outbox
    → AreDistinct (outbox ++ (req, none) ∷ [])
AreDistinct-answer req [] h = tt
AreDistinct-answer req ((r, none) ∷ rest) h = AreDistinct-answer req rest h
AreDistinct-answer req ((r, some k) ∷ rest) h =
    (IsAbsent-answer k req rest h.0, AreDistinct-answer req rest h.1)

AllSent-append :
    (calls : ℕ → Call) (n : ℕ) (req : ReqwestMsg) (outbox : List (ReqwestMsg × Option ℕ))
    → IsSent (calls n)
    → AllSent calls outbox
    → AllSent calls (outbox ++ (req, some n) ∷ [])
AllSent-append calls n req [] sent h = (sent, tt)
AllSent-append calls n req ((r, none) ∷ rest) sent h = AllSent-append calls n req rest sent h
AllSent-append calls n req ((r, some k) ∷ rest) sent h =
    (h.0, AllSent-append calls n req rest sent h.1)

AreDistinct-append :
    (n : ℕ) (req : ReqwestMsg) (outbox : List (ReqwestMsg × Option ℕ))
    → IsAbsent n outbox
    → AreDistinct outbox
    → AreDistinct (outbox ++ (req, some n) ∷ [])
AreDistinct-append n req [] absent h = (tt, tt)
AreDistinct-append n req ((r, none) ∷ rest) absent h = AreDistinct-append n req rest absent h
AreDistinct-append n req ((r, some k) ∷ rest) absent h = (
  IsAbsent-append k n req rest (λ same. absent.0 (sym same)) h.0,
  AreDistinct-append n req rest absent.1 h.1,
)

module _ (calls : ℕ → Call) (outbox : List (ReqwestMsg × Option ℕ)) (table : Dict ℕ)
    (delivery : Delivery) (o : Once calls outbox table delivery) where
  -- One call changes, and what was sent stays so.
  pub Once-update :
      (n : ℕ) (c : Call)
      → (IsSent (calls n) → IsSent c)
      → ((a : Answer) → c.slot ≡ some a → IsSent c)
      → Once (update calls n c) outbox table delivery
  Once-update n c keep slot =
      let keeps : (m : ℕ) → IsSent (calls m) → IsSent (update calls n c m) =
        update_lem (λ m k. IsSent (calls m) → IsSent k) calls n c keep (λ m apart sent. sent) in
      record {
        queued = AllSent-update calls n c outbox keeps o.queued;
        distinct = o.distinct;
        listed = λ id m e. (keeps m (o.listed id m e).0, (o.listed id m e).1);
        half = λ m a e. keeps m (o.half m a e);
        filled =
            update_lem (λ m k. (a : Answer) → k.slot ≡ some a → IsSent k) calls n c slot
              (λ m apart. o.filled m);
      }

  pub Once-erase : (id : ℕ) → Once calls outbox (erase id table) delivery
  Once-erase id = record {
    queued = o.queued;
    distinct = o.distinct;
    listed = λ k n e. o.listed k n (lookup-erase-some k id n table e);
    half = o.half;
    filled = o.filled;
  }

  pub Once-halfway : (n : ℕ) (a : Answer) → IsSent (calls n) → Once calls outbox table (halfway n a)
  Once-halfway n a sent = record {
    queued = o.queued;
    distinct = o.distinct;
    listed = o.listed;
    half = λ m b e. subst (λ k. IsSent (calls k)) (halfway-inj n m a b e).0 sent;
    filled = o.filled;
  }

  pub Once-idle : Once calls outbox table idle
  Once-idle = record {
    queued = o.queued;
    distinct = o.distinct;
    listed = o.listed;
    half = λ m b e. absurd (ground (arith, e));
    filled = o.filled;
  }

  pub Once-answer : (req : ReqwestMsg) → Once calls (outbox ++ (req, none) ∷ []) table delivery
  Once-answer req = record {
    queued = AllSent-answer calls req outbox o.queued;
    distinct = AreDistinct-answer req outbox o.distinct;
    listed = λ id n e. ((o.listed id n e).0, IsAbsent-answer n req outbox (o.listed id n e).1);
    half = o.half;
    filled = o.filled;
  }

  -- A request that was not sent before goes into the channel.
  pub Once-queue :
      (n : ℕ) (req : ReqwestMsg) (c : Call)
      → (calls n).sender_task_done ≡ false
      → IsSent c
      → Once (update calls n c) (outbox ++ (req, some n) ∷ []) table delivery
  Once-queue n req c unsent sent =
      let u = Once-update n c (λ before. sent) (λ a e. sent) in
      let self : IsSent (update calls n c n) = ground (arith, sent) in
      record {
        queued = AllSent-append (update calls n c) n req outbox self u.queued;
        distinct =
            AreDistinct-append n req outbox (IsAbsent-unsent calls n outbox o.queued unsent)
              o.distinct;
        listed = λ id m e. (
          (u.listed id m e).0,
          IsAbsent-append m n req outbox
              (λ same.
                cc
                  (subst (λ k. (calls k).sender_task_done ≡ true) (sym same) (o.listed id m e).0.0))
              (u.listed id m e).1,
        );
        half = u.half;
        filled = u.filled;
      }
