-- ===== src/Net/Calls/Sound.antt =====
-- Where the answers of calls come from.
use prim.Prelude.{
  ℕ, ◌<◌, ◌≡◌, refl, sym, ◌∙◌, ap, subst, ◌≢◌, ◌⊎◌, inl, inr, Option, none, some, List, [], ◌∷◌,
  ◌==◌, ==_iff, Bool-cases, arith, if_lem,
}
use prim.Prelude.Dict.{Dict, lookup, erase, lookup-erase_self, lookup-erase_ne}
use prim.External.ByteOrder.{ByteOrder}
use prim.Entity.Reqwest
use prim.Entity.Reqwest.{ReqwestMsg}
use prim.Net.Calls.{Answer, response, timeout, Call}
use prim.Net.Calls.Link.{Delivery, idle, halfway, update}

-- `msg` is one of the messages.
abbrev pub IsAmong : ReqwestMsg → List ReqwestMsg → Type 0
IsAmong msg [] = ⊥
IsAmong msg (m ∷ rest) = (m ≡ msg) ⊎ IsAmong msg rest

abbrev pub HandlesBelow : ℕ → List (ReqwestMsg × Option ℕ) → Type 0
HandlesBelow next [] = Unit {0}
HandlesBelow next ((req, none) ∷ rest) = HandlesBelow next rest
HandlesBelow next ((req, some n) ∷ rest) = (n < next) × HandlesBelow next rest

-- What holds of the new call and of the others holds of all.
pub update_lem :
    (P : ℕ → Call → Type 0) (calls : ℕ → Call) (n : ℕ) (c : Call)
    → P n c
    → ((m : ℕ) → m ≢ n → P m (calls m))
    → (m : ℕ) → P m (update calls n c m)
update_lem P calls n c new others m =
    if_lem (P m) (m == n) c (calls m) (λ e. subst (λ k. P k c) (sym ((==_iff m n).0 e)) new)
      (λ e. others m (ground arith))

pub halfway-inj : (n m : ℕ) (a b : Answer) → halfway n a ≡ halfway m b → (n ≡ m) × (a ≡ b)
halfway-inj n m a b e = ground (arith, e)

pub lookup-erase-some :
    (other key n : ℕ) (table : Dict ℕ)
    → lookup other (erase key table) ≡ some n
    → lookup other table ≡ some n
lookup-erase-some other key n table e = elim (Bool-cases (other == key)) [
  | inl same ↦ absurd (cc (lookup-erase_self key table, (==_iff other key).0 same))
  | inr apart ↦ sym (lookup-erase_ne other key table (ground arith)) ∙ e
]

module _ ⦃bo : ByteOrder⦄ where
  -- The time was up, or it is a message that has arrived with the id of the call.
  pub data Earned (arrived : List ReqwestMsg) (id : ℕ) : Answer → Type 0 where
    late : Earned arrived id timeout
    answered :
        (msg : ReqwestMsg)
        → Reqwest.req_id msg ≡ some id
        → IsAmong msg arrived
        → Earned arrived id (response msg)

  Earned-cons :
      (arrived : List ReqwestMsg) (id : ℕ) (a : Answer) (msg : ReqwestMsg)
      → Earned arrived id a
      → Earned (msg ∷ arrived) id a
  Earned-cons arrived id _ msg late = late
  Earned-cons arrived id _ msg (answered m e among) = answered m e (inr among)

  pub record Sound (calls : ℕ → Call) (next : ℕ) (outbox : List (ReqwestMsg × Option ℕ))
      (table : Dict ℕ) (delivery : Delivery) (arrived : List ReqwestMsg) : Type 0 where
    pub slots : (n : ℕ) (a : Answer) → (calls n).slot ≡ some a → Earned arrived (calls n).req_id a
    pub results :
        (n : ℕ) (a : Answer) → (calls n).result ≡ some a → Earned arrived (calls n).req_id a
    pub entries : (id n : ℕ) → lookup id table ≡ some n → ((calls n).req_id ≡ id) × (n < next)
    pub half :
        (n : ℕ) (a : Answer)
        → delivery ≡ halfway n a
        → Earned arrived (calls n).req_id a × (n < next)
    pub handles : HandlesBelow next outbox

  pub update_id :
      (calls : ℕ → Call) (n : ℕ) (c : Call)
      → c.req_id ≡ (calls n).req_id
      → (m : ℕ) → (update calls n c m).req_id ≡ (calls m).req_id
  update_id calls n c e m = elim (Bool-cases (m == n)) [
    | inl same ↦ rw same (e ∙ ap (λ k. (calls k).req_id) (sym ((==_iff m n).0 same)))
    | inr apart ↦ rw apart refl
  ]

  module _ (calls : ℕ → Call) (next : ℕ) (outbox : List (ReqwestMsg × Option ℕ)) (table : Dict ℕ)
      (delivery : Delivery) (arrived : List ReqwestMsg)
      (s : Sound calls next outbox table delivery arrived) where
    -- One call changes, and keeps its id.
    pub Sound-update :
        (n : ℕ) (c : Call)
        → c.req_id ≡ (calls n).req_id
        → ((a : Answer) → c.slot ≡ some a → Earned arrived (calls n).req_id a)
        → ((a : Answer) → c.result ≡ some a → Earned arrived (calls n).req_id a)
        → Sound (update calls n c) next outbox table delivery arrived
    Sound-update n c e slot result =
        let ids = update_id calls n c e in
        record {
          slots =
              update_lem (λ m k. (a : Answer) → k.slot ≡ some a → Earned arrived k.req_id a) calls n
                c (λ a f. subst (λ i. Earned arrived i a) (sym e) (slot a f))
                (λ m apart. s.slots m);
          results =
              update_lem (λ m k. (a : Answer) → k.result ≡ some a → Earned arrived k.req_id a) calls
                n c (λ a f. subst (λ i. Earned arrived i a) (sym e) (result a f))
                (λ m apart. s.results m);
          entries = λ id m f. (ids m ∙ (s.entries id m f).0, (s.entries id m f).1);
          half = λ m a f.
              (subst (λ i. Earned arrived i a) (sym (ids m)) (s.half m a f).0, (s.half m a f).1);
          handles = s.handles;
        }

    -- An entry leaves the table.
    pub Sound-erase : (id : ℕ) → Sound calls next outbox (erase id table) delivery arrived
    Sound-erase id = record {
      slots = s.slots;
      results = s.results;
      entries = λ k n f. s.entries k n (lookup-erase-some k id n table f);
      half = s.half;
      handles = s.handles;
    }

    pub Sound-arrived : (msg : ReqwestMsg) → Sound calls next outbox table delivery (msg ∷ arrived)
    Sound-arrived msg = record {
      slots = λ n a f. Earned-cons arrived _ a msg (s.slots n a f);
      results = λ n a f. Earned-cons arrived _ a msg (s.results n a f);
      entries = s.entries;
      half = λ n a f. (Earned-cons arrived _ a msg (s.half n a f).0, (s.half n a f).1);
      handles = s.handles;
    }

    pub Sound-halfway :
        (n : ℕ) (a : Answer)
        → Earned arrived (calls n).req_id a
        → n < next
        → Sound calls next outbox table (halfway n a) arrived
    Sound-halfway n a earned below = record {
      slots = s.slots;
      results = s.results;
      entries = s.entries;
      half = λ m b f.
          let (same, equal) = halfway-inj n m a b f in
          (
            subst (λ k. Earned arrived (calls k).req_id b) same
                (subst (λ x. Earned arrived (calls n).req_id x) equal earned),
            subst (λ k. k < next) same below,
          );
      handles = s.handles;
    }

    pub Sound-idle : Sound calls next outbox table idle arrived
    Sound-idle = record {
      slots = s.slots;
      results = s.results;
      entries = s.entries;
      half = λ m b f. absurd (ground (arith, f));
      handles = s.handles;
    }
