-- ===== src/Api/Yields.antt =====
-- Actions that keep what holds of the tables, and whose results have a property.
use prim.Prelude.{◌≡◌, refl, ◌⊎◌, inl, inr, Bool, true, false, Option, none, some}
use prim.Prelude.Action.{Result, ok, err, panicked, ◌>>=◌, pure, raise, unwrap, continue, Keeps}
use prim.External.ByteOrder.{Bytes}
use prim.Api.{Reason, HandlerError, Stop}
use prim.Api.Tables.{World, Handler, or_reply}
use prim.Api.Verify.{ensure, parsed}

abbrev pub Holds : {A : Type 0} → (A → Type 0) → Result Stop A → Type 0
Holds Post (ok a) = Post a
Holds Post (err e) = Unit {0}
Holds Post panicked = Unit {0}

-- An action that keeps what holds of the state, and whose result has a property.
pub record Yields {V A : Type 0} (Inv : World V → Type 0) (Post : A → Type 0) (action : Handler V A)
    : Type 0 where
  pub at : (before : World V) → Inv before → Inv (action before).1 × Holds Post (action before).0

-- The same of the runs from one state.
pub record YieldsFrom {V A : Type 0} (Inv : World V → Type 0) (Post : A → Type 0) (w : World V)
    (action : Handler V A) : Type 0 where
  pub at : Inv w → Inv (action w).1 × Holds Post (action w).0

pub record KeepsFrom {V A : Type 0} (Inv : World V → Type 0) (w : World V) (action : Handler V A)
    : Type 0 where
  pub at : Inv w → Inv (action w).1

module _ {V A B : Type 0} {Inv : World V → Type 0} where
  continue-Yields :
      (Post : A → Type 0) (r : Result Stop A × World V) (f : A → Handler V B)
      → Inv r.1
      → Holds Post r.0
      → ((a : A) → Post a → Keeps Inv (f a))
      → Inv (continue r f).1
  continue-Yields Post (ok a, w) f inv post k = (k a post).at w inv
  continue-Yields Post (err e, w) f inv post k = inv
  continue-Yields Post (panicked, w) f inv post k = inv

  -- The same of one state, where what is known of the result is about that state.
  pub YieldsFrom-bind :
      (Post : A → Type 0) (action : Handler V A) (f : A → Handler V B) (w : World V)
      → YieldsFrom Inv Post w action
      → ((a : A) → Post a → Keeps Inv (f a))
      → KeepsFrom Inv w (action >>= f)
  unfolding ◌>>=◌
  YieldsFrom-bind Post action f w first later = record {
    at =
        λ inv. let (kept, post) = first.at inv in continue-Yields Post (action w) f kept post later;
  }

  pub Yields-bind :
      (Post : A → Type 0) (action : Handler V A) (f : A → Handler V B)
      → Yields Inv Post action
      → ((a : A) → Post a → Keeps Inv (f a))
      → Keeps Inv (action >>= f)
  unfolding ◌>>=◌
  Yields-bind Post action f first later = record {
    at = λ w inv.
        let (kept, post) = first.at w inv in continue-Yields Post (action w) f kept post later;
  }

module _ {V : Type 0} {Inv : World V → Type 0} where
  pub unwrap-Yields : {A : Type 0} (o : Option A) → Yields Inv (λ a. o ≡ some a) (unwrap o)
  unfolding unwrap
  unwrap-Yields none = record { at = λ w inv. (inv, tt) }
  unwrap-Yields (some a) = record { at = λ w inv. (inv, refl) }

  pub or_reply-Yields :
      {A : Type 0} (o : Option A) (e : HandlerError) → Yields Inv (λ a. o ≡ some a) (or_reply o e)
  unfolding raise pure
  or_reply-Yields none e = record { at = λ w inv. (inv, tt) }
  or_reply-Yields (some a) e = record { at = λ w inv. (inv, refl) }

  pub parsed-Yields :
      {A : Type 0} (error : Reason → HandlerError) (sent : Bytes ⊎ A)
      → Yields Inv (λ a. sent ≡ inr a) (parsed error sent)
  unfolding raise pure
  parsed-Yields error (inl e) = record { at = λ w inv. (inv, tt) }
  parsed-Yields error (inr form) = record { at = λ w inv. (inv, refl) }

  pub ensure-Yields : (b : Bool) (e : HandlerError) → Yields Inv (λ x. b ≡ true) (ensure b e)
  unfolding raise pure
  ensure-Yields true e = record { at = λ w inv. (inv, refl) }
  ensure-Yields false e = record { at = λ w inv. (inv, tt) }

result-Unit : {A : Type 0} (r : Result Stop A) → Holds (λ a. Unit {0}) r
result-Unit (ok a) = tt
result-Unit (err e) = tt
result-Unit panicked = tt

module _ {V A : Type 0} {Inv : World V → Type 0} where
  Keeps-Yields : (action : Handler V A) → Keeps Inv action → Yields Inv (λ a. Unit {0}) action
  Keeps-Yields action k = record { at = λ w inv. (k.at w inv, result-Unit (action w).0) }

module _ {V A B : Type 0} {Inv : World V → Type 0} where
  continue-Later :
      (Post : A → Type 0) (Later : B → Type 0) (r : Result Stop A × World V) (f : A → Handler V B)
      → Inv r.1
      → Holds Post r.0
      → ((a : A) → Post a → Yields Inv Later (f a))
      → Inv (continue r f).1 × Holds Later (continue r f).0
  continue-Later Post Later (ok a, w) f inv post k = (k a post).at w inv
  continue-Later Post Later (err e, w) f inv post k = (inv, tt)
  continue-Later Post Later (panicked, w) f inv post k = (inv, tt)

  pub Yields-then :
      (Post : A → Type 0) (Later : B → Type 0) (action : Handler V A) (f : A → Handler V B)
      → Yields Inv Post action
      → ((a : A) → Post a → Yields Inv Later (f a))
      → Yields Inv Later (action >>= f)
  unfolding ◌>>=◌
  Yields-then Post Later action f first later = record {
    at = λ w inv.
        let (kept, post) = first.at w inv in continue-Later Post Later (action w) f kept post later;
  }

  pub Yields-after :
      (Post : B → Type 0) (action : Handler V A) (f : A → Handler V B)
      → Keeps Inv action
      → ((a : A) → Yields Inv Post (f a))
      → Yields Inv Post (action >>= f)
  Yields-after Post action f first later =
      Yields-then (λ a. Unit {0}) Post action f (Keeps-Yields action first) (λ a t. later a)

pub Holds-map :
    {A : Type 0} (Post Other : A → Type 0) (r : Result Stop A)
    → ((a : A) → Post a → Other a)
    → Holds Post r
    → Holds Other r
Holds-map Post Other (ok a) f h = f a h
Holds-map Post Other (err e) f h = tt
Holds-map Post Other panicked f h = tt
