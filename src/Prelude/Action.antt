-- ===== src/Prelude/Action.antt =====
-- Handlers: a state, an error of anyhow, and a panic. What was changed before an error or a panic
-- stays changed.
use mathlib.Core.Path.{◌≡◌}
use mathlib.Core.Bool.{Bool, true, false}
use mathlib.Core.Option.{Option, none, some}
use prim.Prelude.Tests.{if◌then◌else◌, if_lem}

pub data Result (E A : Type 0) : Type 0 where
  ok : A → Result E A
  err : E → Result E A
  panicked : Result E A

abbrev pub Action : Type 0 → Type 0 → Type 0 → Type 0
Action S E A = S → Result E A × S

module _ {S E A : Type 0} where
  unfoldable pub pure : A → Action S E A
  pure a s = (ok a, s)

  unfoldable pub raise : E → Action S E A
  raise e s = (err e, s)

  unfoldable pub panic : Action S E A
  panic s = (panicked, s)

  unfoldable pub gets : (S → A) → Action S E A
  gets f s = (ok (f s), s)

  -- `unwrap`
  unfoldable pub unwrap : Option A → Action S E A
  unfolding pure panic
  unwrap none = panic
  unwrap (some a) = pure a

module _ {S E : Type 0} where
  unfoldable pub modify : (S → S) → Action S E (Unit {0})
  modify f s = (ok tt, f s)

module _ {S E A B : Type 0} where
  abbrev pub continue : Result E A × S → (A → Action S E B) → Result E B × S
  continue (ok a, s) f = f a s
  continue (err e, s) f = (err e, s)
  continue (panicked, s) f = (panicked, s)

  infixl 5 ◌>>=◌
  unfoldable pub ◌>>=◌ : Action S E A → (A → Action S E B) → Action S E B
  unfolding pure raise panic gets unwrap modify
  ◌>>=◌ m f s = continue (m s) f

-- What holds of the state before an action holds after it, however it ends.
pub record Keeps {S E A : Type 0} (Inv : S → Type 0) (action : Action S E A) : Type 0 where
  pub at : (before : S) → Inv before → Inv (action before).1

module _ {S E A B : Type 0} {Inv : S → Type 0} where
  continue-Keeps :
      (r : Result E A × S) (f : A → Action S E B)
      → Inv r.1
      → ((a : A) → Keeps Inv (f a))
      → Inv (continue r f).1
  continue-Keeps (ok a, s) f inv k = (k a).at s inv
  continue-Keeps (err e, s) f inv k = inv
  continue-Keeps (panicked, s) f inv k = inv

  pub Keeps-bind :
      (action : Action S E A) (f : A → Action S E B)
      → Keeps Inv action
      → ((a : A) → Keeps Inv (f a))
      → Keeps Inv (action >>= f)
  unfolding ◌>>=◌
  Keeps-bind action f first later = record {
    at = λ before inv. continue-Keeps (action before) f (first.at before inv) later;
  }

module _ {S E A : Type 0} {Inv : S → Type 0} where
  pub Keeps-unwrap : (o : Option A) → Keeps {E = E} Inv (unwrap o)
  unfolding unwrap
  Keeps-unwrap none = record { at = λ before inv. inv }
  Keeps-unwrap (some a) = record { at = λ before inv. inv }

  pub Keeps-if :
      (test : Bool) (x y : Action S E A)
      → (test ≡ true → Keeps Inv x)
      → (test ≡ false → Keeps Inv y)
      → Keeps Inv (if test then x else y)
  Keeps-if test x y p q = if_lem (Keeps Inv) test x y p q

  pub Keeps-raise : (error : E) → Keeps Inv (raise {A = A} error)
  unfolding raise
  Keeps-raise error = record { at = λ before inv. inv }

  pub Keeps-gets : (view : S → A) → Keeps {E = E} Inv (gets view)
  unfolding gets
  Keeps-gets view = record { at = λ before inv. inv }

  pub Keeps-pure : (result : A) → Keeps {E = E} Inv (pure result)
  unfolding pure
  Keeps-pure result = record { at = λ before inv. inv }

pub ruleset keeps_rules = (Keeps-unwrap, Keeps-if, Keeps-bind, Keeps-pure, Keeps-raise, Keeps-gets)
