-- ===== src/External/Value/Model.antt =====
-- A value of `JsonValue` that runs in tests.
use prim.Prelude.{ℕ, ◌≡◌, refl, Bool, true, Option, none, some, List, [], ◌∷◌, if◌then◌else◌, arith}
use prim.External.ByteOrder.{Bytes}
use prim.External.Value.{is_same, JsonValue}

mutual
  pub data Tree : Type 0 where
    null : Tree
    number : ℕ → Tree
    text : Bytes → Tree
    truth : Bool → Tree
    object : Fields → Tree

  pub data Fields : Type 0 where
    empty : Fields
    field : Bytes → Tree → Fields → Fields

unfoldable pub fields_of : List (Bytes × Tree) → Fields
fields_of [] = empty
fields_of ((key, v) ∷ rest) = field key v (fields_of rest)

entries : Fields → List (Bytes × Tree)
entries empty = []
entries (field key v rest) = (key, v) ∷ entries rest

unfoldable get_field : Bytes → Fields → Option Tree
get_field key empty = none
get_field key (field k v rest) = if is_same k key then some v else get_field key rest

unfoldable pub get : Bytes → Tree → Option Tree
unfolding get_field
get key (object fields) = get_field key fields
get key _ = none

unfoldable pub insert : Bytes → Tree → Tree → Option Tree
insert key v (object fields) = some (object (field key v fields))
insert key v _ = none

is_same_refl : (s : Bytes) → is_same s s ≡ true
is_same_refl [] = refl
is_same_refl (a ∷ s) = ground (arith, is_same_refl s)

pub get-object : (key : Bytes) (v : Tree) → get key (object (fields_of ((key, v) ∷ []))) ≡ some v
unfolding get get_field fields_of
get-object key v = ground (arith, is_same_refl key)

pub get-insert :
    (key : Bytes) (v before changed : Tree)
    → insert key v before ≡ some changed
    → get key changed ≡ some v
unfolding get get_field insert
get-insert key v (object fields) changed e = ground (arith, is_same_refl key, e)
get-insert key v null changed e = absurd (ground (arith, e))
get-insert key v (number n) changed e = absurd (ground (arith, e))
get-insert key v (text s) changed e = absurd (ground (arith, e))
get-insert key v (truth b) changed e = absurd (ground (arith, e))

instance unfoldable pub trees : JsonValue Tree
unfolding get get_field insert fields_of entries
trees = record {
  null = null;
  number = number;
  text = text;
  truth = truth;
  object = λ fields. object (fields_of fields);
  as_object = λ v. elim v [ object fields ↦ some (entries fields) | _ ↦ none ];
  get = get;
  insert = insert;
  as_str = λ v. elim v [ text s ↦ some s | _ ↦ none ];
  as_u64 = λ v. elim v [ number n ↦ some n | _ ↦ none ];
  as_f64_u64 = λ v. elim v [ number n ↦ some n | _ ↦ none ];
  to_vec = λ v. [];
  as_str-text = λ s. refl;
  get-object = get-object;
  get-insert = get-insert;
  get-null = λ key. refl;
}
