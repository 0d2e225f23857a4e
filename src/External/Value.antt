-- ===== src/External/Value.antt =====
-- What the program relies on of `serde_json::Value`, which is not part of the repository: values of
-- JSON, with the operations that the handlers of server/api use. A string and a key are their bytes.
pub mod Model
use prim.Prelude.{ℕ, ◌≡◌, Bool, true, false, ◌&&◌, Option, none, some, List, [], ◌∷◌, ◌==◌}
use prim.External.ByteOrder.{Bytes}

-- `==` of strings
abbrev pub is_same : Bytes → Bytes → Bool
is_same [] [] = true
is_same (a ∷ s) (b ∷ t) = (a == b) && is_same s t
is_same [] (b ∷ t) = false
is_same (a ∷ s) [] = false

pub record JsonValue (Value : Type 0) : Type 0 where
  -- `json!` of null, a number, a string, a truth value and an object
  pub null : Value
  pub number : ℕ → Value
  pub text : Bytes → Value
  pub truth : Bool → Value
  pub object : List (Bytes × Value) → Value
  -- `as_object`, with the fields in the order in which they are visited
  pub as_object : Value → Option (List (Bytes × Value))
  -- `as_object`, and then `get` of a key or `insert` into the map
  pub get : Bytes → Value → Option Value
  pub insert : Bytes → Value → Value → Option Value
  pub as_str : Value → Option Bytes
  pub as_u64 : Value → Option ℕ
  -- `as_f64`, and then the cast `as u64`
  pub as_f64_u64 : Value → Option ℕ
  -- `serde_json::to_vec`
  pub to_vec : Value → Bytes
  pub as_str-text : (s : Bytes) → as_str (text s) ≡ some s
  pub get-object : (key : Bytes) (v : Value) → get key (object ((key, v) ∷ [])) ≡ some v
  pub get-insert :
      (key : Bytes) (v object changed : Value)
      → insert key v object ≡ some changed
      → get key changed ≡ some v
  pub get-null : (key : Bytes) → get key null ≡ none
