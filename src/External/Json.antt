-- ===== src/External/Json.antt =====
-- What the program relies on of the crate `serde_json`, for a type that derives `Serialize` and
-- `Deserialize`: the values that have an image in JSON are written and read back.
use prim.Prelude.{◌≡◌, Option, some}
use prim.External.ByteOrder.{Bytes}

pub record Json {A : Type 0} (HasImage : A → Type 0) : Type 0 where
  pub to_vec : A → Option Bytes
  pub from_slice : Bytes → Option A
  pub from_slice-to_vec :
      (a : A) → HasImage a → (bs : Bytes) × (to_vec a ≡ some bs) × (from_slice bs ≡ some a)
