-- ===== src/External/ByteOrder.antt =====
-- What the program relies on of the crate `byteorder`: `BigEndian::read_uN` and `write_uN`, which
-- is not part of the repository. The width is given in bytes; a slice holds exactly that many.
pub mod Model
use prim.Prelude.{ℕ, ◌^◌, ◌<◌, ◌≡◌, List, [], ◌∷◌, length}

abbrev pub Bytes : Type 0
Bytes = List ℕ

-- Every element is a byte.
abbrev pub IsBytes : Bytes → Type 0
IsBytes [] = Unit {0}
IsBytes (b ∷ bs) = (b < 256) × IsBytes bs

pub record ByteOrder : Type 0 where
  pub read : ℕ → Bytes → ℕ
  pub write : ℕ → ℕ → Bytes
  -- `write_uN` fills its slice.
  pub length-write : (w n : ℕ) → length (write w n) ≡ w
  pub write-IsBytes : (w n : ℕ) → IsBytes (write w n)
  -- The result of `read_uN` is an unsigned integer of that width.
  pub read-lt : (w : ℕ) (bs : Bytes) → read w bs < 256 ^ w
  -- Reading and writing are inverse.
  pub read-write : (w n : ℕ) → n < 256 ^ w → read w (write w n) ≡ n
  pub write-read : (w : ℕ) (bs : Bytes) → length bs ≡ w → IsBytes bs → write w (read w bs) ≡ bs
