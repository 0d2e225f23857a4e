-- ===== src/Entity/Reqwest.antt =====
-- `ReqwestMsg` of server/lib/src/entity/mod.rs and `impl ReqwestMsg` of entity/msg.rs: a length of
-- two bytes, a request id of eight, a resource id of two and the payload. `none` is a panic.
pub mod Fields
pub mod Laws
use prim.Prelude.{
  ℕ, ◌+◌, ◌%◌, ◌^◌, Option, none, some, ◌>>=◌, [], ◌∷◌, ◌++◌, length, slice, slice_from, overwrite,
  ◌==◌, if◌then◌else◌,
}
use prim.External.ByteOrder.{Bytes, ByteOrder}
use prim.External.Primitive.{FromPrimitive}
use prim.Entity.Env.{Env, uninit}
use prim.Entity.ResourceId
use prim.Entity.ResourceId.{ReqwestResourceId}

abbrev pub ReqwestMsg : Type 0
ReqwestMsg = Bytes

-- `Default`: also used as the `ok` message.
abbrev pub default : ReqwestMsg
default = 0 ∷ 12 ∷ 0 ∷ 0 ∷ 0 ∷ 0 ∷ 0 ∷ 0 ∷ 0 ∷ 0 ∷ 0 ∷ 0 ∷ 0 ∷ 0 ∷ []

module _ ⦃bo : ByteOrder⦄ where
  -- `BigEndian::read_uN(&self.0[a..a + width])`
  unfoldable pub read_at : ℕ → ℕ → ReqwestMsg → Option ℕ
  read_at a width msg = do s ← slice a (a + width) msg; some (bo.read width s)

  -- `BigEndian::write_uN(&mut self.0[a..a + width], n)`
  unfoldable pub write_at : ℕ → ℕ → ℕ → ReqwestMsg → Option ReqwestMsg
  write_at a width n msg = do _ ← slice a (a + width) msg; some (overwrite a (bo.write width n) msg)

  -- `pre_alloc`: only the length is set.
  unfoldable pub pre_alloc : Env → ℕ → Option ReqwestMsg
  unfolding write_at
  pre_alloc env length = write_at 0 2 length (uninit env (length + 2))

  -- `length`
  unfoldable pub body_length : ReqwestMsg → Option ℕ
  unfolding read_at
  body_length msg = read_at 0 2 msg

  unfoldable pub req_id : ReqwestMsg → Option ℕ
  unfolding read_at
  req_id msg = read_at 2 8 msg

  unfoldable pub set_req_id : ℕ → ReqwestMsg → Option ReqwestMsg
  unfolding write_at
  set_req_id req_id msg = write_at 2 8 req_id msg

  unfoldable pub resource_id :
      ⦃p : FromPrimitive ResourceId.value⦄ → ReqwestMsg → Option ReqwestResourceId
  unfolding read_at
  resource_id msg = do n ← read_at 10 2 msg; some (ResourceId.from n)

  unfoldable pub set_resource_id : ReqwestResourceId → ReqwestMsg → Option ReqwestMsg
  unfolding write_at
  set_resource_id resource_id msg = write_at 10 2 (ResourceId.value resource_id) msg

  unfoldable pub payload : ReqwestMsg → Option Bytes
  payload msg = slice_from 12 msg

  -- `body_mut`
  unfoldable pub body : ReqwestMsg → Option Bytes
  body msg = slice_from 2 msg

  -- `copy_from_slice` panics where the lengths differ.
  unfoldable pub set_body : Bytes → ReqwestMsg → Option ReqwestMsg
  set_body new msg = do
    old ← slice_from 2 msg
    if length new == length old then some (overwrite 2 new msg) else none

  -- `payload.len() as u16 + 10` wraps around in a release build.
  unfoldable pub with_resource_id_payload : Env → ReqwestResourceId → Bytes → Option ReqwestMsg
  unfolding write_at
  with_resource_id_payload env resource_id payload = do
    raw ← write_at 0 2 ((length payload % 2 ^ 16 + 10) % 2 ^ 16) (uninit env 12)
    raw ← write_at 2 8 0 raw
    raw ← write_at 10 2 (ResourceId.value resource_id) raw
    some (raw ++ payload)
