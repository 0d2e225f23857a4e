-- ===== src/Entity/Msg/Batch.antt =====
-- `with_uncompressed` and `with_compressed` of server/lib/src/entity/msg.rs: several messages packed
-- as the payload of one, and taken out again.
use prim.Prelude.{
  ℕ, zero, suc, ◌+◌, true, false, Option, none, some, ◌>>=◌, List, [], ◌∷◌, ◌++◌, length, take,
  drop, slice, overwrite, ◌==◌, ltb, leb, if◌then◌else◌,
}
use prim.External.ByteOrder.{Bytes, ByteOrder}
use prim.Entity.{head_len}
use prim.Entity.Env.{Env}
use prim.Entity.MsgType.{na}
use prim.Entity.Head
use prim.Entity.Head.{InnerHead, as_u16}
use prim.Entity.Msg.{Msg, payload, body, pre_alloc}
use prim.Entity.Msg.Build.{finish}

-- The most bytes that one batch holds.
abbrev pub batch_limit : ℕ
batch_limit = 16383

-- The loop: the index of the first message that does not fit, and the size of those before it.
unfoldable pub fitting : ℕ → ℕ → List Msg → ℕ × ℕ
fitting size i [] = (i, size)
fitting size i (msg ∷ rest) =
    if ltb batch_limit (size + length msg)
    then (i, size)
    else fitting (size + length msg) (i + 1) rest

-- The bytes of the messages, one after the other.
abbrev pub joined : List Msg → Bytes
joined [] = []
joined (msg ∷ rest) = msg ++ joined rest

-- The result of `with_uncompressed`: the batch and the messages left over, or the error.
pub data Packed : Type 0 where
  empty_or_too_large : Packed
  packed : Msg → List Msg → Packed

module _ ⦃bo : ByteOrder⦄ where
  unfoldable pub pack_first : Env → List Msg → ℕ → ℕ → Option Packed
  pack_first env list index size = if index == 0 then some empty_or_too_large else do
    let inner_head : InnerHead = record {
      extension_length = 0;
      payload_length = as_u16 size;
      typ = na;
      sender = 0;
      receiver = 0;
      node_id = 0;
      timestamp = env.now;
      seqnum = 0;
      version = 0;
    }
    batch ← finish env inner_head (joined (take index list))
    some (packed batch (drop index list))

  unfoldable pub with_uncompressed : Env → List Msg → Option Packed
  unfolding pack_first
  with_uncompressed env list =
      let (index, size) = fitting 0 0 list in pack_first env list index size

  -- One round of the loop of `with_compressed` at `index`: the message there and the next index.
  unfoldable pub unpack_one : Env → Bytes → ℕ → Option (Msg × ℕ)
  unpack_one env whole index = do
    bytes ← slice index head_len whole
    head ← Head.from bytes
    msg ← pre_alloc env head
    uninitialised ← body msg
    let body_len = length uninitialised
    source ← slice (index + head_len) (index + head_len + body_len) whole
    some (overwrite head_len source msg, index + (head_len + body_len))

-- The messages, a panic, or more rounds than the fuel allows.
pub data Unpacked : Type 0 where
  unpacked : List Msg → Unpacked
  panicked out_of_fuel : Unpacked

module _ ⦃bo : ByteOrder⦄ where
  unfoldable pub unpack_loop : Env → Bytes → ℕ → ℕ → List Msg → Unpacked
  unpack_loop env whole zero index list = out_of_fuel
  unpack_loop env whole (suc fuel) index list = elim (unpack_one env whole index) [
    | none ↦ panicked
    | some (msg, next) ↦ elim (leb (length whole) next) [
      | true ↦ unpacked (list ++ msg ∷ [])
      | false ↦ unpack_loop env whole fuel next (list ++ msg ∷ [])
    ]
  ]

  unpack_payload : Env → Option Bytes → Unpacked
  unfolding unpack_loop
  unpack_payload env none = panicked
  unpack_payload env (some whole) = unpack_loop env whole (suc (length whole)) 0 []

  -- Each round takes at least 32 bytes, so the length of the payload is fuel enough.
  unfoldable pub with_compressed : Env → Msg → Unpacked
  unfolding unpack_payload
  with_compressed env msg = unpack_payload env (payload msg)
