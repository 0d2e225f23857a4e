-- ===== src/Entity/Head/Access.antt =====
-- The accessors of `impl Head` in server/lib/src/entity/msg.rs, on a buffer.
use prim.Prelude.{ℕ, bit_and, bit_or, Option, some, ◌>>=◌}
use prim.External.ByteOrder.{Bytes, ByteOrder}
use prim.External.Primitive.{FromPrimitive}
use prim.Entity.MsgType
use prim.Entity.MsgType.{MsgType}
use prim.Entity.Head.{
  read_u64, write_u64, shr, shl, as_u16, as_u32, bit_mask_left_46, bit_mask_right_46,
  bit_mask_left_50, bit_mask_right_50, bit_mask_left_12, bit_mask_right_12,
}

module _ ⦃bo : ByteOrder⦄ where
  unfoldable pub extension_length : Bytes → Option ℕ
  extension_length buf = do w ← read_u64 16 buf; some (shr (bit_and w bit_mask_right_12) 46)

  unfoldable pub payload_length : Bytes → Option ℕ
  payload_length buf = do w ← read_u64 24 buf; some (shr w 50)

  unfoldable pub typ : ⦃p : FromPrimitive MsgType.value⦄ → Bytes → Option MsgType
  typ buf = do w ← read_u64 16 buf; some (MsgType.from (as_u16 (shr w 52)))

  unfoldable pub sender : Bytes → Option ℕ
  sender buf = do w ← read_u64 0 buf; some (bit_and w bit_mask_right_46)

  unfoldable pub receiver : Bytes → Option ℕ
  receiver buf = do w ← read_u64 8 buf; some (bit_and w bit_mask_right_46)

  unfoldable pub node_id : Bytes → Option ℕ
  node_id buf = do w ← read_u64 8 buf; some (as_u32 (shr w 46))

  unfoldable pub timestamp : Bytes → Option ℕ
  timestamp buf = do w ← read_u64 16 buf; some (bit_and w bit_mask_right_46)

  unfoldable pub seq_num : Bytes → Option ℕ
  seq_num buf = do w ← read_u64 24 buf; some (bit_and w bit_mask_right_50)

  unfoldable pub version : Bytes → Option ℕ
  version buf = do w ← read_u64 0 buf; some (as_u32 (shr w 46))

  unfoldable pub set_version : ℕ → Bytes → Option Bytes
  set_version version buf = do
    w ← read_u64 0 buf
    write_u64 0 (bit_or (bit_and w bit_mask_right_46) (shl version 46)) buf

  unfoldable pub set_sender : ℕ → Bytes → Option Bytes
  set_sender sender buf = do
    w ← read_u64 0 buf
    write_u64 0 (bit_or (bit_and w bit_mask_left_46) (bit_and sender bit_mask_right_46)) buf

  unfoldable pub set_receiver : ℕ → Bytes → Option Bytes
  set_receiver receiver buf = do
    w ← read_u64 8 buf
    write_u64 8 (bit_or (bit_and w bit_mask_left_46) (bit_and receiver bit_mask_right_46)) buf

  unfoldable pub set_node_id : ℕ → Bytes → Option Bytes
  set_node_id node_id buf = do
    w ← read_u64 8 buf
    write_u64 8 (bit_or (bit_and w bit_mask_right_46) (shl node_id 46)) buf

  unfoldable pub set_type : MsgType → Bytes → Option Bytes
  set_type typ buf = do
    w ← read_u64 16 buf
    write_u64 16 (bit_or (bit_and w bit_mask_right_12) (shl (MsgType.value typ) 52)) buf

  unfoldable pub set_extension_length : ℕ → Bytes → Option Bytes
  set_extension_length extension_length buf = do
    w ← read_u64 16 buf
    write_u64 16
        (bit_or (bit_and w bit_mask_left_12)
          (bit_or (shl extension_length 46) (bit_and w bit_mask_right_46)))
        buf

  unfoldable pub set_payload_length : ℕ → Bytes → Option Bytes
  set_payload_length payload_length buf = do
    w ← read_u64 24 buf
    write_u64 24 (bit_or (bit_and w bit_mask_right_50) (shl payload_length 50)) buf

  unfoldable pub set_timestamp : ℕ → Bytes → Option Bytes
  set_timestamp timestamp buf = do
    w ← read_u64 16 buf
    write_u64 16 (bit_or (bit_and w bit_mask_left_46) (bit_and timestamp bit_mask_right_46)) buf

  unfoldable pub set_seq_num : ℕ → Bytes → Option Bytes
  set_seq_num seq_num buf = do
    w ← read_u64 24 buf
    write_u64 24 (bit_or (bit_and w bit_mask_left_50) (bit_and seq_num bit_mask_right_50)) buf
