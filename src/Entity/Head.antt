-- ===== src/Entity/Head.antt =====
-- The message head: `Head` of server/lib/src/entity/mod.rs, `InnerHead` and the conversions between
-- them, a buffer and each other in entity/msg.rs. A buffer is a list of bytes; `none` is the panic
-- of a slice that is out of range.
pub mod Access
pub mod Fields
pub mod Frame
pub mod Decode
pub mod Setters
pub mod View
use prim.Prelude.{
  ℕ, ◌+◌, ◌*◌, ◌/◌, ◌%◌, ◌^◌, bit_and, bit_or, Option, none, some, ◌>>=◌, length, slice, overwrite,
  ltb, if◌then◌else◌,
}
use prim.External.ByteOrder.{Bytes, ByteOrder}
use prim.External.Primitive.{FromPrimitive}
use prim.Entity.{head_len}
use prim.Entity.MsgType
use prim.Entity.MsgType.{MsgType}

abbrev pub bit_mask_left_46 : ℕ
bit_mask_left_46 = 0xFFFF_C000_0000_0000

abbrev pub bit_mask_right_46 : ℕ
bit_mask_right_46 = 0x0000_3FFF_FFFF_FFFF

abbrev pub bit_mask_left_50 : ℕ
bit_mask_left_50 = 0xFFFC_0000_0000_0000

abbrev pub bit_mask_right_50 : ℕ
bit_mask_right_50 = 0x0003_FFFF_FFFF_FFFF

abbrev pub bit_mask_left_12 : ℕ
bit_mask_left_12 = 0xFFF0_0000_0000_0000

abbrev pub bit_mask_right_12 : ℕ
bit_mask_right_12 = 0x000F_FFFF_FFFF_FFFF

-- `x >> k` and `x << k` on a `u64`: a left shift drops what leaves the word.
abbrev pub shr : ℕ → ℕ → ℕ
shr x k = x / 2 ^ k

abbrev pub shl : ℕ → ℕ → ℕ
shl x k = x * 2 ^ k % 2 ^ 64

abbrev pub as_u8 : ℕ → ℕ
as_u8 x = x % 2 ^ 8

abbrev pub as_u16 : ℕ → ℕ
as_u16 x = x % 2 ^ 16

abbrev pub as_u32 : ℕ → ℕ
as_u32 x = x % 2 ^ 32

pub record Head : Type 0 where
  pub version_with_sender : ℕ
  pub node_id_with_receiver : ℕ
  pub type_with_extension_length_with_timestamp : ℕ
  pub payload_length_with_seqnum : ℕ

pub record InnerHead : Type 0 where
  pub version : ℕ
  pub sender : ℕ
  pub node_id : ℕ
  pub receiver : ℕ
  pub typ : MsgType
  pub extension_length : ℕ
  pub timestamp : ℕ
  pub payload_length : ℕ
  pub seqnum : ℕ

module _ ⦃bo : ByteOrder⦄ where
  -- `BigEndian::read_u64(&buf[i..i + 8])`
  unfoldable pub read_u64 : ℕ → Bytes → Option ℕ
  read_u64 i buf = do bytes ← slice i (i + 8) buf; some (bo.read 8 bytes)

  -- `BigEndian::write_u64(&mut buf[i..i + 8], w)`
  unfoldable pub write_u64 : ℕ → ℕ → Bytes → Option Bytes
  write_u64 i w buf = do _ ← slice i (i + 8) buf; some (overwrite i (bo.write 8 w) buf)

  -- `From<&[u8]> for Head`
  unfoldable pub from : Bytes → Option Head
  unfolding read_u64
  from buf = do
    version_with_sender ← read_u64 0 buf
    node_id_with_receiver ← read_u64 8 buf
    type_with_extension_length_with_timestamp ← read_u64 16 buf
    payload_length_with_seq_num ← read_u64 24 buf
    some (record {
      version_with_sender = version_with_sender;
      node_id_with_receiver = node_id_with_receiver;
      type_with_extension_length_with_timestamp = type_with_extension_length_with_timestamp;
      payload_length_with_seqnum = payload_length_with_seq_num;
    })

  -- `Read for Head`: the buffer afterwards and the number of bytes, or no number for
  -- `Err(InvalidInput)`, which leaves the buffer alone.
  unfoldable pub read : Head → Bytes → Option (Bytes × Option ℕ)
  unfolding write_u64
  read head buf = if ltb (length buf) head_len then some (buf, none) else do
    buf ← write_u64 0 head.version_with_sender buf
    buf ← write_u64 8 head.node_id_with_receiver buf
    buf ← write_u64 16 head.type_with_extension_length_with_timestamp buf
    buf ← write_u64 24 head.payload_length_with_seqnum buf
    some (buf, some head_len)

-- `From<&Head> for InnerHead`
unfoldable pub from_head : ⦃p : FromPrimitive MsgType.value⦄ → Head → InnerHead
from_head head = record {
  version = as_u32 (shr head.version_with_sender 46);
  sender = bit_and head.version_with_sender bit_mask_right_46;
  node_id = as_u32 (shr head.node_id_with_receiver 46);
  receiver = bit_and head.node_id_with_receiver bit_mask_right_46;
  typ = MsgType.from (as_u16 (shr head.type_with_extension_length_with_timestamp 52));
  extension_length =
      as_u8 (shr (bit_and head.type_with_extension_length_with_timestamp bit_mask_right_12) 46);
  timestamp = bit_and head.type_with_extension_length_with_timestamp bit_mask_right_46;
  payload_length = as_u16 (shr head.payload_length_with_seqnum 50);
  seqnum = bit_and head.payload_length_with_seqnum bit_mask_right_50;
}

-- `Into<Head> for InnerHead`
unfoldable pub into_head : InnerHead → Head
into_head inner = record {
  version_with_sender = bit_or (shl inner.version 46) inner.sender;
  node_id_with_receiver = bit_or (shl inner.node_id 46) inner.receiver;
  type_with_extension_length_with_timestamp =
      bit_or (bit_or (shl (MsgType.value inner.typ) 52) (shl inner.extension_length 46))
        inner.timestamp;
  payload_length_with_seqnum = bit_or (shl inner.payload_length 50) inner.seqnum;
}
