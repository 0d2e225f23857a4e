-- ===== src/Entity/Msg.antt =====
-- `Msg` of server/lib/src/entity/mod.rs and `impl Msg` of entity/msg.rs: a head of 32 bytes, the
-- payload and the extension in one vector.
pub mod Build
pub mod Batch
pub mod Layout
pub mod Built
pub mod BatchLaws
pub mod UnpackLaws
use prim.Prelude.{
  ℕ, ◌+◌, Bool, true, false, not, Option, some, ◌>>=◌, [], ◌++◌, bit_and, length, slice, slice_from,
  overwrite, ◌==◌, if◌then◌else◌,
}
use prim.External.ByteOrder.{Bytes, ByteOrder}
use prim.External.Primitive.{FromPrimitive}
use prim.Entity.{head_len}
use prim.Entity.Env.{Env, uninit}
use prim.Entity.MsgType
use prim.Entity.MsgType.{MsgType, na}
use prim.Entity.Head.{Head, InnerHead, read, into_head, shr, as_u8, as_u16, bit_mask_right_12}
use prim.Entity.Head.Access

abbrev pub Msg : Type 0
Msg = Bytes

-- The methods that pass on to `Head` with `as_slice` or `as_mut_slice`.
module _ ⦃bo : ByteOrder⦄ where
  abbrev pub extension_length : Msg → Option ℕ
  extension_length msg = Access.extension_length msg

  abbrev pub payload_length : Msg → Option ℕ
  payload_length msg = Access.payload_length msg

  abbrev pub typ : ⦃p : FromPrimitive MsgType.value⦄ → Msg → Option MsgType
  typ msg = Access.typ msg

  abbrev pub sender : Msg → Option ℕ
  sender msg = Access.sender msg

  abbrev pub receiver : Msg → Option ℕ
  receiver msg = Access.receiver msg

  abbrev pub node_id : Msg → Option ℕ
  node_id msg = Access.node_id msg

  abbrev pub timestamp : Msg → Option ℕ
  timestamp msg = Access.timestamp msg

  abbrev pub seqnum : Msg → Option ℕ
  seqnum msg = Access.seq_num msg

  abbrev pub version : Msg → Option ℕ
  version msg = Access.version msg

  abbrev pub set_type : MsgType → Msg → Option Msg
  set_type typ msg = Access.set_type typ msg

  abbrev pub set_sender : ℕ → Msg → Option Msg
  set_sender sender msg = Access.set_sender sender msg

  abbrev pub set_receiver : ℕ → Msg → Option Msg
  set_receiver receiver msg = Access.set_receiver receiver msg

  abbrev pub set_timestamp : ℕ → Msg → Option Msg
  set_timestamp timestamp msg = Access.set_timestamp timestamp msg

  abbrev pub set_seqnum : ℕ → Msg → Option Msg
  set_seqnum seq_num msg = Access.set_seq_num seq_num msg

  -- `&self.as_slice()[HEAD_LEN..HEAD_LEN + payload_length]`
  unfoldable pub payload : Msg → Option Bytes
  payload msg = do
    n ← payload_length msg
    if n == 0 then some [] else slice head_len (head_len + n) msg

  unfoldable pub extension : Msg → Option Bytes
  extension msg = do
    e ← extension_length msg
    n ← payload_length msg
    if e == 0 then some [] else slice (head_len + n) (head_len + n + e) msg

  -- The message afterwards and the result. The length that the guard compares with is the
  -- argument's own.
  unfoldable pub set_payload : Bytes → Msg → Option (Msg × Bool)
  set_payload new msg =
      let payload_length = length new in
      if not (payload_length == length new) then some (msg, false) else do
        _ ← slice head_len (head_len + payload_length) msg
        some (overwrite head_len new msg, true)

  unfoldable pub set_extension : Bytes → Msg → Option (Msg × Bool)
  set_extension new msg = do
    let extension_length = length new
    n ← payload_length msg
    if not (extension_length == length new) then some (msg, false) else do
      _ ← slice (head_len + n) (head_len + n + extension_length) msg
      some (overwrite (head_len + n) new msg, true)

  -- `as_mut_body`
  unfoldable pub body : Msg → Option Bytes
  body msg = slice_from head_len msg

  -- The head is written, the rest is uninitialised.
  unfoldable pub pre_alloc : Env → Head → Option Msg
  pre_alloc env head = do
    let extension_length =
        shr (bit_and head.type_with_extension_length_with_timestamp bit_mask_right_12) 46
    let payload_length = shr head.payload_length_with_seqnum 50
    (buf, _) ← read head (uninit env (head_len + payload_length + extension_length))
    some buf

  unfoldable pub pre_allocate : Env → ℕ → ℕ → Option Msg
  pre_allocate env payload_length extension_length = do
    let inner_head : InnerHead = record {
      extension_length = as_u8 extension_length;
      payload_length = as_u16 extension_length;
      typ = na;
      sender = 0;
      receiver = 0;
      node_id = 0;
      timestamp = env.now;
      seqnum = 0;
      version = 0;
    }
    (buf, _) ←
        read (into_head inner_head) (uninit env (head_len + payload_length + extension_length))
    some buf
