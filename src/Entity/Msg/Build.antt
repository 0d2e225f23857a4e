-- ===== src/Entity/Msg/Build.antt =====
-- The constructors of messages in server/lib/src/entity/msg.rs. Texts are their UTF-8 bytes.
use prim.Prelude.{ℕ, Option, some, ◌>>=◌, [], ◌∷◌, ◌++◌, length}
use prim.Prelude.Decimal.{to_string}
use prim.External.ByteOrder.{Bytes, ByteOrder}
use prim.Entity.{head_len}
use prim.Entity.Env.{Env, uninit}
use prim.Entity.MsgType.{MsgType, na, error}
use prim.Entity.Head.{InnerHead, read, into_head, as_u8, as_u16}
use prim.Entity.Msg
use prim.Entity.Msg.{Msg}

-- The `InnerHead` literal of the constructors: the time is now, the version is 0.
abbrev pub head_of : Env → MsgType → ℕ → ℕ → ℕ → ℕ → Bytes → Bytes → InnerHead
head_of env typ sender receiver node_id seqnum payload extension = record {
  extension_length = as_u8 (length extension);
  payload_length = as_u16 (length payload);
  typ = typ;
  sender = sender;
  receiver = receiver;
  node_id = node_id;
  timestamp = env.now;
  seqnum = seqnum;
  version = 0;
}

module _ ⦃bo : ByteOrder⦄ where
  -- The lines that end every constructor: the head is read into 32 uninitialised bytes, and the
  -- body is appended.
  unfoldable pub finish : Env → InnerHead → Bytes → Option Msg
  finish env inner_head body = do
    (buf, _) ← read (into_head inner_head) (uninit env head_len)
    some (buf ++ body)

  unfoldable pub ping : Env → ℕ → ℕ → ℕ → Option Msg
  unfolding finish
  ping env sender receiver node_id =
      let body = b'p' ∷ b'i' ∷ b'n' ∷ b'g' ∷ [] in
      finish env (head_of env MsgType.ping sender receiver node_id 0 body []) body

  unfoldable pub pong : Env → ℕ → ℕ → ℕ → Option Msg
  unfolding finish
  pong env sender receiver node_id =
      let body = b'p' ∷ b'o' ∷ b'n' ∷ b'g' ∷ [] in
      finish env (head_of env MsgType.pong sender receiver node_id 0 body []) body

  unfoldable pub err_msg : Env → ℕ → ℕ → ℕ → Bytes → Option Msg
  unfolding finish
  err_msg env sender receiver node_id reason =
      finish env (head_of env error sender receiver node_id 0 reason []) reason

  unfoldable pub text : Env → ℕ → ℕ → ℕ → Bytes → Option Msg
  unfolding finish
  text env sender receiver node_id content =
      finish env (head_of env MsgType.text sender receiver node_id 0 content []) content

  unfoldable pub text2 : Env → ℕ → ℕ → ℕ → Bytes → Bytes → Option Msg
  unfolding finish
  text2 env sender receiver node_id content content2 =
      finish env (head_of env MsgType.text sender receiver node_id 0 content content2)
        (content ++ content2)

  -- The acknowledgement of `msg`: its payload is the client's own timestamp, in decimal.
  unfoldable pub generate_ack : Env → Msg → ℕ → ℕ → Option Msg
  unfolding finish
  generate_ack env msg node_id client_timestamp = do
    let time = to_string client_timestamp
    from ← Msg.sender msg
    to ← Msg.receiver msg
    number ← Msg.seqnum msg
    finish env (head_of env MsgType.ack from to node_id number time []) time

  unfoldable pub ack : Env → ℕ → Option Msg
  unfolding finish
  ack env client_timestamp =
      let time = to_string client_timestamp in
      finish env (head_of env MsgType.ack 0 0 0 0 time []) time

  unfoldable pub empty : Env → Option Msg
  unfolding finish
  empty env = finish env (head_of env na 0 0 0 0 [] []) []

  unfoldable pub auth : Env → ℕ → ℕ → ℕ → Bytes → Option Msg
  unfolding finish
  auth env sender receiver node_id token =
      finish env (head_of env MsgType.auth sender receiver node_id 0 token []) token

  unfoldable pub raw_payload : Env → Bytes → Option Msg
  unfolding finish
  raw_payload env payload = finish env (head_of env na 0 0 0 0 payload []) payload

  unfoldable pub raw : Env → ℕ → ℕ → ℕ → Bytes → Option Msg
  unfolding finish
  raw env sender receiver node_id payload =
      finish env (head_of env na sender receiver node_id 0 payload []) payload

  unfoldable pub raw2 : Env → ℕ → ℕ → ℕ → Bytes → Bytes → Option Msg
  unfolding finish
  raw2 env sender receiver node_id payload extension =
      finish env (head_of env na sender receiver node_id 0 payload extension) (payload ++ extension)

  unfoldable pub noop : Env → Option Msg
  unfolding empty
  noop env = do msg ← empty env; Msg.set_type MsgType.noop msg

  unfoldable pub from_payload_extension : Env → Bytes → Bytes → Option Msg
  unfolding finish
  from_payload_extension env payload extension =
      finish env (head_of env na 0 0 0 0 payload extension) (payload ++ extension)
