-- ===== src/Message/Number.antt =====
-- `PreProcess` and `MQPusher` of server/message/src/service/handler/logic.rs: a message gets its
-- sequence number and its time.
use prim.Prelude.{
  ℕ, zero, suc, ◌+◌, ◌*◌, ◌/◌, ◌%◌, ◌^◌, bit_or, Bool, true, false, ◌&&◌, ◌||◌, Option, none, some,
  [], ◌∷◌, ◌++◌, ◌==◌, leb, ltb, if◌then◌else◌,
}
use prim.Prelude.Decimal.{to_string}
use prim.Prelude.Dict.{lookup, insert, contains, include}
use prim.Prelude.Action.{ok, ◌>>=◌, pure, raise, gets, unwrap}
use prim.External.ByteOrder.{Bytes, ByteOrder}
use prim.External.Primitive.{FromPrimitive}
use prim.Entity.Env.{Env}
use prim.Entity.MsgType
use prim.Entity.MsgType.{MsgType}
use prim.Entity.Msg
use prim.Entity.Msg.{Msg}
use prim.Entity.Msg.Build.{noop}
use prim.Message.{is_group_msg}
use prim.Message.State.{Session, Handler, other, unhandled, set_msg, set_client_timestamp}

-- What the scheduler, the sequence number nodes, the logger and Kafka answer while one message is
-- handled. `connects` says whether a node can be
-- connected to.
pub record Outside : Type 0 where
  pub select_node : ℕ → Option ℕ
  pub connects : ℕ → Bool
  pub seqnum : ℕ → Bytes → Option ℕ
  pub logs : Bool
  pub accepts : ℕ → Bool
  -- No other owner of the message: `Arc::get_mut` succeeds.
  pub is_unique : Bool

-- Texts, edits and the business messages.
abbrev pub is_numbered : ℕ → Bool
is_numbered type_value =
    (leb 32 type_value && ltb type_value 96) || (leb 128 type_value && ltb type_value 160)

-- The key of a conversation: an `u128`, the smaller user in the upper half.
unfoldable pub conversation_key : ℕ → ℕ → ℕ
conversation_key sender receiver =
    if is_group_msg receiver
    then bit_or (receiver * 2 ^ 64) receiver
    else if ltb sender receiver
    then bit_or (sender * 2 ^ 64) receiver
    else bit_or (receiver * 2 ^ 64) sender

or_other : {A : Type 0} → Option A → Handler A
or_other none = raise other
or_other (some a) = pure a

module _ (out : Outside) where
  -- The node for a conversation is asked for once on a connection.
  ask_node : ℕ → Option ℕ → Handler ℕ
  ask_node key (some node_id) = pure node_id
  ask_node key none = do
    node_id ← or_other (out.select_node key)
    _ ← (λ (s : Session).
        (ok tt, record s { seqnum_node_select_map = insert key node_id s.seqnum_node_select_map }))
    pure node_id

  or_connected : Bool → ℕ → Handler (Unit {0})
  or_connected false node_id = raise other
  or_connected true node_id =
      λ s. (ok tt, record s { seqnum_clients = include node_id s.seqnum_clients })

  unfoldable pub connect : ℕ → Handler (Unit {0})
  unfolding or_connected
  connect node_id = do
    clients ← gets (λ s. s.seqnum_clients)
    if contains node_id clients then pure tt else or_connected (out.connects node_id) node_id

  module _ ⦃bo : ByteOrder⦄ where
    -- The two halves of the key, 16 bytes.
    abbrev pub key_bytes : ℕ → Bytes
    key_bytes key = bo.write 8 (key / 2 ^ 64 % 2 ^ 64) ++ bo.write 8 (key % 2 ^ 64)

    -- In a group the sender's digits are appended to a message without an extension.
    unfoldable pub with_sender : ℕ → ℕ → ℕ → Msg → Msg
    with_sender sender receiver extension_length msg =
        if is_group_msg receiver && (extension_length == 0) then msg ++ to_string sender else msg

    unfoldable pub stamp : Env → ℕ → Handler (Unit {0})
    stamp env seqnum = do
      msg ← gets (λ s. s.msg)
      msg ← unwrap (Msg.set_seqnum seqnum msg)
      msg ← unwrap (Msg.set_timestamp env.now msg)
      receiver ← unwrap (Msg.receiver msg)
      extension_length ← unwrap (Msg.extension_length msg)
      sender ← unwrap (Msg.sender msg)
      set_msg (with_sender sender receiver extension_length msg)

    unfoldable pub number : Env → Handler (Unit {0})
    unfolding ask_node or_other
    number env = do
      msg ← gets (λ s. s.msg)
      sender ← unwrap (Msg.sender msg)
      receiver ← unwrap (Msg.receiver msg)
      let key = conversation_key sender receiver
      found ← gets (λ s. lookup key s.seqnum_node_select_map)
      node_id ← ask_node key found
      _ ← connect (node_id % 2 ^ 32)
      seqnum ← or_other (out.seqnum (node_id % 2 ^ 32) (key_bytes key))
      _ ← if out.is_unique then stamp env seqnum else raise unhandled
      if out.logs then pure tt else raise unhandled

    unfoldable pub pre_process : ⦃p : FromPrimitive MsgType.value⦄ → Env → Handler Msg
    pre_process env = do
      msg ← gets (λ s. s.msg)
      client_timestamp ← unwrap (Msg.timestamp msg)
      typ ← unwrap (Msg.typ msg)
      _ ← if is_numbered (MsgType.value typ) then number env else pure tt
      _ ← set_client_timestamp client_timestamp
      unwrap (noop env)

    -- At most `n` tries to give the message to Kafka, `i` being the number of the first.
    unfoldable pub produce : ℕ → ℕ → Handler (Unit {0})
    produce i zero = pure tt
    produce i (suc n) =
        let rest = produce (i + 1) n in
        if out.accepts i
        then (λ s. (
          ok tt,
          record s { node = record s.node { produced = s.node.produced ++ (s.msg ∷ []) } },
        ))
        else rest

    -- Whatever Kafka answers, the message goes on to the other handlers.
    unfoldable pub mq_push : ⦃p : FromPrimitive MsgType.value⦄ → Env → Handler Msg
    mq_push env = do
      msg ← gets (λ s. s.msg)
      typ ← unwrap (Msg.typ msg)
      _ ← if is_numbered (MsgType.value typ) then produce 0 5 else pure tt
      unwrap (noop env)
