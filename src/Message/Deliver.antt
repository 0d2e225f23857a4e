-- ===== src/Message/Deliver.antt =====
-- The handlers of server/message/src/service/handler/business.rs, control_text.rs and pure_text.rs,
-- `Echo` of logic.rs, and `Text` of cluster/handler/pure_text.rs.
use prim.Prelude.{
  ℕ, ◌%◌, ◌^◌, Bool, true, false, ◌&&◌, Option, none, some, List, [], ◌∷◌, map, ◌==◌, leb, ltb,
  if◌then◌else◌,
}
use prim.Prelude.Dict.{lookup, insert}
use prim.Prelude.Action.{ok, ◌>>=◌, pure, raise, gets, unwrap}
use prim.External.ByteOrder.{Bytes, ByteOrder}
use prim.External.Primitive.{FromPrimitive}
use prim.Entity.Env.{Env}
use prim.Entity.MsgType
use prim.Entity.MsgType.{MsgType}
use prim.Entity.Msg
use prim.Entity.Msg.{Msg}
use prim.Entity.Msg.Build.{generate_ack}
use prim.Message.{is_group_msg}
use prim.Message.State.{
  Sender, Handler, direct, not_mine, io, unhandled, send, io_send, push_group_msg,
}

-- `server cluster crashed!`
abbrev pub cluster_crashed : Bytes
cluster_crashed =
    115 ∷ 101 ∷ 114 ∷ 118 ∷ 101 ∷ 114 ∷ 32 ∷ 99 ∷ 108 ∷ 117 ∷ 115 ∷ 116 ∷ 101 ∷ 114 ∷ 32 ∷ 99 ∷ 114
    ∷ 97 ∷ 115 ∷ 104 ∷ 101 ∷ 100 ∷ 33 ∷ []

-- `match map.get(..) { Some(sender) => sender.send(..).await?, None => log }`
unfoldable pub send_if_some : Option Sender → Msg → Handler (Unit {0})
send_if_some none msg = pure tt
send_if_some (some sender) msg = send sender msg

-- The same where an error of `send` is only logged.
unfoldable pub send_or_log : Option Sender → Msg → Handler (Unit {0})
send_or_log none msg = pure tt
send_or_log (some sender) msg = λ s. (ok tt, (send sender msg s).1)

-- The same where an absent node, or an error of `send`, is an IO error.
unfoldable pub send_or_crashed : Option Sender → Msg → Handler (Unit {0})
send_or_crashed none msg = raise (io cluster_crashed)
send_or_crashed (some sender) msg =
    λ s. if s.node.is_open sender then send sender msg s else raise (io cluster_crashed) s

-- `states.get("client_timestamp").unwrap()`
unfoldable pub client_time : Handler ℕ
client_time = do timestamp ← gets (λ s. s.client_timestamp); unwrap timestamp

unfoldable pub unwrap_or : ℕ → Option ℕ → ℕ
unwrap_or n none = n
unwrap_or n (some m) = m

module _ ⦃bo : ByteOrder⦄ (env : Env) where
  -- To the receiver where it is a user of this node, else to its node.
  unfoldable pub deliver : ℕ → ℕ → Msg → Handler (Unit {0})
  deliver receiver node_id msg = do
    my_id ← gets (λ s. s.node.my_id)
    client ← gets (λ s. lookup receiver s.node.client_map)
    cluster ← gets (λ s. lookup node_id s.node.cluster_map)
    if node_id == my_id
        then (do _ ← send_if_some client msg; io_send (direct msg))
        else send_if_some cluster msg

  unfoldable pub ack_of : ℕ → Handler Msg
  ack_of client_timestamp = do
    msg ← gets (λ s. s.msg)
    my_id ← gets (λ s. s.node.my_id)
    unwrap (generate_ack env msg my_id client_timestamp)

  unfoldable pub forward_only_user : Handler Msg
  forward_only_user = do
    msg ← gets (λ s. s.msg)
    receiver ← unwrap (Msg.receiver msg)
    node_id ← unwrap (Msg.node_id msg)
    _ ← deliver receiver node_id msg
    found ← gets (λ s. s.client_timestamp)
    timestamp ← unwrap (Msg.timestamp msg)
    ack_of (unwrap_or timestamp found)

  unfoldable pub deliver_control : ℕ → ℕ → Msg → Handler (Unit {0})
  deliver_control receiver node_id msg = do
    my_id ← gets (λ s. s.node.my_id)
    if (node_id == my_id) && is_group_msg receiver
        then push_group_msg msg true
        else deliver receiver node_id msg

  unfoldable pub send_direct : ℕ → ℕ → Msg → Handler (Unit {0})
  send_direct receiver node_id msg = do
    my_id ← gets (λ s. s.node.my_id)
    client ← gets (λ s. lookup receiver s.node.client_map)
    cluster ← gets (λ s. lookup node_id s.node.cluster_map)
    if node_id == my_id then send_or_log client msg else send_or_crashed cluster msg

  unfoldable pub deliver_direct : ℕ → ℕ → Msg → Handler (Unit {0})
  deliver_direct receiver node_id msg = do
    _ ← io_send (direct msg)
    send_direct receiver node_id msg

  -- A group message goes to every node of the list; this one gives it to the task of the group.
  unfoldable pub deliver_nodes : ℕ → Msg → List ℕ → Handler (Unit {0})
  deliver_nodes my_id msg [] = pure tt
  deliver_nodes my_id msg (node_id ∷ node_list) = do
    cluster ← gets (λ s. lookup node_id s.node.cluster_map)
    _ ← if node_id == my_id then push_group_msg msg false else send_or_crashed cluster msg
    deliver_nodes my_id msg node_list

  -- The nodes of a group are asked for once on a connection: `answer` is that of the scheduler.
  unfoldable pub node_list_of : ℕ → Option (List ℕ) → Option (List ℕ) → Handler (List ℕ)
  node_list_of group (some list) answer = pure list
  node_list_of group none none = raise unhandled
  node_list_of group none (some list) =
      λ s. (ok list, record s { group_node_list_map = insert group list s.group_node_list_map })

  unfoldable pub deliver_group : (ℕ → Option (List ℕ)) → ℕ → Msg → Handler (Unit {0})
  deliver_group all_group_node_list receiver msg = do
    found ← gets (λ s. lookup receiver s.group_node_list_map)
    list ← node_list_of receiver found (all_group_node_list receiver)
    my_id ← gets (λ s. s.node.my_id)
    deliver_nodes my_id msg (map (λ id. id % 2 ^ 32) list)

  unfoldable pub deliver_text : (ℕ → Option (List ℕ)) → ℕ → ℕ → Msg → Handler (Unit {0})
  deliver_text all_group_node_list receiver node_id msg =
      if is_group_msg receiver
      then deliver_group all_group_node_list receiver msg
      else deliver_direct receiver node_id msg

  -- `Text` of the cluster: the message has come from another node.
  unfoldable pub deliver_here : ℕ → Msg → Handler (Unit {0})
  deliver_here receiver msg = do
    client ← gets (λ s. lookup receiver s.node.client_map)
    if is_group_msg receiver
        then push_group_msg msg false
        else (do _ ← send_if_some client msg; io_send (direct msg))

  module _ ⦃p : FromPrimitive MsgType.value⦄ where
    -- A handler acts on the messages whose type it claims.
    unfoldable pub if_claimed : (ℕ → Bool) → Handler Msg → Handler Msg
    if_claimed claims run = do
      msg ← gets (λ s. s.msg)
      typ ← unwrap (Msg.typ msg)
      if claims (MsgType.value typ) then run else raise not_mine

    -- `JoinGroup`, `LeaveGroup`, `AddFriend`, `RemoveFriend`, `SystemMessage`, `SetRelationship`.
    unfoldable pub business : MsgType → Handler Msg
    business typ = if_claimed (λ n. n == MsgType.value typ) forward_only_user

    unfoldable pub remote_invoke : Handler Msg
    remote_invoke =
        if_claimed (λ n. n == MsgType.value MsgType.remote_invoke)
          (do timestamp ← client_time; ack_of timestamp)

    abbrev pub is_control : ℕ → Bool
    is_control n = leb 64 n && ltb n 96

    abbrev pub is_text : ℕ → Bool
    is_text n = leb 32 n && ltb n 64

    unfoldable pub control_text : Handler Msg
    control_text = if_claimed is_control (do
      msg ← gets (λ s. s.msg)
      receiver ← unwrap (Msg.receiver msg)
      node_id ← unwrap (Msg.node_id msg)
      _ ← deliver_control receiver node_id msg
      timestamp ← client_time
      ack_of timestamp)

    unfoldable pub pure_text : (ℕ → Option (List ℕ)) → Handler Msg
    pure_text all_group_node_list = if_claimed is_text (do
      msg ← gets (λ s. s.msg)
      receiver ← unwrap (Msg.receiver msg)
      node_id ← unwrap (Msg.node_id msg)
      _ ← deliver_text all_group_node_list receiver node_id msg
      timestamp ← client_time
      ack_of timestamp)

    unfoldable pub cluster_text : Handler Msg
    cluster_text = if_claimed is_text (do
      msg ← gets (λ s. s.msg)
      receiver ← unwrap (Msg.receiver msg)
      _ ← deliver_here receiver msg
      timestamp ← client_time
      ack_of timestamp)

    unfoldable pub echo : Handler Msg
    echo =
        if_claimed (λ n. n == MsgType.value MsgType.echo)
          (do
            msg ← gets (λ s. s.msg)
            receiver ← unwrap (Msg.receiver msg)
            if receiver == 0
                then (do
                  res ← unwrap (Msg.set_receiver receiver msg)
                  res ← unwrap (Msg.set_sender 0 res)
                  unwrap (Msg.set_timestamp env.now res))
                else (do timestamp ← client_time; ack_of timestamp))
