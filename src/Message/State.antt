-- ===== src/Message/State.antt =====
-- What the handlers of server/message work on: the connections of the node, the tasks for Redis, and
-- the `InnerStates` of one connection.
use prim.Prelude.{ℕ, Bool, Option, some, List, [], ◌∷◌, ◌++◌, if◌then◌else◌}
use prim.Prelude.Dict.{Dict}
use prim.Prelude.Action.{ok, err, Action}
use prim.External.ByteOrder.{Bytes}
use prim.Entity.Msg.{Msg}

-- A `MsgSender` is the connection that it writes to.
abbrev pub Sender : Type 0
Sender = ℕ

pub data IoTaskMsg : Type 0 where
  direct : Msg → IoTaskMsg
  broadcast : Msg → ℕ → Bool → IoTaskMsg

pub record Node : Type 0 where
  pub my_id : ℕ
  pub client_map : Dict Sender
  pub cluster_map : Dict Sender
  pub is_open : Sender → Bool
  -- What was sent so far, the last message at the end.
  pub sent : List (Sender × Msg)
  pub io_is_open : Bool
  pub io_tasks : List IoTaskMsg
  -- Whether the task of the group of a message takes it: it may have ended with its sender still in
  -- the map.
  pub group_is_open : Msg → Bool
  -- What was given to the tasks of the groups.
  pub pushed : List (Msg × Bool)
  -- What Kafka has taken.
  pub produced : List Msg

pub record Session : Type 0 where
  pub node : Node
  pub sender : Sender
  pub msg : Msg
  pub client_timestamp : Option ℕ
  pub seqnum_node_select_map : Dict ℕ
  pub group_node_list_map : Dict (List ℕ)
  pub seqnum_clients : List ℕ

-- `HandlerError`, with the texts that are sent back, and every other error.
pub data Error : Type 0 where
  not_mine auth other unhandled : Error
  parse io : Bytes → Error

abbrev pub Handler : Type 0 → Type 0
Handler A = Action Session Error A

unfoldable pub send_from : Node → Sender → Msg → Node
send_from node sender msg = record node { sent = node.sent ++ ((sender, msg) ∷ []) }

-- `sender.send(msg).await?`
unfoldable pub send : Sender → Msg → Handler (Unit {0})
send sender msg s =
    if s.node.is_open sender
    then (ok tt, record s { node = send_from s.node sender msg })
    else (err unhandled, s)

-- `io_task_sender.send(msg).await?`
unfoldable pub io_send : IoTaskMsg → Handler (Unit {0})
io_send task s =
    if s.node.io_is_open
    then (ok tt, record s { node = record s.node { io_tasks = s.node.io_tasks ++ (task ∷ []) } })
    else (err unhandled, s)

-- `push_group_msg(msg, forward).await?`: a task for the group is started where there is none.
unfoldable pub push_group_msg : Msg → Bool → Handler (Unit {0})
push_group_msg msg forward s =
    if s.node.group_is_open msg
    then (
      ok tt,
      record s { node = record s.node { pushed = s.node.pushed ++ ((msg, forward) ∷ []) } },
    )
    else (err unhandled, s)

unfoldable pub set_msg : Msg → Handler (Unit {0})
set_msg msg s = (ok tt, record s { msg = msg })

unfoldable pub set_client_timestamp : ℕ → Handler (Unit {0})
set_client_timestamp timestamp s = (ok tt, record s { client_timestamp = some timestamp })
