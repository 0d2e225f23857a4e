-- ===== src/Message/Group.antt =====
-- `group_task` and `io_task` of server/message/src/service/handler/mod.rs: a group message is sent
-- to the members on this node, and Redis keeps it and tells every member of it.
use prim.Prelude.{ℕ, Bool, true, false, Option, none, some, List, [], ◌∷◌, ◌++◌, if◌then◌else◌}
use prim.Prelude.Dict.{Dict, lookup}
use prim.Prelude.Action.{Action, ◌>>=◌, pure, raise, gets, unwrap, modify}
use prim.External.ByteOrder.{ByteOrder}
use prim.Entity.Msg
use prim.Entity.Msg.{Msg}
use prim.Message.State.{Sender, Node, IoTaskMsg, broadcast, send_from}

-- An error of `send` is only logged.
unfoldable pub try_send : Option Sender → Msg → Node → Node
try_send none msg node = node
try_send (some sender) msg node = if node.is_open sender then send_from node sender msg else node

unfoldable pub try_io : IoTaskMsg → Node → Node
try_io task node =
    if node.io_is_open then record node { io_tasks = node.io_tasks ++ (task ∷ []) } else node

unfoldable pub forward_all : Msg → Dict Sender → Node → Node
forward_all msg [] node = node
forward_all msg ((id, sender) ∷ entries) node =
    forward_all msg entries (try_send (some sender) msg node)

-- Only the first member's task writes the message to the cache.
unfoldable pub to_members : Msg → Bool → List ℕ → Node → Node
to_members msg duplication [] node = node
to_members msg duplication (user_id ∷ user_list) node =
    let told = try_io (broadcast msg user_id duplication) node in
    to_members msg true user_list (try_send (lookup user_id told.client_map) msg told)

pub data GroupError : Type 0 where
  group_not_found : GroupError

module _ ⦃bo : ByteOrder⦄ where
  -- The copy for the members has the group as its sender.
  unfoldable pub for_members : Msg → Option Msg
  for_members msg = elim (Msg.receiver msg) [
    | none ↦ none
    | some group ↦ elim (Msg.set_sender group msg) [
      | none ↦ none
      | some new_msg ↦ Msg.set_receiver group new_msg
    ]
  ]

  or_not_found : Option (List ℕ) → Action Node GroupError (List ℕ)
  or_not_found none = raise group_not_found
  or_not_found (some user_list) = pure user_list

  -- One message of a group: `user_list` is that of GROUP_USER_LIST.
  unfoldable pub group_round : Option (List ℕ) → Msg → Bool → Action Node GroupError (Unit {0})
  unfolding or_not_found
  group_round user_list msg forward = do
    cluster ← gets (λ node. node.cluster_map)
    _ ← if forward then modify (forward_all msg cluster) else pure tt
    new_msg ← unwrap (for_members msg)
    user_list ← or_not_found user_list
    modify (to_members new_msg false user_list)
