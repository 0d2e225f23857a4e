-- ===== src/Tests/Message.antt =====
-- The message service on concrete messages: a text of user 1 to the group 2^36 + 5, whose members on
-- node 3 are the users 11 and 12, and one to user 2.
use prim.Prelude.{ℕ, ◌+◌, ◌≡◌, ◌⊎◌, ◌↔◌, refl, true, none, some, List, [], ◌∷◌, slice, arith}
use prim.Prelude.Action.{ok, err, panicked}
use prim.External.ByteOrder.Model.{big_endian, read_be}
use prim.External.Primitive.Lookup.{lookup}
use prim.Entity.Env.{Env}
use prim.Entity.MsgType
use prim.Entity.MsgType.{MsgType}
use prim.Entity.MsgType.Numbers.{msg_types}
use prim.Entity.Head
use prim.Entity.Head.{InnerHead, from_head}
use prim.Entity.Head.Access
use prim.Entity.Head.View.{view}
use prim.Entity.Msg
use prim.Entity.Msg.{Msg}
use prim.Message.State.{Node, Session, unhandled}
use prim.Message.Number.{conversation_key}
use prim.Message.Key.{SameConversation, conversation_key_iff}
use prim.Message.Group.{group_round}
use prim.Message.Storage.{Redis}
use prim.Message.Broadcast.{Delivered, group_round_lem}
use prim.Message.Deliver.{deliver_direct, deliver_here, cluster_text}
use prim.Message.Routing.{Routed, deliver_direct_lem}
use prim.Message.Failure.{cluster_text_lem}

abbrev machine : Env
machine = record { now = 1700000000000; memory = λ i. i + 200 }

abbrev group : ℕ
group = 68719476741

abbrev head : ℕ → InnerHead
head receiver = record {
  version = 6;
  sender = 1;
  node_id = 3;
  receiver = receiver;
  typ = MsgType.text;
  extension_length = 0;
  timestamp = 4;
  payload_length = 2;
  seqnum = 5;
}

abbrev to_group : Msg
to_group =
    0 ∷ 1 ∷ 128 ∷ 0 ∷ 0 ∷ 0 ∷ 0 ∷ 1 ∷ 0 ∷ 0 ∷ 192 ∷ 16 ∷ 0 ∷ 0 ∷ 0 ∷ 5 ∷ 2 ∷ 0 ∷ 0 ∷ 0 ∷ 0 ∷ 0 ∷ 0
    ∷ 4 ∷ 0 ∷ 8 ∷ 0 ∷ 0 ∷ 0 ∷ 0 ∷ 0 ∷ 5 ∷ 104 ∷ 105 ∷ []

abbrev to_user : Msg
to_user =
    0 ∷ 1 ∷ 128 ∷ 0 ∷ 0 ∷ 0 ∷ 0 ∷ 1 ∷ 0 ∷ 0 ∷ 192 ∷ 0 ∷ 0 ∷ 0 ∷ 0 ∷ 2 ∷ 2 ∷ 0 ∷ 0 ∷ 0 ∷ 0 ∷ 0 ∷ 0
    ∷ 4 ∷ 0 ∷ 8 ∷ 0 ∷ 0 ∷ 0 ∷ 0 ∷ 0 ∷ 5 ∷ 104 ∷ 105 ∷ []

to_group-view : view to_group ≡ some (head group)
unfolding Head.from from_head read_be MsgType.from slice lookup MsgType.value
to_group-view = refl

abbrev node : Node
node = record {
  my_id = 3;
  client_map = (11, 21) ∷ (2, 22) ∷ [];
  cluster_map = (4, 31) ∷ [];
  is_open = λ sender. true;
  sent = [];
  io_is_open = true;
  io_tasks = [];
  group_is_open = λ msg. true;
  pushed = [];
  produced = [];
}

abbrev redis : Redis
redis = record { msg_cache = []; user_inbox = [] }

abbrev members : List ℕ
members = 11 ∷ 12 ∷ []

group_round_example :
    Delivered to_group
      (head group)
      true
      members
      node
      redis
      (group_round (some members) to_group true node)
group_round_example =
    group_round_lem to_group (head group) true 11 (12 ∷ []) node redis (omega arith) (omega arith)
      to_group-view

abbrev session : Session
session = record {
  node = node;
  sender = 31;
  msg = to_user;
  client_timestamp = none;
  seqnum_node_select_map = [];
  group_node_list_map = [];
  seqnum_clients = [];
}

deliver_direct_example : Routed 2 3 to_user session (deliver_direct machine 2 3 to_user session)
deliver_direct_example = deliver_direct_lem machine 2 3 to_user session

conversation_key_example : (conversation_key 1 2 ≡ conversation_key 2 1) ↔ SameConversation 1 2 2 1
conversation_key_example =
    conversation_key_iff 1 2 2 1 (omega arith) (omega arith) (omega arith) (omega arith)

typ-to_user : Msg.typ to_user ≡ some MsgType.text
unfolding Access.typ read_be MsgType.from slice lookup MsgType.value Head.read_u64
typ-to_user = refl

receiver-to_user : Msg.receiver to_user ≡ some 2
unfolding Access.receiver read_be slice Head.read_u64
receiver-to_user = refl

cluster_text_example :
    let x = deliver_here machine 2 to_user session in
    ((x.0 ≡ ok tt) × (cluster_text machine session ≡ (panicked, x.1)))
    ⊎ ((x.0 ≡ err unhandled) × (cluster_text machine session ≡ (err unhandled, x.1)))
unfolding MsgType.value
cluster_text_example =
    cluster_text_lem machine session MsgType.text 2 typ-to_user refl receiver-to_user refl
