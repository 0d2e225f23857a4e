-- ===== src/Scheduler/Rpc.antt =====
-- `impl Scheduler for RpcServer` of server/scheduler/src/rpc/node.rs: the choice of a node.
use prim.Prelude.{
  ℕ, ◌*◌, ◌%◌, ◌^◌, Bool, true, false, bit_or, Option, none, some, List, [], ◌∷◌, length, get_elem?,
  ◌==◌, if◌then◌else◌,
}
use prim.Prelude.Dict.{lookup}
use prim.Prelude.Action.{Result, ok, err, panicked}
use prim.External.ByteOrder.{Bytes}
use prim.Entity.ServerInfo.{ServerInfo}
use prim.Scheduler.State.{Registry}

-- The texts of `Status::internal`.
pub data Status : Type 0 where
  message_cluster_all_crashed try_again redis_set_error node_info_not_found : Status
  call_group_user_list_failed : Status

abbrev or_status : {A : Type 0} → Status → Option A → Result Status A
or_status status none = err status
or_status status (some a) = ok a

abbrev pub and_then : {A B : Type 0} → Result Status A → (A → Result Status B) → Result Status B
and_then (ok a) f = f a
and_then (err status) f = err status
and_then panicked f = panicked

-- The entry of a user under `USER_NODE_MAP` in Redis.
abbrev pub NodeMap : Type 0
NodeMap = ℕ → Option ℕ

unfoldable pub assign : ℕ → ℕ → NodeMap → NodeMap
assign user node nodes k = if k == user then some node else nodes k

-- `set.iter().nth(key % set.len())`: a remainder by zero panics.
unfoldable pub select : ℕ → List ℕ → Result Status ℕ
select key [] = panicked
select key (id ∷ ids) = or_status try_again (get_elem? (id ∷ ids) (key % length (id ∷ ids)))

set_node : Bool → ℕ → ℕ → NodeMap → Result Status ℕ × NodeMap
set_node true user node nodes = (ok node, assign user node nodes)
set_node false user node nodes = (err redis_set_error, nodes)

unfoldable pub choose_node : Bool → ℕ → List ℕ → NodeMap → Result Status ℕ × NodeMap
unfolding set_node
choose_node sets user [] nodes = (err message_cluster_all_crashed, nodes)
choose_node sets user (id ∷ ids) nodes = elim (get_elem? (id ∷ ids) (user % length (id ∷ ids))) [
  | none ↦ (err try_again, nodes)
  | some node ↦ set_node sets user node nodes
]

-- A user that has a node keeps it. `gets` and `sets` say whether Redis answers the two calls.
unfoldable pub which_node : Bool → Bool → ℕ → Registry → NodeMap → Result Status ℕ × NodeMap
unfolding choose_node
which_node gets sets user r nodes = elim (if gets then nodes user else none) [
  | some node ↦ (ok node, nodes)
  | none ↦ choose_node sets user r.message_set nodes
]

-- The users of a group whose node is `node`, from the list that the API gives; the first error
-- ends the loop.
unfoldable pub keep_user : ℕ → ℕ → ℕ → Result Status (List ℕ) → Result Status (List ℕ)
keep_user node user found list =
    and_then list λ users. ok (if found == node then user ∷ users else users)

unfoldable pub curr_node_group_id_user_list :
    (ℕ → Bool) → (ℕ → Bool) → ℕ → List ℕ → Registry → NodeMap → Result Status (List ℕ) × NodeMap
unfolding which_node keep_user
curr_node_group_id_user_list gets sets node [] r nodes = (ok [], nodes)
curr_node_group_id_user_list gets sets node (user ∷ users) r nodes =
    let (found, nodes) = which_node (gets user) (sets user) user r nodes in
    let (list, nodes') = curr_node_group_id_user_list gets sets node users r nodes in
    elim found [
      | ok id ↦ (keep_user node user id list, nodes')
      | err status ↦ (err status, nodes)
      | panicked ↦ (panicked, nodes)
    ]

unfoldable pub all_group_node_list : Registry → List ℕ
all_group_node_list r = r.message_set

-- `node_info_map.get(&id)`
unfoldable pub node_info : Registry → ℕ → Result Status ServerInfo
node_info r id = or_status node_info_not_found (lookup id r.server_info_map)

unfoldable pub which_to_connect : ℕ → Registry → Result Status Bytes
unfolding select node_info
which_to_connect user r =
    and_then (select user r.message_set)
      λ id. and_then (node_info r id) λ info. ok info.service_address

unfoldable pub seqnum_node_address : ℕ → Registry → Result Status (ℕ × Bytes)
unfolding node_info
seqnum_node_address id r = and_then (node_info r id) λ info. ok (id, info.service_address)

-- The users are `u64`, the key is an `u128`.
unfoldable pub seqnum_node_user_select : ℕ → ℕ → Registry → Result Status ℕ
unfolding select
seqnum_node_user_select user1 user2 r = select (bit_or (user1 * 2 ^ 64) user2) r.seqnum_set

all_nodes : List ℕ → Registry → Result Status (List ℕ × List Bytes)
all_nodes [] r = ok ([], [])
all_nodes (id ∷ ids) r =
    and_then (node_info r id)
      λ info. and_then (all_nodes ids r) λ lists. ok (id ∷ lists.0, info.service_address ∷ lists.1)

unfoldable pub seqnum_all_node : Registry → Result Status (List ℕ × List Bytes)
unfolding all_nodes node_info
seqnum_all_node r = all_nodes r.seqnum_set r
