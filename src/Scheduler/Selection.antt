-- ===== src/Scheduler/Selection.antt =====
-- Which nodes the remote procedures choose.
use prim.Prelude.{
  ℕ, zero, suc, ◌%◌, ◌*◌, ◌^◌, ◌<◌, ◌≡◌, ◌≢◌, refl, ◌⊎◌, inl, inr, Bool, true, false, bit_or, none,
  some, List, [], ◌∷◌, length, get_elem?, arith, Option-cases,
}
use prim.Prelude.Dict.{lookup, contains}
use prim.Prelude.Action.{Result, ok, err, panicked}
use prim.External.ByteOrder.{Bytes}
use prim.Entity.ServerInfo.{ServerInfo}
use prim.Scheduler.State.{Registry}
use prim.Scheduler.Rpc.{
  Status, node_info_not_found, redis_set_error, message_cluster_all_crashed, NodeMap, assign,
  select, choose_node, which_node, node_info, which_to_connect, seqnum_node_user_select,
}

get_elem?-contains :
    (i : ℕ) (ids : List ℕ)
    → i < length ids
    → (id : ℕ) × (get_elem? ids i ≡ some id) × (contains id ids ≡ true)
get_elem?-contains i [] h = absurd (omega arith)
get_elem?-contains zero (id ∷ ids) h = (id, refl, ground arith)
get_elem?-contains (suc i) (id ∷ ids) h =
    let (found, e, member) = get_elem?-contains i ids (omega arith) in (found, e, ground arith)

-- A member is chosen, or there is none and the remainder by zero panics.
pub select_lem :
    (key : ℕ) (ids : List ℕ)
    → ((ids ≡ []) × (select key ids ≡ panicked))
      ⊎ ((id : ℕ) × (select key ids ≡ ok id) × (contains id ids ≡ true))
unfolding select
select_lem key [] = inl (refl, refl)
select_lem key (id ∷ ids) =
    let (found, e, member) =
      get_elem?-contains (key % length (id ∷ ids)) (id ∷ ids) (omega arith) in
    inr (found, rw e refl, member)

-- The index of the node that is chosen for a conversation is always in range: a member of the
-- sequence number set is chosen, and with an empty set the call panics.
pub seqnum_node_user_select_lem :
    (user1 user2 : ℕ) (r : Registry)
    → ((r.seqnum_set ≡ []) × (seqnum_node_user_select user1 user2 r ≡ panicked))
      ⊎ ((id : ℕ) × (seqnum_node_user_select user1 user2 r ≡ ok id)
          × (contains id r.seqnum_set ≡ true))
unfolding seqnum_node_user_select
seqnum_node_user_select_lem user1 user2 r = select_lem (bit_or (user1 * 2 ^ 64) user2) r.seqnum_set

-- What `which_to_connect` gives: the address of a message node, or the error that the node which was
-- chosen has not described itself.
pub data Connects (r : Registry) (x : Result Status Bytes) : Type 0 where
  address_of :
      (id : ℕ) (info : ServerInfo)
      → contains id r.message_set ≡ true
      → lookup id r.server_info_map ≡ some info
      → x ≡ ok info.service_address
      → Connects r x
  not_described :
      (id : ℕ)
      → contains id r.message_set ≡ true
      → lookup id r.server_info_map ≡ none
      → x ≡ err node_info_not_found
      → Connects r x

-- With a message node online `which_to_connect` gives the address of one, or the error that the
-- node which was chosen has not described itself. With none online it panics.
pub which_to_connect_lem :
    (user : ℕ) (r : Registry)
    → ((r.message_set ≡ []) × (which_to_connect user r ≡ panicked))
      ⊎ Connects r (which_to_connect user r)
unfolding which_to_connect node_info
which_to_connect_lem user r = elim (select_lem user r.message_set) [
  | inl (empty, crash) ↦ inl (empty, rw crash refl)
  | inr (id, chosen, member) ↦ inr (elim (Option-cases (lookup id r.server_info_map)) [
    | inl absent ↦ not_described id member absent (rw (which_to_connect, chosen, absent) refl)
    | inr (info, found) ↦
        address_of id info member found (rw (which_to_connect, chosen, found) refl)
  ])
]

-- Redis does not answer, or has no node for the user.
abbrev pub IsUnknown : Bool → ℕ → NodeMap → Type 0
IsUnknown gets user before = (gets ≡ false) ⊎ (before user ≡ none)

-- How `which_node` ends: with the node that Redis has for the user; where that is unknown with a
-- message node that the user has from now on, if Redis takes the entry; or with one of two errors,
-- each of which changes nothing. `gets` and `sets` say whether Redis answers the two commands.
pub data Located (gets sets : Bool) (user : ℕ) (r : Registry) (before : NodeMap)
    (x : Result Status ℕ × NodeMap) : Type 0 where
  kept :
      (node : ℕ)
      → gets ≡ true
      → before user ≡ some node
      → x ≡ (ok node, before)
      → Located gets sets user r before x
  chosen :
      (node : ℕ)
      → IsUnknown gets user before
      → sets ≡ true
      → contains node r.message_set ≡ true
      → x.0 ≡ ok node
      → x.1 user ≡ some node
      → ((other : ℕ) → other ≢ user → x.1 other ≡ before other)
      → Located gets sets user r before x
  none_online :
      IsUnknown gets user before
      → r.message_set ≡ []
      → x ≡ (err message_cluster_all_crashed, before)
      → Located gets sets user r before x
  not_set :
      IsUnknown gets user before
      → 0 < length r.message_set
      → sets ≡ false
      → x ≡ (err redis_set_error, before)
      → Located gets sets user r before x

assign_other :
    (user node other : ℕ) (nodes : NodeMap)
    → other ≢ user
    → assign user node nodes other ≡ nodes other
unfolding assign
assign_other user node other nodes h = ground arith

assign_self : (user node : ℕ) (nodes : NodeMap) → assign user node nodes user ≡ some node
unfolding assign
assign_self user node nodes = ground arith

choose_node-Located :
    (gets sets : Bool) (user : ℕ) (r : Registry) (nodes : NodeMap) (ids : List ℕ)
    → IsUnknown gets user nodes
    → r.message_set ≡ ids
    → Located gets sets user r nodes (choose_node sets user ids nodes)
unfolding choose_node
choose_node-Located gets sets user r nodes [] unknown e = none_online unknown e refl
choose_node-Located gets true user r nodes (id ∷ ids) unknown e =
    let (node, at, member) =
      get_elem?-contains (user % length (id ∷ ids)) (id ∷ ids) (omega arith) in
    chosen node unknown refl (rw e member) (rw (choose_node, at) refl)
      (rw (choose_node, at) (assign_self user node nodes))
      (λ other h. rw (choose_node, at) (assign_other user node other nodes h))
choose_node-Located gets false user r nodes (id ∷ ids) unknown e =
    let (node, at, member) =
      get_elem?-contains (user % length (id ∷ ids)) (id ∷ ids) (omega arith) in
    not_set unknown (rw e (omega arith)) refl (rw (choose_node, at) refl)

-- `which_node` never panics. Where Redis answers with a node of the user it gives that node, and
-- nothing changes. Else, where a message node is online and Redis takes the entry, it gives a
-- message node, which the user has from then on while the other users keep theirs. Else it ends with
-- an error of its own for each of the two causes, and nothing changes.
pub which_node_lem :
    (gets sets : Bool) (user : ℕ) (r : Registry) (nodes : NodeMap)
    → Located gets sets user r nodes (which_node gets sets user r nodes)
unfolding which_node
which_node_lem true sets user r nodes = elim (Option-cases (nodes user)) [
  | inl absent ↦
      rw (which_node, absent)
        (choose_node-Located true sets user r nodes r.message_set (inr absent) refl)
  | inr (node, found) ↦ kept node refl found (rw (which_node, found) refl)
]
which_node_lem false sets user r nodes =
    choose_node-Located false sets user r nodes r.message_set (inl refl) refl
