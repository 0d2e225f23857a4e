-- ===== src/Message/Copies.antt =====
-- The copies of a group message, and the tasks for Redis.
use prim.Prelude.{
  ℕ, ◌≡◌, refl, sym, ◌∙◌, ap, ap₂, Bool, true, false, Option, none, some, List, [], ◌∷◌, ◌++◌,
  append_assoc, append-nil, map, if◌then◌else◌, if_lem, inl, inr, Bool-cases,
}
use prim.Prelude.Dict.{Dict, lookup}
use prim.External.ByteOrder.{ByteOrder}
use prim.Entity.Msg
use prim.Entity.Msg.{Msg}
use prim.Net.Peer.{who_we_are}
use prim.Message.State.{Sender, Node, IoTaskMsg, broadcast, send_from}
use prim.Message.Group.{try_send, try_io, forward_all, to_members}
use prim.Message.Storage.{Redis, store, store_all}

-- The tasks that the members of a group give rise to: the first one writes the cache.
abbrev pub broadcasts : Msg → Bool → List ℕ → List IoTaskMsg
broadcasts msg duplication [] = []
broadcasts msg duplication (user_id ∷ user_list) =
    broadcast msg user_id duplication ∷ broadcasts msg true user_list

abbrev copy_to : Option Sender → (Sender → Bool) → Msg → List (Sender × Msg)
copy_to none is_open msg = []
copy_to (some sender) is_open msg = if is_open sender then (sender, msg) ∷ [] else []

-- The copies that go out, one to each member with an open connection to this node.
abbrev pub copies : Dict Sender → (Sender → Bool) → Msg → List ℕ → List (Sender × Msg)
copies clients is_open msg [] = []
copies clients is_open msg (user_id ∷ user_list) =
    copy_to (lookup user_id clients) is_open msg ++ copies clients is_open msg user_list

-- The copies that go to the other nodes.
abbrev pub forwards : Dict Sender → (Sender → Bool) → Msg → List (Sender × Msg)
forwards [] is_open msg = []
forwards ((id, sender) ∷ entries) is_open msg =
    copy_to (some sender) is_open msg ++ forwards entries is_open msg

-- The node after more was sent and more tasks were given to Redis.
abbrev pub grown : List (Sender × Msg) → List IoTaskMsg → Node → Node
grown sent tasks node = record node { sent = node.sent ++ sent; io_tasks = node.io_tasks ++ tasks }

grown_nil : (node : Node) → node ≡ grown [] [] node
grown_nil node =
    ap₂ (λ sent tasks. record node { sent = sent; io_tasks = tasks }) (sym (append-nil node.sent))
      (sym (append-nil node.io_tasks))

try_send_lem :
    (o : Option Sender) (msg : Msg) (node : Node)
    → try_send o msg node ≡ record node { sent = node.sent ++ copy_to o node.is_open msg }
unfolding try_send send_from
try_send_lem none msg node = ap (λ sent. record node { sent = sent }) (sym (append-nil node.sent))
try_send_lem (some sender) msg node = elim (Bool-cases (node.is_open sender)) [
  | inl opened ↦ rw opened refl
  | inr closed ↦ rw closed (ap (λ sent. record node { sent = sent }) (sym (append-nil node.sent)))
]

pub forward_all_lem :
    (msg : Msg) (entries : Dict Sender) (node : Node)
    → forward_all msg entries node ≡ grown (forwards entries node.is_open msg) [] node
unfolding forward_all
forward_all_lem msg [] node = grown_nil node
forward_all_lem msg ((id, sender) ∷ entries) node =
    ap (forward_all msg entries) (try_send_lem (some sender) msg node)
    ∙ forward_all_lem msg entries
        (record node { sent = node.sent ++ copy_to (some sender) node.is_open msg })
    ∙ ap (λ sent. record node { sent = sent; io_tasks = node.io_tasks ++ [] })
        (append_assoc node.sent (copy_to (some sender) node.is_open msg)
          (forwards entries node.is_open msg))

try_io_lem :
    (task : IoTaskMsg) (node : Node)
    → node.io_is_open ≡ true
    → try_io task node ≡ record node { io_tasks = node.io_tasks ++ (task ∷ []) }
unfolding try_io
try_io_lem task node opened = rw opened refl

to_members_open :
    (msg : Msg) (duplication : Bool) (user_list : List ℕ) (node : Node)
    → node.io_is_open ≡ true
    → to_members msg duplication user_list node
      ≡ grown
          (copies node.client_map node.is_open msg user_list)
          (broadcasts msg duplication user_list)
          node
unfolding to_members
to_members_open msg duplication [] node opened = grown_nil node
to_members_open msg duplication (user_id ∷ user_list) node opened =
    let task = broadcast msg user_id duplication in
    let told = record node { io_tasks = node.io_tasks ++ (task ∷ []) } in
    let copy = copy_to (lookup user_id node.client_map) node.is_open msg in
    ap (λ (n : Node). to_members msg true user_list (try_send (lookup user_id n.client_map) msg n))
      (try_io_lem task node opened)
    ∙ ap (to_members msg true user_list) (try_send_lem (lookup user_id node.client_map) msg told)
    ∙ to_members_open msg true user_list (record told { sent = node.sent ++ copy }) opened
    ∙ ap₂ (λ sent tasks. record node { sent = sent; io_tasks = tasks })
        (append_assoc node.sent copy (copies node.client_map node.is_open msg user_list))
        (append_assoc node.io_tasks (task ∷ []) (broadcasts msg true user_list))

try_io_shut : (task : IoTaskMsg) (node : Node) → node.io_is_open ≡ false → try_io task node ≡ node
unfolding try_io
try_io_shut task node shut = rw shut refl

to_members_shut :
    (msg : Msg) (duplication : Bool) (user_list : List ℕ) (node : Node)
    → node.io_is_open ≡ false
    → to_members msg duplication user_list node
      ≡ grown (copies node.client_map node.is_open msg user_list) [] node
unfolding to_members
to_members_shut msg duplication [] node shut = grown_nil node
to_members_shut msg duplication (user_id ∷ user_list) node shut =
    let copy = copy_to (lookup user_id node.client_map) node.is_open msg in
    ap (λ (n : Node). to_members msg true user_list (try_send (lookup user_id n.client_map) msg n))
      (try_io_shut (broadcast msg user_id duplication) node shut)
    ∙ ap (to_members msg true user_list) (try_send_lem (lookup user_id node.client_map) msg node)
    ∙ to_members_shut msg true user_list (record node { sent = node.sent ++ copy }) shut
    ∙ ap (λ sent. record node { sent = sent; io_tasks = node.io_tasks ++ [] })
        (append_assoc node.sent copy (copies node.client_map node.is_open msg user_list))

-- The copies go out whether the task for Redis is there or not.
pub to_members_lem :
    (msg : Msg) (duplication : Bool) (user_list : List ℕ) (node : Node)
    → to_members msg duplication user_list node
      ≡ grown
          (copies node.client_map node.is_open msg user_list)
          (if node.io_is_open then broadcasts msg duplication user_list else [])
          node
to_members_lem msg duplication user_list node =
    if_lem
      (λ tasks.
        to_members msg duplication user_list node
        ≡ grown (copies node.client_map node.is_open msg user_list) tasks node)
      node.io_is_open _ _ (to_members_open msg duplication user_list node)
      (to_members_shut msg duplication user_list node)

-- A message with these four fields, as Redis sees it.
module _ ⦃bo : ByteOrder⦄ where
  pub record HasFields (msg : Msg) (sender receiver timestamp seqnum : ℕ) : Type 0 where
    pub has_sender : Msg.sender msg ≡ some sender
    pub has_receiver : Msg.receiver msg ≡ some receiver
    pub has_timestamp : Msg.timestamp msg ≡ some timestamp
    pub has_seqnum : Msg.seqnum msg ≡ some seqnum

  module _ (msg : Msg) (sender group timestamp seqnum : ℕ)
      (h : HasFields msg sender group timestamp seqnum) where
    -- The entries of the inboxes, one for each member.
    abbrev pub notes : List ℕ → List (ℕ × ℕ × ℕ)
    notes user_list = map (λ user_id. (user_id, sender, timestamp)) user_list

    store_later :
        (user_list : List ℕ) (redis : Redis)
        → store_all (broadcasts msg true user_list) redis
          ≡ some (record redis { user_inbox = redis.user_inbox ++ notes user_list })
    unfolding store_all store
    store_later [] redis =
        ap (λ inbox. some (record redis { user_inbox = inbox })) (sym (append-nil redis.user_inbox))
    store_later (user_id ∷ user_list) redis =
        let note : ℕ × ℕ × ℕ = (user_id, sender, timestamp) in
        rw (h.has_sender, h.has_receiver, h.has_timestamp, h.has_seqnum)
          (store_later user_list (record redis { user_inbox = redis.user_inbox ++ (note ∷ []) })
            ∙ ap (λ inbox. some (record redis { user_inbox = inbox }))
                (append_assoc redis.user_inbox (note ∷ []) (notes user_list)))

    -- The message is in the cache once, under the name of the group, and in every member's inbox
    -- once.
    pub store_members :
        (user_id : ℕ) (user_list : List ℕ) (redis : Redis)
        → store_all (broadcasts msg false (user_id ∷ user_list)) redis
          ≡ some (record {
            msg_cache = redis.msg_cache ++ ((who_we_are group group, msg, seqnum) ∷ []);
            user_inbox = redis.user_inbox ++ notes (user_id ∷ user_list);
          })
    unfolding store_all store
    store_members user_id user_list redis =
        let note : ℕ × ℕ × ℕ = (user_id, sender, timestamp) in
        let cache = redis.msg_cache ++ ((who_we_are group group, msg, seqnum) ∷ []) in
        rw (h.has_sender, h.has_receiver, h.has_timestamp, h.has_seqnum)
          (store_later user_list
              (record { msg_cache = cache; user_inbox = redis.user_inbox ++ (note ∷ []) })
            ∙ ap (λ inbox. some (record { msg_cache = cache; user_inbox = inbox }))
                (append_assoc redis.user_inbox (note ∷ []) (notes user_list)))
