-- ===== src/Message/Routing.antt =====
-- Where a text to one user goes.
use prim.Prelude.{
  ℕ, ◌≡◌, refl, sym, inl, inr, true, false, Option, none, some, [], ◌∷◌, ◌++◌, ◌==◌, Bool-cases,
  subst, if_lem, arith,
}
use prim.Prelude.Dict.{lookup}
use prim.Prelude.Action.{Result, ok, err, continue, ◌>>=◌, pure, raise}
use prim.External.ByteOrder.{ByteOrder}
use prim.Entity.Env.{Env}
use prim.Entity.Msg.{Msg}
use prim.Message.State.{
  Sender, Node, Session, Error, Handler, direct, io, unhandled, send, send_from, io_send,
}
use prim.Message.Deliver.{
  cluster_crashed, send_or_log, send_or_crashed, send_direct, deliver_direct,
}

-- The node once a message to one user is with the task for Redis.
abbrev pub kept : Msg → Node → Node
kept msg node = record node { io_tasks = node.io_tasks ++ (direct msg ∷ []) }

-- What happens to a text for a user whose node is `node_id`. Redis has it in all cases but the first.
pub data Routed (receiver node_id : ℕ) (msg : Msg) (s : Session)
    (x : Result Error (Unit {0}) × Session) : Type 0 where
  -- The task for Redis is gone: nothing is done.
  refused : s.node.io_is_open ≡ false → x ≡ (err unhandled, s) → Routed receiver node_id msg s x
  -- The user is one of this node, with an open connection: it is sent to the user.
  to_user :
      (sender : Sender)
      → node_id ≡ s.node.my_id
      → lookup receiver s.node.client_map ≡ some sender
      → s.node.is_open sender ≡ true
      → x ≡ (ok tt, record s { node = send_from (kept msg s.node) sender msg })
      → Routed receiver node_id msg s x
  -- The user is one of this node and not connected, or the connection is closed.
  to_inbox :
      node_id ≡ s.node.my_id
      → ((sender : Sender)
          → lookup receiver s.node.client_map ≡ some sender
          → s.node.is_open sender ≡ false)
      → x ≡ (ok tt, record s { node = kept msg s.node })
      → Routed receiver node_id msg s x
  -- The user is one of another node, with an open connection: it is sent to that node.
  to_node :
      (sender : Sender)
      → (node_id == s.node.my_id) ≡ false
      → lookup node_id s.node.cluster_map ≡ some sender
      → s.node.is_open sender ≡ true
      → x ≡ (ok tt, record s { node = send_from (kept msg s.node) sender msg })
      → Routed receiver node_id msg s x
  -- The other node is not connected, or its connection is closed.
  crashed :
      (node_id == s.node.my_id) ≡ false
      → ((sender : Sender)
          → lookup node_id s.node.cluster_map ≡ some sender
          → s.node.is_open sender ≡ false)
      → x ≡ (err (io cluster_crashed), record s { node = kept msg s.node })
      → Routed receiver node_id msg s x

local_route :
    (receiver node_id : ℕ) (msg : Msg) (s : Session) (o : Option Sender)
    → lookup receiver s.node.client_map ≡ o
    → node_id ≡ s.node.my_id
    → Routed receiver node_id msg s (send_or_log o msg (record s { node = kept msg s.node }))
unfolding send_or_log send pure
local_route receiver node_id msg s none e here = to_inbox here (λ c f. ground (arith, e, f)) refl
local_route receiver node_id msg s (some c) e here = elim (Bool-cases (s.node.is_open c)) [
  | inl opened ↦ to_user c here e opened (rw opened refl)
  | inr closed ↦ to_inbox here (λ d f. ground (arith, e, f, closed)) (rw closed refl)
]

remote_route :
    (receiver node_id : ℕ) (msg : Msg) (s : Session) (o : Option Sender)
    → lookup node_id s.node.cluster_map ≡ o
    → (node_id == s.node.my_id) ≡ false
    → Routed receiver node_id msg s (send_or_crashed o msg (record s { node = kept msg s.node }))
unfolding send_or_crashed send raise
remote_route receiver node_id msg s none e there = crashed there (λ c f. ground (arith, e, f)) refl
remote_route receiver node_id msg s (some c) e there = elim (Bool-cases (s.node.is_open c)) [
  | inl opened ↦ to_node c there e opened (rw opened refl)
  | inr closed ↦ crashed there (λ d f. ground (arith, e, f, closed)) (rw closed refl)
]

io_send_lem :
    (msg : Msg) (s : Session)
    → s.node.io_is_open ≡ true
    → io_send (direct msg) s ≡ (ok tt, record s { node = kept msg s.node })
unfolding io_send
io_send_lem msg s opened = rw opened refl

send_direct-Routed :
    ⦃bo : ByteOrder⦄ (env : Env) (receiver node_id : ℕ) (msg : Msg) (s : Session)
    → Routed receiver node_id msg s
        (send_direct env receiver node_id msg (record s { node = kept msg s.node }))
unfolding send_direct ◌>>=◌
send_direct-Routed env receiver node_id msg s =
    if_lem
      (λ (m : Handler (Unit {0})).
        Routed receiver node_id msg s (m (record s { node = kept msg s.node })))
      (node_id == s.node.my_id) (send_or_log (lookup receiver s.node.client_map) msg)
      (send_or_crashed (lookup node_id s.node.cluster_map) msg)
      (λ here.
        local_route receiver node_id msg s (lookup receiver s.node.client_map) refl
          (ground (arith, here)))
      (λ there. remote_route receiver node_id msg s (lookup node_id s.node.cluster_map) refl there)

-- A text for one user is given to the task for Redis first; without that task nothing is done. Then
-- it is sent at most once: to the user, where this is the user's node and the user has an open
-- connection, or to the user's node, where that is another one with an open connection; another node
-- that cannot be reached is an IO error, while a user that cannot be reached is not.
pub deliver_direct_lem :
    ⦃bo : ByteOrder⦄ (env : Env) (receiver node_id : ℕ) (msg : Msg) (s : Session)
    → Routed receiver node_id msg s (deliver_direct env receiver node_id msg s)
unfolding deliver_direct io_send ◌>>=◌
deliver_direct_lem env receiver node_id msg s = elim (Bool-cases s.node.io_is_open) [
  | inr gone ↦ refused gone (rw gone refl)
  | inl opened ↦
      subst
        (λ x.
          Routed receiver node_id msg s (continue x (λ u. send_direct env receiver node_id msg)))
        (sym (io_send_lem msg s opened)) (send_direct-Routed env receiver node_id msg s)
]
