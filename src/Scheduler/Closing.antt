-- ===== src/Scheduler/Closing.antt =====
-- The end of a connection.
use prim.Prelude.{
  if_lem, if◌then◌else◌, ℕ, List, [], ◌++◌, ◌+◌, ◌%◌, ◌^◌, ◌≡◌, refl, sym, subst, ◌⊎◌, inl, inr,
  true, false, Option, none, some, length, arith,
}
use prim.Prelude.Action.{Result, ok, err, panicked, continue, ◌>>=◌, pure, panic, unwrap}
use prim.External.ByteOrder.{ByteOrder}
use prim.External.Primitive.{FromPrimitive}
use prim.External.Json.{Json}
use prim.Entity.Env.{Env}
use prim.Entity.ResourceId
use prim.Entity.ResourceId.{ReqwestResourceId}
use prim.Entity.Reqwest
use prim.Entity.Reqwest.{ReqwestMsg}
use prim.Entity.Reqwest.Fields.{layout}
use prim.Entity.Reqwest.Laws.{with_resource_id_payload_any, layout-payload}
use prim.Entity.ServerInfo
use prim.Entity.ServerInfo.{ServerInfo, IsPlain, to_bytes, from-to_bytes}
use prim.Scheduler.State.{
  Registry, Caller, Task, Handler, Error, remove_message_node, remove_seqnum_node,
  remove_msgprocessor,
}
use prim.Scheduler.Auth.{Config, is_message_node, is_scheduler_node, is_seqnum_node}
use prim.Scheduler.Nodes.{message_unregister, seqnum_unregister, msgprocessor_unregister}
use prim.Scheduler.Connection.{handler, unregister, remove_node, close}
use prim.Scheduler.Invariant.{WellFormed}
use prim.Scheduler.Forgotten.{
  Forgotten, message_node-Forgotten, seqnum_node-Forgotten, msgprocessor-Forgotten,
}
use prim.Scheduler.Telling.{callers, others, Told, Silent, Silent-continue, registry-Told}
use prim.Scheduler.Removal.{
  Leaves, gone, stays, removed, message_unregister-Leaves, seqnum_unregister-Leaves,
  msgprocessor_unregister-Leaves,
}

-- Whom the scheduler calls when a node leaves: for a message node the other message nodes, then, but
-- for a sequence number node, the other schedulers.
abbrev pub to_call : ℕ → Registry → List Caller
to_call id r =
    if is_message_node id
    then others id r.message_set r.client_map ++ callers r.cluster_map
    else (if is_seqnum_node id then [] else callers r.cluster_map)

-- How the end of the connection of a node ends: every one of these calls was answered and the node
-- is forgotten, or a call is not answered, which is the last, and its error leaves the maps and sets
-- as they were.
pub data Closed (id : ℕ) (t : Task) (x : Result Error (Unit {0}) × Task) : Type 0 where
  forgotten :
      (t' : Task)
      → Told t (to_call id t.registry) t'
      → x.0 ≡ ok tt
      → x.1.network ≡ t'.network
      → Forgotten id t.registry x.1.registry
      → Closed id t x
  given_up : Silent (to_call id t.registry) t x → x.1.registry ≡ t.registry → Closed id t x

Leaves-Closed :
    (id : ℕ) (after : Registry) (list : List Caller) (t : Task) (x : Result Error ReqwestMsg × Task)
    → list ≡ to_call id t.registry
    → Leaves list after t x
    → Forgotten id t.registry after
    → Closed id t (continue x (λ resp. pure tt))
unfolding pure
Leaves-Closed id after list t (ok a, t') all (gone b t1 told e same net) f =
    forgotten t1 (subst (λ (l : List Caller). Told t l t1) all told) refl net
      (subst (Forgotten id t.registry) (sym same) f)
Leaves-Closed id after list t (err e, t') all (gone b t1 told e' same net) f = ground arith
Leaves-Closed id after list t (panicked, t') all (gone b t1 told e same net) f = ground arith
Leaves-Closed id after list t x all (stays s) f =
    given_up
      (subst (λ (l : List Caller). Silent l t (continue x (λ resp. pure tt))) all
        (Silent-continue list t x (λ resp. pure tt) s))
      (subst
        (λ (y : Result Error ReqwestMsg × Task).
          (continue y (λ resp. pure tt)).1.registry ≡ t.registry)
        (sym s.ends) (registry-Told t s.t' s.before s.told))

module _ ⦃bo : ByteOrder⦄ ⦃p : FromPrimitive ResourceId.value⦄ ⦃json : Json IsPlain⦄ (env : Env)
    (config : Config) where
  -- The request that the connection makes up for the handler.
  abbrev made_up : ReqwestResourceId → ServerInfo → ReqwestMsg
  made_up written info =
      let n = (length (to_bytes info) % 2 ^ 16 + 10) % 2 ^ 16 in
      layout n 0 (ResourceId.value written) (to_bytes info)

  describes :
      (written : ReqwestResourceId) (info : ServerInfo)
      → Reqwest.payload (made_up written info) ≡ some (to_bytes info)
  describes written info =
      layout-payload ((length (to_bytes info) % 2 ^ 16 + 10) % 2 ^ 16) 0 (ResourceId.value written)
        (to_bytes info)

  module _ (info : ServerInfo) (plain : IsPlain info) (t : Task) (w : WellFormed t.registry) where
    message_node-Closed :
        is_message_node info.id ≡ true
        → Closed info.id t (
            unregister env config ResourceId.message_node_unregister
              ResourceId.message_node_unregister info t)
    unfolding unregister handler ◌>>=◌
    message_node-Closed kind =
        let r = ResourceId.message_node_unregister in
        let req = made_up r info in
        let leaves =
          subst
            (λ (i : ServerInfo).
              Leaves
                (others i.id t.registry.message_set t.registry.client_map
                  ++ callers t.registry.cluster_map)
                (removed remove_message_node i.id t.registry) t (message_unregister env req t))
            (from-to_bytes info plain)
            (message_unregister-Leaves env req (to_bytes info) t (describes r info)) in
        rw (with_resource_id_payload_any env r (to_bytes info)) (
          Leaves-Closed info.id _ _ t (message_unregister env req t) (ground arith) leaves
            (message_node-Forgotten info.id t.registry w kind))

    seqnum_node-Closed :
        is_seqnum_node info.id ≡ true
        → Closed info.id t (
            unregister env config ResourceId.seqnum_node_unregister
              ResourceId.seqnum_node_unregister info t)
    unfolding unregister handler ◌>>=◌
    seqnum_node-Closed kind =
        let r = ResourceId.seqnum_node_unregister in
        let req = made_up r info in
        let leaves =
          subst
            (λ (i : ServerInfo).
              Leaves [] (removed remove_seqnum_node i.id t.registry) t (seqnum_unregister req t))
            (from-to_bytes info plain)
            (seqnum_unregister-Leaves req (to_bytes info) t (describes r info)) in
        rw (with_resource_id_payload_any env r (to_bytes info)) (
          Leaves-Closed info.id _ _ t (seqnum_unregister req t) (ground arith) leaves
            (seqnum_node-Forgotten info.id t.registry w kind))

    msgprocessor-Closed :
        is_message_node info.id ≡ false
        → is_seqnum_node info.id ≡ false
        → Closed info.id t (
            unregister env config ResourceId.seqnum_node_unregister
              ResourceId.msgprocessor_node_unregister info t)
    unfolding unregister handler ◌>>=◌
    msgprocessor-Closed not_message not_seqnum =
        let r = ResourceId.seqnum_node_unregister in
        let req = made_up r info in
        let leaves =
          subst
            (λ (i : ServerInfo).
              Leaves (callers t.registry.cluster_map) (removed remove_msgprocessor i.id t.registry)
                t (msgprocessor_unregister req t))
            (from-to_bytes info plain)
            (msgprocessor_unregister-Leaves req (to_bytes info) t (describes r info)) in
        rw (with_resource_id_payload_any env r (to_bytes info)) (
          Leaves-Closed info.id _ _ t (msgprocessor_unregister req t) (ground arith) leaves
            (msgprocessor-Forgotten info.id t.registry w not_message not_seqnum))

    -- There is no handler for the end of a scheduler's connection.
    scheduler_panics :
        (unregister env config ResourceId.scheduler_node_unregister
          ResourceId.scheduler_node_unregister info t).0
        ≡ panicked
    unfolding unregister handler ◌>>=◌
    scheduler_panics =
        rw (with_resource_id_payload_any env ResourceId.scheduler_node_unregister (to_bytes info))
          refl

  -- What the end of a connection does, by the id of its node: a scheduler's id panics.
  abbrev pub Ends : ℕ → Task → Result Error (Unit {0}) × Task → Type 0
  Ends id t x =
      ((is_scheduler_node id ≡ true) × (x.0 ≡ panicked))
      ⊎ ((is_scheduler_node id ≡ false) × Closed id t x)

  remove_node-Ends :
      (id : ℕ) (t : Task) → WellFormed t.registry → Ends id t (remove_node env config id t)
  unfolding remove_node ServerInfo.default
  remove_node-Ends id t w =
      let info = record ServerInfo.default { id = id } in
      let P = λ (m : Handler (Unit {0})). Ends id t (m t) in
      if_lem P (is_message_node id) _ _
        (λ a. inr (ground arith, message_node-Closed info refl t w a))
        λ a.
          if_lem P (is_scheduler_node id) _ _ (λ b. inl (b, scheduler_panics info refl t w))
            λ b.
              if_lem P (is_seqnum_node id) _ _ (λ c. inr (b, seqnum_node-Closed info refl t w c))
                (λ c. inr (b, msgprocessor-Closed info refl t w a c))

  then_remove :
      (o : Option ℕ) (t : Task)
      → WellFormed t.registry
      → let x = continue (unwrap o t) (λ id. remove_node env config (id % 2 ^ 32)) in
        ((o ≡ none) × (x.0 ≡ panicked)) ⊎ ((id : ℕ) × (o ≡ some id) × Ends (id % 2 ^ 32) t x)
  unfolding unwrap panic pure
  then_remove none t w = inl (refl, refl)
  then_remove (some id) t w = inr (id, refl, remove_node-Ends (id % 2 ^ 32) t w)

  -- A connection ends while the sets have only ids of their kinds. Where no node has authenticated
  -- on it, or a node whose id is a scheduler's, the task panics. For any other node the other message
  -- nodes that have a caller are called if it is a message node, and then the other schedulers unless
  -- it is a sequence number node, in the order of the set and of the map. Either all of them answer,
  -- the node is removed from every map and set, and every other node is where it was; or one does not
  -- answer, which is then the last that was called, its error is the result, and nothing has changed
  -- in the maps and sets.
  pub close_lem :
      (t : Task)
      → WellFormed t.registry
      → ((t.connection.node_id ≡ none) × ((close env config t).0 ≡ panicked))
        ⊎ ((id : ℕ) × (t.connection.node_id ≡ some id) × Ends (id % 2 ^ 32) t (close env config t))
  unfolding close ◌>>=◌
  close_lem t w = then_remove t.connection.node_id t w
