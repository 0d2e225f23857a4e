-- ===== src/Scheduler/Nodes.antt =====
-- `NodeRegister` and `NodeUnregister` of server/scheduler/src/service/handler/message.rs, seqnum.rs
-- and msgprocessor.rs.
use prim.Prelude.{ℕ, Option, none, some, List, [], ◌∷◌, ◌==◌, if◌then◌else◌}
use prim.Prelude.Dict.{Dict, lookup}
use prim.Prelude.Action.{◌>>=◌, pure, raise, gets, unwrap}
use prim.External.ByteOrder.{ByteOrder}
use prim.External.Json.{Json}
use prim.Entity.Env.{Env}
use prim.Entity.ResourceId
use prim.Entity.Reqwest
use prim.Entity.Reqwest.{ReqwestMsg, with_resource_id_payload}
use prim.Entity.ServerInfo.{ServerInfo, IsPlain, to_bytes}
use prim.Scheduler.State.{
  Registry, Caller, Handler, self_sender_not_found, call, on_registry, insert_info, remove_client,
  remove_info, remove_message_node, remove_seqnum_node, remove_msgprocessor,
}
use prim.Scheduler.Auth.{server_info}

-- `if let Some(sender) = client_map.get(..) { sender.call(..).await?; }`
unfoldable pub call_if_some : Option Caller → ReqwestMsg → Handler (Unit {0})
call_if_some (some caller) msg = call caller msg
call_if_some none msg = pure tt

-- The node `id` is told of every other node of the set that has a caller.
unfoldable pub notify : ℕ → ReqwestMsg → List ℕ → Handler (Unit {0})
notify id msg [] = pure tt
notify id msg (key ∷ keys) =
    let rest = notify id msg keys in
    if key == id then rest else (do
      caller ← gets (λ t. lookup key t.registry.client_map)
      _ ← call_if_some caller msg
      rest)

-- `for entry in cluster_map.0.iter() { entry.value().call(req.clone()).await?; }`
unfoldable pub call_all : ReqwestMsg → Dict Caller → Handler (Unit {0})
call_all req [] = pure tt
call_all req ((id, caller) ∷ entries) = do _ ← call caller req; call_all req entries

unfoldable pub or_self_sender : Option Caller → Handler Caller
or_self_sender (some caller) = pure caller
or_self_sender none = raise self_sender_not_found

-- The node is removed from the maps and from the set of its kind.
unfoldable pub forget : (ℕ → Registry → Registry) → ℕ → Handler ReqwestMsg
forget remove_node id = do
  _ ← on_registry (remove_client id)
  _ ← on_registry (remove_info id)
  _ ← on_registry (remove_node id)
  pure Reqwest.default

-- The other schedulers are told first.
unfoldable pub leave : (ℕ → Registry → Registry) → ReqwestMsg → ℕ → Handler ReqwestMsg
leave remove_node req id = do
  cluster ← gets (λ t. t.registry.cluster_map)
  _ ← call_all req cluster
  forget remove_node id

module _ ⦃bo : ByteOrder⦄ ⦃json : Json IsPlain⦄ (env : Env) where
  -- A node that has registered before is described to the new one.
  unfoldable pub describe : Option ServerInfo → Caller → Handler (Unit {0})
  describe none self_sender = pure tt
  describe (some peer_info) self_sender = do
    msg ←
        unwrap (with_resource_id_payload env ResourceId.message_node_register (to_bytes peer_info))
    call self_sender msg

  unfoldable pub introduce : ℕ → Caller → ReqwestMsg → List ℕ → Handler (Unit {0})
  introduce id self_sender notify_msg [] = pure tt
  introduce id self_sender notify_msg (key ∷ keys) =
      let rest = introduce id self_sender notify_msg keys in
      if key == id then rest else (do
        caller ← gets (λ t. lookup key t.registry.client_map)
        _ ← call_if_some caller notify_msg
        peer_info ← gets (λ t. lookup key t.registry.server_info_map)
        _ ← describe peer_info self_sender
        rest)

  unfoldable pub message_register : ReqwestMsg → Handler ReqwestMsg
  message_register req = do
    info ← server_info req
    caller ← gets (λ t. lookup info.id t.registry.client_map)
    self_sender ← or_self_sender caller
    notify_msg ←
        unwrap (with_resource_id_payload env ResourceId.message_node_register (1 ∷ to_bytes info))
    keys ← gets (λ t. t.registry.message_set)
    _ ← introduce info.id self_sender notify_msg keys
    cluster ← gets (λ t. t.registry.cluster_map)
    _ ← call_all req cluster
    _ ← on_registry (insert_info info.id info)
    pure Reqwest.default

  unfoldable pub message_unregister : ReqwestMsg → Handler ReqwestMsg
  message_unregister req = do
    info ← server_info req
    notify_msg ←
        unwrap (with_resource_id_payload env ResourceId.message_node_unregister (to_bytes info))
    keys ← gets (λ t. t.registry.message_set)
    _ ← notify info.id notify_msg keys
    leave remove_message_node req info.id

module _ ⦃bo : ByteOrder⦄ ⦃json : Json IsPlain⦄ where
  -- Of seqnum.rs and msgprocessor.rs: the same code.
  unfoldable pub seqnum_register : ReqwestMsg → Handler ReqwestMsg
  seqnum_register req = do
    info ← server_info req
    _ ← on_registry (insert_info info.id info)
    cluster ← gets (λ t. t.registry.cluster_map)
    _ ← call_all req cluster
    pure Reqwest.default

  -- The other schedulers are not told.
  unfoldable pub seqnum_unregister : ReqwestMsg → Handler ReqwestMsg
  seqnum_unregister req = do info ← server_info req; forget remove_seqnum_node info.id

  unfoldable pub msgprocessor_register : ReqwestMsg → Handler ReqwestMsg
  msgprocessor_register req = do
    info ← server_info req
    _ ← on_registry (insert_info info.id info)
    cluster ← gets (λ t. t.registry.cluster_map)
    _ ← call_all req cluster
    pure Reqwest.default

  unfoldable pub msgprocessor_unregister : ReqwestMsg → Handler ReqwestMsg
  msgprocessor_unregister req = do info ← server_info req; leave remove_msgprocessor req info.id
