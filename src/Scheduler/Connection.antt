-- ===== src/Scheduler/Connection.antt =====
-- The loop of `ClientConnectionHandler` of server/scheduler/src/service/server.rs: the requests of
-- one connection, and its end.
use prim.Prelude.{ℕ, ◌%◌, ◌^◌, Option, none, some, if◌then◌else◌}
use prim.Prelude.Action.{Result, ok, err, panicked, ◌>>=◌, pure, gets, unwrap}
use prim.External.ByteOrder.{ByteOrder}
use prim.External.Primitive.{FromPrimitive}
use prim.External.Json.{Json}
use prim.Entity.Env.{Env}
use prim.Entity.ResourceId
use prim.Entity.ResourceId.{ReqwestResourceId}
use prim.Entity.Reqwest.{ReqwestMsg, req_id, set_req_id, resource_id, with_resource_id_payload}
use prim.Entity.ServerInfo
use prim.Entity.ServerInfo.{ServerInfo, IsPlain, to_bytes}
use prim.Scheduler.State.{Task, Handler, Error}
use prim.Scheduler.Auth.{Config, is_message_node, is_scheduler_node, is_seqnum_node, auth}
use prim.Scheduler.Nodes.{
  message_register, message_unregister, seqnum_register, seqnum_unregister, msgprocessor_register,
  msgprocessor_unregister,
}

-- An error of a handler is logged and the loop goes on without a reply.
unfoldable pub or_continue :
    (ReqwestMsg → Handler (Option ReqwestMsg))
    → Result Error ReqwestMsg × Task
    → Result Error (Option ReqwestMsg) × Task
or_continue reply (ok resp, t) = reply resp t
or_continue reply (err e, t) = (ok none, t)
or_continue reply (panicked, t) = (panicked, t)

module _ ⦃bo : ByteOrder⦄ where
  -- `resp.set_req_id(req.req_id())`
  unfoldable pub with_id_of : ReqwestMsg → ReqwestMsg → Handler (Option ReqwestMsg)
  with_id_of req resp = do
    id ← unwrap (req_id req)
    resp ← unwrap (set_req_id id resp)
    pure (some resp)

  unfoldable pub answer :
      Option (ReqwestMsg → Handler ReqwestMsg) → ReqwestMsg → Handler (Option ReqwestMsg)
  answer none req t = (ok none, t)
  answer (some run) req t = or_continue (with_id_of req) (run req t)

module _ ⦃bo : ByteOrder⦄ ⦃p : FromPrimitive ResourceId.value⦄ ⦃json : Json IsPlain⦄ (env : Env)
    (config : Config) where
  -- `handler_map`
  unfoldable pub handler : ReqwestResourceId → Option (ReqwestMsg → Handler ReqwestMsg)
  handler ResourceId.node_auth = some (auth env config)
  handler ResourceId.message_node_register = some (message_register env)
  handler ResourceId.message_node_unregister = some (message_unregister env)
  handler ResourceId.seqnum_node_register = some seqnum_register
  handler ResourceId.seqnum_node_unregister = some seqnum_unregister
  handler ResourceId.msgprocessor_node_register = some msgprocessor_register
  handler ResourceId.msgprocessor_node_unregister = some msgprocessor_unregister
  handler _ = none

  -- One request: the reply that is sent, if there is one.
  unfoldable pub request : ReqwestMsg → Handler (Option ReqwestMsg)
  request req = do resource_id ← unwrap (resource_id req); answer (handler resource_id) req

  unfoldable pub unregister :
      ReqwestResourceId → ReqwestResourceId → ServerInfo → Handler (Unit {0})
  unregister written key info = do
    req ← unwrap (with_resource_id_payload env written (to_bytes info))
    run ← unwrap (handler key)
    _ ← run req
    pure tt

  -- A node is removed by the handler of its kind. There is none for a scheduler.
  unfoldable pub remove_node : ℕ → Handler (Unit {0})
  remove_node id =
      let info = record ServerInfo.default { id = id } in
      if is_message_node id
      then unregister ResourceId.message_node_unregister ResourceId.message_node_unregister info
      else if is_scheduler_node id
      then unregister ResourceId.scheduler_node_unregister ResourceId.scheduler_node_unregister info
      else if is_seqnum_node id
      then unregister ResourceId.seqnum_node_unregister ResourceId.seqnum_node_unregister info
      else unregister ResourceId.seqnum_node_unregister ResourceId.msgprocessor_node_unregister info

  -- The connection has ended.
  unfoldable pub close : Handler (Unit {0})
  close = do
    node_id ← gets (λ t. t.connection.node_id)
    node_id ← unwrap node_id
    remove_node (node_id % 2 ^ 32)
