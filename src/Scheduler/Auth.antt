-- ===== src/Scheduler/Auth.antt =====
-- `ServerAuth` of server/scheduler/src/service/handler/logic.rs.
use prim.Prelude.{ℕ, Bool, ◌&&◌, Option, none, some, leb, ltb, if◌then◌else◌}
use prim.Prelude.Action.{◌>>=◌, ok, pure, gets, unwrap}
use prim.External.ByteOrder.{Bytes, ByteOrder}
use prim.External.Primitive.{FromPrimitive}
use prim.External.Json.{Json}
use prim.Entity.Env.{Env}
use prim.Entity.ResourceId
use prim.Entity.Reqwest
use prim.Entity.Reqwest.{ReqwestMsg, resource_id, with_resource_id_payload}
use prim.Entity.ServerInfo
use prim.Entity.ServerInfo.{ServerInfo, ServerStatus, ServerType, IsPlain, to_bytes}
use prim.Scheduler.{
  message_node_id_beginning, scheduler_node_id_beginning, seqnum_node_id_beginning,
  msgprocessor_id_beginning,
}
use prim.Scheduler.State.{
  Registry, Caller, Handler, on_registry, insert_client, insert_message_node, insert_seqnum_node,
  insert_msgprocessor,
}

-- What the handlers read of the configuration and of `my_id`.
pub record Config : Type 0 where
  pub my_id : ℕ
  pub service_address : Bytes
  pub cluster_address : Bytes

abbrev pub is_message_node : ℕ → Bool
is_message_node id = leb message_node_id_beginning id && ltb id scheduler_node_id_beginning

abbrev pub is_scheduler_node : ℕ → Bool
is_scheduler_node id = leb scheduler_node_id_beginning id && ltb id seqnum_node_id_beginning

abbrev pub is_seqnum_node : ℕ → Bool
is_seqnum_node id = leb seqnum_node_id_beginning id && ltb id msgprocessor_id_beginning

-- A node joins the set of its kind. Every id that is left, 0 included, is a message processor.
unfoldable pub join : ℕ → Registry → Registry
join id r =
    if is_message_node id
    then insert_message_node id r
    else if is_scheduler_node id
    then r
    else if is_seqnum_node id
    then insert_seqnum_node id r
    else insert_msgprocessor id r

-- Without a caller nothing is inserted.
unfoldable pub insert_caller : ℕ → Option Caller → Registry → Registry
insert_caller id (some caller) r = insert_client id caller r
insert_caller id none r = r

unfoldable pub set_node_id : ℕ → Handler (Unit {0})
set_node_id id t = (ok tt, record t { connection = record t.connection { node_id = some id } })

-- The description of this scheduler that the reply holds.
abbrev pub my_info : Config → ServerType → ServerInfo
my_info config typ = record {
  id = config.my_id;
  cluster_address = some config.cluster_address;
  service_address = config.service_address;
  connection_id = 0;
  status = ServerStatus.normal;
  typ = typ;
  load = none;
}

module _ ⦃bo : ByteOrder⦄ ⦃json : Json IsPlain⦄ where
  unfoldable pub server_info : ReqwestMsg → Handler ServerInfo
  server_info req = do payload ← unwrap (Reqwest.payload req); pure (ServerInfo.from payload)

  unfoldable pub auth :
      ⦃p : FromPrimitive ResourceId.value⦄ → Env → Config → ReqwestMsg → Handler ReqwestMsg
  auth env config req = do
    info ← server_info req
    _ ← on_registry (join info.id)
    caller ← gets (λ t. t.connection.caller)
    _ ← on_registry (insert_caller info.id caller)
    _ ← set_node_id info.id
    resource_id ← unwrap (resource_id req)
    unwrap (with_resource_id_payload env resource_id (to_bytes (my_info config info.typ)))
