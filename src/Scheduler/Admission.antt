-- ===== src/Scheduler/Admission.antt =====
-- What a node that authenticates finds.
use prim.Prelude.{
  if_lem, ℕ, ◌%◌, ◌+◌, ◌^◌, ◌≡◌, ◌≢◌, refl, ◌∙◌, ap, ◌⊎◌, true, false, Option, none, some, List,
  length, arith,
}
use prim.Prelude.Dict.{
  lookup, lookup-insert_self, lookup-insert_ne, contains, include, contains-include_self,
}
use prim.Prelude.Action.{Result, ok, ◌>>=◌}
use prim.External.ByteOrder.{Bytes, ByteOrder}
use prim.External.Primitive.{FromPrimitive}
use prim.External.Json.{Json}
use prim.Entity.Env.{Env}
use prim.Entity.ResourceId
use prim.Entity.ResourceId.{ReqwestResourceId}
use prim.Entity.Reqwest
use prim.Entity.Reqwest.{ReqwestMsg, resource_id}
use prim.Entity.Reqwest.Fields.{layout}
use prim.Entity.Reqwest.Laws.{with_resource_id_payload_any, layout-payload, layout-resource_id}
use prim.Entity.ServerInfo
use prim.Entity.ServerInfo.{ServerInfo, IsPlain, to_bytes}
use prim.Scheduler.State.{
  Registry, Caller, Task, Error, insert_client, insert_message_node, insert_seqnum_node,
  insert_msgprocessor,
}
use prim.Scheduler.Auth.{
  Config, my_info, is_message_node, is_scheduler_node, is_seqnum_node, join, insert_caller,
  set_node_id, server_info, auth,
}

contains-include_ne : (j k : ℕ) (s : List ℕ) → j ≢ k → contains j (include k s) ≡ contains j s
contains-include_ne j k s h = ground arith

-- The node `id` is in the set of its kind, a scheduler in none, and the other nodes are as before.
pub record Joined (id : ℕ) (before after : Registry) : Type 0 where
  pub message_node : is_message_node id ≡ true → contains id after.message_set ≡ true
  pub seqnum_node : is_seqnum_node id ≡ true → contains id after.seqnum_set ≡ true
  pub msgprocessor :
      is_message_node id ≡ false
      → is_scheduler_node id ≡ false
      → is_seqnum_node id ≡ false
      → contains id after.msgprocessor_set ≡ true
  -- A node of another kind leaves a set as it is, and a scheduler all three.
  pub message_set_kept : is_message_node id ≡ false → after.message_set ≡ before.message_set
  pub seqnum_set_kept : is_seqnum_node id ≡ false → after.seqnum_set ≡ before.seqnum_set
  pub msgprocessor_set_kept :
      (is_message_node id ≡ true) ⊎ (is_scheduler_node id ≡ true) ⊎ (is_seqnum_node id ≡ true)
      → after.msgprocessor_set ≡ before.msgprocessor_set
  pub message_nodes :
      (j : ℕ) → j ≢ id → contains j after.message_set ≡ contains j before.message_set
  pub seqnum_nodes : (j : ℕ) → j ≢ id → contains j after.seqnum_set ≡ contains j before.seqnum_set
  pub msgprocessors :
      (j : ℕ) → j ≢ id → contains j after.msgprocessor_set ≡ contains j before.msgprocessor_set
  pub infos : after.server_info_map ≡ before.server_info_map
  pub cluster : after.cluster_map ≡ before.cluster_map

join-Joined : (id : ℕ) (r : Registry) → Joined id r (join id r)
unfolding join insert_message_node insert_seqnum_node insert_msgprocessor
join-Joined id r =
    if_lem (Joined id r) (is_message_node id) _ _
      (λ a. record {
        message_node = λ e. contains-include_self id r.message_set;
        seqnum_node = λ e. ground arith;
        msgprocessor = λ e f g. ground arith;
        message_set_kept = λ e. ground arith;
        seqnum_set_kept = λ e. refl;
        msgprocessor_set_kept = λ e. refl;
        message_nodes = λ j h. contains-include_ne j id r.message_set h;
        seqnum_nodes = λ j h. refl;
        msgprocessors = λ j h. refl;
        infos = refl;
        cluster = refl;
      })
      λ a.
        if_lem (Joined id r) (is_scheduler_node id) _ _
          (λ b. record {
            message_node = λ e. ground arith;
            seqnum_node = λ e. ground arith;
            msgprocessor = λ e f g. ground arith;
            message_set_kept = λ e. refl;
            seqnum_set_kept = λ e. refl;
            msgprocessor_set_kept = λ e. refl;
            message_nodes = λ j h. refl;
            seqnum_nodes = λ j h. refl;
            msgprocessors = λ j h. refl;
            infos = refl;
            cluster = refl;
          })
          λ b.
            if_lem (Joined id r) (is_seqnum_node id) _ _
              (λ c. record {
                message_node = λ e. ground arith;
                seqnum_node = λ e. contains-include_self id r.seqnum_set;
                msgprocessor = λ e f g. ground arith;
                message_set_kept = λ e. refl;
                seqnum_set_kept = λ e. ground arith;
                msgprocessor_set_kept = λ e. refl;
                message_nodes = λ j h. refl;
                seqnum_nodes = λ j h. contains-include_ne j id r.seqnum_set h;
                msgprocessors = λ j h. refl;
                infos = refl;
                cluster = refl;
              })
              (λ c. record {
                message_node = λ e. ground arith;
                seqnum_node = λ e. ground arith;
                msgprocessor = λ e f g. contains-include_self id r.msgprocessor_set;
                message_set_kept = λ e. refl;
                seqnum_set_kept = λ e. refl;
                msgprocessor_set_kept = λ e. ground arith;
                message_nodes = λ j h. refl;
                seqnum_nodes = λ j h. refl;
                msgprocessors = λ j h. contains-include_ne j id r.msgprocessor_set h;
                infos = refl;
                cluster = refl;
              })

-- The caller of a connection is that of its node from now on; the others keep theirs.
pub data Reachable (id : ℕ) (caller : Option Caller) (before after : Registry) : Type 0 where
  by :
      (c : Caller)
      → caller ≡ some c
      → lookup id after.client_map ≡ some c
      → ((j : ℕ) → j ≢ id → lookup j after.client_map ≡ lookup j before.client_map)
      → Reachable id caller before after
  as_before :
      caller ≡ none → after.client_map ≡ before.client_map → Reachable id caller before after

insert_caller-Reachable :
    (id : ℕ) (caller : Option Caller) (before r : Registry)
    → r.client_map ≡ before.client_map
    → Reachable id caller before (insert_caller id caller r)
unfolding insert_caller insert_client
insert_caller-Reachable id none before r e = as_before refl e
insert_caller-Reachable id (some c) before r e =
    by c refl (lookup-insert_self id c r.client_map)
      (λ j h. lookup-insert_ne j id c r.client_map h ∙ ap (lookup j) e)

insert_caller-Joined :
    (id : ℕ) (caller : Option Caller) (before r : Registry)
    → Joined id before r
    → Joined id before (insert_caller id caller r)
unfolding insert_caller insert_client
insert_caller-Joined id none before r h = h
insert_caller-Joined id (some c) before r h = record {
  message_node = h.message_node;
  seqnum_node = h.seqnum_node;
  msgprocessor = h.msgprocessor;
  message_set_kept = h.message_set_kept;
  seqnum_set_kept = h.seqnum_set_kept;
  msgprocessor_set_kept = h.msgprocessor_set_kept;
  message_nodes = h.message_nodes;
  seqnum_nodes = h.seqnum_nodes;
  msgprocessors = h.msgprocessors;
  infos = h.infos;
  cluster = h.cluster;
}

client_map-join : (id : ℕ) (r : Registry) → (join id r).client_map ≡ r.client_map
unfolding join insert_message_node insert_seqnum_node insert_msgprocessor
client_map-join id r =
    let P = λ (r' : Registry). r'.client_map ≡ r.client_map in
    if_lem P (is_message_node id) _ _ (λ a. refl)
      λ a.
        if_lem P (is_scheduler_node id) _ _ (λ b. refl)
          λ b. if_lem P (is_seqnum_node id) _ _ (λ c. refl) (λ c. refl)

module _ ⦃bo : ByteOrder⦄ ⦃p : FromPrimitive ResourceId.value⦄ ⦃json : Json IsPlain⦄ where
  -- The node `info` has been let in: the reply repeats the resource id of the request and describes
  -- the scheduler, the connection knows its node, and the node is in the set of its kind.
  pub record Admitted (config : Config) (info : ServerInfo) (r : ReqwestResourceId) (t : Task)
      (x : Result Error ReqwestMsg × Task) : Type 0 where
    pub reply : ReqwestMsg
    pub returns : x.0 ≡ ok reply
    pub repeats : resource_id reply ≡ some r
    pub describes : Reqwest.payload reply ≡ some (to_bytes (my_info config info.typ))
    pub known : x.1.connection.node_id ≡ some info.id
    pub joined : Joined info.id t.registry x.1.registry
    pub reachable : Reachable info.id t.connection.caller t.registry x.1.registry

  -- `ServerAuth` on a request with a payload and a resource id answers with a description of the
  -- scheduler under that resource id, keeps the id of the node with the connection, puts the node
  -- into the set of its kind (a scheduler into none) and, where the connection has a caller, gives
  -- the node that caller; the other nodes keep their sets and callers.
  pub auth_lem :
      (env : Env) (config : Config) (req : ReqwestMsg) (bytes : Bytes) (r : ReqwestResourceId)
      (t : Task)
      → Reqwest.payload req ≡ some bytes
      → resource_id req ≡ some r
      → Admitted config (ServerInfo.from bytes) r t (auth env config req t)
  unfolding auth server_info set_node_id ◌>>=◌
  auth_lem env config req bytes r t has_payload has_resource =
      let info = ServerInfo.from bytes in
      let content = to_bytes (my_info config info.typ) in
      let n = (length content % 2 ^ 16 + 10) % 2 ^ 16 in
      rw (has_payload, has_resource, with_resource_id_payload_any env r content)
        (record {
          reply = layout n 0 (ResourceId.value r) content;
          returns = refl;
          repeats = layout-resource_id n 0 r content;
          describes = layout-payload n 0 (ResourceId.value r) content;
          known = refl;
          joined =
              insert_caller-Joined info.id t.connection.caller t.registry (join info.id t.registry)
                (join-Joined info.id t.registry);
          reachable =
              insert_caller-Reachable info.id t.connection.caller t.registry
                (join info.id t.registry) (client_map-join info.id t.registry);
        })
