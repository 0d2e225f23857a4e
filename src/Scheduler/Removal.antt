-- ===== src/Scheduler/Removal.antt =====
-- What the removal of a node does, whatever the other nodes answer: the handlers of
-- server/scheduler/src/service/handler/message.rs, seqnum.rs and msgprocessor.rs.
use prim.Prelude.{ℕ, ◌≡◌, refl, sym, subst, ◌++◌, append-nil, ap, some, List, []}
use prim.Prelude.Action.{Result, ok, continue, ◌>>=◌}
use prim.External.ByteOrder.{Bytes, ByteOrder}
use prim.External.Primitive.{FromPrimitive}
use prim.External.Json.{Json}
use prim.Entity.Env.{Env}
use prim.Entity.ResourceId
use prim.Entity.Reqwest
use prim.Entity.Reqwest.{ReqwestMsg}
use prim.Entity.Reqwest.Laws.{with_resource_id_payload_any}
use prim.Entity.ServerInfo
use prim.Entity.ServerInfo.{ServerInfo, IsPlain, to_bytes, from-to_bytes}
use prim.Scheduler.State.{
  Registry, Caller, Task, Handler, Error, remove_client, remove_info, remove_message_node,
  remove_seqnum_node, remove_msgprocessor,
}
use prim.Scheduler.Auth.{server_info}
use prim.Scheduler.Telling.{
  callers, others, Told, nobody, Silent, Called, answered, unanswered, registry-Told, Silent-before,
  Called-after, call_all-Called, notify-Called,
}
use prim.Scheduler.Nodes.{
  call_all, forget, leave, message_unregister, seqnum_unregister, msgprocessor_unregister,
}

-- The callers of the list were called. The removal of a node is complete and every call was
-- answered, or it is given up before anything is removed, since the last call was not answered.
pub data Leaves {A : Type 0} (list : List Caller) (after : Registry) (t : Task)
    (x : Result Error A × Task) : Type 0 where
  gone :
      (a : A) (t' : Task)
      → Told t list t'
      → x.0 ≡ ok a
      → x.1.registry ≡ after
      → x.1.network ≡ t'.network
      → Leaves list after t x
  stays : Silent list t x → Leaves list after t x

abbrev pub removed : (ℕ → Registry → Registry) → ℕ → Registry → Registry
removed remove_node id r = remove_node id (remove_info id (remove_client id r))

forget-Leaves :
    (remove_node : ℕ → Registry → Registry) (id : ℕ) (list : List Caller) (t t' : Task)
    → Told t list t'
    → Leaves list (removed remove_node id t.registry) t (forget remove_node id t')
unfolding forget ◌>>=◌
forget-Leaves remove_node id list t t' told =
    gone Reqwest.default t' told refl (ap (removed remove_node id) (registry-Told t t' list told))
      refl

then-Leaves :
    {A : Type 0} (l l' : List Caller) (after : Registry) (t : Task)
    (x : Result Error (Unit {0}) × Task) (f : Handler A)
    → Called l t x
    → ((t1 : Task) → Told t l t1 → Leaves (l ++ l') after t (f t1))
    → Leaves (l ++ l') after t (continue x (λ u. f))
then-Leaves l l' after t x f (answered t1 told e) k = rw e (k t1 told)
then-Leaves l l' after t x f (unanswered s) k = stays (Silent-before l l' t x (λ u. f) s)

leave-Leaves :
    (remove_node : ℕ → Registry → Registry) (req : ReqwestMsg) (id : ℕ) (list : List Caller)
    (t t' : Task)
    → Told t list t'
    → Leaves
        (list ++ callers t.registry.cluster_map)
        (removed remove_node id t.registry)
        t
        (leave remove_node req id t')
unfolding leave ◌>>=◌
leave-Leaves remove_node req id list t t' told =
    let cluster = t.registry.cluster_map in
    let same = registry-Told t t' list told in
    let calls =
      Called-after list (callers t'.registry.cluster_map) t t'
        (call_all req t'.registry.cluster_map t') told
        (call_all-Called req t'.registry.cluster_map t') in
    let all = list ++ callers cluster in
    subst
      (λ (l : List Caller).
        Leaves l (removed remove_node id t.registry) t (leave remove_node req id t'))
      (append-nil all)
      (then-Leaves all [] (removed remove_node id t.registry) t
        (call_all req t'.registry.cluster_map t') (forget remove_node id)
        (subst
          (λ (r : Registry).
            Called (list ++ callers r.cluster_map) t (call_all req t'.registry.cluster_map t'))
          same calls)
        (λ t1 more.
          subst
            (λ (l : List Caller).
              Leaves l (removed remove_node id t.registry) t (forget remove_node id t1))
            (sym (append-nil all)) (forget-Leaves remove_node id all t t1 more)))

module _ ⦃bo : ByteOrder⦄ ⦃json : Json IsPlain⦄ where
  -- The handlers of the three kinds, on a request with any payload.
  pub message_unregister-Leaves :
      ⦃p : FromPrimitive ResourceId.value⦄ (env : Env) (req : ReqwestMsg) (bytes : Bytes) (t : Task)
      → Reqwest.payload req ≡ some bytes
      → let id = (ServerInfo.from bytes).id in
        Leaves
          (others id t.registry.message_set t.registry.client_map ++ callers t.registry.cluster_map)
          (removed remove_message_node id t.registry)
          t
          (message_unregister env req t)
  unfolding message_unregister server_info ◌>>=◌
  message_unregister-Leaves env req bytes t e =
      let info = ServerInfo.from bytes in
      let told_nodes = others info.id t.registry.message_set t.registry.client_map in
      rw (e, with_resource_id_payload_any env ResourceId.message_node_unregister (to_bytes info))
        (then-Leaves told_nodes (callers t.registry.cluster_map) _ t _
          (leave remove_message_node req info.id)
          (notify-Called info.id _ t.registry.message_set t.registry t refl)
          (leave-Leaves remove_message_node req info.id told_nodes t))

  pub seqnum_unregister-Leaves :
      (req : ReqwestMsg) (bytes : Bytes) (t : Task)
      → Reqwest.payload req ≡ some bytes
      → let id = (ServerInfo.from bytes).id in
        Leaves [] (removed remove_seqnum_node id t.registry) t (seqnum_unregister req t)
  unfolding seqnum_unregister server_info ◌>>=◌
  seqnum_unregister-Leaves req bytes t e =
      rw e (forget-Leaves remove_seqnum_node (ServerInfo.from bytes).id [] t t (nobody t))

  pub msgprocessor_unregister-Leaves :
      (req : ReqwestMsg) (bytes : Bytes) (t : Task)
      → Reqwest.payload req ≡ some bytes
      → let id = (ServerInfo.from bytes).id in
        Leaves
          (callers t.registry.cluster_map)
          (removed remove_msgprocessor id t.registry)
          t
          (msgprocessor_unregister req t)
  unfolding msgprocessor_unregister server_info ◌>>=◌
  msgprocessor_unregister-Leaves req bytes t e =
      rw e (leave-Leaves remove_msgprocessor req (ServerInfo.from bytes).id [] t t (nobody t))
