-- ===== src/Scheduler/Kept.antt =====
-- What the handlers keep.
use prim.Prelude.{ℕ, Option, none, some, List, [], ◌∷◌, ◌==◌}
use prim.Prelude.Dict.{Dict}
use prim.Prelude.Action.{Keeps, keeps_rules, Keeps-bind, Keeps-if, Keeps-gets}
use prim.External.ByteOrder.{ByteOrder}
use prim.External.Primitive.{FromPrimitive}
use prim.External.Json.{Json}
use prim.Entity.Env.{Env}
use prim.Entity.ResourceId
use prim.Entity.ResourceId.{ReqwestResourceId}
use prim.Entity.Reqwest.{ReqwestMsg}
use prim.Entity.ServerInfo.{ServerInfo, IsPlain}
use prim.Scheduler.State.{Registry, Caller, Task, call, on_registry, remove_client, remove_info}
use prim.Scheduler.Auth.{Config, set_node_id, server_info, auth}
use prim.Scheduler.Nodes.{
  call_if_some, notify, call_all, forget, leave, or_self_sender, describe, introduce,
  message_register, message_unregister, seqnum_register, seqnum_unregister, msgprocessor_register,
  msgprocessor_unregister,
}
use prim.Scheduler.Invariant.{
  WellFormed, join-WellFormed, insert_caller-WellFormed, remove_client-WellFormed,
  insert_info-WellFormed, remove_info-WellFormed, remove_message_node-WellFormed,
  remove_seqnum_node-WellFormed, remove_msgprocessor-WellFormed,
}

-- A property of the shared maps and sets alone.
pub record OnRegistry (P : Registry → Type 0) (t : Task) : Type 0 where
  pub holds : P t.registry

module _ {P : Registry → Type 0} where
  call-Keeps : (caller : Caller) (msg : ReqwestMsg) → Keeps (OnRegistry P) (call caller msg)
  unfolding call
  call-Keeps caller msg = record { at = λ t h. record { holds = h.holds } }

  set_node_id-Keeps : (id : ℕ) → Keeps (OnRegistry P) (set_node_id id)
  unfolding set_node_id
  set_node_id-Keeps id = record { at = λ t h. record { holds = h.holds } }

  on_registry-Keeps :
      (f : Registry → Registry)
      → ((r : Registry) → P r → P (f r))
      → Keeps (OnRegistry P) (on_registry f)
  on_registry-Keeps f k = record { at = λ t h. record { holds = k t.registry h.holds } }

  or_self_sender-Keeps : (o : Option Caller) → Keeps (OnRegistry P) (or_self_sender o)
  unfolding or_self_sender
  or_self_sender-Keeps (some caller) = search keeps_rules
  or_self_sender-Keeps none = search keeps_rules

  call_if_some-Keeps :
      (o : Option Caller) (msg : ReqwestMsg) → Keeps (OnRegistry P) (call_if_some o msg)
  unfolding call_if_some
  call_if_some-Keeps (some caller) msg = call-Keeps caller msg
  call_if_some-Keeps none msg = search keeps_rules

  call_all-Keeps : (req : ReqwestMsg) (d : Dict Caller) → Keeps (OnRegistry P) (call_all req d)
  unfolding call_all
  call_all-Keeps req [] = search keeps_rules
  call_all-Keeps req ((id, caller) ∷ d) =
      Keeps-bind (call caller req) (λ x. call_all req d) (call-Keeps caller req)
        λ x. call_all-Keeps req d

  notify-Keeps :
      (id : ℕ) (msg : ReqwestMsg) (keys : List ℕ) → Keeps (OnRegistry P) (notify id msg keys)
  unfolding notify
  notify-Keeps id msg [] = search keeps_rules
  notify-Keeps id msg (key ∷ keys) =
      let rest = notify-Keeps id msg keys in
      Keeps-if (key == id) _ _ (λ e. rest)
        λ e.
          Keeps-bind _ _ (Keeps-gets _)
            λ caller. Keeps-bind _ _ (call_if_some-Keeps caller msg) λ x. rest

  forget-Keeps :
      (remove_node : ℕ → Registry → Registry) (id : ℕ)
      → ((r : Registry) → P r → P (remove_client id r))
      → ((r : Registry) → P r → P (remove_info id r))
      → ((r : Registry) → P r → P (remove_node id r))
      → Keeps (OnRegistry P) (forget remove_node id)
  unfolding forget
  forget-Keeps remove_node id k l m = search (keeps_rules, on_registry-Keeps, k, l, m) depth 14

  leave-Keeps :
      (remove_node : ℕ → Registry → Registry) (req : ReqwestMsg) (id : ℕ)
      → ((r : Registry) → P r → P (remove_client id r))
      → ((r : Registry) → P r → P (remove_info id r))
      → ((r : Registry) → P r → P (remove_node id r))
      → Keeps (OnRegistry P) (leave remove_node req id)
  unfolding leave
  leave-Keeps remove_node req id k l m =
      search (keeps_rules, call_all-Keeps, forget-Keeps, k, l, m) depth 14

  module _ ⦃bo : ByteOrder⦄ ⦃json : Json IsPlain⦄ where
    server_info-Keeps : (req : ReqwestMsg) → Keeps (OnRegistry P) (server_info req)
    unfolding server_info
    server_info-Keeps req = search keeps_rules

    describe-Keeps :
        (env : Env) (o : Option ServerInfo) (caller : Caller)
        → Keeps (OnRegistry P) (describe env o caller)
    unfolding describe
    describe-Keeps env none caller = search keeps_rules
    describe-Keeps env (some info) caller = search (keeps_rules, call-Keeps)

    introduce-Keeps :
        (env : Env) (id : ℕ) (caller : Caller) (msg : ReqwestMsg) (keys : List ℕ)
        → Keeps (OnRegistry P) (introduce env id caller msg keys)
    unfolding introduce
    introduce-Keeps env id caller msg [] = search keeps_rules
    introduce-Keeps env id caller msg (key ∷ keys) =
        let rest = introduce-Keeps env id caller msg keys in
        Keeps-if (key == id) _ _ (λ e. rest)
          λ e. Keeps-bind _ _ (Keeps-gets _) λ found.
            Keeps-bind _ _ (call_if_some-Keeps found msg) λ x.
              Keeps-bind _ _ (Keeps-gets _)
                λ info. Keeps-bind _ _ (describe-Keeps env info caller) λ y. rest

ruleset handler_rules = (
  keeps_rules, call-Keeps, set_node_id-Keeps, or_self_sender-Keeps, call_all-Keeps, notify-Keeps,
  forget-Keeps, leave-Keeps, server_info-Keeps, introduce-Keeps, on_registry-Keeps, join-WellFormed,
  insert_caller-WellFormed, remove_client-WellFormed, insert_info-WellFormed,
  remove_info-WellFormed, remove_message_node-WellFormed, remove_seqnum_node-WellFormed,
  remove_msgprocessor-WellFormed,
)

module _ ⦃bo : ByteOrder⦄ ⦃json : Json IsPlain⦄ where
  pub auth-Keeps :
      ⦃p : FromPrimitive ResourceId.value⦄ (env : Env) (config : Config) (req : ReqwestMsg)
      → Keeps (OnRegistry WellFormed) (auth env config req)
  unfolding auth
  auth-Keeps env config req = search handler_rules depth 14

  pub message_register-Keeps :
      (env : Env) (req : ReqwestMsg) → Keeps (OnRegistry WellFormed) (message_register env req)
  unfolding message_register
  message_register-Keeps env req = search handler_rules depth 14

  pub message_unregister-Keeps :
      (env : Env) (req : ReqwestMsg) → Keeps (OnRegistry WellFormed) (message_unregister env req)
  unfolding message_unregister
  message_unregister-Keeps env req = search handler_rules depth 14

  pub seqnum_register-Keeps :
      (req : ReqwestMsg) → Keeps (OnRegistry WellFormed) (seqnum_register req)
  unfolding seqnum_register
  seqnum_register-Keeps req = search handler_rules depth 14

  pub seqnum_unregister-Keeps :
      (req : ReqwestMsg) → Keeps (OnRegistry WellFormed) (seqnum_unregister req)
  unfolding seqnum_unregister
  seqnum_unregister-Keeps req = search handler_rules depth 14

  pub msgprocessor_register-Keeps :
      (req : ReqwestMsg) → Keeps (OnRegistry WellFormed) (msgprocessor_register req)
  unfolding msgprocessor_register
  msgprocessor_register-Keeps req = search handler_rules depth 14

  pub msgprocessor_unregister-Keeps :
      (req : ReqwestMsg) → Keeps (OnRegistry WellFormed) (msgprocessor_unregister req)
  unfolding msgprocessor_unregister
  msgprocessor_unregister-Keeps req = search handler_rules depth 14
