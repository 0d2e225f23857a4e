-- ===== src/Scheduler/Reachable.antt =====
-- The invariant in every state that the scheduler reaches.
use prim.Prelude.{ℕ, Bool, Option, none, some, List, [], ◌∷◌, get_elem?, arith}
use prim.Prelude.Action.{
  Result, ok, err, panicked, ◌>>=◌, pure, unwrap, Keeps, keeps_rules, Keeps-pure, Keeps-unwrap,
  Keeps-bind,
}
use prim.External.ByteOrder.{ByteOrder}
use prim.External.Primitive.{FromPrimitive}
use prim.External.Json.{Json}
use prim.Entity.Env.{Env}
use prim.Entity.ResourceId
use prim.Entity.ResourceId.{ReqwestResourceId}
use prim.Entity.Reqwest.{ReqwestMsg, resource_id, with_resource_id_payload}
use prim.Entity.ServerInfo.{ServerInfo, IsPlain, to_bytes}
use prim.Scheduler.State.{Connection, Task, Handler, Error, empty_registry}
use prim.Scheduler.Auth.{Config}
use prim.Scheduler.Connection.{
  or_continue, with_id_of, answer, handler, request, unregister, remove_node, close,
}
use prim.Scheduler.Kept.{
  OnRegistry, auth-Keeps, message_register-Keeps, message_unregister-Keeps, seqnum_register-Keeps,
  seqnum_unregister-Keeps, msgprocessor_register-Keeps, msgprocessor_unregister-Keeps,
}
use prim.Scheduler.World.{World, Event, opened, received, ended, started, run_on, step, steps}
use prim.Scheduler.Invariant.{WellFormed}

module _ ⦃bo : ByteOrder⦄ where
  with_id_of-Keeps : {P : Task → Type 0} (req resp : ReqwestMsg) → Keeps P (with_id_of req resp)
  unfolding with_id_of
  with_id_of-Keeps req resp = search keeps_rules

  or_continue-Keeps :
      (P : Task → Type 0) (req : ReqwestMsg) (r : Result Error ReqwestMsg × Task)
      → P r.1
      → P (or_continue (with_id_of req) r).1
  unfolding or_continue
  or_continue-Keeps P req (ok resp, t) h = (with_id_of-Keeps {P = P} req resp).at t h
  or_continue-Keeps P req (err e, t) h = h
  or_continue-Keeps P req (panicked, t) h = h

started-WellFormed : (is_answered : ℕ → Bool) → WellFormed (started is_answered).registry
unfolding started empty_registry
started-WellFormed is_answered = record {
  message = λ id e. ground arith;
  seqnum = λ id e. ground arith;
  msgprocessor = λ id e. ground arith;
  described = λ id info e. ground arith;
}

-- What a handler of the map, if there is one, keeps.
abbrev AllKeep : Option (ReqwestMsg → Handler ReqwestMsg) → Type 0
AllKeep none = Unit {0}
AllKeep (some run) = (req : ReqwestMsg) → Keeps (OnRegistry WellFormed) (run req)

answer-Keeps :
    ⦃bo : ByteOrder⦄ (o : Option (ReqwestMsg → Handler ReqwestMsg)) (req : ReqwestMsg)
    → AllKeep o
    → Keeps (OnRegistry WellFormed) (answer o req)
unfolding answer
answer-Keeps none req k = record { at = λ t h. h }
answer-Keeps (some run) req k = record {
  at = λ t h. or_continue-Keeps (OnRegistry WellFormed) req (run req t) ((k req).at t h);
}

run-Keeps :
    (o : Option (ReqwestMsg → Handler ReqwestMsg)) (req : ReqwestMsg)
    → AllKeep o
    → Keeps
        (OnRegistry WellFormed)
        (unwrap o >>= λ run. run req >>= λ resp. pure {S = Task} {E = Error} {A = Unit {0}} tt)
unfolding ◌>>=◌
run-Keeps none req k = record { at = λ t h. h }
run-Keeps (some run) req k = Keeps-bind (run req) _ (k req) λ resp. Keeps-pure tt

module _ ⦃bo : ByteOrder⦄ ⦃p : FromPrimitive ResourceId.value⦄ ⦃json : Json IsPlain⦄ (env : Env)
    (config : Config) where
  handler-AllKeep : (r : ReqwestResourceId) → AllKeep (handler env config r)
  unfolding handler
  handler-AllKeep ResourceId.node_auth = auth-Keeps env config
  handler-AllKeep ResourceId.message_node_register = message_register-Keeps env
  handler-AllKeep ResourceId.message_node_unregister = message_unregister-Keeps env
  handler-AllKeep ResourceId.seqnum_node_register = seqnum_register-Keeps
  handler-AllKeep ResourceId.seqnum_node_unregister = seqnum_unregister-Keeps
  handler-AllKeep ResourceId.msgprocessor_node_register = msgprocessor_register-Keeps
  handler-AllKeep ResourceId.msgprocessor_node_unregister = msgprocessor_unregister-Keeps
  handler-AllKeep _ = tt

  request-Keeps : (req : ReqwestMsg) → Keeps (OnRegistry WellFormed) (request env config req)
  unfolding request
  request-Keeps req =
      Keeps-bind _ _ (Keeps-unwrap (resource_id req))
        λ r. answer-Keeps (handler env config r) req (handler-AllKeep r)

  unregister-Keeps :
      (written key : ReqwestResourceId) (info : ServerInfo)
      → Keeps (OnRegistry WellFormed) (unregister env config written key info)
  unfolding unregister
  unregister-Keeps written key info =
      Keeps-bind _ _ (Keeps-unwrap (with_resource_id_payload env written (to_bytes info)))
        λ req. run-Keeps (handler env config key) req (handler-AllKeep key)

  remove_node-Keeps : (id : ℕ) → Keeps (OnRegistry WellFormed) (remove_node env config id)
  unfolding remove_node
  remove_node-Keeps id = search (keeps_rules, unregister-Keeps) depth 14

  close-Keeps : Keeps (OnRegistry WellFormed) (close env config)
  unfolding close
  close-Keeps = search (keeps_rules, remove_node-Keeps) depth 14

  run_on-WellFormed :
      {A : Type 0} (i : ℕ) (m : Handler A) (w : World) (c : Option Connection)
      → Keeps (OnRegistry WellFormed) m
      → WellFormed w.registry
      → WellFormed (run_on i m w c).registry
  unfolding run_on
  run_on-WellFormed i m w none k h = h
  run_on-WellFormed i m w (some c) k h = (k.at _ (record { holds = h })).holds

  step-WellFormed :
      (e : Event) (w : World) → WellFormed w.registry → WellFormed (step env config e w).registry
  unfolding step
  step-WellFormed (opened caller) w h = h
  step-WellFormed (received i req) w h =
      run_on-WellFormed i (request env config req) w (get_elem? w.connections i) (request-Keeps req)
        h
  step-WellFormed (ended i) w h =
      run_on-WellFormed i (close env config) w (get_elem? w.connections i) close-Keeps h

  -- From a state where the sets have only ids of their kinds and each description stands under its
  -- id, every sequence of new connections, requests and closed connections leads to such a state.
  steps-WellFormed :
      (es : List Event) (w : World)
      → WellFormed w.registry
      → WellFormed (steps env config es w).registry
  unfolding steps
  steps-WellFormed [] w h = h
  steps-WellFormed (e ∷ es) w h = steps-WellFormed es (step env config e w) (step-WellFormed e w h)

  -- In every state that the scheduler reaches after its start, whatever the connections, requests,
  -- their order and the answers of the other nodes: the message set has only ids from 1 to 2^19 - 1,
  -- the sequence number set from 2^20 to 2^21 - 1, the message processor set 0 and ids from 2^21
  -- on, and each description stands under its own id.
  pub steps_lem :
      (es : List Event) (is_answered : ℕ → Bool)
      → WellFormed (steps env config es (started is_answered)).registry
  steps_lem es is_answered =
      steps-WellFormed es (started is_answered) (started-WellFormed is_answered)
