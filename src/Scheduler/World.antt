-- ===== src/Scheduler/World.antt =====
-- The scheduler as a whole: the shared maps and sets, the connections, and what happens to them in
-- sequence. A request is handled, and a connection is closed, in one step.
use prim.Prelude.{ℕ, Bool, zero, suc, Option, none, some, List, [], ◌∷◌, ◌++◌, get_elem?}
use prim.External.ByteOrder.{ByteOrder}
use prim.External.Primitive.{FromPrimitive}
use prim.External.Json.{Json}
use prim.Entity.Env.{Env}
use prim.Entity.ResourceId
use prim.Entity.Reqwest.{ReqwestMsg}
use prim.Entity.ServerInfo.{IsPlain}
use prim.Scheduler.State.{Registry, empty_registry, Connection, Caller, Network, Handler}
use prim.Scheduler.Auth.{Config}
use prim.Scheduler.Connection.{request, close}

pub record World : Type 0 where
  pub registry : Registry
  pub connections : List Connection
  pub network : Network

pub data Event : Type 0 where
  opened : Option Caller → Event
  received : ℕ → ReqwestMsg → Event
  ended : ℕ → Event

-- The scheduler before any node has connected.
unfoldable pub started : (ℕ → Bool) → World
unfolding empty_registry
started is_answered = record {
  registry = empty_registry;
  connections = [];
  network = record { calls = []; is_answered = is_answered };
}

unfoldable pub replace : ℕ → Connection → List Connection → List Connection
replace i c [] = []
replace zero c (c' ∷ cs) = c ∷ cs
replace (suc i) c (c' ∷ cs) = c' ∷ replace i c cs

-- A handler runs for the connection with index `i`, if there is one.
unfoldable pub run_on : {A : Type 0} → ℕ → Handler A → World → Option Connection → World
unfolding replace
run_on i m w none = w
run_on i m w (some c) =
    let (r, t) = m (record { registry = w.registry; connection = c; network = w.network }) in
    record {
      registry = t.registry;
      connections = replace i t.connection w.connections;
      network = t.network;
    }

module _ ⦃bo : ByteOrder⦄ ⦃p : FromPrimitive ResourceId.value⦄ ⦃json : Json IsPlain⦄ (env : Env)
    (config : Config) where
  unfoldable pub step : Event → World → World
  unfolding run_on
  step (opened caller) w = record w {
    connections = w.connections ++ (record { node_id = none; caller = caller } ∷ []);
  }
  step (received i req) w = run_on i (request env config req) w (get_elem? w.connections i)
  step (ended i) w = run_on i (close env config) w (get_elem? w.connections i)

  unfoldable pub steps : List Event → World → World
  unfolding step
  steps [] w = w
  steps (e ∷ es) w = steps es (step e w)
