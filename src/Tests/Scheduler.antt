-- ===== src/Tests/Scheduler.antt =====
-- The scheduler on concrete nodes: message nodes 5 and 6 and sequence number node 2^20.
use prim.Prelude.{ℕ, ◌+◌, ◌%◌, ◌^◌, ◌≡◌, ◌⊎◌, Bool, true, none, some, List, [], ◌∷◌, length, arith}
use prim.Prelude.Dict.{contains}
use prim.Prelude.Action.{ok, panicked}
use prim.External.ByteOrder.Model.{big_endian}
use prim.Entity.Env.{Env}
use prim.Entity.ResourceId
use prim.Entity.ResourceId.{ReqwestResourceId}
use prim.Entity.ResourceId.Numbers.{numbered}
use prim.Entity.Reqwest.{ReqwestMsg}
use prim.Entity.Reqwest.Fields.{layout}
use prim.Entity.Reqwest.Laws.{layout-payload, layout-resource_id}
use prim.Entity.ServerInfo
use prim.Entity.ServerInfo.{ServerInfo, to_bytes}
use prim.Entity.ServerInfo.Codec.{plain_json}
use prim.Scheduler.State.{Registry, Task}
use prim.Scheduler.Auth.{Config, auth}
use prim.Scheduler.Connection.{close}
use prim.Scheduler.World.{Event, opened, received, ended, started, steps}
use prim.Scheduler.Invariant.{WellFormed}
use prim.Scheduler.Reachable.{steps_lem}
use prim.Scheduler.Closing.{Ends, close_lem}
use prim.Scheduler.Admission.{Admitted, auth_lem}
use prim.Scheduler.Rpc.{NodeMap, which_node, which_to_connect, seqnum_node_user_select}
use prim.Scheduler.Selection.{
  Located, Connects, which_node_lem, which_to_connect_lem, seqnum_node_user_select_lem,
}

abbrev machine : Env
machine = record { now = 1700000000000; memory = λ i. i + 200 }

abbrev config : Config
config = record { my_id = 524289; service_address = 58 ∷ []; cluster_address = 59 ∷ [] }

abbrev always : ℕ → Bool
always n = true

abbrev node_info : ℕ → ServerInfo
node_info id = record {
  id = id;
  cluster_address = some (60 ∷ []);
  service_address = 61 ∷ 62 ∷ [];
  connection_id = 0;
  status = ServerInfo.ServerStatus.online;
  typ = ServerInfo.ServerType.message_cluster;
  load = none;
}

-- The request with id 7 that holds a description.
abbrev request_of : ReqwestResourceId → ServerInfo → ReqwestMsg
request_of r info = layout (length (to_bytes info) + 10) 7 (ResourceId.value r) (to_bytes info)

-- Node 5 registers, node 6 and a sequence number node authenticate, and node 6 leaves.
abbrev events : List Event
events =
    opened (some 1)
    ∷ received 0 (request_of ResourceId.node_auth (node_info 5))
    ∷ received 0 (request_of ResourceId.message_node_register (node_info 5))
    ∷ opened (some 2)
    ∷ received 1 (request_of ResourceId.node_auth (node_info 6))
    ∷ opened none
    ∷ received 2 (request_of ResourceId.node_auth (node_info 1048576))
    ∷ ended 1
    ∷ []

steps_example : WellFormed (steps machine config events (started always)).registry
steps_example = steps_lem machine config events always

abbrev five : Registry
five = record {
  client_map = (5, 1) ∷ (6, 2) ∷ [];
  server_info_map = (5, node_info 5) ∷ [];
  message_set = 5 ∷ 6 ∷ [];
  seqnum_set = [];
  msgprocessor_set = [];
  cluster_map = (524290, 3) ∷ [];
}

abbrev task : Task
task = record {
  registry = five;
  connection = record { node_id = some 5; caller = some 1 };
  network = record { calls = []; is_answered = always };
}

five-WellFormed : WellFormed five
five-WellFormed = record {
  message = λ id e. ground arith;
  seqnum = λ id e. ground arith;
  msgprocessor = λ id e. ground arith;
  described = λ id info e. ground arith;
}

close_example :
    ((task.connection.node_id ≡ none) × ((close machine config task).0 ≡ panicked))
    ⊎ ((id : ℕ) × (task.connection.node_id ≡ some id)
        × Ends machine config (id % 2 ^ 32) task (close machine config task))
close_example = close_lem machine config task five-WellFormed

auth_example :
    Admitted config
      (ServerInfo.from (to_bytes (node_info 6)))
      ResourceId.node_auth
      task
      (auth machine config (request_of ResourceId.node_auth (node_info 6)) task)
auth_example =
    auth_lem machine config (request_of ResourceId.node_auth (node_info 6)) (to_bytes (node_info 6))
      ResourceId.node_auth task
      (layout-payload (length (to_bytes (node_info 6)) + 10) 7
        (ResourceId.value ResourceId.node_auth) (to_bytes (node_info 6)))
      (layout-resource_id (length (to_bytes (node_info 6)) + 10) 7 ResourceId.node_auth
        (to_bytes (node_info 6)))

seqnum_node_user_select_example :
    ((five.seqnum_set ≡ []) × (seqnum_node_user_select 3 4 five ≡ panicked))
    ⊎ ((id : ℕ) × (seqnum_node_user_select 3 4 five ≡ ok id) × (contains id five.seqnum_set ≡ true))
seqnum_node_user_select_example = seqnum_node_user_select_lem 3 4 five

which_to_connect_example :
    ((five.message_set ≡ []) × (which_to_connect 9 five ≡ panicked))
    ⊎ Connects five (which_to_connect 9 five)
which_to_connect_example = which_to_connect_lem 9 five

abbrev nobody : NodeMap
nobody user = none

which_node_example : Located true true 9 five nobody (which_node true true 9 five nobody)
which_node_example = which_node_lem true true 9 five nobody
