-- ===== src/Scheduler/State.antt =====
-- The shared maps and sets of server/scheduler/src/service/mod.rs and cluster/mod.rs, and the calls
-- of other nodes.
use prim.Prelude.{ℕ, Bool, Option, List, [], ◌∷◌, ◌++◌, length, if◌then◌else◌}
use prim.Prelude.Dict
use prim.Prelude.Dict.{Dict, include, exclude}
use prim.Prelude.Action.{ok, err, Action}
use prim.Entity.Reqwest.{ReqwestMsg}
use prim.Entity.ServerInfo.{ServerInfo}

-- A `ReqwestCaller` is the connection that it writes to.
abbrev pub Caller : Type 0
Caller = ℕ

pub record Registry : Type 0 where
  pub client_map : Dict Caller
  pub server_info_map : Dict ServerInfo
  pub message_set : List ℕ
  pub seqnum_set : List ℕ
  pub msgprocessor_set : List ℕ
  pub cluster_map : Dict Caller

unfoldable pub empty_registry : Registry
empty_registry = record {
  client_map = [];
  server_info_map = [];
  message_set = [];
  seqnum_set = [];
  msgprocessor_set = [];
  cluster_map = [];
}

-- What one connection keeps in its `InnerStates`.
pub record Connection : Type 0 where
  pub node_id : Option ℕ
  pub caller : Option Caller

-- The calls so far, and whether the next ones are answered: that is up to the other nodes.
pub record Network : Type 0 where
  pub calls : List (Caller × ReqwestMsg)
  pub is_answered : ℕ → Bool

pub record Task : Type 0 where
  pub registry : Registry
  pub connection : Connection
  pub network : Network

pub data Error : Type 0 where
  self_sender_not_found call_failed : Error

abbrev pub Handler : Type 0 → Type 0
Handler A = Action Task Error A

-- `caller.call(msg).await?`
unfoldable pub call : Caller → ReqwestMsg → Handler (Unit {0})
call caller msg t = (
  if t.network.is_answered (length t.network.calls) then ok tt else err call_failed,
  record t { network = record t.network { calls = t.network.calls ++ ((caller, msg) ∷ []) } },
)

-- The operations of the maps and sets.
-- `ClientCallerMap`
unfoldable pub insert_client : ℕ → Caller → Registry → Registry
insert_client key value r = record r { client_map = Dict.insert key value r.client_map }

unfoldable pub remove_client : ℕ → Registry → Registry
remove_client key r = record r { client_map = Dict.erase key r.client_map }

-- `ServerInfoMap`
unfoldable pub insert_info : ℕ → ServerInfo → Registry → Registry
insert_info key value r = record r { server_info_map = Dict.insert key value r.server_info_map }

unfoldable pub remove_info : ℕ → Registry → Registry
remove_info key r = record r { server_info_map = Dict.erase key r.server_info_map }

-- `MessageNodeSet`
unfoldable pub insert_message_node : ℕ → Registry → Registry
insert_message_node key r = record r { message_set = include key r.message_set }

unfoldable pub remove_message_node : ℕ → Registry → Registry
remove_message_node key r = record r { message_set = exclude key r.message_set }

-- `SeqnumNodeSet`
unfoldable pub insert_seqnum_node : ℕ → Registry → Registry
insert_seqnum_node key r = record r { seqnum_set = include key r.seqnum_set }

unfoldable pub remove_seqnum_node : ℕ → Registry → Registry
remove_seqnum_node key r = record r { seqnum_set = exclude key r.seqnum_set }

-- `MsgprocessorSet`
unfoldable pub insert_msgprocessor : ℕ → Registry → Registry
insert_msgprocessor key r = record r { msgprocessor_set = include key r.msgprocessor_set }

unfoldable pub remove_msgprocessor : ℕ → Registry → Registry
remove_msgprocessor key r = record r { msgprocessor_set = exclude key r.msgprocessor_set }

abbrev pub on_registry : (Registry → Registry) → Handler (Unit {0})
on_registry f t = (ok tt, record t { registry = f t.registry })
