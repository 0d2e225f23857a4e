-- ===== src/Entity/ResourceId.antt =====
-- `ReqwestResourceID` of server/lib/src/entity/mod.rs and its conversions in entity/msg.rs.
pub mod Numbers
use Prim.Native.String.{String}
use prim.Prelude.{ℕ, ◌^◌, ◌<◌, ◌≡◌, Option, none, some, arith}
use prim.External.Primitive.{FromPrimitive}

pub data ReqwestResourceId : Type 0 where
  noop ping pong seqnum node_auth message_forward interrupt_signal : ReqwestResourceId
  connection_timeout seqnum_node_register message_node_register : ReqwestResourceId
  seqnum_node_unregister message_node_unregister scheduler_node_register : ReqwestResourceId
  scheduler_node_unregister msgprocessor_node_register : ReqwestResourceId
  msgprocessor_node_unregister message_config_hot_reload : ReqwestResourceId
  assign_mq_processor unassign_mq_processor : ReqwestResourceId

-- The discriminants: `value` and `Into<u16>`.
unfoldable pub value : ReqwestResourceId → ℕ
value noop = 0
value ping = 1
value pong = 2
value seqnum = 3
value node_auth = 4
value message_forward = 5
value interrupt_signal = 6
value connection_timeout = 7
value seqnum_node_register = 8
value message_node_register = 9
value seqnum_node_unregister = 10
value message_node_unregister = 11
value scheduler_node_register = 12
value scheduler_node_unregister = 13
value msgprocessor_node_register = 14
value msgprocessor_node_unregister = 15
value message_config_hot_reload = 16
value assign_mq_processor = 17
value unassign_mq_processor = 18

or_noop : Option ReqwestResourceId → ReqwestResourceId
or_noop (some e) = e
or_noop none = noop

-- `From<u16>`: an unknown number is `Noop`.
unfoldable pub from : ⦃p : FromPrimitive value⦄ → ℕ → ReqwestResourceId
unfolding or_noop
from ⦃p⦄ n = or_noop (p.from_u16 n)

-- `Display`
unfoldable pub display : ReqwestResourceId → String
display noop = "Noop"
display ping = "Ping"
display pong = "Pong"
display seqnum = "Seqnum"
display node_auth = "NodeAuth"
display message_forward = "MessageForward"
display interrupt_signal = "InterruptSignal"
display connection_timeout = "ConnectionTimeout"
display seqnum_node_register = "SeqnumNodeRegister"
display message_node_register = "MessageNodeRegister"
display seqnum_node_unregister = "SeqnumNodeUnregister"
display message_node_unregister = "MessageNodeUnregister"
display scheduler_node_register = "SchedulerNodeRegister"
display scheduler_node_unregister = "SchedulerNodeUnregister"
display msgprocessor_node_register = "MsgprocessorNodeRegister"
display msgprocessor_node_unregister = "MsgprocessorNodeUnregister"
display message_config_hot_reload = "MessageConfigHotReload"
display assign_mq_processor = "AssignMQProcessor"
display unassign_mq_processor = "UnassignMQProcessor"

pub value-lt : (r : ReqwestResourceId) → value r < 2 ^ 16
unfolding value
value-lt r = ground arith

pub from-value : ⦃p : FromPrimitive value⦄ (r : ReqwestResourceId) → from (value r) ≡ r
unfolding from
from-value ⦃p⦄ r = ground (arith, p.from_u16-value r)
