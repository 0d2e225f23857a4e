-- ===== src/Scheduler.antt =====
-- server/scheduler: which nodes are online, the messages about them between the nodes, and the
-- choice of a node for a user. The beginnings of the node ids are those of server/lib/src/lib.rs,
-- where `+` binds tighter than `<<`.
pub mod State
pub mod Auth
pub mod Nodes
pub mod Connection
pub mod Rpc
pub mod World
pub mod Invariant
pub mod Kept
pub mod Reachable
pub mod Removal
pub mod Telling
pub mod Forgotten
pub mod Closing
pub mod Selection
pub mod Admission
use prim.Prelude.{ℕ, ◌+◌, ◌*◌, ◌^◌}

abbrev pub message_node_id_beginning : ℕ
message_node_id_beginning = 1

abbrev pub scheduler_node_id_beginning : ℕ
scheduler_node_id_beginning = 1 * 2 ^ (18 + 1)

abbrev pub seqnum_node_id_beginning : ℕ
seqnum_node_id_beginning = 1 * 2 ^ (19 + 1)

abbrev pub msgprocessor_id_beginning : ℕ
msgprocessor_id_beginning = 1 * 2 ^ (20 + 1)
