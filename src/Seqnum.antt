-- ===== src/Seqnum.antt =====
-- The service that hands out sequence numbers: server/seqnum. A store is the map of counters, the
-- append-only files of records of 24 bytes, and the workers, each with a file of its own.
pub mod Record
pub mod Store
pub mod Handler
pub mod Loading
pub mod Log
pub mod Noted
pub mod Kept
pub mod Saving
pub mod History
pub mod Invariant
pub mod Restart
pub mod Steps
pub mod Uniqueness
pub mod Reply
pub mod Compaction
