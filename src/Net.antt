-- ===== src/Net.antt =====
-- The framing of messages on a stream: `MsgIOUtil` of server/lib-net-tokio/src/net/mod.rs, in the
-- build that checks for the delimiter.
pub mod Delimiter
pub mod Search
pub mod Transport
pub mod Receive
pub mod Progress
pub mod Termination
pub mod Request
pub mod Wrapper
pub mod Calls
pub mod Server
pub mod RoundTrip
pub mod Channel
pub mod Tls
pub mod Operator
pub mod Peer
