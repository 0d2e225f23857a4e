-- ===== src/Lib.antt =====
-- PRIM, an instant messaging server in Rust: the message format, the framing of messages on
-- streams, requests between nodes, the service that hands out sequence numbers, the scheduler that
-- knows which nodes are online, and the service that takes the messages of the users.
--
-- The parts and their files:
-- * Entity models server/lib/src/entity/mod.rs and entity/msg.rs. A buffer is a list of bytes, and
--   `none` is a panic. Entity/MsgType is the enum `Type`; Entity/Head the four words of a head and
--   `InnerHead`, its nine fields; Entity/Head/Access the getters and setters on a buffer;
--   Entity/Msg the methods of `Msg`, Entity/Msg/Build its constructors and Entity/Msg/Batch the
--   batches of `with_uncompressed` and `with_compressed`. Entity/ResourceId and Entity/Reqwest are
--   `ReqwestResourceID` and `ReqwestMsg`. Entity/Env is what the constructors take from the
--   machine: the clock and uninitialised memory.
-- * Net models server/lib-net-tokio/src/net/mod.rs: Net/Delimiter is `pre_check`, Net/Receive
--   `read_buffer`, `recv_msg` and `send_msg`, Net/Tls the streams without delimiters, Net/Request
--   the same for requests (`ReqwestMsgIOUtil`, with RoundTrip and Termination), Net/Wrapper a
--   round of each loop of `MsgIOWrapper` (with Batching), Net/Operator the choice of a connection
--   in `ReqwestOperatorManager::call`. Net/Calls is the future `Reqwest`, Net/Calls/Link the task of
--   a stream of requests in net/client.rs and net/server.rs with its table of calls, and
--   Net/Calls/Step what may happen to it, one event after the other in any order, on one stream;
--   the two acts of an answer, to wake a task and to fill its placeholder, are events of their own,
--   and so is a poll of any call between them. Sound, Kept, Answered, Once, Sent, Reached, Forgotten,
--   Lost, Awake and Stopped there are about it. Net/Server is the count of connections of
--   `ServerTcp` and `ServerReqwestTcp` (with Places). Net/Peer is `who_we_are` and `should_connect_to_peer` of
--   server/lib/src/util/mod.rs. Search, RoundTrip, Channel, Progress and Termination are about
--   them. Messages are those of Entity.
-- * Seqnum models server/seqnum: Seqnum/Store is the state (the counters, the files and the
--   workers), Seqnum/Record the records of util/mod.rs, Seqnum/Handler `save` and `run` of
--   service/handler/seqnum.rs, Seqnum/Loading `load` of main.rs and the start of the workers,
--   Seqnum/Compaction the loop that reads a file that is too long, Seqnum/History requests and
--   restarts in sequence. Seqnum/Log, Noted, Kept, Saving, Invariant, Restart, Steps and
--   Uniqueness are about what the files hold. Requests and replies are those of Entity/Reqwest.
-- * Scheduler models server/scheduler: Scheduler/State the maps and sets of service/mod.rs,
--   Scheduler/Auth `ServerAuth` of service/handler/logic.rs, Scheduler/Nodes the handlers of
--   service/handler/message.rs, seqnum.rs and msgprocessor.rs, Scheduler/Connection the loop of
--   service/server.rs, Scheduler/World the connections and requests in sequence, and Scheduler/Rpc
--   the choice of nodes in rpc/node.rs. Invariant, Kept, Reachable, Telling, Removal, Forgotten,
--   Closing, Admission and Selection are about them. A node describes itself by Entity/ServerInfo,
--   server/lib/src/entity/server.rs; its requests are those of Entity/Reqwest.
-- * Message models server/message/src/service/handler: Message/State the connections of a node and
--   what one connection keeps, Message/Number `PreProcess` and `MQPusher` of logic.rs,
--   Message/Deliver `Echo`, business.rs, control_text.rs, pure_text.rs and the text handler of
--   cluster/handler/pure_text.rs, Message/Dispatch `Auth` and `call_handler_list`, Message/Group
--   `group_task` and Message/Storage `io_task` of mod.rs. Key, Routing, Broadcast, Copies and
--   Failure are about them. Messages are those of Entity/Msg; the key of a conversation is what
--   Seqnum is asked with.
-- * Api models the handlers of groups and relationships of server/api, the HTTP interface:
--   Api/Tables the tables of model/group.rs and model/relationship.rs with their statements,
--   Redis and the calls of the scheduler, Api/Verify `verify_user` of handler/mod.rs, Api/Join,
--   Api/Members and Api/Info the handlers of handler/group.rs and Api/Friends those of
--   handler/relationship.rs, which Api/Requests puts together as main.rs routes them. Kept,
--   Yields, Steps, Plain, Befriending, Appointing and Admins are about them. A call of the
--   database, of Redis or of the scheduler may fail before or after it is done, and where
--   several rows match, any may be read. Messages are those of Entity/Msg.
--
-- Handlers are actions of Prelude/Action: a state, an error of anyhow or a panic, where what was
-- changed stays changed. A `DashMap` is an association list, whose order stands for the order of
-- its iteration; a handler is one step, although the program may switch tasks where it waits for a
-- call. The answers of the other nodes, of Redis and of Kafka are arguments; a channel is open or
-- closed while one message is handled.
--
-- Numbers are natural numbers with the wrap-around of their type written out; the arithmetic is
-- that of a release build. Code of other packages is a parameter with its documented laws:
-- External has `byteorder`, `FromPrimitive` and `serde_json` (Json, Value), Net/Transport the
-- streams of the QUIC and TLS libraries. Each has a concrete value (External/ByteOrder/Model,
-- External/Value/Model, Entity/MsgType/Numbers, Entity/ResourceId/Numbers,
-- Entity/ServerInfo/Codec, Net/Transport/Model), which Tests uses.
--
-- Fuel: `load_file` runs on the length of the file and `pre_check` on the length of the buffer,
-- and both always get that. `recv_msg` and its search for a delimiter take fuel for the messages
-- and bytes that are skipped: more than the number of bytes left is enough (Net/Termination), and
-- a message that starts where reading starts needs one unit. `read_old` counts rounds of a loop. A
-- list of messages is sent in no more batches than messages. A `String` is the list of its bytes;
-- Prelude/Decimal has the decimal digits of a number.
--
-- Not modelled: the set-up of connections, tasks and timers, the connections of the scheduler and
-- of the message service to their own kind but for the texts, the HTTP interface but for groups
-- and relationships, and the code around databases, Redis and Kafka. A write to a file of the
-- sequence number service may fail after some bytes (Seqnum/Handler), but in Seqnum/History every
-- write succeeds and a process stops between two requests only.
pub mod Prelude
pub mod External
pub mod Entity
pub mod Seqnum
pub mod Net
pub mod Message
pub mod Scheduler
pub mod Api
pub mod Tests
