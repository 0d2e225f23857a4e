-- ===== src/Message/Storage.antt =====
-- `io_task` of server/message/src/service/handler/mod.rs: what Redis keeps of the messages.
use prim.Prelude.{ℕ, Option, some, ◌>>=◌, List, [], ◌∷◌, ◌++◌, if◌then◌else◌}
use prim.External.ByteOrder.{Bytes, ByteOrder}
use prim.Entity.Msg
use prim.Entity.Msg.{Msg}
use prim.Net.Peer.{who_we_are}
use prim.Message.State.{IoTaskMsg, direct, broadcast}

-- The entries of the sorted sets: of the messages of a conversation by their sequence number, and
-- of the senders that have written to a user by the time. They are listed as they were added: that
-- a `ZADD` of a member that is there already only changes its score is not modelled.
pub record Redis : Type 0 where
  pub msg_cache : List (Bytes × Msg × ℕ)
  pub user_inbox : List (ℕ × ℕ × ℕ)

abbrev pub cached : Bytes → Msg → ℕ → Redis → Redis
cached users msg seqnum redis = record redis {
  msg_cache = redis.msg_cache ++ ((users, msg, seqnum) ∷ []);
}

abbrev pub in_inbox : ℕ → ℕ → ℕ → Redis → Redis
in_inbox receiver sender timestamp redis = record redis {
  user_inbox = redis.user_inbox ++ ((receiver, sender, timestamp) ∷ []);
}

module _ ⦃bo : ByteOrder⦄ where
  -- One task for Redis, which answers. `none` is a panic of a message without a head.
  unfoldable pub store : IoTaskMsg → Redis → Option Redis
  store (direct msg) redis = do
    sender ← Msg.sender msg
    receiver ← Msg.receiver msg
    seqnum ← Msg.seqnum msg
    timestamp ← Msg.timestamp msg
    some (in_inbox receiver sender timestamp (cached (who_we_are sender receiver) msg seqnum redis))
  store (broadcast msg real_receiver duplication) redis = do
    group ← Msg.receiver msg
    sender ← Msg.sender msg
    seqnum ← Msg.seqnum msg
    timestamp ← Msg.timestamp msg
    let redis = if duplication then redis else cached (who_we_are group group) msg seqnum redis
    some (in_inbox real_receiver sender timestamp redis)

  unfoldable pub store_all : List IoTaskMsg → Redis → Option Redis
  store_all [] redis = some redis
  store_all (task ∷ tasks) redis = do redis ← store task redis; store_all tasks redis
