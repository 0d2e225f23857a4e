-- ===== src/Message/Broadcast.antt =====
-- What a group message leaves with the members and with Redis.
use prim.Prelude.{
  ℕ, ◌%◌, ◌^◌, ◌≤◌, ◌≡◌, refl, sym, ◌∙◌, ap, subst, Bool, true, false, some, List, [], ◌∷◌, ◌++◌,
  append-nil, map, length, drop, if◌then◌else◌, arith,
}
use prim.Prelude.Bits.{and_low}
use prim.Prelude.Action.{Result, ok, ◌>>=◌}
use prim.External.ByteOrder.{Bytes, IsBytes, ByteOrder}
use prim.External.Primitive.{FromPrimitive}
use prim.Entity.MsgType
use prim.Entity.Head.{Head, InnerHead, from_head}
use prim.Entity.Head.Fields.{IsWords}
use prim.Entity.Head.Decode.{decodes}
use prim.Entity.Head.Frame.{frame, drop-frame}
use prim.Entity.Head.View
use prim.Entity.Head.View.{view, Shows, sets_frame, frame-Shows, updated}
use prim.Entity.Msg.{Msg}
use prim.Net.Peer.{who_we_are}
use prim.Message.State.{Node}
use prim.Message.Group.{forward_all, to_members, GroupError, for_members, group_round}
use prim.Message.Copies.{
  broadcasts, copies, forwards, grown, forward_all_lem, to_members_lem, HasFields, store_members,
}
use prim.Message.Storage.{Redis, store_all}

module _ ⦃bo : ByteOrder⦄ ⦃p : FromPrimitive MsgType.value⦄ where
  receiver_small : (h : Head) → (from_head h).receiver % 2 ^ 46 ≡ (from_head h).receiver
  unfolding from_head
  receiver_small h = ground (arith, and_low 46 h.node_id_with_receiver)

  -- The copy for the members is from the group to the group, and the rest of it is that of the
  -- message.
  pub record IsCopy (msg : Msg) (inner : InnerHead) : Type 0 where
    pub copy : Msg
    pub copies_it : for_members msg ≡ some copy
    pub addressed : HasFields copy inner.receiver inner.receiver inner.timestamp inner.seqnum
    pub same_body : drop 32 copy ≡ drop 32 msg

  frame-IsCopy : (h : Head) (rest : Bytes) → IsWords h → IsCopy (frame h rest) (from_head h)
  unfolding for_members
  frame-IsCopy h rest w =
      let group = (from_head h).receiver in
      let first = sets_frame (View.sender group) h rest w tt in
      let second = sets_frame (View.receiver group) first.new rest first.new_words tt in
      let shows = frame-Shows second.new rest second.new_words in
      let seen = second.new_fields ∙ ap (updated (View.receiver group)) first.new_fields in
      let small = receiver_small h in
      record {
        copy = frame second.new rest;
        copies_it =
            rw (for_members, (frame-Shows h rest w).shows_receiver, first.writes, second.writes)
              refl;
        addressed = record {
          has_sender =
              shows.shows_sender ∙ ap (λ (i : InnerHead). some i.sender) seen ∙ ap some small;
          has_receiver =
              shows.shows_receiver ∙ ap (λ (i : InnerHead). some i.receiver) seen ∙ ap some small;
          has_timestamp = shows.shows_timestamp ∙ ap (λ (i : InnerHead). some i.timestamp) seen;
          has_seqnum = shows.shows_seq_num ∙ ap (λ (i : InnerHead). some i.seqnum) seen;
        };
        same_body = drop-frame second.new rest ∙ sym (drop-frame h rest);
      }

  for_members_lem :
      (msg : Msg) (inner : InnerHead)
      → IsBytes msg
      → 32 ≤ length msg
      → view msg ≡ some inner
      → IsCopy msg inner
  for_members_lem msg inner bytes long seen =
      let d = decodes msg bytes long in
      let same : from_head d.head ≡ inner = ground (arith, d.reads) in
      subst (λ i. IsCopy msg i) same
        (subst (λ (m : Msg). IsCopy m (from_head d.head)) d.restores
          (frame-IsCopy d.head (drop 32 msg) d.words))

  -- What a group message does to the node, and what its tasks do to Redis once they are carried out.
  -- They are given to the task for Redis only where that still runs.
  pub record Delivered (msg : Msg) (inner : InnerHead) (forward : Bool) (members : List ℕ)
      (node : Node) (redis : Redis) (x : Result GroupError (Unit {0}) × Node) : Type 0 where
    pub copied : IsCopy msg inner
    pub returns : x.0 ≡ ok tt
    pub sends :
        x.1.sent
        ≡ (node.sent ++ (if forward then forwards node.cluster_map node.is_open msg else []))
          ++ copies node.client_map node.is_open copied.copy members
    pub tasks :
        x.1.io_tasks
        ≡ node.io_tasks ++ (if node.io_is_open then broadcasts copied.copy false members else [])
    pub stores :
        store_all (broadcasts copied.copy false members) redis
        ≡ some (record {
          msg_cache =
              redis.msg_cache
              ++ ((who_we_are inner.receiver inner.receiver, copied.copy, inner.seqnum) ∷ []);
          user_inbox =
              redis.user_inbox
              ++ map (λ user_id. (user_id, inner.receiver, inner.timestamp)) members;
        })

  -- A message of at least 32 bytes in a group with members on this node: where it comes from a client
  -- of this node each other node with an open connection gets it once; each member with an open
  -- connection gets one copy, from the group, in the order of the members. That holds whether the
  -- task for Redis still runs or not. Where it runs it is given a task for each member, and once
  -- these are carried out Redis has the copy in its cache once and an entry in the inbox of every
  -- member; where it has ended nothing is given to it.
  pub group_round_lem :
      (msg : Msg) (inner : InnerHead) (forward : Bool) (user_id : ℕ) (user_list : List ℕ)
      (node : Node) (redis : Redis)
      → IsBytes msg
      → 32 ≤ length msg
      → view msg ≡ some inner
      → Delivered msg inner forward
          (user_id ∷ user_list)
          node
          redis
          (group_round (some (user_id ∷ user_list)) msg forward node)
  unfolding group_round ◌>>=◌
  group_round_lem msg inner true user_id user_list node redis bytes long seen =
      let c = for_members_lem msg inner bytes long seen in
      let members = user_id ∷ user_list in
      let told = forward_all msg node.cluster_map node in
      let same = forward_all_lem msg node.cluster_map node in
      let all =
        ap (to_members c.copy false members) same
        ∙ to_members_lem c.copy false members
            (grown (forwards node.cluster_map node.is_open msg) [] node) in
      rw c.copies_it (record {
        copied = c;
        returns = refl;
        sends = ap (λ (n : Node). n.sent) all;
        tasks =
            ap (λ (n : Node). n.io_tasks) all
            ∙ ap (λ t. t ++ (if node.io_is_open then broadcasts c.copy false members else []))
                (append-nil node.io_tasks);
        stores =
            store_members c.copy inner.receiver inner.receiver inner.timestamp inner.seqnum
              c.addressed user_id user_list redis;
      })
  group_round_lem msg inner false user_id user_list node redis bytes long seen =
      let c = for_members_lem msg inner bytes long seen in
      let members = user_id ∷ user_list in
      let all = to_members_lem c.copy false members node in
      rw c.copies_it (record {
        copied = c;
        returns = refl;
        sends =
            ap (λ (n : Node). n.sent) all
            ∙ ap (λ s. s ++ copies node.client_map node.is_open c.copy members)
                (sym (append-nil node.sent));
        tasks = ap (λ (n : Node). n.io_tasks) all;
        stores =
            store_members c.copy inner.receiver inner.receiver inner.timestamp inner.seqnum
              c.addressed user_id user_list redis;
      })
