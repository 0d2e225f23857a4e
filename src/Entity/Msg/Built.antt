-- ===== src/Entity/Msg/Built.antt =====
-- What the constructors of messages build.
use prim.Prelude.{
  ℕ, ◌^◌, ◌≤◌, ◌<◌, ◌≡◌, refl, sym, ap, ◌∙◌, subst, Option, some, [], ◌∷◌, ◌++◌, append-nil, length,
  drop, length-drop, arith,
}
use prim.Prelude.Decimal.{to_string, length-to_string, parse_from, parse_from-to_string}
use prim.External.ByteOrder.{Bytes, IsBytes, ByteOrder}
use prim.External.Primitive.{FromPrimitive}
use prim.Entity.Env.{Env, uninit, length-uninit, uninit-IsBytes}
use prim.Entity.MsgType
use prim.Entity.MsgType.{MsgType}
use prim.Entity.Head.{Head, InnerHead, into_head, from_head}
use prim.Entity.Head.Fields.{
  IsInRange, IsWords, into_head-IsWords, from_head-into_head, mask_right_46, mask_right_50,
  mask_right_12,
}
use prim.Entity.Head.Frame.{frame, read-frame, frame-append}
use prim.Entity.Head.Decode.{decodes}
use prim.Entity.Head.View.{view, Shows, getters_lem}
use prim.Entity.Msg.{Msg}
use prim.Entity.Msg.Build.{head_of, finish, text, text2, raw, raw2, generate_ack, err_msg, auth}
use prim.Entity.Msg.Layout.{IsMsg, frame-IsMsg}

nil_of_length : (xs : Bytes) → length xs ≡ 0 → xs ≡ []
nil_of_length [] h = refl
nil_of_length (x ∷ xs) h = absurd (omega arith)

module _ ⦃bo : ByteOrder⦄ where
  -- No byte of the uninitialised head is left.
  pub finish-frame :
      (env : Env) (inner : InnerHead) (body : Bytes)
      → finish env inner body ≡ some (frame (into_head inner) body)
  unfolding finish
  finish-frame env inner body =
      let d =
        decodes (uninit env 32) (uninit-IsBytes env 32) (omega (arith, length-uninit env 32)) in
      let over : drop 32 (uninit env 32) ≡ [] =
        nil_of_length (drop 32 (uninit env 32))
          (omega (arith, length-drop 32 (uninit env 32), length-uninit env 32)) in
      rw (← d.restores, read-frame (into_head inner) d.head (drop 32 (uninit env 32)), over)
        (ap some (sym (frame-append (into_head inner) body)))

-- The fields of 46 and 18 bits of a new message.
pub record AreIds (env : Env) (sender receiver node_id : ℕ) : Type 0 where
  pub sender_fits : sender < 2 ^ 46
  pub receiver_fits : receiver < 2 ^ 46
  pub node_id_fits : node_id < 2 ^ 18
  pub now_fits : env.now < 2 ^ 46

module _ ⦃bo : ByteOrder⦄ ⦃p : FromPrimitive MsgType.value⦄ where
  pub from_head-IsInRange : (h : Head) → IsWords h → IsInRange (from_head h)
  unfolding from_head
  from_head-IsInRange h w = record {
    version_fits = omega arith;
    sender_fits = omega (arith, mask_right_46 h.version_with_sender);
    node_id_fits = omega arith;
    receiver_fits = omega (arith, mask_right_46 h.node_id_with_receiver);
    extension_fits = omega (arith, mask_right_12 h.type_with_extension_length_with_timestamp);
    timestamp_fits = omega (arith, mask_right_46 h.type_with_extension_length_with_timestamp);
    payload_fits = omega arith;
    seqnum_fits = omega (arith, mask_right_50 h.payload_length_with_seqnum);
  }

  -- The constructor returned, with a message of these parts.
  pub record Builds (result : Option Msg) (inner : InnerHead) (content ext : Bytes) : Type 0 where
    pub msg : Msg
    pub returns : result ≡ some msg
    pub is_msg : IsMsg msg inner content ext

  module _ (env : Env) (typ : MsgType) (sender receiver node_id seqnum : ℕ) (content ext : Bytes)
      (ids : AreIds env sender receiver node_id) (number : seqnum < 2 ^ 50)
      (short : length content < 2 ^ 14) (brief : length ext < 2 ^ 6) where
    abbrev built_head : InnerHead
    built_head = head_of env typ sender receiver node_id seqnum content ext

    built_head-IsInRange : IsInRange built_head
    built_head-IsInRange = omega arith

    pub finish_lem : Builds (finish env built_head (content ++ ext)) built_head content ext
    finish_lem =
        let back = from_head-into_head built_head built_head-IsInRange in
        record {
          msg = frame (into_head built_head) (content ++ ext);
          returns = finish-frame env built_head (content ++ ext);
          is_msg =
              subst (λ i. IsMsg (frame (into_head built_head) (content ++ ext)) i content ext) back
                (frame-IsMsg (into_head built_head) content ext
                  (into_head-IsWords built_head built_head-IsInRange)
                  (ap (λ (i : InnerHead). i.payload_length) back ∙ omega arith)
                  (ap (λ (i : InnerHead). i.extension_length) back ∙ omega arith));
        }

  pub plain_lem :
      (env : Env) (typ : MsgType) (sender receiver node_id seqnum : ℕ) (content : Bytes)
      → AreIds env sender receiver node_id
      → seqnum < 2 ^ 50
      → length content < 2 ^ 14
      → Builds
          (finish env (head_of env typ sender receiver node_id seqnum content []) content)
          (head_of env typ sender receiver node_id seqnum content [])
          content
          []
  plain_lem env typ sender receiver node_id seqnum content ids number short =
      let head = head_of env typ sender receiver node_id seqnum content [] in
      subst (λ body. Builds (finish env head body) head content []) (append-nil content)
        (finish_lem env typ sender receiver node_id seqnum content [] ids number short
          (omega arith))

  -- The constructors that take the ids, a content and perhaps an extension return a message whose
  -- fields, payload and extension are those that they were given and whose length is that of the
  -- head and of the two parts. The ids of the sender and of the receiver and the clock are below
  -- 2^46, the node id is below 2^18, the content has less than 2^14 bytes and the extension less
  -- than 2^6.
  pub constructors_lem :
      (env : Env) (sender receiver node_id : ℕ) (content ext : Bytes)
      → AreIds env sender receiver node_id
      → length content < 2 ^ 14
      → length ext < 2 ^ 6
      → let head = λ (t : MsgType) (e : Bytes). head_of env t sender receiver node_id 0 content e in
        Builds (err_msg env sender receiver node_id content) (head MsgType.error []) content []
        × Builds (text env sender receiver node_id content) (head MsgType.text []) content []
        × Builds (text2 env sender receiver node_id content ext) (head MsgType.text ext) content ext
        × Builds (auth env sender receiver node_id content) (head MsgType.auth []) content []
        × Builds (raw env sender receiver node_id content) (head MsgType.na []) content []
        × Builds (raw2 env sender receiver node_id content ext) (head MsgType.na ext) content ext
  unfolding err_msg text text2 auth raw raw2
  constructors_lem env sender receiver node_id content ext ids short brief = (
    plain_lem env MsgType.error sender receiver node_id 0 content ids (omega arith) short,
    plain_lem env MsgType.text sender receiver node_id 0 content ids (omega arith) short,
    finish_lem env MsgType.text sender receiver node_id 0 content ext ids (omega arith) short brief,
    plain_lem env MsgType.auth sender receiver node_id 0 content ids (omega arith) short,
    plain_lem env MsgType.na sender receiver node_id 0 content ids (omega arith) short,
    finish_lem env MsgType.na sender receiver node_id 0 content ext ids (omega arith) short brief,
  )

  -- The acknowledgement of any message of 32 bytes and more has its sender, receiver and sequence
  -- number, the type `Ack` and the given node id, and the given timestamp in decimal as payload. The
  -- node id is below 2^18, the clock below 2^46 and the timestamp below 2^64.
  pub generate_ack_lem :
      (env : Env) (msg : Msg) (node_id client_timestamp : ℕ) (inner : InnerHead)
      → IsBytes msg
      → 32 ≤ length msg
      → view msg ≡ some inner
      → node_id < 2 ^ 18
      → client_timestamp < 2 ^ 64
      → env.now < 2 ^ 46
      → Builds
          (generate_ack env msg node_id client_timestamp)
          (head_of env MsgType.ack inner.sender inner.receiver node_id inner.seqnum
            (to_string client_timestamp)
            [])
          (to_string client_timestamp)
          []
        × (parse_from 0 (to_string client_timestamp) ≡ client_timestamp)
  unfolding generate_ack
  generate_ack_lem env msg node_id client_timestamp inner bytes long seen id stamp now =
      let (found, same, shown) = getters_lem msg bytes long in
      let eq : found ≡ inner = ground (arith, same) in
      let d = decodes msg bytes long in
      let range : IsInRange inner =
        subst IsInRange (let e : from_head d.head ≡ inner = ground (arith, d.reads) in e)
          (from_head-IsInRange d.head d.words) in
      let shows : Shows msg inner = subst (Shows msg) eq shown in
      (
        rw (shows.shows_sender, shows.shows_receiver, shows.shows_seq_num)
            (plain_lem env MsgType.ack inner.sender inner.receiver node_id inner.seqnum
              (to_string client_timestamp)
              (record {
                sender_fits = range.sender_fits;
                receiver_fits = range.receiver_fits;
                node_id_fits = id;
                now_fits = now;
              })
              range.seqnum_fits (omega (arith, length-to_string client_timestamp stamp))),
        parse_from-to_string client_timestamp,
      )
