-- ===== src/Entity/Head/View.antt =====
-- A buffer seen as the nine fields of its head: what the accessors of `impl Head` read and write.
use prim.Prelude.{
  ℕ, ◌%◌, ◌^◌, ◌≤◌, ◌<◌, ◌≡◌, sym, ap, ◌∙◌, subst, Option, some, ◌>>=◌, length, drop, arith,
}
use prim.External.ByteOrder.{Bytes, IsBytes, ByteOrder}
use prim.External.Primitive.{FromPrimitive}
use prim.Entity.MsgType
use prim.Entity.MsgType.{MsgType}
use prim.Entity.Head.{Head, InnerHead, from, from_head}
use prim.Entity.Head.Access
use prim.Entity.Head.Fields.{IsWords, mask_right_12}
use prim.Entity.Head.Frame.{
  frame, from-frame, length-frame, drop-frame, read_u64-frame0, read_u64-frame1, read_u64-frame2,
  read_u64-frame3, write_u64-frame0, write_u64-frame1, write_u64-frame2, write_u64-frame3,
}
use prim.Entity.Head.Decode.{decodes}
use prim.Entity.Head.Setters

-- A call of one of the nine setters.
pub data Update : Type 0 where
  version sender node_id receiver extension_length timestamp payload_length seq_num : ℕ → Update
  typ : MsgType → Update

-- What it is meant to do to the fields: the value is cut to the width of the field.
abbrev pub updated : Update → InnerHead → InnerHead
updated (version v) i = record i { version = v % 2 ^ 18 }
updated (sender v) i = record i { sender = v % 2 ^ 46 }
updated (node_id v) i = record i { node_id = v % 2 ^ 18 }
updated (receiver v) i = record i { receiver = v % 2 ^ 46 }
updated (extension_length v) i = record i { extension_length = v }
updated (timestamp v) i = record i { timestamp = v % 2 ^ 46 }
updated (payload_length v) i = record i { payload_length = v % 2 ^ 14 }
updated (seq_num v) i = record i { seqnum = v % 2 ^ 50 }
updated (typ t) i = record i { typ = t }

-- The one setter that does not cut its argument is given a value that fits.
abbrev pub Fits : Update → Type 0
Fits (extension_length v) = v < 2 ^ 6
Fits _ = Unit {0}

module _ ⦃bo : ByteOrder⦄ where
  abbrev pub set : Update → Bytes → Option Bytes
  set (version v) = Access.set_version v
  set (sender v) = Access.set_sender v
  set (node_id v) = Access.set_node_id v
  set (receiver v) = Access.set_receiver v
  set (extension_length v) = Access.set_extension_length v
  set (timestamp v) = Access.set_timestamp v
  set (payload_length v) = Access.set_payload_length v
  set (seq_num v) = Access.set_seq_num v
  set (typ t) = Access.set_type t

  module _ ⦃p : FromPrimitive MsgType.value⦄ where
    abbrev pub view : Bytes → Option InnerHead
    view buf = do h ← from buf; some (from_head h)

    -- Each getter returns its field of `inner`.
    pub record Shows (buf : Bytes) (inner : InnerHead) : Type 0 where
      pub shows_version : Access.version buf ≡ some inner.version
      pub shows_sender : Access.sender buf ≡ some inner.sender
      pub shows_node_id : Access.node_id buf ≡ some inner.node_id
      pub shows_receiver : Access.receiver buf ≡ some inner.receiver
      pub shows_typ : Access.typ buf ≡ some inner.typ
      pub shows_extension_length : Access.extension_length buf ≡ some inner.extension_length
      pub shows_timestamp : Access.timestamp buf ≡ some inner.timestamp
      pub shows_payload_length : Access.payload_length buf ≡ some inner.payload_length
      pub shows_seq_num : Access.seq_num buf ≡ some inner.seqnum

    pub frame-Shows : (h : Head) (rest : Bytes) → IsWords h → Shows (frame h rest) (from_head h)
    unfolding Access.version Access.sender Access.node_id Access.receiver Access.typ
        Access.extension_length Access.timestamp Access.payload_length Access.seq_num from_head
    frame-Shows h rest w = record {
      shows_version = rw (read_u64-frame0 h rest w);
      shows_sender = rw (read_u64-frame0 h rest w);
      shows_node_id = rw (read_u64-frame1 h rest w);
      shows_receiver = rw (read_u64-frame1 h rest w);
      shows_typ = rw (read_u64-frame2 h rest w);
      shows_extension_length =
          rw (read_u64-frame2 h rest w)
            (ground (arith, mask_right_12 h.type_with_extension_length_with_timestamp));
      shows_timestamp = rw (read_u64-frame2 h rest w);
      shows_payload_length = rw (read_u64-frame3 h rest w) (ground (arith, w.word3));
      shows_seq_num = rw (read_u64-frame3 h rest w);
    }

    -- The result of a setter on a buffer whose fields are `inner`.
    pub record IsUpdated (u : Update) (buf : Bytes) (inner : InnerHead) (result : Option Bytes)
        : Type 0 where
      pub out : Bytes
      pub returns : result ≡ some out
      pub fields : view out ≡ some (updated u inner)
      pub same_body : drop 32 out ≡ drop 32 buf
      pub same_length : length out ≡ length buf

    pub record SetsFrame (u : Update) (h : Head) (rest : Bytes) : Type 0 where
      pub new : Head
      pub writes : set u (frame h rest) ≡ some (frame new rest)
      pub new_words : IsWords new
      pub new_fields : from_head new ≡ updated u (from_head h)

    pub sets_frame :
        (u : Update) (h : Head) (rest : Bytes) → IsWords h → Fits u → SetsFrame u h rest
    unfolding Access.set_version Access.set_sender Access.set_node_id Access.set_receiver
        Access.set_type Access.set_extension_length Access.set_timestamp Access.set_payload_length
        Access.set_seq_num
    sets_frame (version v) h rest w fits =
        let (fields, bound) = Setters.version_set h w v in
        record {
          new = record h { version_with_sender = _ };
          writes = rw (read_u64-frame0 h rest w, write_u64-frame0 h rest);
          new_words = record { word0 = bound; word1 = w.word1; word2 = w.word2; word3 = w.word3 };
          new_fields = fields;
        }
    sets_frame (sender v) h rest w fits =
        let (fields, bound) = Setters.sender_set h w v in
        record {
          new = record h { version_with_sender = _ };
          writes = rw (read_u64-frame0 h rest w, write_u64-frame0 h rest);
          new_words = record { word0 = bound; word1 = w.word1; word2 = w.word2; word3 = w.word3 };
          new_fields = fields;
        }
    sets_frame (node_id v) h rest w fits =
        let (fields, bound) = Setters.node_id_set h w v in
        record {
          new = record h { node_id_with_receiver = _ };
          writes = rw (read_u64-frame1 h rest w, write_u64-frame1 h rest);
          new_words = record { word0 = w.word0; word1 = bound; word2 = w.word2; word3 = w.word3 };
          new_fields = fields;
        }
    sets_frame (receiver v) h rest w fits =
        let (fields, bound) = Setters.receiver_set h w v in
        record {
          new = record h { node_id_with_receiver = _ };
          writes = rw (read_u64-frame1 h rest w, write_u64-frame1 h rest);
          new_words = record { word0 = w.word0; word1 = bound; word2 = w.word2; word3 = w.word3 };
          new_fields = fields;
        }
    sets_frame (extension_length v) h rest w fits =
        let (fields, bound) = Setters.extension_length_set h w v fits in
        record {
          new = record h { type_with_extension_length_with_timestamp = _ };
          writes = rw (read_u64-frame2 h rest w, write_u64-frame2 h rest);
          new_words = record { word0 = w.word0; word1 = w.word1; word2 = bound; word3 = w.word3 };
          new_fields = fields;
        }
    sets_frame (timestamp v) h rest w fits =
        let (fields, bound) = Setters.timestamp_set h w v in
        record {
          new = record h { type_with_extension_length_with_timestamp = _ };
          writes = rw (read_u64-frame2 h rest w, write_u64-frame2 h rest);
          new_words = record { word0 = w.word0; word1 = w.word1; word2 = bound; word3 = w.word3 };
          new_fields = fields;
        }
    sets_frame (payload_length v) h rest w fits =
        let (fields, bound) = Setters.payload_length_set h w v in
        record {
          new = record h { payload_length_with_seqnum = _ };
          writes = rw (read_u64-frame3 h rest w, write_u64-frame3 h rest);
          new_words = record { word0 = w.word0; word1 = w.word1; word2 = w.word2; word3 = bound };
          new_fields = fields;
        }
    sets_frame (seq_num v) h rest w fits =
        let (fields, bound) = Setters.seqnum_set h w v in
        record {
          new = record h { payload_length_with_seqnum = _ };
          writes = rw (read_u64-frame3 h rest w, write_u64-frame3 h rest);
          new_words = record { word0 = w.word0; word1 = w.word1; word2 = w.word2; word3 = bound };
          new_fields = fields;
        }
    sets_frame (typ t) h rest w fits =
        let (fields, bound) = Setters.type_set h w t in
        record {
          new = record h { type_with_extension_length_with_timestamp = _ };
          writes = rw (read_u64-frame2 h rest w, write_u64-frame2 h rest);
          new_words = record { word0 = w.word0; word1 = w.word1; word2 = bound; word3 = w.word3 };
          new_fields = fields;
        }

    -- On any buffer of 32 bytes and more the nine getters return without a panic what
    -- `Head::from` and `InnerHead::from` read from it.
    pub getters_lem :
        (buf : Bytes)
        → IsBytes buf
        → 32 ≤ length buf
        → (inner : InnerHead) × (view buf ≡ some inner) × Shows buf inner
    getters_lem buf bytes long =
        let d = decodes buf bytes long in
        (
          from_head d.head,
          rw d.reads,
          subst (λ b. Shows b (from_head d.head)) d.restores
              (frame-Shows d.head (drop 32 buf) d.words),
        )

    -- On any buffer of 32 bytes and more each of the nine setters returns without a panic, changes
    -- its own field of the head to the value it is given, cut to the field's width, and no other
    -- field, and leaves the body and the length alone. The extension length is not cut by the code
    -- and must be below 64.
    pub setters_lem :
        (u : Update) (buf : Bytes) (inner : InnerHead)
        → IsBytes buf
        → 32 ≤ length buf
        → Fits u
        → view buf ≡ some inner
        → IsUpdated u buf inner (set u buf)
    setters_lem u buf inner bytes long fits seen =
        let d = decodes buf bytes long in
        let s = sets_frame u d.head (drop 32 buf) d.words fits in
        let same : from_head d.head ≡ inner = ground (arith, d.reads) in
        record {
          out = frame s.new (drop 32 buf);
          returns = sym (ap (set u) d.restores) ∙ s.writes;
          fields =
              rw (from-frame s.new (drop 32 buf) s.new_words)
                (ap some (s.new_fields ∙ ap (updated u) same));
          same_body = drop-frame s.new (drop 32 buf);
          same_length = omega (
            arith,
            length-frame s.new (drop 32 buf),
            length-frame d.head (drop 32 buf),
            ap length d.restores,
          );
        }
