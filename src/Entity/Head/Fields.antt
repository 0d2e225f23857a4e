-- ===== src/Entity/Head/Fields.antt =====
-- The fields of the four words of a head, as arithmetic.
use prim.Prelude.{ℕ, ◌+◌, ◌*◌, ◌/◌, ◌%◌, ◌^◌, ◌<◌, ◌≡◌, ap, ◌∙◌, bit_and, bit_or, arith}
use prim.Prelude.Bits.{or_fields, and_low, and_high}
use prim.External.Primitive.{FromPrimitive}
use prim.Entity.MsgType
use prim.Entity.MsgType.{MsgType}
use prim.Entity.MsgType.Laws.{value-lt, from-value}
use prim.Entity.Head.{
  Head, InnerHead, from_head, into_head, shr, shl, as_u16, bit_mask_left_46, bit_mask_right_46,
  bit_mask_left_50, bit_mask_right_50, bit_mask_left_12, bit_mask_right_12,
}

-- The widths that the comments on `Head` give: 18 bits of version and node id, 46 of user ids and
-- of the timestamp, 12 of the type, 6 of the extension length, 14 of the payload length and 50 of
-- the sequence number.
pub record IsInRange (inner : InnerHead) : Type 0 where
  pub version_fits : inner.version < 2 ^ 18
  pub sender_fits : inner.sender < 2 ^ 46
  pub node_id_fits : inner.node_id < 2 ^ 18
  pub receiver_fits : inner.receiver < 2 ^ 46
  pub extension_fits : inner.extension_length < 2 ^ 6
  pub timestamp_fits : inner.timestamp < 2 ^ 46
  pub payload_fits : inner.payload_length < 2 ^ 14
  pub seqnum_fits : inner.seqnum < 2 ^ 50

-- Four `u64`s.
pub record IsWords (head : Head) : Type 0 where
  pub word0 : head.version_with_sender < 2 ^ 64
  pub word1 : head.node_id_with_receiver < 2 ^ 64
  pub word2 : head.type_with_extension_length_with_timestamp < 2 ^ 64
  pub word3 : head.payload_length_with_seqnum < 2 ^ 64

pub mask_right_46 : (w : ℕ) → bit_and w bit_mask_right_46 ≡ w % 2 ^ 46
mask_right_46 w = and_low 46 w

pub mask_right_50 : (w : ℕ) → bit_and w bit_mask_right_50 ≡ w % 2 ^ 50
mask_right_50 w = and_low 50 w

pub mask_right_12 : (w : ℕ) → bit_and w bit_mask_right_12 ≡ w % 2 ^ 52
mask_right_12 w = and_low 52 w

pub mask_left_46 : (w : ℕ) → w < 2 ^ 64 → bit_and w bit_mask_left_46 ≡ w / 2 ^ 46 * 2 ^ 46
mask_left_46 w h = and_high 46 18 w (omega arith)

pub mask_left_50 : (w : ℕ) → w < 2 ^ 64 → bit_and w bit_mask_left_50 ≡ w / 2 ^ 50 * 2 ^ 50
mask_left_50 w h = and_high 50 14 w (omega arith)

pub mask_left_12 : (w : ℕ) → w < 2 ^ 64 → bit_and w bit_mask_left_12 ≡ w / 2 ^ 52 * 2 ^ 52
mask_left_12 w h = and_high 52 12 w (omega arith)

-- Two fields side by side in a word.
pub or_46 : (hi lo : ℕ) → hi < 2 ^ 18 → lo < 2 ^ 46 → bit_or (shl hi 46) lo ≡ hi * 2 ^ 46 + lo
or_46 hi lo h k = let e : shl hi 46 ≡ hi * 2 ^ 46 = omega arith in rw e (or_fields 46 hi lo k)

pub or_50 : (hi lo : ℕ) → hi < 2 ^ 14 → lo < 2 ^ 50 → bit_or (shl hi 50) lo ≡ hi * 2 ^ 50 + lo
or_50 hi lo h k = let e : shl hi 50 ≡ hi * 2 ^ 50 = omega arith in rw e (or_fields 50 hi lo k)

pub or_12 :
    (t e s : ℕ)
    → t < 2 ^ 12
    → e < 2 ^ 6
    → s < 2 ^ 46
    → bit_or (bit_or (shl t 52) (shl e 46)) s ≡ t * 2 ^ 52 + e * 2 ^ 46 + s
or_12 t e s h k l =
    let high : bit_or (shl t 52) (shl e 46) ≡ (t * 2 ^ 6 + e) * 2 ^ 46 =
      ground (arith, or_fields 52 t (e * 2 ^ 46)) in
    rw high (omega (arith, or_fields 46 (t * 2 ^ 6 + e) s l))

-- The words of a head whose fields fit.
pub record IsPacked (inner : InnerHead) (head : Head) : Type 0 where
  pub packed0 : head.version_with_sender ≡ inner.version * 2 ^ 46 + inner.sender
  pub packed1 : head.node_id_with_receiver ≡ inner.node_id * 2 ^ 46 + inner.receiver
  pub packed2 :
      head.type_with_extension_length_with_timestamp
      ≡ MsgType.value inner.typ * 2 ^ 52 + inner.extension_length * 2 ^ 46 + inner.timestamp
  pub packed3 : head.payload_length_with_seqnum ≡ inner.payload_length * 2 ^ 50 + inner.seqnum

pub into_head-IsPacked : (inner : InnerHead) → IsInRange inner → IsPacked inner (into_head inner)
unfolding into_head
into_head-IsPacked inner r = record {
  packed0 = or_46 inner.version inner.sender r.version_fits r.sender_fits;
  packed1 = or_46 inner.node_id inner.receiver r.node_id_fits r.receiver_fits;
  packed2 =
      or_12 (MsgType.value inner.typ) inner.extension_length inner.timestamp
        (omega (arith, value-lt inner.typ)) r.extension_fits r.timestamp_fits;
  packed3 = or_50 inner.payload_length inner.seqnum r.payload_fits r.seqnum_fits;
}

pub into_head-IsWords : (inner : InnerHead) → IsInRange inner → IsWords (into_head inner)
into_head-IsWords inner r = omega (arith, value-lt inner.typ, into_head-IsPacked inner r)

module _ ⦃p : FromPrimitive MsgType.value⦄ where
  -- Unpacking packed words gives the fields.
  pub from_head-packed :
      (inner : InnerHead) (head : Head)
      → IsInRange inner
      → IsPacked inner head
      → from_head head ≡ inner
  unfolding from_head
  from_head-packed inner head r k = λ i. record {
    version = e.0 i;
    sender = e.1 i;
    node_id = e.2 i;
    receiver = e.3 i;
    typ = e.4 i;
    extension_length = e.5 i;
    timestamp = e.6 i;
    payload_length = e.7 i;
    seqnum = e.8 i;
  }
    where
      type_of :
          as_u16 (shr head.type_with_extension_length_with_timestamp 52) ≡ MsgType.value inner.typ
      type_of = omega (arith, value-lt inner.typ)

      e :
          ((from_head head).version ≡ inner.version)
          × ((from_head head).sender ≡ inner.sender)
          × ((from_head head).node_id ≡ inner.node_id)
          × ((from_head head).receiver ≡ inner.receiver)
          × ((from_head head).typ ≡ inner.typ)
          × ((from_head head).extension_length ≡ inner.extension_length)
          × ((from_head head).timestamp ≡ inner.timestamp)
          × ((from_head head).payload_length ≡ inner.payload_length)
          × ((from_head head).seqnum ≡ inner.seqnum)
      e = (
        omega arith,
        omega (arith, mask_right_46 head.version_with_sender),
        omega arith,
        omega (arith, mask_right_46 head.node_id_with_receiver),
        ap MsgType.from type_of ∙ from-value inner.typ,
        omega (
          arith,
          mask_right_12 head.type_with_extension_length_with_timestamp,
          value-lt inner.typ,
        ),
        omega (
          arith,
          mask_right_46 head.type_with_extension_length_with_timestamp,
          value-lt inner.typ,
        ),
        omega arith,
        omega (arith, mask_right_50 head.payload_length_with_seqnum),
      )

  -- Packing a head whose fields fit their widths and unpacking it gives all nine fields back.
  pub from_head-into_head :
      (inner : InnerHead) → IsInRange inner → from_head (into_head inner) ≡ inner
  from_head-into_head inner r =
      from_head-packed inner (into_head inner) r (into_head-IsPacked inner r)
