-- ===== src/Entity/Head/Setters.antt =====
-- What the setters do to the words of a head, and to its nine fields.
use prim.Prelude.{ℕ, ◌+◌, ◌*◌, ◌/◌, ◌%◌, ◌^◌, ◌<◌, ◌≡◌, ap, ◌∙◌, bit_and, bit_or, arith}
use prim.Prelude.Bits.{or_fields, or_fields_low}
use prim.External.Primitive.{FromPrimitive}
use prim.Entity.MsgType
use prim.Entity.MsgType.{MsgType}
use prim.Entity.MsgType.Laws.{value-lt, from-value}
use prim.Entity.Head.{
  Head, from_head, shr, shl, as_u16, bit_mask_left_46, bit_mask_right_46, bit_mask_left_50,
  bit_mask_right_50, bit_mask_left_12, bit_mask_right_12,
}
use prim.Entity.Head.Fields.{
  IsWords, mask_right_46, mask_right_50, mask_right_12, mask_left_46, mask_left_50, mask_left_12,
}

-- `(w & right) | (v << 46)` and `(w & left) | (v & right)`, and the same cut at bits 50 and 52.
pub replace_high_46 :
    (w v : ℕ) → bit_or (bit_and w bit_mask_right_46) (shl v 46) ≡ v % 2 ^ 18 * 2 ^ 46 + w % 2 ^ 46
replace_high_46 w v =
    let e : shl v 46 ≡ v % 2 ^ 18 * 2 ^ 46 = omega arith in
    rw (mask_right_46 w, e) (or_fields_low 46 (v % 2 ^ 18) (w % 2 ^ 46) (omega arith))

pub replace_low_46 :
    (w v : ℕ)
    → w < 2 ^ 64
    → bit_or (bit_and w bit_mask_left_46) (bit_and v bit_mask_right_46)
      ≡ w / 2 ^ 46 * 2 ^ 46 + v % 2 ^ 46
replace_low_46 w v h =
    rw (mask_left_46 w h, mask_right_46 v) (or_fields 46 (w / 2 ^ 46) (v % 2 ^ 46) (omega arith))

pub replace_high_50 :
    (w v : ℕ) → bit_or (bit_and w bit_mask_right_50) (shl v 50) ≡ v % 2 ^ 14 * 2 ^ 50 + w % 2 ^ 50
replace_high_50 w v =
    let e : shl v 50 ≡ v % 2 ^ 14 * 2 ^ 50 = omega arith in
    rw (mask_right_50 w, e) (or_fields_low 50 (v % 2 ^ 14) (w % 2 ^ 50) (omega arith))

pub replace_low_50 :
    (w v : ℕ)
    → w < 2 ^ 64
    → bit_or (bit_and w bit_mask_left_50) (bit_and v bit_mask_right_50)
      ≡ w / 2 ^ 50 * 2 ^ 50 + v % 2 ^ 50
replace_low_50 w v h =
    rw (mask_left_50 w h, mask_right_50 v) (or_fields 50 (w / 2 ^ 50) (v % 2 ^ 50) (omega arith))

pub replace_high_12 :
    (w v : ℕ) → bit_or (bit_and w bit_mask_right_12) (shl v 52) ≡ v % 2 ^ 12 * 2 ^ 52 + w % 2 ^ 52
replace_high_12 w v =
    let e : shl v 52 ≡ v % 2 ^ 12 * 2 ^ 52 = omega arith in
    rw (mask_right_12 w, e) (or_fields_low 52 (v % 2 ^ 12) (w % 2 ^ 52) (omega arith))

pub replace_middle :
    (w v : ℕ)
    → w < 2 ^ 64
    → v < 2 ^ 6
    → bit_or (bit_and w bit_mask_left_12) (bit_or (shl v 46) (bit_and w bit_mask_right_46))
      ≡ w / 2 ^ 52 * 2 ^ 52 + (v * 2 ^ 46 + w % 2 ^ 46)
replace_middle w v h k =
    let e : shl v 46 ≡ v * 2 ^ 46 = omega arith in
    rw (mask_left_12 w h, mask_right_46 w, e, or_fields 46 v (w % 2 ^ 46) (omega arith))
      (or_fields 52 (w / 2 ^ 52) (v * 2 ^ 46 + w % 2 ^ 46) (omega arith))

module _ ⦃p : FromPrimitive MsgType.value⦄ (h : Head) (words : IsWords h) where
  open h use {
    version_with_sender as w0, node_id_with_receiver as w1,
    type_with_extension_length_with_timestamp as w2, payload_length_with_seqnum as w3,
  }

  pub version_set :
      (v : ℕ)
      → let w = bit_or (bit_and w0 bit_mask_right_46) (shl v 46) in
        (from_head (record h { version_with_sender = w })
          ≡ record (from_head h) { version = v % 2 ^ 18 })
        × (w < 2 ^ 64)
  unfolding from_head
  version_set v =
      let w = bit_or (bit_and w0 bit_mask_right_46) (shl v 46) in
      ground (arith, replace_high_46 w0 v, mask_right_46 w0, mask_right_46 w)

  pub sender_set :
      (v : ℕ)
      → let w = bit_or (bit_and w0 bit_mask_left_46) (bit_and v bit_mask_right_46) in
        (from_head (record h { version_with_sender = w })
          ≡ record (from_head h) { sender = v % 2 ^ 46 })
        × (w < 2 ^ 64)
  unfolding from_head
  sender_set v =
      let w = bit_or (bit_and w0 bit_mask_left_46) (bit_and v bit_mask_right_46) in
      ground (arith, words.word0, replace_low_46 w0 v, mask_right_46 w0, mask_right_46 w)

  pub node_id_set :
      (v : ℕ)
      → let w = bit_or (bit_and w1 bit_mask_right_46) (shl v 46) in
        (from_head (record h { node_id_with_receiver = w })
          ≡ record (from_head h) { node_id = v % 2 ^ 18 })
        × (w < 2 ^ 64)
  unfolding from_head
  node_id_set v =
      let w = bit_or (bit_and w1 bit_mask_right_46) (shl v 46) in
      ground (arith, replace_high_46 w1 v, mask_right_46 w1, mask_right_46 w)

  pub receiver_set :
      (v : ℕ)
      → let w = bit_or (bit_and w1 bit_mask_left_46) (bit_and v bit_mask_right_46) in
        (from_head (record h { node_id_with_receiver = w })
          ≡ record (from_head h) { receiver = v % 2 ^ 46 })
        × (w < 2 ^ 64)
  unfolding from_head
  receiver_set v =
      let w = bit_or (bit_and w1 bit_mask_left_46) (bit_and v bit_mask_right_46) in
      ground (arith, words.word1, replace_low_46 w1 v, mask_right_46 w1, mask_right_46 w)

  -- The type is looked up by the 12 bits that were written.
  type_found : (t : MsgType) (n : ℕ) → n ≡ MsgType.value t → MsgType.from n ≡ t
  type_found t n e = ap MsgType.from e ∙ from-value t

  pub type_set :
      (t : MsgType)
      → let w = bit_or (bit_and w2 bit_mask_right_12) (shl (MsgType.value t) 52) in
        (from_head (record h { type_with_extension_length_with_timestamp = w })
          ≡ record (from_head h) { typ = t })
        × (w < 2 ^ 64)
  unfolding from_head
  type_set t =
      let w = bit_or (bit_and w2 bit_mask_right_12) (shl (MsgType.value t) 52) in
      ground (
        arith,
        value-lt t,
        replace_high_12 w2 (MsgType.value t),
        mask_right_46 w2,
        mask_right_46 w,
        mask_right_12 w2,
        mask_right_12 w,
        type_found t (as_u16 (shr w 52)),
      )

  pub extension_length_set :
      (v : ℕ)
      → v < 2 ^ 6
      → let w =
          bit_or (bit_and w2 bit_mask_left_12) (bit_or (shl v 46) (bit_and w2 bit_mask_right_46)) in
        (from_head (record h { type_with_extension_length_with_timestamp = w })
          ≡ record (from_head h) { extension_length = v })
        × (w < 2 ^ 64)
  unfolding from_head
  extension_length_set v fits =
      let w =
        bit_or (bit_and w2 bit_mask_left_12) (bit_or (shl v 46) (bit_and w2 bit_mask_right_46)) in
      ground (
        arith,
        words.word2,
        replace_middle w2 v,
        mask_right_46 w2,
        mask_right_46 w,
        mask_right_12 w2,
        mask_right_12 w,
      )

  pub timestamp_set :
      (v : ℕ)
      → let w = bit_or (bit_and w2 bit_mask_left_46) (bit_and v bit_mask_right_46) in
        (from_head (record h { type_with_extension_length_with_timestamp = w })
          ≡ record (from_head h) { timestamp = v % 2 ^ 46 })
        × (w < 2 ^ 64)
  unfolding from_head
  timestamp_set v =
      let w = bit_or (bit_and w2 bit_mask_left_46) (bit_and v bit_mask_right_46) in
      ground (
        arith,
        words.word2,
        replace_low_46 w2 v,
        mask_right_46 w2,
        mask_right_46 w,
        mask_right_12 w2,
        mask_right_12 w,
      )

  pub payload_length_set :
      (v : ℕ)
      → let w = bit_or (bit_and w3 bit_mask_right_50) (shl v 50) in
        (from_head (record h { payload_length_with_seqnum = w })
          ≡ record (from_head h) { payload_length = v % 2 ^ 14 })
        × (w < 2 ^ 64)
  unfolding from_head
  payload_length_set v =
      let w = bit_or (bit_and w3 bit_mask_right_50) (shl v 50) in
      ground (arith, replace_high_50 w3 v, mask_right_50 w3, mask_right_50 w)

  pub seqnum_set :
      (v : ℕ)
      → let w = bit_or (bit_and w3 bit_mask_left_50) (bit_and v bit_mask_right_50) in
        (from_head (record h { payload_length_with_seqnum = w })
          ≡ record (from_head h) { seqnum = v % 2 ^ 50 })
        × (w < 2 ^ 64)
  unfolding from_head
  seqnum_set v =
      let w = bit_or (bit_and w3 bit_mask_left_50) (bit_and v bit_mask_right_50) in
      ground (arith, words.word3, replace_low_50 w3 v, mask_right_50 w3, mask_right_50 w)
