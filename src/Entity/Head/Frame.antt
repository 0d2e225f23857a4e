-- ===== src/Entity/Head/Frame.antt =====
-- A buffer of at least 32 bytes is the bytes of a head followed by a body.
use prim.Prelude.{
  ℕ, suc, zero, ◌+◌, ◌^◌, ◌<◌, ◌≡◌, refl, sym, ◌∙◌, some, [], ◌∷◌, ◌++◌, append-nil, append_assoc,
  length, take, drop, drop-append, length-append, slice-append, overwrite-append, arith, le→ltb,
}
use prim.External.ByteOrder.{Bytes, IsBytes, ByteOrder}
use prim.Entity.{head_len}
use prim.Entity.Head.{Head, read_u64, write_u64, from, read}
use prim.Entity.Head.Fields.{IsWords}

pub IsBytes-take : (n : ℕ) (bs : Bytes) → IsBytes bs → IsBytes (take n bs)
IsBytes-take zero bs h = tt
IsBytes-take (suc n) [] h = tt
IsBytes-take (suc n) (b ∷ bs) h = (h.0, IsBytes-take n bs h.1)

pub IsBytes-drop : (n : ℕ) (bs : Bytes) → IsBytes bs → IsBytes (drop n bs)
IsBytes-drop zero bs h = h
IsBytes-drop (suc n) [] h = tt
IsBytes-drop (suc n) (b ∷ bs) h = IsBytes-drop n bs h.1

pub IsBytes-append : (bs cs : Bytes) → IsBytes bs → IsBytes cs → IsBytes (bs ++ cs)
IsBytes-append [] cs h k = k
IsBytes-append (b ∷ bs) cs h k = (h.0, IsBytes-append bs cs h.1 k)

module _ ⦃bo : ByteOrder⦄ where
  unfoldable pub frame : Head → Bytes → Bytes
  frame h rest =
      bo.write 8 h.version_with_sender
      ++ (bo.write 8 h.node_id_with_receiver
          ++ (bo.write 8 h.type_with_extension_length_with_timestamp
              ++ (bo.write 8 h.payload_length_with_seqnum ++ rest)))

  pub length-frame : (h : Head) (rest : Bytes) → length (frame h rest) ≡ 32 + length rest
  unfolding frame
  length-frame h rest = simp (length-append, bo.length-write) (omega arith)

  -- A frame is its 32 bytes of head, and the rest.
  pub frame-append : (h : Head) (rest : Bytes) → frame h rest ≡ frame h [] ++ rest
  unfolding frame
  frame-append h rest = simp (append_assoc, append-nil)

  -- The word at place i of a buffer whose first i bytes are `xs`.
  read_u64-at :
      (i : ℕ) (xs : Bytes) (w : ℕ) (rest : Bytes)
      → length xs ≡ i
      → w < 2 ^ 64
      → read_u64 i (xs ++ (bo.write 8 w ++ rest)) ≡ some w
  unfolding read_u64
  read_u64-at i xs w rest p fits = rw (
    slice-append i (i + 8) xs (bo.write 8 w) rest p (omega (arith, bo.length-write 8 w)),
    bo.read-write 8 w fits,
  )

  write_u64-at :
      (i : ℕ) (xs : Bytes) (w v : ℕ) (rest : Bytes)
      → length xs ≡ i
      → write_u64 i v (xs ++ (bo.write 8 w ++ rest)) ≡ some (xs ++ (bo.write 8 v ++ rest))
  unfolding write_u64
  write_u64-at i xs w v rest p = rw (
    slice-append i (i + 8) xs (bo.write 8 w) rest p (omega (arith, bo.length-write 8 w)),
    overwrite-append i xs (bo.write 8 w) (bo.write 8 v) rest p
        (bo.length-write 8 v ∙ sym (bo.length-write 8 w)),
  )

  abbrev first : Head → Bytes
  first h = bo.write 8 h.version_with_sender

  abbrev second : Head → Bytes
  second h = bo.write 8 h.node_id_with_receiver

  abbrev third : Head → Bytes
  third h = bo.write 8 h.type_with_extension_length_with_timestamp

  abbrev fourth : Head → Bytes
  fourth h = bo.write 8 h.payload_length_with_seqnum

  -- The frame, split before its third and before its fourth word.
  frame-split2 :
      (h : Head) (rest : Bytes)
      → frame h rest ≡ (first h ++ second h) ++ (third h ++ (fourth h ++ rest))
  unfolding frame
  frame-split2 h rest = sym (append_assoc (first h) (second h) _)

  frame-split3 :
      (h : Head) (rest : Bytes)
      → frame h rest ≡ ((first h ++ second h) ++ third h) ++ (fourth h ++ rest)
  frame-split3 h rest = frame-split2 h rest ∙ sym (append_assoc (first h ++ second h) (third h) _)

  length-two : (h : Head) → length (first h ++ second h) ≡ 16
  length-two h = simp (length-append, bo.length-write)

  length-three : (h : Head) → length ((first h ++ second h) ++ third h) ≡ 24
  length-three h = simp (length-append, bo.length-write)

  length-head : (h : Head) → length (((first h ++ second h) ++ third h) ++ fourth h) ≡ 32
  length-head h = simp (length-append, bo.length-write)

  -- The body of a frame starts at byte 32.
  pub drop-frame : (h : Head) (rest : Bytes) → drop 32 (frame h rest) ≡ rest
  drop-frame h rest =
      rw (frame-split3 h rest, ← append_assoc ((first h ++ second h) ++ third h) (fourth h) rest)
        (drop-append 32 (((first h ++ second h) ++ third h) ++ fourth h) rest (length-head h))

  module _ (h : Head) (rest : Bytes) (words : IsWords h) where
    pub read_u64-frame0 : read_u64 0 (frame h rest) ≡ some h.version_with_sender
    unfolding frame
    read_u64-frame0 = read_u64-at 0 [] _ _ refl words.word0

    pub read_u64-frame1 : read_u64 8 (frame h rest) ≡ some h.node_id_with_receiver
    unfolding frame
    read_u64-frame1 = read_u64-at 8 (first h) _ _ (bo.length-write 8 _) words.word1

    pub read_u64-frame2 :
        read_u64 16 (frame h rest) ≡ some h.type_with_extension_length_with_timestamp
    read_u64-frame2 =
        rw (frame-split2 h rest)
          (read_u64-at 16 (first h ++ second h) _ _ (length-two h) words.word2)

    pub read_u64-frame3 : read_u64 24 (frame h rest) ≡ some h.payload_length_with_seqnum
    read_u64-frame3 =
        rw (frame-split3 h rest)
          (read_u64-at 24 ((first h ++ second h) ++ third h) _ _ (length-three h) words.word3)

    -- Reading the head of a frame gives the head that was written.
    pub from-frame : from (frame h rest) ≡ some h
    unfolding from
    from-frame = simp (read_u64-frame0, read_u64-frame1, read_u64-frame2, read_u64-frame3)

  module _ (h : Head) (rest : Bytes) (v : ℕ) where
    pub write_u64-frame0 :
        write_u64 0 v (frame h rest) ≡ some (frame (record h { version_with_sender = v }) rest)
    unfolding frame
    write_u64-frame0 = write_u64-at 0 [] _ v _ refl

    pub write_u64-frame1 :
        write_u64 8 v (frame h rest) ≡ some (frame (record h { node_id_with_receiver = v }) rest)
    unfolding frame
    write_u64-frame1 = write_u64-at 8 (first h) _ v _ (bo.length-write 8 _)

    pub write_u64-frame2 :
        write_u64 16 v (frame h rest)
        ≡ some (frame (record h { type_with_extension_length_with_timestamp = v }) rest)
    write_u64-frame2 =
        rw (frame-split2 h rest, frame-split2 _ rest)
          (write_u64-at 16 (first h ++ second h) _ v _ (length-two h))

    pub write_u64-frame3 :
        write_u64 24 v (frame h rest)
        ≡ some (frame (record h { payload_length_with_seqnum = v }) rest)
    write_u64-frame3 =
        rw (frame-split3 h rest, frame-split3 _ rest)
          (write_u64-at 24 ((first h ++ second h) ++ third h) _ v _ (length-three h))

  -- `read` writes all 32 bytes: nothing of the old head stays.
  pub read-frame :
      (h old : Head) (rest : Bytes) → read h (frame old rest) ≡ some (frame h rest, some head_len)
  unfolding read
  read-frame h old rest =
      rw
        (
          le→ltb (length (frame old rest)) head_len (omega (arith, length-frame old rest)),
          write_u64-frame0 old rest h.version_with_sender,
        )
        (simp (write_u64-frame1, write_u64-frame2, write_u64-frame3))
