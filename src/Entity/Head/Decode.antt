-- ===== src/Entity/Head/Decode.antt =====
-- Every buffer of at least 32 bytes is a frame, of the head that `Head::from` reads.
use prim.Prelude.{
  ℕ, ◌+◌, ◌≤◌, ◌≡◌, sym, ap, ◌∙◌, some, ◌++◌, length, take, drop, length-take, length-drop,
  take-append-drop, drop-drop, arith,
}
use prim.External.ByteOrder.{Bytes, IsBytes, ByteOrder}
use prim.Entity.Head.{Head, from}
use prim.Entity.Head.Fields.{IsWords}
use prim.Entity.Head.Frame.{frame, from-frame, IsBytes-take, IsBytes-drop}

module _ ⦃bo : ByteOrder⦄ where
  abbrev word_at : ℕ → Bytes → ℕ
  word_at i buf = bo.read 8 (take 8 (drop i buf))

  split_word :
      (i : ℕ) (buf : Bytes)
      → IsBytes buf
      → i + 8 ≤ length buf
      → bo.write 8 (word_at i buf) ++ drop (i + 8) buf ≡ drop i buf
  split_word i buf h k =
      rw
        (
          bo.write-read 8 (take 8 (drop i buf))
              (omega (arith, length-take 8 (drop i buf), length-drop i buf))
              (IsBytes-take 8 (drop i buf) (IsBytes-drop i buf h)),
          ← drop-drop i 8 buf,
        )
        (take-append-drop 8 (drop i buf))

  abbrev decoded : Bytes → Head
  decoded buf = record {
    version_with_sender = word_at 0 buf;
    node_id_with_receiver = word_at 8 buf;
    type_with_extension_length_with_timestamp = word_at 16 buf;
    payload_length_with_seqnum = word_at 24 buf;
  }

  decoded-IsWords : (buf : Bytes) → IsWords (decoded buf)
  decoded-IsWords buf = record {
    word0 = bo.read-lt 8 _;
    word1 = bo.read-lt 8 _;
    word2 = bo.read-lt 8 _;
    word3 = bo.read-lt 8 _;
  }

  frame-decoded :
      (buf : Bytes) → IsBytes buf → 32 ≤ length buf → frame (decoded buf) (drop 32 buf) ≡ buf
  unfolding frame
  frame-decoded buf h k =
      rw
        (
          split_word 24 buf h (omega arith),
          split_word 16 buf h (omega arith),
          split_word 8 buf h (omega arith),
        )
        (split_word 0 buf h (omega arith))

  -- `Head::from` succeeds on 32 bytes and more, and writing the head that it read in front of the
  -- rest gives the buffer back.
  pub record Decodes (buf : Bytes) : Type 0 where
    pub head : Head
    pub reads : from buf ≡ some head
    pub words : IsWords head
    pub restores : frame head (drop 32 buf) ≡ buf

  pub decodes : (buf : Bytes) → IsBytes buf → 32 ≤ length buf → Decodes buf
  decodes buf h k = record {
    head = decoded buf;
    reads =
        sym (ap from (frame-decoded buf h k))
        ∙ from-frame (decoded buf) (drop 32 buf) (decoded-IsWords buf);
    words = decoded-IsWords buf;
    restores = frame-decoded buf h k;
  }
