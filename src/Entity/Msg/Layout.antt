-- ===== src/Entity/Msg/Layout.antt =====
-- The parts of a well-formed message, and what the readers return on it.
use prim.Prelude.{
  ℕ, ◌+◌, ◌≡◌, refl, sym, ap, some, [], ◌∷◌, ◌++◌, append-nil, append_assoc, length, length-append,
  slice, slice-append, arith, ◌==◌, if◌then◌else◌,
}
use prim.External.ByteOrder.{Bytes, ByteOrder}
use prim.External.Primitive.{FromPrimitive}
use prim.Entity.MsgType
use prim.Entity.Head.{Head, InnerHead, from_head}
use prim.Entity.Head.Fields.{IsWords}
use prim.Entity.Head.Frame.{frame, from-frame, length-frame, frame-append}
use prim.Entity.Head.View.{view, Shows, frame-Shows}
use prim.Entity.Msg.{Msg, payload, extension}

module _ ⦃bo : ByteOrder⦄ ⦃p : FromPrimitive MsgType.value⦄ where
  -- `msg` is a message with these fields, this payload and this extension, and nothing after them.
  pub record IsMsg (msg : Msg) (inner : InnerHead) (text ext : Bytes) : Type 0 where
    pub fields : view msg ≡ some inner
    pub shows : Shows msg inner
    pub has_payload : payload msg ≡ some text
    pub has_extension : extension msg ≡ some ext
    pub total : length msg ≡ 32 + (length text + length ext)

  frame-slice :
      (h : Head) (xs ys zs : Bytes) (i j : ℕ)
      → i ≡ 32 + length xs
      → i + length ys ≡ j
      → slice i j (frame h (xs ++ (ys ++ zs))) ≡ some ys
  frame-slice h xs ys zs i j e k =
      rw (frame-append h (xs ++ (ys ++ zs)), ← append_assoc (frame h []) xs (ys ++ zs))
        (slice-append i j (frame h [] ++ xs) ys zs
          (omega (arith, length-append (frame h []) xs, length-frame h [])) k)

  slice-or-nil :
      (h : Head) (xs ys zs body : Bytes) (n i j : ℕ)
      → body ≡ xs ++ (ys ++ zs)
      → n ≡ length ys
      → i ≡ 32 + length xs
      → i + length ys ≡ j
      → (if n == 0 then some [] else slice i j (frame h body)) ≡ some ys
  slice-or-nil h xs [] zs body n i j b l e k = ground arith
  slice-or-nil h xs (y ∷ ys) zs body n i j b l e k =
      rw (b, frame-slice h xs (y ∷ ys) zs i j e k) (ground arith)

  -- A frame whose head announces the lengths of the two parts of its body.
  pub frame-IsMsg :
      (h : Head) (text ext : Bytes)
      → IsWords h
      → (from_head h).payload_length ≡ length text
      → (from_head h).extension_length ≡ length ext
      → IsMsg (frame h (text ++ ext)) (from_head h) text ext
  unfolding payload extension
  frame-IsMsg h text ext w e k =
      let shown = frame-Shows h (text ++ ext) w in
      record {
        fields = rw (from-frame h (text ++ ext) w);
        shows = shown;
        has_payload =
            rw shown.shows_payload_length
              (slice-or-nil h [] text ext _ _ _ _ refl e refl (omega arith));
        has_extension =
            rw (shown.shows_payload_length, shown.shows_extension_length)
              (slice-or-nil h text ext [] _ _ _ _ (ap (◌++◌ text) (sym (append-nil ext))) k
                (omega arith) (omega arith));
        total = omega (arith, length-frame h (text ++ ext), length-append text ext);
      }
