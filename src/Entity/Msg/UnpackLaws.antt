-- ===== src/Entity/Msg/UnpackLaws.antt =====
-- What `with_compressed` takes out of a batch.
use prim.Prelude.{
  ℕ, zero, suc, ◌+◌, ◌-◌, ◌≤◌, ◌<◌, ◌≡◌, ◌≢◌, refl, sym, ap, ◌∙◌, subst, Option, none, some, ◌>>=◌,
  List, [], ◌∷◌, ◌++◌, append-nil, length, length-append, length-drop, drop, slice, slice-append,
  slice_from, ◌⊎◌, inl, inr, overwrite, overwrite-append, bit_and, arith, le→leb,
}
use prim.External.ByteOrder.{Bytes, ByteOrder}
use prim.Entity.{head_len}
use prim.Entity.Env.{Env, uninit, length-uninit, uninit-IsBytes}
use prim.Entity.Head
use prim.Entity.Head.{Head, shr, bit_mask_right_12}
use prim.Entity.Head.Fields.{IsWords}
use prim.Entity.Head.Frame.{frame, from-frame, read-frame, length-frame, drop-frame, frame-append}
use prim.Entity.Head.Decode.{decodes}
use prim.Entity.Msg.{Msg, payload, body, pre_alloc}
use prim.Entity.Msg.Batch.{unpack_one, unpack_loop, unpacked, panicked, with_compressed}

-- The length of the body that a head announces.
abbrev pub body_length : Head → ℕ
body_length h =
    shr h.payload_length_with_seqnum 50
    + shr (bit_and h.type_with_extension_length_with_timestamp bit_mask_right_12) 46

module _ ⦃bo : ByteOrder⦄ where
  -- `pre_alloc` writes the head and leaves a body of the announced length.
  pub record PreAllocated (h : Head) (result : Option Msg) : Type 0 where
    pub junk : Bytes
    pub returns : result ≡ some (frame h junk)
    pub sized : length junk ≡ body_length h

  pub pre_alloc_lem : (env : Env) (h : Head) → PreAllocated h (pre_alloc env h)
  unfolding pre_alloc
  pre_alloc_lem env h =
      let n =
        head_len
        + shr h.payload_length_with_seqnum 50
        + shr (bit_and h.type_with_extension_length_with_timestamp bit_mask_right_12) 46 in
      let d = decodes (uninit env n) (uninit-IsBytes env n) (omega (arith, length-uninit env n)) in
      record {
        junk = drop 32 (uninit env n);
        returns =
            ap (λ b. (do (buf, _) ← Head.read h b; some buf)) (sym d.restores)
            ∙ rw (read-frame h d.head (drop 32 (uninit env n)));
        sized = omega (arith, length-drop 32 (uninit env n), length-uninit env n);
      }

  pub slice-head : (h : Head) (rest : Bytes) → slice 0 32 (frame h rest) ≡ some (frame h [])
  slice-head h rest =
      rw (frame-append h rest)
        (slice-append 0 32 [] (frame h []) rest refl (omega (arith, length-frame h [])))

  pub slice-body :
      (h : Head) (content more : Bytes) (n : ℕ)
      → n ≡ 32 + length content
      → slice 32 n (frame h (content ++ more)) ≡ some content
  slice-body h content more n e =
      rw (frame-append h (content ++ more))
        (slice-append 32 n (frame h []) content more (length-frame h []) (sym e))

  pub body-frame : (h : Head) (rest : Bytes) → body (frame h rest) ≡ some rest
  unfolding body slice_from
  body-frame h rest = rw (
    le→leb head_len (length (frame h rest)) (omega (arith, length-frame h rest)),
    drop-frame h rest,
  )

  pub overwrite-body :
      (h : Head) (old new : Bytes)
      → length new ≡ length old
      → overwrite 32 new (frame h old) ≡ frame h new
  overwrite-body h old new e =
      rw (frame-append h old, frame-append h new)
        (subst (λ b. overwrite 32 new (frame h [] ++ b) ≡ frame h [] ++ new) (append-nil old)
          (overwrite-append 32 (frame h []) old new [] (length-frame h []) e
            ∙ ap (λ b. frame h [] ++ b) (append-nil new)))

  -- One round at the start of a payload takes out the message that stands there.
  pub unpack_first :
      (env : Env) (h : Head) (content more : Bytes)
      → IsWords h
      → length content ≡ body_length h
      → unpack_one env (frame h (content ++ more)) 0
        ≡ some (frame h content, 0 + (head_len + length content))
  unfolding unpack_one
  unpack_first env h content more w sized =
      let pre = pre_alloc_lem env h in
      let same : length content ≡ length pre.junk = sized ∙ sym pre.sized in
      rw (
        slice-head h (content ++ more),
        from-frame h [] w,
        pre.returns,
        body-frame h pre.junk,
        ← same,
        slice-body h content more (32 + length content) refl,
        overwrite-body h pre.junk content same,
      )

  from-nil : Head.from [] ≡ none
  unfolding Head.from slice
  from-nil = refl

  slice_far :
      (whole : Bytes) (index : ℕ)
      → 32 ≤ index
      → (slice index 32 whole ≡ none) ⊎ (slice index 32 whole ≡ some [])
  unfolding slice
  slice_far whole index far =
      let nothing : 32 - index ≡ 0 = omega arith in rw nothing (ground arith)

  -- And any later round panics: the slice of the head ends at byte 32 of the whole payload.
  pub unpack_later :
      (env : Env) (whole : Bytes) (index : ℕ) → 32 ≤ index → unpack_one env whole index ≡ none
  unfolding unpack_one
  unpack_later env whole index far = elim (slice_far whole index far) [
    | inl e ↦ rw e
    | inr e ↦ rw (e, from-nil)
  ]

  later_panics :
      (env : Env) (whole : Bytes) (fuel index : ℕ) (list : List Msg)
      → 0 < fuel
      → 32 ≤ index
      → unpack_loop env whole fuel index list ≡ panicked
  unfolding unpack_loop
  later_panics env whole zero index list h far = absurd (omega arith)
  later_panics env whole (suc fuel) index list h far =
      rw (unpack_later env whole index far, unpack_loop)

  -- From a batch with a single message that has the length that its head announces,
  -- `with_compressed` takes that message. On a batch whose payload goes on after its first message
  -- it panics.
  pub with_compressed_lem :
      (env : Env) (batch : Msg) (h : Head) (content more : Bytes)
      → IsWords h
      → length content ≡ body_length h
      → payload batch ≡ some (frame h (content ++ more))
      → ((more ≡ []) × (with_compressed env batch ≡ unpacked (frame h content ∷ [])))
        ⊎ ((more ≢ []) × (with_compressed env batch ≡ panicked))
  unfolding with_compressed
  with_compressed_lem env batch h content [] w sized holds = inl (
    refl,
    rw (holds, unpack_first env h content [] w sized, unpack_loop)
        (ground (arith, length-frame h (content ++ []), length-append content [])),
  )
  with_compressed_lem env batch h content (b ∷ more) w sized holds = inr (
    (λ e. cc),
    rw (holds, unpack_first env h content (b ∷ more) w sized, unpack_loop)
        (ground (
          arith,
          length-frame h (content ++ b ∷ more),
          length-append content (b ∷ more),
          later_panics env (frame h (content ++ b ∷ more)) (length (frame h (content ++ b ∷ more)))
              (0 + (head_len + length content)) (frame h content ∷ []),
        )),
  )
