-- ===== src/Net/RoundTrip.antt =====
-- What is sent is received.
use prim.Prelude.{
  ℕ, suc, ◌+◌, ◌-◌, ◌≤◌, ◌≡◌, refl, sym, ap, ◌∙◌, subst, true, none, some, bit_and, [], ◌++◌,
  append_assoc, length, length-append, take, drop, take-append, drop-append, ◌==◌, ==_iff, le→ltb,
  arith,
}
use prim.External.ByteOrder.{Bytes, ByteOrder}
use prim.Entity.{head_len, body_size}
use prim.Entity.Env.{Env}
use prim.Entity.Head.{Head, shr, bit_mask_right_12}
use prim.Entity.Head.Access
use prim.Entity.Head.Fields.{IsWords}
use prim.Entity.Head.Frame.{
  frame, length-frame, frame-append, from-frame, read_u64-frame2, read_u64-frame3,
}
use prim.Entity.Msg.{Msg}
use prim.Entity.Msg.UnpackLaws.{pre_alloc_lem, body_length, overwrite-body}
use prim.Net.Delimiter.{msg_delimiter, advance, pre_check}
use prim.Net.Search.{pre_check-take}
use prim.Net.Transport.{RecvStream}
use prim.Net.Receive.{received, read_buffer, find_delimiter, fill, recv_body, recv_msg}

module _ ⦃bo : ByteOrder⦄ where
  -- A message whose length fields count its body, which is not too large.
  pub record Whole (msg : Msg) : Type 0 where
    pub head : Head
    pub body : Bytes
    pub words : IsWords head
    pub framed : msg ≡ frame head body
    pub sized : length body ≡ body_length head
    pub fits : body_length head ≤ body_size

  pre_check-head :
      (h : Head) (body : Bytes)
      → pre_check (frame h body) ≡ length (frame h body)
      → (pre_check (frame h []) == length (frame h [])) ≡ true
  pre_check-head h body clean =
      let same : take 32 (frame h body) ≡ frame h [] =
        ap (take 32) (frame-append h body) ∙ take-append 32 (frame h []) body (length-frame h []) in
      let whole : pre_check (frame h []) ≡ length (frame h []) =
        subst (λ (f : Bytes). pre_check f ≡ length f) same
          (pre_check-take 32 (frame h body) clean) in
      ground (arith, whole, ==_iff (pre_check (frame h [])) (length (frame h [])))

-- Reading a list of bytes that arrive next.
module _ {S : Type 0} ⦃stream : RecvStream S⦄ where
  pub read_buffer-next :
      (bs rest : Bytes) (s : S)
      → stream.pending s ≡ bs ++ rest
      → (s' : S) × (read_buffer (length bs) none s ≡ some (bs, none, s'))
        × (stream.pending s' ≡ rest)
  unfolding read_buffer
  read_buffer-next bs rest s e =
      let (s', reads, left) =
        stream.read-some (length bs) s (rw e (omega (arith, length-append bs rest))) in
      (
        s',
        rw (reads, e, take-append (length bs) bs rest refl) refl,
        left ∙ ap (drop (length bs)) e ∙ drop-append (length bs) bs rest refl,
      )

  -- A delimiter that arrives next is found at once.
  pub find_delimiter-next :
      (fuel : ℕ) (s s' : S)
      → read_buffer 4 none s ≡ some (msg_delimiter, none, s')
      → find_delimiter (suc fuel) [] none s ≡ some (some (none, s'))
  unfolding find_delimiter advance
  find_delimiter-next fuel s s' reads = rw (find_delimiter, reads) refl

  module _ ⦃bo : ByteOrder⦄ where
    fill-frame :
        (h : Head) (junk body : Bytes) (s s' : S)
        → length body ≡ length junk
        → read_buffer (length body) none s ≡ some (body, none, s')
        → fill (frame h junk) none s ≡ some (frame h body, none, s')
    unfolding fill
    fill-frame h junk body s s' same reads =
        let size : length (frame h junk) - head_len ≡ length body =
          omega (arith, length-frame h junk) in
        rw (fill, size, reads, overwrite-body h junk body same) refl

    pub recv_body-frame :
        (env : Env) (h : Head) (body : Bytes) (s s' : S)
        → IsWords h
        → length body ≡ body_length h
        → body_length h ≤ body_size
        → read_buffer (length body) none s ≡ some (body, none, s')
        → recv_body env (frame h []) none s ≡ some (some (frame h body, none, s'))
    unfolding recv_body Access.extension_length Access.payload_length
    recv_body-frame env h body s s' words sized fits reads =
        let a = pre_alloc_lem env h in
        let total =
          shr (bit_and h.type_with_extension_length_with_timestamp bit_mask_right_12) 46
          + shr h.payload_length_with_seqnum 50 in
        let fits' : total ≤ body_size = omega arith in
        rw
          (
            read_u64-frame2 h [] words,
            read_u64-frame3 h [] words,
            le→ltb body_size total fits',
            from-frame h [] words,
            a.returns,
          )
          (ap some (fill-frame h a.junk body s s' (sized ∙ sym a.sized) reads))

    recv_msg-parts :
        (fuel : ℕ) (env : Env) (h : Head) (body : Bytes) (s s1 s2 s3 : S)
        → pre_check (frame h body) ≡ length (frame h body)
        → find_delimiter (suc fuel) [] none s ≡ some (some (none, s1))
        → read_buffer 32 none s1 ≡ some (frame h [], none, s2)
        → recv_body env (frame h []) none s2 ≡ some (some (frame h body, none, s3))
        → recv_msg (suc fuel) env none s ≡ received (frame h body) s3
    unfolding recv_msg
    recv_msg-parts fuel env h body s s1 s2 s3 clean found reads filled =
        rw
          (
            recv_msg,
            found,
            reads,
            pre_check-head h body clean,
            filled,
            (==_iff (pre_check (frame h body)) (length (frame h body))).1 clean,
          )
          refl

    pub recv_msg-frame :
        (fuel : ℕ) (env : Env) (msg : Msg) (rest : Bytes) (s : S)
        → Whole msg
        → pre_check msg ≡ length msg
        → stream.pending s ≡ msg_delimiter ++ (msg ++ rest)
        → (s' : S) × (recv_msg (suc fuel) env none s ≡ received msg s') × (stream.pending s' ≡ rest)
    recv_msg-frame fuel env msg rest s w clean e =
        let h = w.head in
        let body = w.body in
        let (s1, reads1, left1) = read_buffer-next msg_delimiter (msg ++ rest) s e in
        let split : msg ++ rest ≡ frame h [] ++ (body ++ rest) =
          ap (λ (f : Bytes). f ++ rest) (w.framed ∙ frame-append h body)
          ∙ append_assoc (frame h []) body rest in
        let (s2, reads2, left2) = read_buffer-next (frame h []) (body ++ rest) s1 (left1 ∙ split) in
        let (s3, reads3, left3) = read_buffer-next body rest s2 left2 in
        (
          s3,
          subst (λ (f : Msg). recv_msg (suc fuel) env none s ≡ received f s3) (sym w.framed)
              (recv_msg-parts fuel env h body s s1 s2 s3
                (subst (λ (f : Msg). pre_check f ≡ length f) w.framed clean)
                (find_delimiter-next fuel s s1 reads1)
                (subst (λ n. read_buffer n none s1 ≡ some (frame h [], none, s2))
                  (length-frame h []) reads2)
                (recv_body-frame env h body s2 s3 w.words w.sized w.fits reads3)),
          left3,
        )
