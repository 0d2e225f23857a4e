-- ===== src/Net/Tls.antt =====
-- The streams without delimiters, `recv_msgs`, `recv_msgc`, `send_msgs` and `send_msgc` of
-- server/lib-net-tokio/src/net/mod.rs: the two ends of a TLS connection have the same code.
use prim.Prelude.{◌≡◌, refl, ◌∙◌, ap, sym, subst, Option, none, some, [], ◌++◌, append_assoc}
use prim.External.ByteOrder.{ByteOrder}
use prim.Entity.{head_len}
use prim.Entity.Env.{Env}
use prim.Entity.Head.Frame.{frame, frame-append, length-frame}
use prim.Entity.Msg.{Msg}
use prim.Net.Transport.{RecvStream, SendStream}
use prim.Net.Receive.{Received, received, crashed, panicked, read_buffer, recv_body}
use prim.Net.RoundTrip.{Whole, read_buffer-next, recv_body-frame}

module _ {S : Type 0} ⦃stream : RecvStream S⦄ ⦃bo : ByteOrder⦄ where
  unfoldable pub recv_msgs : Env → S → Received S
  unfolding read_buffer recv_body
  recv_msgs env s = elim (read_buffer head_len none s) [
    | none ↦ crashed
    | some (buffer, external, s) ↦ elim (recv_body env buffer external s) [
      | none ↦ panicked
      | some none ↦ crashed
      | some (some (msg, external, s)) ↦ received msg s
    ]
  ]

module _ {T : Type 0} ⦃stream : SendStream T⦄ where
  unfoldable pub send_msgs : Msg → T → Option T
  send_msgs msg t = stream.write_all msg t

module _ {S T : Type 0} ⦃stream : RecvStream S⦄ ⦃out : SendStream T⦄ ⦃bo : ByteOrder⦄ where
  -- A message whose length fields count its body, not longer than `BODY_SIZE`, that is sent on a
  -- fresh stream without an error and arrives is received as it was, whatever bytes it holds, and
  -- what comes after it is still to be read.
  pub recv_msgs-send_msgs :
      (env : Env) (msg : Msg) (t t' : T) (s : S) (rest : Msg)
      → Whole msg
      → out.written t ≡ []
      → send_msgs msg t ≡ some t'
      → stream.pending s ≡ out.written t' ++ rest
      → (s' : S) × (recv_msgs env s ≡ received msg s') × (stream.pending s' ≡ rest)
  unfolding recv_msgs send_msgs
  recv_msgs-send_msgs env msg t t' s rest w fresh sent arrives =
      let h = w.head in
      let body = w.body in
      let wrote : out.written t' ≡ msg =
        out.written-write_all msg t t' sent ∙ ap (λ (b : Msg). b ++ msg) fresh in
      let split : stream.pending s ≡ frame h [] ++ (body ++ rest) =
        arrives
        ∙ ap (λ (f : Msg). f ++ rest) (wrote ∙ w.framed ∙ frame-append h body)
        ∙ append_assoc (frame h []) body rest in
      let (s1, reads1, left1) = read_buffer-next (frame h []) (body ++ rest) s split in
      let (s2, reads2, left2) = read_buffer-next body rest s1 left1 in
      let head_read : read_buffer head_len none s ≡ some (frame h [], none, s1) =
        subst (λ n. read_buffer n none s ≡ some (frame h [], none, s1)) (length-frame h [])
          reads1 in
      (
        s2,
        subst (λ (f : Msg). recv_msgs env s ≡ received f s2) (sym w.framed)
            (rw
              (recv_msgs, head_read, recv_body-frame env h body s1 s2 w.words w.sized w.fits reads2)
              refl),
        left2,
      )
