-- ===== src/Net/Request/RoundTrip.antt =====
-- Requests that are sent are received.
use prim.Prelude.{
  ℕ, suc, ◌^◌, ◌<◌, ◌≡◌, refl, sym, ap, ◌∙◌, subst, true, none, some, ◌++◌, append_assoc, length,
  drop, drop-append, ◌==◌, ==_iff,
}
use prim.External.ByteOrder.{Bytes, ByteOrder}
use prim.Entity.Env.{Env}
use prim.Entity.Reqwest.{ReqwestMsg}
use prim.Net.Delimiter.{msg_delimiter, pre_check}
use prim.Net.Transport.{RecvStream, SendStream}
use prim.Net.Receive.{received, read_buffer, send_msg}
use prim.Net.RoundTrip.{read_buffer-next, find_delimiter-next}
use prim.Net.Channel.{Sent, send_msg-Sent}
use prim.Net.Request.{
  read_body, request_body, recv_request, recv_requests, send_request, send_requests,
}
use prim.Net.Request.Body.{pre_alloc-Allocated, overwrite_body}

module _ ⦃bo : ByteOrder⦄ where
  -- A request whose length field counts its body.
  pub record Counted (msg : ReqwestMsg) : Type 0 where
    pub body : Bytes
    pub framed : msg ≡ bo.write 2 (length body) ++ body
    pub small : length body < 256 ^ 2

  length_read : (P : ℕ → Type 0) (n : ℕ) → P (length (bo.write 2 n)) → P 2
  length_read P n h = subst P (bo.length-write 2 n) h

module _ {S : Type 0} ⦃stream : RecvStream S⦄ ⦃bo : ByteOrder⦄ where
  request_body-next :
      (env : Env) (body : Bytes) (s s' : S)
      → length body < 256 ^ 2
      → read_buffer (length body) none s ≡ some (body, none, s')
      → request_body env (bo.write 2 (length body)) none s
        ≡ some (some (bo.write 2 (length body) ++ body, none, s'))
  unfolding request_body read_body
  request_body-next env body s s' small reads =
      let a = pre_alloc-Allocated env (length body) in
      rw
        (
          bo.read-write 2 (length body) small,
          a.returns,
          a.has_body,
          a.sized,
          read_body,
          reads,
          overwrite_body (length body) a.junk body (sym a.sized),
        )
        refl

  split_at_length :
      (msg : ReqwestMsg) (w : Counted msg) (rest : Bytes) (s : S)
      → stream.pending s ≡ msg ++ rest
      → stream.pending s ≡ bo.write 2 (length w.body) ++ (w.body ++ rest)
  split_at_length msg w rest s e =
      e
      ∙ ap (λ (f : Bytes). f ++ rest) w.framed
      ∙ append_assoc (bo.write 2 (length w.body)) w.body rest

  -- A request that stands next on a stream without delimiters.
  recv_requests-next :
      (env : Env) (msg : ReqwestMsg) (rest : Bytes) (s : S)
      → Counted msg
      → stream.pending s ≡ msg ++ rest
      → (s' : S) × (recv_requests env s ≡ received msg s') × (stream.pending s' ≡ rest)
  unfolding recv_requests
  recv_requests-next env msg rest s w e =
      let n = length w.body in
      let (s1, reads1, left1) =
        read_buffer-next (bo.write 2 n) (w.body ++ rest) s (split_at_length msg w rest s e) in
      let (s2, reads2, left2) = read_buffer-next w.body rest s1 left1 in
      (
        s2,
        subst (λ (f : ReqwestMsg). recv_requests env s ≡ received f s2) (sym w.framed)
            (rw
              (
                recv_requests,
                length_read (λ k. read_buffer k none s ≡ some (bo.write 2 n, none, s1)) n reads1,
                request_body-next env w.body s1 s2 w.small reads2,
              )
              refl),
        left2,
      )

  -- A request that stands next, behind its delimiter.
  recv_request-next :
      (fuel : ℕ) (env : Env) (msg : ReqwestMsg) (rest : Bytes) (s : S)
      → Counted msg
      → pre_check msg ≡ length msg
      → stream.pending s ≡ msg_delimiter ++ (msg ++ rest)
      → (s' : S) × (recv_request (suc fuel) env none s ≡ received msg s')
        × (stream.pending s' ≡ rest)
  unfolding recv_request
  recv_request-next fuel env msg rest s w clean e =
      let n = length w.body in
      let (s0, reads0, left0) = read_buffer-next msg_delimiter (msg ++ rest) s e in
      let (s1, reads1, left1) =
        read_buffer-next (bo.write 2 n) (w.body ++ rest) s0 (split_at_length msg w rest s0 left0) in
      let (s2, reads2, left2) = read_buffer-next w.body rest s1 left1 in
      let clean' : (pre_check (bo.write 2 n ++ w.body) == length (bo.write 2 n ++ w.body)) ≡ true =
        (==_iff (pre_check (bo.write 2 n ++ w.body)) (length (bo.write 2 n ++ w.body))).1
          (subst (λ (f : ReqwestMsg). pre_check f ≡ length f) w.framed clean) in
      (
        s2,
        subst (λ (f : ReqwestMsg). recv_request (suc fuel) env none s ≡ received f s2)
            (sym w.framed)
            (rw
              (
                recv_request,
                find_delimiter-next fuel s s0 reads0,
                length_read (λ k. read_buffer k none s0 ≡ some (bo.write 2 n, none, s1)) n reads1,
                request_body-next env w.body s1 s2 w.small reads2,
                clean',
              )
              refl),
        left2,
      )

-- What a prefix is followed by.
after_prefix : (a b c d : Bytes) → a ++ b ≡ (a ++ c) ++ d → b ≡ c ++ d
after_prefix a b c d e =
    sym (drop-append (length a) a b refl)
    ∙ ap (drop (length a)) (e ∙ append_assoc a c d)
    ∙ drop-append (length a) a (c ++ d) refl

module _ {T : Type 0} ⦃out : SendStream T⦄ where
  send_request-Sent : (msg : ReqwestMsg) (t t' : T) → send_request msg t ≡ some t' → Sent msg t t'
  unfolding send_request send_msg
  send_request-Sent msg t t' e = send_msg-Sent msg t t' e

module _ {S T : Type 0} ⦃stream : RecvStream S⦄ ⦃out : SendStream T⦄ ⦃bo : ByteOrder⦄ where
  -- A request whose length field counts its body is sent with a delimiter and without an error, on
  -- a stream of which the other end has read all that was written before. Once it has arrived it is
  -- received as it was, and what comes after it is still to be read.
  pub recv_request-send_request :
      (fuel : ℕ) (env : Env) (msg : ReqwestMsg) (t t' : T) (s : S) (rest : Bytes)
      → Counted msg
      → send_request msg t ≡ some t'
      → out.written t ++ stream.pending s ≡ out.written t' ++ rest
      → (s' : S) × (recv_request (suc fuel) env none s ≡ received msg s')
        × (stream.pending s' ≡ rest)
  unfolding Sent
  recv_request-send_request fuel env msg t t' s rest w sent arrives =
      let (clean, wrote) = send_request-Sent msg t t' sent in
      let next : stream.pending s ≡ msg_delimiter ++ (msg ++ rest) =
        after_prefix (out.written t) (stream.pending s) (msg_delimiter ++ msg) rest
          (arrives ∙ ap (λ (f : Bytes). f ++ rest) wrote) in
      recv_request-next fuel env msg rest s w clean next

  -- On TLS a request whose length field counts its body is received as it was, whatever bytes it
  -- holds, once it was sent without an error and has arrived at an end that has read all that was
  -- written before; what comes after it is still to be read.
  pub recv_requests-send_requests :
      (env : Env) (msg : ReqwestMsg) (t t' : T) (s : S) (rest : Bytes)
      → Counted msg
      → send_requests msg t ≡ some t'
      → out.written t ++ stream.pending s ≡ out.written t' ++ rest
      → (s' : S) × (recv_requests env s ≡ received msg s') × (stream.pending s' ≡ rest)
  unfolding send_requests
  recv_requests-send_requests env msg t t' s rest w sent arrives =
      recv_requests-next env msg rest s w (
        after_prefix (out.written t) (stream.pending s) msg rest
          (arrives ∙ ap (λ (f : Bytes). f ++ rest) (out.written-write_all msg t t' sent)))
