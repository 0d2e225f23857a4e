-- ===== src/Net/Channel.antt =====
-- A sequence of messages from one end of a stream to the other.
use prim.Prelude.{
  ℕ, zero, suc, ◌≡◌, refl, sym, ap, ◌∙◌, inl, inr, Option, none, some, ◌>>=◌, List, [], ◌∷◌, ◌++◌,
  append_assoc, append-nil, length, ◌==◌, ==_iff, arith, Bool-cases, Option-cases,
}
use prim.External.ByteOrder.{Bytes, ByteOrder}
use prim.Entity.Env.{Env}
use prim.Entity.Msg.{Msg}
use prim.Net.Delimiter.{msg_delimiter, pre_check}
use prim.Net.Transport.{RecvStream, SendStream}
use prim.Net.Receive.{received, recv_msg, send_msg}
use prim.Net.RoundTrip.{Whole, recv_msg-frame}

-- What stands on the wire for the messages.
abbrev wire : List Msg → Bytes
wire [] = []
wire (msg ∷ rest) = msg_delimiter ++ (msg ++ wire rest)

abbrev AreClean : List Msg → Type 0
AreClean [] = Unit {0}
AreClean (msg ∷ rest) = (pre_check msg ≡ length msg) × AreClean rest

module _ {T : Type 0} ⦃out : SendStream T⦄ where
  unfoldable pub send_all : List Msg → T → Option T
  unfolding send_msg
  send_all [] t = some t
  send_all (msg ∷ rest) t = do t ← send_msg msg t; send_all rest t

  -- What the other end can read of a message that was sent.
  unfoldable pub Sent : Msg → T → T → Type 0
  Sent msg t t' =
      (pre_check msg ≡ length msg) × (out.written t' ≡ out.written t ++ (msg_delimiter ++ msg))

  pub send_msg-Sent : (msg : Msg) (t t' : T) → send_msg msg t ≡ some t' → Sent msg t t'
  unfolding send_msg Sent
  send_msg-Sent msg t t' e = elim (Bool-cases (pre_check msg == length msg)) [
    | inr dirty ↦ absurd (ground (arith, dirty))
    | inl clean ↦ elim (Option-cases (out.write_all msg_delimiter t)) [
      | inl failed ↦ absurd (ground (arith, clean, failed))
      | inr (t1, wrote) ↦
          let last : out.write_all msg t1 ≡ some t' = rw (clean, wrote) at e in
          (
            (==_iff (pre_check msg) (length msg)).0 clean,
            out.written-write_all msg t1 t' last
                ∙ ap (λ (b : Bytes). b ++ msg) (out.written-write_all msg_delimiter t t1 wrote)
                ∙ append_assoc (out.written t) msg_delimiter msg,
          )
    ]
  ]

  send_all-wire :
      (ms : List Msg) (t t' : T)
      → send_all ms t ≡ some t'
      → AreClean ms × (out.written t' ≡ out.written t ++ wire ms)
  unfolding send_all Sent
  send_all-wire [] t t' e = (tt, sym (append-nil (out.written t) ∙ ground (arith, e)))
  send_all-wire (msg ∷ rest) t t' e = elim (Option-cases (send_msg msg t)) [
    | inl failed ↦ absurd (ground (arith, failed))
    | inr (t1, sent) ↦
        let first = send_msg-Sent msg t t1 sent in
        let (clean, written) = send_all-wire rest t1 t' (rw sent at e) in
        (
          (first.0, clean),
          written
              ∙ ap (λ (b : Bytes). b ++ wire rest) first.1
              ∙ append_assoc (out.written t) (msg_delimiter ++ msg) (wire rest)
              ∙ ap (λ (b : Bytes). out.written t ++ b) (append_assoc msg_delimiter msg (wire rest)),
        )
  ]

module _ ⦃bo : ByteOrder⦄ where
  abbrev pub AreWhole : List Msg → Type 0
  AreWhole [] = Unit {0}
  AreWhole (msg ∷ rest) = Whole msg × AreWhole rest

module _ {S : Type 0} ⦃stream : RecvStream S⦄ ⦃bo : ByteOrder⦄ where
  -- The next `n` messages.
  unfoldable pub recv_all : Env → ℕ → S → Option (List Msg × S)
  unfolding recv_msg
  recv_all env zero s = some ([], s)
  recv_all env (suc n) s = elim (recv_msg 1 env none s) [
    | received msg s ↦ do (rest, s) ← recv_all env n s; some (msg ∷ rest, s)
    | _ ↦ none
  ]

  recv_all-next :
      (env : Env) (msg : Msg) (ms : List Msg) (n : ℕ) (s s1 s2 : S)
      → recv_msg 1 env none s ≡ received msg s1
      → recv_all env n s1 ≡ some (ms, s2)
      → recv_all env (suc n) s ≡ some (msg ∷ ms, s2)
  unfolding recv_all
  recv_all-next env msg ms n s s1 s2 first others = rw (recv_all, first, others) refl

  recv_all-wire :
      (env : Env) (ms : List Msg) (rest : Bytes) (s : S)
      → AreWhole ms
      → AreClean ms
      → stream.pending s ≡ wire ms ++ rest
      → (s' : S) × (recv_all env (length ms) s ≡ some (ms, s')) × (stream.pending s' ≡ rest)
  unfolding recv_all
  recv_all-wire env [] rest s whole clean e = (s, refl, e)
  recv_all-wire env (msg ∷ ms) rest s whole clean e =
      let split : stream.pending s ≡ msg_delimiter ++ (msg ++ (wire ms ++ rest)) =
        e
        ∙ append_assoc msg_delimiter (msg ++ wire ms) rest
        ∙ ap (λ (b : Bytes). msg_delimiter ++ b) (append_assoc msg (wire ms) rest) in
      let (s1, reads, left) = recv_msg-frame 0 env msg (wire ms ++ rest) s whole.0 clean.0 split in
      let (s2, reads', left') = recv_all-wire env ms rest s1 whole.1 clean.1 left in
      (s2, recv_all-next env msg ms (length ms) s s1 s2 reads reads', left')

module _ {S T : Type 0} ⦃stream : RecvStream S⦄ ⦃out : SendStream T⦄ ⦃bo : ByteOrder⦄ where
  -- Messages whose length fields count their bodies, none longer than `BODY_SIZE`, that are sent on
  -- a fresh stream without an error and that arrive are received as they were, in their order, with
  -- whatever arrives after them still to be read.
  pub recv_all-send_all :
      (env : Env) (ms : List Msg) (t t' : T) (s : S) (rest : Bytes)
      → AreWhole ms
      → out.written t ≡ []
      → send_all ms t ≡ some t'
      → stream.pending s ≡ out.written t' ++ rest
      → (s' : S) × (recv_all env (length ms) s ≡ some (ms, s')) × (stream.pending s' ≡ rest)
  recv_all-send_all env ms t t' s rest whole fresh sent arrives =
      let (clean, written) = send_all-wire ms t t' sent in
      let start : out.written t' ≡ wire ms = written ∙ ap (λ (b : Bytes). b ++ wire ms) fresh in
      recv_all-wire env ms rest s whole clean (arrives ∙ ap (λ (b : Bytes). b ++ rest) start)
