-- ===== src/Message/Failure.antt =====
-- A text that another node has forwarded: the reply needs a time that only a user's connection has.
use prim.Prelude.{ℕ, ◌≡◌, refl, ◌∙◌, ◌⊎◌, inl, inr, true, false, Option, none, some, if_lem, arith}
use prim.Prelude.Dict.{lookup}
use prim.Prelude.Action.{Result, ok, err, panicked, continue, ◌>>=◌, pure}
use prim.External.ByteOrder.{ByteOrder}
use prim.External.Primitive.{FromPrimitive}
use prim.Entity.Env.{Env}
use prim.Entity.MsgType
use prim.Entity.MsgType.{MsgType}
use prim.Entity.Msg
use prim.Entity.Msg.{Msg}
use prim.Message.{is_group_msg}
use prim.Message.State.{
  Sender, Session, Error, Handler, direct, unhandled, send, io_send, push_group_msg,
}
use prim.Message.Deliver.{
  send_if_some, deliver_here, is_text, cluster_text, client_time, ack_of, if_claimed,
}

-- An action that leaves the time of the connection alone and ends well or with an unknown error.
record Tame (s : Session) (x : Result Error (Unit {0}) × Session) : Type 0 where
  same_time : x.1.client_timestamp ≡ s.client_timestamp
  ends : (x.0 ≡ ok tt) ⊎ (x.0 ≡ err unhandled)

send-Tame : (sender : Sender) (msg : Msg) (s : Session) → Tame s (send sender msg s)
unfolding send
send-Tame sender msg s =
    if_lem (Tame s) (s.node.is_open sender) _ _
      (λ opened. record { same_time = refl; ends = inl refl })
      (λ closed. record { same_time = refl; ends = inr refl })

io_send-Tame : (msg : Msg) (s : Session) → Tame s (io_send (direct msg) s)
unfolding io_send
io_send-Tame msg s =
    if_lem (Tame s) s.node.io_is_open _ _ (λ opened. record { same_time = refl; ends = inl refl })
      (λ closed. record { same_time = refl; ends = inr refl })

then-Tame :
    (s : Session) (x : Result Error (Unit {0}) × Session) (m : Handler (Unit {0}))
    → Tame s x
    → ((s' : Session) → Tame s' (m s'))
    → Tame s (continue x (λ u. m))
then-Tame s (ok a, s') m t k = record {
  same_time = (k s').same_time ∙ t.same_time;
  ends = (k s').ends;
}
then-Tame s (err e, s') m t k = record {
  same_time = t.same_time;
  ends = elim t.ends [ inl e ↦ ground arith | inr same ↦ inr (ground arith) ];
}
then-Tame s (panicked, s') m t k = elim t.ends [ inl e ↦ ground arith | inr e ↦ ground arith ]

deliver_to-Tame :
    (o : Option Sender) (msg : Msg) (s : Session)
    → Tame s (continue (send_if_some o msg s) (λ u. io_send (direct msg)))
unfolding send_if_some pure
deliver_to-Tame none msg s = io_send-Tame msg s
deliver_to-Tame (some sender) msg s =
    then-Tame s (send sender msg s) (io_send (direct msg)) (send-Tame sender msg s)
      (io_send-Tame msg)

push_group_msg-Tame : (msg : Msg) (s : Session) → Tame s (push_group_msg msg false s)
unfolding push_group_msg
push_group_msg-Tame msg s =
    if_lem (Tame s) (s.node.group_is_open msg) _ _
      (λ opened. record { same_time = refl; ends = inl refl })
      (λ closed. record { same_time = refl; ends = inr refl })

deliver_here-Tame :
    ⦃bo : ByteOrder⦄ (env : Env) (receiver : ℕ) (msg : Msg) (s : Session)
    → Tame s (deliver_here env receiver msg s)
unfolding deliver_here ◌>>=◌
deliver_here-Tame env receiver msg s =
    if_lem (λ (m : Handler (Unit {0})). Tame s (m s)) (is_group_msg receiver)
      (push_group_msg msg false)
      (λ s'.
        continue (send_if_some (lookup receiver s.node.client_map) msg s')
          (λ u. io_send (direct msg)))
      (λ group. push_group_msg-Tame msg s)
      (λ user. deliver_to-Tame (lookup receiver s.node.client_map) msg s)

-- What is left of the handler once the message is delivered.
reply_panics :
    ⦃bo : ByteOrder⦄ (env : Env) (s : Session) (x : Result Error (Unit {0}) × Session)
    → s.client_timestamp ≡ none
    → Tame s x
    → let y = continue x (λ u. client_time >>= λ timestamp. ack_of env timestamp) in
      ((x.0 ≡ ok tt) × (y ≡ (panicked, x.1))) ⊎ ((x.0 ≡ err unhandled) × (y ≡ (err unhandled, x.1)))
unfolding client_time ◌>>=◌
reply_panics env s (ok a, s') untimed t = inl (ground arith, rw (t.same_time ∙ untimed) refl)
reply_panics env s (err e, s') untimed t = elim t.ends [
  | inl e ↦ ground arith
  | inr same ↦ inr (ground arith, ground arith)
]
reply_panics env s (panicked, s') untimed t = elim t.ends [
  | inl e ↦ ground arith
  | inr e ↦ ground arith
]

-- A text that arrives on a connection that has kept no time of a client, as no connection between
-- nodes has, is never acknowledged: where it is delivered on this node the handler panics after
-- that, and where its delivery fails the handler ends with that error.
pub cluster_text_lem :
    ⦃bo : ByteOrder⦄ ⦃p : FromPrimitive MsgType.value⦄ (env : Env) (s : Session) (typ : MsgType)
    (receiver : ℕ)
    → Msg.typ s.msg ≡ some typ
    → is_text env (MsgType.value typ) ≡ true
    → Msg.receiver s.msg ≡ some receiver
    → s.client_timestamp ≡ none
    → let x = deliver_here env receiver s.msg s in
      ((x.0 ≡ ok tt) × (cluster_text env s ≡ (panicked, x.1)))
      ⊎ ((x.0 ≡ err unhandled) × (cluster_text env s ≡ (err unhandled, x.1)))
unfolding cluster_text if_claimed ◌>>=◌
cluster_text_lem env s typ receiver has_typ text has_receiver untimed =
    rw (has_typ, text, has_receiver)
      (reply_panics env s (deliver_here env receiver s.msg s) untimed
        (deliver_here-Tame env receiver s.msg s))
