-- ===== src/Message/Dispatch.antt =====
-- `call_handler_list` and `handler_func` of server/message/src/service/handler/mod.rs, `Auth` of
-- logic.rs, and the list of handlers of service/server.rs.
use prim.Prelude.{ℕ, Bool, true, false, Option, none, some, List, [], ◌∷◌, ◌==◌}
use prim.Prelude.Dict.{insert}
use prim.Prelude.Action.{Result, ok, err, panicked, ◌>>=◌, pure, raise, gets, unwrap}
use prim.External.ByteOrder.{Bytes, ByteOrder}
use prim.External.Primitive.{FromPrimitive}
use prim.Entity.Env.{Env}
use prim.Entity.MsgType
use prim.Entity.MsgType.{MsgType}
use prim.Entity.Msg
use prim.Entity.Msg.{Msg}
use prim.Entity.Msg.Build.{generate_ack, err_msg}
use prim.Message.State.{Session, Error, Handler, not_mine, auth, parse, io, other, unhandled, send}
use prim.Message.Number.{Outside, pre_process, mq_push}
use prim.Message.Deliver.{if_claimed, business, pure_text, echo, client_time}

-- `auth failed`, `unknown error` and `unhandled error`
abbrev pub auth_failed : Bytes
auth_failed = 97 ∷ 117 ∷ 116 ∷ 104 ∷ 32 ∷ 102 ∷ 97 ∷ 105 ∷ 108 ∷ 101 ∷ 100 ∷ []

abbrev pub unknown_error : Bytes
unknown_error = 117 ∷ 110 ∷ 107 ∷ 110 ∷ 111 ∷ 119 ∷ 110 ∷ 32 ∷ 101 ∷ 114 ∷ 114 ∷ 111 ∷ 114 ∷ []

abbrev pub unhandled_error : Bytes
unhandled_error =
    117 ∷ 110 ∷ 104 ∷ 97 ∷ 110 ∷ 100 ∷ 108 ∷ 101 ∷ 100 ∷ 32 ∷ 101 ∷ 114 ∷ 114 ∷ 111 ∷ 114 ∷ []

-- The token of a user against its key in Redis: `none` where Redis has no key.
abbrev pub Verify : Type 0
Verify = ℕ → Bytes → Option Bool

-- `Auth`: the user's connection is that of this session from now on.
unfoldable pub or_auth_failed : Option Bool → Handler (Unit {0})
or_auth_failed none = raise unhandled
or_auth_failed (some false) = raise auth
or_auth_failed (some true) = pure tt

unfoldable pub enter : ℕ → Handler (Unit {0})
enter user s = (
  ok tt,
  record s { node = record s.node { client_map = insert user s.sender s.node.client_map } },
)

module _ ⦃bo : ByteOrder⦄ ⦃p : FromPrimitive MsgType.value⦄ (env : Env) where
  unfoldable pub authenticate : Verify → Handler Msg
  authenticate verify =
      if_claimed env (λ n. n == MsgType.value MsgType.auth)
        (do
          msg ← gets (λ s. s.msg)
          user ← unwrap (Msg.sender msg)
          token ← unwrap (Msg.payload msg)
          _ ← or_auth_failed (verify user token)
          my_id ← gets (λ s. s.node.my_id)
          timestamp ← unwrap (Msg.timestamp msg)
          res_msg ← unwrap (generate_ack env msg my_id timestamp)
          res_msg ← unwrap (Msg.set_type MsgType.auth res_msg)
          _ ← enter user
          pure res_msg)

  -- The handlers of a user's connection, in their order.
  unfoldable pub handler_list : Verify → Outside → (ℕ → Option (List ℕ)) → List (Handler Msg)
  handler_list verify out all_group_node_list =
      authenticate verify
      ∷ pre_process out env
      ∷ mq_push out env
      ∷ echo env
      ∷ pure_text env all_group_node_list
      ∷ business env MsgType.join_group
      ∷ business env MsgType.leave_group
      ∷ business env MsgType.add_friend
      ∷ business env MsgType.remove_friend
      ∷ business env MsgType.system_message
      ∷ []

  unfoldable pub send_error : Bytes → Handler (Unit {0})
  send_error cause = do
    sender ← gets (λ s. s.sender)
    msg ← gets (λ s. s.msg)
    my_id ← gets (λ s. s.node.my_id)
    user ← unwrap (Msg.sender msg)
    res_msg ← unwrap (err_msg env my_id user my_id cause)
    send sender res_msg

  -- A reply that is not an acknowledgement is followed by one.
  unfoldable pub acknowledge : Msg → Handler (Unit {0})
  acknowledge ok_msg = do
    sender ← gets (λ s. s.sender)
    seqnum ← unwrap (Msg.seqnum ok_msg)
    _ ← send sender ok_msg
    timestamp ← client_time
    msg ← gets (λ s. s.msg)
    my_id ← gets (λ s. s.node.my_id)
    ack_msg ← unwrap (generate_ack env msg my_id timestamp)
    ack_msg ← unwrap (Msg.set_sender my_id ack_msg)
    user ← unwrap (Msg.sender msg)
    ack_msg ← unwrap (Msg.set_receiver user ack_msg)
    ack_msg ← unwrap (Msg.set_seqnum seqnum ack_msg)
    send sender ack_msg

  -- What becomes of a reply, before the loop goes on with `rest` or ends.
  unfoldable pub reply : MsgType → Msg → Handler (Unit {0}) → Handler (Unit {0})
  reply MsgType.noop ok_msg rest = rest
  reply MsgType.ack ok_msg rest = do sender ← gets (λ s. s.sender); send sender ok_msg
  reply _ ok_msg rest = acknowledge ok_msg

  -- After an error of a handler the loop goes on, but for the errors that it does not know.
  unfoldable pub on_error : Error → Handler (Unit {0}) → Handler (Unit {0})
  on_error not_mine rest = rest
  on_error auth rest = do _ ← send_error auth_failed; rest
  on_error (parse cause) rest = do _ ← send_error cause; rest
  on_error (io cause) rest = do _ ← send_error cause; rest
  on_error other rest = do _ ← send_error unknown_error; rest
  on_error unhandled rest = send_error unhandled_error

  unfoldable pub after :
      Result Error Msg × Session → Handler (Unit {0}) → Result Error (Unit {0}) × Session
  after (ok ok_msg, s) rest = (do typ ← unwrap (Msg.typ ok_msg); reply typ ok_msg rest) s
  after (err e, s) rest = on_error e rest s
  after (panicked, s) rest = (panicked, s)

  unfoldable pub call_handler_list : List (Handler Msg) → Handler (Unit {0})
  call_handler_list [] = pure tt
  call_handler_list (handler ∷ handlers) = λ s. after (handler s) (call_handler_list handlers)
