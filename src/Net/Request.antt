-- ===== src/Net/Request.antt =====
-- `ReqwestMsgIOUtil` of server/lib-net-tokio/src/net/mod.rs: requests on a stream, with delimiters
-- on QUIC (`send_msg`, `recv_msg`) and without on TLS (`send_msgs` and `recv_msgs`, `send_msgc` and
-- `recv_msgc`, which have the same code).
pub mod Body
pub mod RoundTrip
pub mod Termination
use prim.Prelude.{
  ℕ, zero, suc, true, false, not, Option, none, some, ◌>>=◌, [], ◌++◌, length, drop, overwrite,
  ◌==◌, if◌then◌else◌,
}
use prim.External.ByteOrder.{Bytes, ByteOrder}
use prim.Entity.Env.{Env}
use prim.Entity.Reqwest
use prim.Entity.Reqwest.{ReqwestMsg}
use prim.Net.Delimiter.{msg_delimiter, pre_check}
use prim.Net.Transport.{RecvStream, SendStream}
use prim.Net.Receive.{
  Source, or_empty, read_buffer, find_delimiter, Received, received, crashed, panicked, out_of_fuel,
}

module _ {S : Type 0} ⦃stream : RecvStream S⦄ where
  -- What was read takes the place of the body.
  unfoldable pub read_body : ReqwestMsg → ℕ → Source → S → Option (ReqwestMsg × Source × S)
  unfolding read_buffer
  read_body msg len external s = elim (read_buffer len external s) [
    | none ↦ none
    | some (body, external, s) ↦ some (overwrite 2 body msg, external, s)
  ]

  module _ ⦃bo : ByteOrder⦄ where
    -- A message is allocated by its length and its body read: `none` inside where the stream ends,
    -- outside for a panic.
    unfoldable pub request_body :
        Env → Bytes → Source → S → Option (Option (ReqwestMsg × Source × S))
    unfolding read_body
    request_body env len_buf external s = do
      msg ← Reqwest.pre_alloc env (bo.read 2 len_buf)
      body ← Reqwest.body msg
      some (read_body msg (length body) external s)

    -- Where a delimiter stands inside a request, reading starts again with the bytes from there
    -- on, put behind the rest of the source.
    unfoldable pub recv_request : ℕ → Env → Source → S → Received S
    unfolding find_delimiter request_body pre_check read_buffer
    recv_request zero env external s = out_of_fuel
    recv_request (suc fuel) env external s = elim (find_delimiter (suc fuel) [] external s) [
      | none ↦ out_of_fuel
      | some none ↦ crashed
      | some (some (external, s)) ↦ elim (read_buffer 2 external s) [
        | none ↦ crashed
        | some (len_buf, external, s) ↦ elim (request_body env len_buf external s) [
          | none ↦ panicked
          | some none ↦ crashed
          | some (some (msg, external, s)) ↦ elim (pre_check msg == length msg) [
            | false ↦ recv_request fuel env (some (or_empty external ++ drop (pre_check msg) msg)) s
            | true ↦ received msg s
          ]
        ]
      ]
    ]

    unfoldable pub recv_requests : Env → S → Received S
    unfolding request_body read_buffer
    recv_requests env s = elim (read_buffer 2 none s) [
      | none ↦ crashed
      | some (len_buf, external, s) ↦ elim (request_body env len_buf external s) [
        | none ↦ panicked
        | some none ↦ crashed
        | some (some (msg, external, s)) ↦ received msg s
      ]
    ]

-- `none` where the request holds a delimiter or a write fails.
module _ {T : Type 0} ⦃stream : SendStream T⦄ where
  unfoldable pub send_request : ReqwestMsg → T → Option T
  unfolding pre_check
  send_request msg t =
      if not (pre_check msg == length msg)
      then none
      else do t ← stream.write_all msg_delimiter t; stream.write_all msg t

  unfoldable pub send_requests : ReqwestMsg → T → Option T
  send_requests msg t = stream.write_all msg t
