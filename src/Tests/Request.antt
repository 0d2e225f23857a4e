-- ===== src/Tests/Request.antt =====
-- Requests over streams in memory.
use prim.Prelude.{◌≡◌, refl, none, some, [], ◌∷◌, ◌++◌, arith}
use prim.External.ByteOrder.{Bytes}
use prim.External.ByteOrder.Model.{big_endian, write_be}
use prim.Entity.Env.{Env}
use prim.Entity.Reqwest
use prim.Net.Delimiter.{msg_delimiter}
use prim.Net.Transport.Model.{memory_recv, memory_send}
use prim.Net.Receive.{received}
use prim.Net.Request.{recv_request, recv_requests, send_request, send_requests}
use prim.Net.Request.RoundTrip.{Counted, recv_request-send_request, recv_requests-send_requests}
use prim.Net.Request.Termination.{Ends, recv_request-Ends}

abbrev machine : Env
machine = record { now = 0; memory = λ i. 200 }

default-Counted : Counted Reqwest.default
unfolding write_be
default-Counted = record {
  body = 0 ∷ 0 ∷ 0 ∷ 0 ∷ 0 ∷ 0 ∷ 0 ∷ 0 ∷ 0 ∷ 0 ∷ 0 ∷ 0 ∷ [];
  framed = refl;
  small = omega arith;
}

-- What was written before, and the request behind it.
abbrev sent : Bytes
sent = (((1 ∷ 2 ∷ []) ++ msg_delimiter) ++ Reqwest.default)

send_request_result : send_request Reqwest.default (1 ∷ 2 ∷ []) ≡ some sent
unfolding send_request
send_request_result = refl

recv_request-send_request_example :
    (s' : Bytes) × (recv_request 1 machine none (msg_delimiter ++ (Reqwest.default ++ (9 ∷ [])))
      ≡ received Reqwest.default s')
    × (s' ≡ 9 ∷ [])
recv_request-send_request_example =
    recv_request-send_request 0 machine Reqwest.default (1 ∷ 2 ∷ []) sent
      (msg_delimiter ++ (Reqwest.default ++ (9 ∷ []))) (9 ∷ []) default-Counted send_request_result
      refl

recv_requests-send_requests_example :
    (s' : Bytes) × (recv_requests machine (Reqwest.default ++ (9 ∷ []))
      ≡ received Reqwest.default s')
    × (s' ≡ 9 ∷ [])
unfolding send_requests
recv_requests-send_requests_example =
    recv_requests-send_requests machine Reqwest.default (1 ∷ 2 ∷ [])
      ((1 ∷ 2 ∷ []) ++ Reqwest.default) (Reqwest.default ++ (9 ∷ [])) (9 ∷ []) default-Counted refl
      refl

-- A request that claims eight bytes, with a delimiter inside.
abbrev garbled : Bytes
garbled =
    msg_delimiter ++ (0 ∷ 8 ∷ 1 ∷ msg_delimiter ++ (2 ∷ 3 ∷ 4 ∷ msg_delimiter ++ Reqwest.default))

recv_request-Ends_example : Ends (recv_request 40 machine (some (3 ∷ [])) garbled)
recv_request-Ends_example = recv_request-Ends 40 machine (some (3 ∷ [])) garbled (omega arith)
