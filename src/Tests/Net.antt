-- ===== src/Tests/Net.antt =====
-- Messages over streams in memory.
use prim.Prelude.{
  ◌↔◌, ◌⊎◌, true, false, not, get_elem?, bit_or, ◌^◌, ◌%◌, ℕ, List, ◌+◌, ◌≡◌, ◌≢◌, refl, some, [],
  ◌∷◌, ◌++◌, arith,
}
use prim.External.ByteOrder.{Bytes}
use prim.External.ByteOrder.Model.{big_endian, write_be}
use prim.Entity.MsgType
use prim.Entity.Head.{InnerHead, into_head}
use prim.Entity.Head.Frame.{frame}
use prim.Entity.Msg.{Msg}
use prim.Net.Delimiter.{msg_delimiter, pre_check}
use prim.Net.Transport.Model.{memory_recv, memory_send}
use prim.Net.RoundTrip.{Whole}
use prim.Net.Receive.{received, recv_msg, out_of_fuel}
use prim.Net.Termination.{recv_msg_ends}
use prim.Net.Search.{first_delimiter, pre_check_lem}
use prim.Net.Tls.{recv_msgs, send_msgs, recv_msgs-send_msgs}
use prim.Net.Peer.{should_connect_to_peer, should_connect_to_peer_lem, who_we_are, who_we_are_iff}
use prim.Net.Operator.{ReqwestOperatorManager, AreAtLeast, IsRaised, call, call_lem}
use prim.Entity.Reqwest
use prim.Entity.Reqwest.{ReqwestMsg, set_req_id}
use prim.Net.Channel.{send_all, recv_all, recv_all-send_all}

abbrev inner : InnerHead
inner = record {
  version = 6;
  sender = 1;
  node_id = 3;
  receiver = 2;
  typ = MsgType.ack;
  extension_length = 0;
  timestamp = 4;
  payload_length = 2;
  seqnum = 5;
}

abbrev msg : Msg
msg = frame (into_head inner) (b'h' ∷ b'i' ∷ [])

msg-Whole : Whole msg
unfolding into_head MsgType.value
msg-Whole = record {
  head = into_head inner;
  body = b'h' ∷ b'i' ∷ [];
  words = omega arith;
  framed = refl;
  sized = refl;
  fits = omega arith;
}

abbrev sent : Bytes
sent = ((([] ++ msg_delimiter) ++ msg) ++ msg_delimiter) ++ msg

send_all_result : send_all (msg ∷ msg ∷ []) [] ≡ some sent
unfolding send_all frame write_be into_head MsgType.value
send_all_result = refl

recv_all-send_all_example :
    (left : Bytes) × (recv_all (record { now = 0; memory = λ i. 200 }) 2 (sent ++ (7 ∷ []))
      ≡ some (msg ∷ msg ∷ [], left))
    × (left ≡ 7 ∷ [])
recv_all-send_all_example =
    recv_all-send_all (record { now = 0; memory = λ i. 200 }) (msg ∷ msg ∷ []) [] sent
      (sent ++ (7 ∷ [])) (7 ∷ []) (msg-Whole, (msg-Whole, tt)) refl send_all_result refl

first_of_five : pre_check (1 ∷ 255 ∷ 255 ∷ 2 ∷ 255 ∷ 255 ∷ 255 ∷ 255 ∷ 255 ∷ []) ≡ 4
unfolding pre_check
first_of_five = refl

recv_msgs-send_msgs_example :
    (left : Bytes) × (recv_msgs (record { now = 0; memory = λ i. 200 }) (msg ++ (7 ∷ []))
      ≡ received msg left)
    × (left ≡ 7 ∷ [])
unfolding send_msgs
recv_msgs-send_msgs_example =
    recv_msgs-send_msgs (record { now = 0; memory = λ i. 200 }) msg [] ([] ++ msg) (msg ++ (7 ∷ []))
      (7 ∷ []) msg-Whole refl refl refl

pre_check_example : pre_check msg ≡ first_delimiter msg
pre_check_example = pre_check_lem msg

should_connect_to_peer_example :
    should_connect_to_peer 4 7 true ≡ not (should_connect_to_peer 7 4 false)
should_connect_to_peer_example = should_connect_to_peer_lem 4 7 true

abbrev manager : ReqwestOperatorManager
manager = record { target_mask = 2 ^ 40; req_id = 5; load_list = 3 ∷ 1 ∷ 2 ∷ [] }

call_example :
    (i : ℕ) × (load : ℕ) × (req : ReqwestMsg) × (loads : List ℕ) × (get_elem? (3 ∷ 1 ∷ 2 ∷ []) i
      ≡ some load)
    × AreAtLeast load (3 ∷ 1 ∷ 2 ∷ [])
    × (set_req_id (bit_or 5 (2 ^ 40)) Reqwest.default ≡ some req)
    × IsRaised i load (3 ∷ 1 ∷ 2 ∷ []) loads
    × (call Reqwest.default manager
        ≡ some (record manager { load_list = loads; req_id = (5 + 1) % 2 ^ 64 }, i, req))
call_example = call_lem Reqwest.default manager 3 (1 ∷ 2 ∷ []) refl (omega arith) (omega arith)

abbrev alice : ℕ
alice = 7

abbrev bob : ℕ
bob = 12

who_we_are_iff_example :
    (who_we_are alice bob ≡ who_we_are bob alice)
    ↔ (((alice ≡ bob) × (bob ≡ alice)) ⊎ ((alice ≡ alice) × (bob ≡ bob)))
who_we_are_iff_example = who_we_are_iff alice bob bob alice

-- A stream with a delimiter inside of what should be a message.
abbrev garbled : Bytes
garbled = 1 ∷ 255 ∷ msg_delimiter ++ ((255 ∷ 2 ∷ msg_delimiter) ++ msg)

recv_msg_ends_example :
    recv_msg 60 (record { now = 0; memory = λ i. 200 }) (some (3 ∷ [])) garbled ≢ out_of_fuel
unfolding frame write_be
recv_msg_ends_example =
    recv_msg_ends 60 (record { now = 0; memory = λ i. 200 }) (some (3 ∷ [])) garbled (omega arith)
