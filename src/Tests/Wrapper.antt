-- ===== src/Tests/Wrapper.antt =====
-- Messages in batches over a stream in memory.
use prim.Prelude.{◌≡◌, refl, some, slice, overwrite, [], ◌∷◌, ◌++◌, arith}
use prim.External.ByteOrder.{Bytes}
use prim.External.ByteOrder.Model.{big_endian, write_be}
use prim.Entity.MsgType
use prim.Entity.MsgType.Numbers.{msg_types}
use prim.Entity.Head.{InnerHead, into_head}
use prim.Entity.Head.Frame.{frame}
use prim.Net.Delimiter.{msg_delimiter}
use prim.Entity.Env.{Env, uninit}
use prim.Entity.Head
use prim.Entity.Msg.Build.{finish}
use prim.Entity.Msg.{Msg}
use prim.Entity.Msg.Batch.{fitting, packed, with_uncompressed, unpacked}
use prim.Net.Transport.Model.{memory_send}
use prim.Net.Wrapper.{goes_on, send_round, hand_on}
use prim.Net.Wrapper.Batching.{Round, send_round_lem, hand_on-with_uncompressed}

abbrev machine : Env
machine = record { now = 4; memory = λ i. 200 }

abbrev one : Msg
one = 104 ∷ 105 ∷ []

abbrev two : Msg
two = 106 ∷ []

abbrev inner : InnerHead
inner = record {
  version = 0;
  sender = 0;
  node_id = 0;
  receiver = 0;
  typ = MsgType.na;
  extension_length = 0;
  timestamp = 4;
  payload_length = 3;
  seqnum = 0;
}

abbrev batched : Msg
batched = frame (into_head inner) (one ++ two)

packed_result : with_uncompressed machine (one ∷ two ∷ []) ≡ some (packed batched [])
unfolding with_uncompressed frame write_be into_head MsgType.value fitting finish Head.read uninit
    slice overwrite
packed_result = refl

abbrev before : Bytes
before = 9 ∷ []

send_round_result :
    send_round machine [] one (two ∷ []) before ≡ goes_on ((before ++ msg_delimiter) ++ batched)
unfolding send_round frame write_be into_head MsgType.value fitting finish Head.read uninit slice
    overwrite
send_round_result = refl

send_round_example :
    Round machine one (two ∷ []) [] before (send_round machine [] one (two ∷ []) before)
send_round_example = send_round_lem machine [] one (two ∷ []) before (omega arith)

hand_on_example : hand_on machine batched ≡ unpacked (batched ∷ [])
hand_on_example =
    hand_on-with_uncompressed machine machine (one ∷ two ∷ []) [] batched (omega arith)
      packed_result
