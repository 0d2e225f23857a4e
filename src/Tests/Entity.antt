-- ===== src/Tests/Entity.antt =====
-- The message format on concrete messages.
use prim.Prelude.{◌+◌, ◌≡◌, ◌⊎◌, ◌≢◌, refl, some, [], ◌∷◌, ◌++◌, arith, slice}
use prim.External.ByteOrder.{Bytes}
use prim.External.ByteOrder.Model.{big_endian, read_be, write_be}
use prim.External.Primitive.Lookup.{lookup}
use prim.Entity.Env.{Env}
use prim.Entity.MsgType
use prim.Entity.MsgType.{MsgType}
use prim.Entity.MsgType.Numbers.{msg_types}
use prim.Entity.Head
use prim.Entity.Head.{Head, InnerHead, from_head, into_head}
use prim.Entity.Head.Fields.{from_head-into_head}
use prim.Entity.Head.View
use prim.Entity.Head.Frame.{frame}
use prim.Entity.Msg.{Msg, payload}
use prim.Entity.Msg.Build.{text, text2, err_msg, auth, raw, raw2, head_of, generate_ack}
use prim.Entity.Msg.Built.{Builds, constructors_lem, generate_ack_lem}
use prim.Entity.Msg.Batch.{
  with_uncompressed, with_compressed, empty_or_too_large, unpacked, panicked,
}
use prim.Entity.Msg.BatchLaws.{with_uncompressed_lem, PacksPrefix, Stops}
use prim.Entity.Msg.UnpackLaws.{with_compressed_lem}
use prim.Prelude.Decimal.{to_string, parse_from}
use prim.Entity.Head.View.{view, Shows, getters_lem, setters_lem, IsUpdated}

abbrev sample : InnerHead
sample = record {
  version = 6;
  sender = 1;
  node_id = 3;
  receiver = 2;
  typ = MsgType.ack;
  extension_length = 0;
  timestamp = 4;
  payload_length = 2;
  seqnum = 5;
}

from_head-into_head_example : from_head (into_head sample) ≡ sample
from_head-into_head_example = from_head-into_head sample (omega arith)

-- The head of `sample`, and two bytes of payload.
abbrev buffer : Bytes
buffer =
    0 ∷ 1 ∷ 128 ∷ 0 ∷ 0 ∷ 0 ∷ 0 ∷ 1 ∷ 0 ∷ 0 ∷ 192 ∷ 0 ∷ 0 ∷ 0 ∷ 0 ∷ 2 ∷ 0 ∷ 16 ∷ 0 ∷ 0 ∷ 0 ∷ 0 ∷ 0
    ∷ 4 ∷ 0 ∷ 8 ∷ 0 ∷ 0 ∷ 0 ∷ 0 ∷ 0 ∷ 5 ∷ 104 ∷ 105 ∷ []

buffer-view : view buffer ≡ some sample
unfolding Head.from from_head read_be MsgType.from slice lookup MsgType.value
buffer-view = refl

getters_example : (inner : InnerHead) × (view buffer ≡ some inner) × Shows buffer inner
getters_example = getters_lem buffer (omega arith) (omega arith)

setters_example :
    IsUpdated (View.extension_length 9) buffer sample (View.set (View.extension_length 9) buffer)
setters_example =
    setters_lem (View.extension_length 9) buffer sample (omega arith) (omega arith) (omega arith)
      buffer-view

abbrev machine : Env
machine = record { now = 1700000000000; memory = λ i. i + 200 }

abbrev hello : Bytes
hello = b'h' ∷ b'i' ∷ []

constructors_example :
    Builds (err_msg machine 7 9 3 hello) (head_of machine MsgType.error 7 9 3 0 hello []) hello []
    × Builds (text machine 7 9 3 hello) (head_of machine MsgType.text 7 9 3 0 hello []) hello []
    × Builds
        (text2 machine 7 9 3 hello hello)
        (head_of machine MsgType.text 7 9 3 0 hello hello)
        hello
        hello
    × Builds (auth machine 7 9 3 hello) (head_of machine MsgType.auth 7 9 3 0 hello []) hello []
    × Builds (raw machine 7 9 3 hello) (head_of machine MsgType.na 7 9 3 0 hello []) hello []
    × Builds
        (raw2 machine 7 9 3 hello hello)
        (head_of machine MsgType.na 7 9 3 0 hello hello)
        hello
        hello
constructors_example =
    constructors_lem machine 7 9 3 hello hello (omega arith) (omega arith) (omega arith)

generate_ack_example :
    Builds
      (generate_ack machine buffer 8 1234)
      (head_of machine MsgType.ack 1 2 8 5 (to_string 1234) [])
      (to_string 1234)
      []
    × (parse_from 0 (to_string 1234) ≡ 1234)
generate_ack_example =
    generate_ack_lem machine buffer 8 1234 sample (omega arith) (omega arith) buffer-view
      (omega arith) (omega arith) (omega arith)

with_uncompressed_example :
    (Stops 0 (buffer ∷ buffer ∷ [])
      × (with_uncompressed machine (buffer ∷ buffer ∷ []) ≡ some empty_or_too_large))
    ⊎ PacksPrefix machine (buffer ∷ buffer ∷ []) (with_uncompressed machine (buffer ∷ buffer ∷ []))
with_uncompressed_example = with_uncompressed_lem machine (buffer ∷ buffer ∷ []) (omega arith)

-- A batch of two messages.
abbrev outer : InnerHead
outer = record sample { payload_length = 68 }

abbrev two_messages : Msg
two_messages =
    frame (into_head outer) (frame (into_head sample) (hello ++ frame (into_head sample) hello))

two_messages-payload :
    payload two_messages ≡ some (frame (into_head sample) (hello ++ frame (into_head sample) hello))
unfolding payload slice frame into_head read_be write_be MsgType.value Head.Access.payload_length
    Head.read_u64
two_messages-payload = refl

with_compressed_example :
    ((frame (into_head sample) hello ≡ [])
      × (with_compressed machine two_messages ≡ unpacked (frame (into_head sample) hello ∷ [])))
    ⊎ ((frame (into_head sample) hello ≢ []) × (with_compressed machine two_messages ≡ panicked))
unfolding into_head MsgType.value
with_compressed_example =
    with_compressed_lem machine two_messages (into_head sample) hello
      (frame (into_head sample) hello) (omega arith) (omega arith) two_messages-payload
