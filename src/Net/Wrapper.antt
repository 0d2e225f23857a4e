-- ===== src/Net/Wrapper.antt =====
-- The two loops of `MsgIOWrapper::new` of server/lib-net-tokio/src/net/mod.rs: messages that wait
-- in the channel are packed into batches and sent, and batches that arrive are taken apart.
pub mod Batching
use prim.Prelude.{ℕ, zero, suc, true, false, Bool, Option, none, some, List, [], ◌∷◌, length, ◌==◌}
use prim.External.ByteOrder.{ByteOrder}
use prim.External.Primitive.{FromPrimitive}
use prim.Entity.Env.{Env}
use prim.Entity.MsgType
use prim.Entity.MsgType.{MsgType, compressed}
use prim.Entity.Msg.{Msg, typ}
use prim.Entity.Msg.Batch.{
  empty_or_too_large, packed, with_uncompressed, Unpacked, unpacked, panicked, with_compressed,
}
use prim.Net.Transport.{SendStream}
use prim.Net.Receive.{send_msg}

-- What a round of the sending loop does: it goes on with the stream, or a write has failed and the
-- channel is closed, with the messages that `crushed_log` writes.
pub data Sending (T : Type 0) : Type 0 where
  goes_on : T → Sending T
  closed : List Msg → Sending T
  panics out_of_rounds : Sending T

module _ {T : Type 0} ⦃stream : SendStream T⦄ where
  -- A message alone. `later` are the messages that are in the channel when it is closed.
  unfoldable pub send_alone : List Msg → Msg → T → Sending T
  unfolding send_msg
  send_alone later msg t = elim (send_msg msg t) [ none ↦ closed later | some t ↦ goes_on t ]

  module _ ⦃bo : ByteOrder⦄ where
    -- The inner loop on `list_ref`. An error of `with_uncompressed` ends it, and the outer loop
    -- goes on. The clock stands still while one list is sent.
    unfoldable pub send_batches : ℕ → Env → List Msg → List Msg → T → Sending T
    unfolding with_uncompressed send_msg
    send_batches zero env later list t = out_of_rounds
    send_batches (suc rounds) env later list t = elim (with_uncompressed env list) [
      | none ↦ panics
      | some empty_or_too_large ↦ goes_on t
      | some (packed msg remain) ↦ elim (send_msg msg t) [
        | none ↦ closed later
        | some t ↦ elim (length remain == 0) [
          | true ↦ goes_on t
          | false ↦ send_batches rounds env later remain t
        ]
      ]
    ]

    -- One round of the outer loop: `msg` was received, and `ready` is what `try_recv` takes after
    -- it. A batch takes at least one message, so that there are no more rounds than messages.
    unfoldable pub send_round : Env → List Msg → Msg → List Msg → T → Sending T
    unfolding send_alone send_batches
    send_round env later msg [] t = send_alone later msg t
    send_round env later msg (next ∷ ready) t =
        send_batches (suc (length (msg ∷ next ∷ ready))) env later (msg ∷ next ∷ ready) t

unfoldable pub is_compressed : MsgType → Bool
is_compressed compressed = true
is_compressed _ = false

module _ ⦃bo : ByteOrder⦄ ⦃p : FromPrimitive MsgType.value⦄ where
  -- The messages that are handed to the receiver for one that arrives.
  unfoldable pub hand_on : Env → Msg → Unpacked
  unfolding is_compressed with_compressed
  hand_on env msg = elim (typ msg) [
    | none ↦ panicked
    | some kind ↦ elim (is_compressed kind) [
      | true ↦ with_compressed env msg
      | false ↦ unpacked (msg ∷ [])
    ]
  ]
