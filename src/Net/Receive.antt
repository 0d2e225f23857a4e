-- ===== src/Net/Receive.antt =====
-- `read_buffer`, `recv_msg` and `send_msg` of server/lib-net-tokio/src/net/mod.rs.
use prim.Prelude.{
  ℕ, zero, suc, ◌+◌, ◌-◌, true, false, not, Option, none, some, ◌>>=◌, [], ◌++◌, length, take, drop,
  overwrite, ◌==◌, ltb, if◌then◌else◌,
}
use prim.External.ByteOrder.{Bytes, ByteOrder}
use prim.Entity.{head_len, body_size}
use prim.Entity.Env.{Env}
use prim.Entity.Head
use prim.Entity.Head.Access
use prim.Entity.Msg.{Msg, pre_alloc}
use prim.Net.Delimiter.{msg_delimiter, advance, pre_check}
use prim.Net.Transport.{RecvStream, SendStream}

-- The bytes that were received but not used yet, if there are any.
abbrev pub Source : Type 0
Source = Option Bytes

-- The result of `recv_msg`: `crashed` is the error that closes the stream.
pub data Received (S : Type 0) : Type 0 where
  received : Msg → S → Received S
  crashed panicked out_of_fuel : Received S

abbrev pub or_empty : Source → Bytes
or_empty none = []
or_empty (some rest) = rest

module _ {S : Type 0} ⦃stream : RecvStream S⦄ where
  -- A buffer of `n` bytes is filled from the source first; `none` where the stream ends.
  unfoldable pub read_buffer : ℕ → Source → S → Option (Bytes × Source × S)
  read_buffer n (some external) s =
      if ltb (length external) n
      then (do
        (rest, s) ← stream.read_exact (n - length external) s
        some (external ++ rest, none, s))
      else some (take n external, some (drop n external), s)
  read_buffer n none s = do (buffer, s) ← stream.read_exact n s; some (buffer, none, s)

  -- The loop that looks for the delimiter, with the bytes of `delimiter_buf` that are kept: those
  -- that may start a delimiter move to its front.
  unfoldable pub find_delimiter : ℕ → Bytes → Source → S → Option (Option (Source × S))
  unfolding read_buffer advance
  find_delimiter zero kept external s = none
  find_delimiter (suc fuel) kept external s = elim (read_buffer (4 - length kept) external s) [
    | none ↦ some none
    | some (bytes, external, s) ↦ elim (advance (kept ++ bytes)) [
      | none ↦ some (some (external, s))
      | some k ↦ find_delimiter fuel (drop k (kept ++ bytes)) external s
    ]
  ]

  -- The body of a message is read over what its memory held.
  unfoldable pub fill : Msg → Source → S → Option (Msg × Source × S)
  unfolding read_buffer
  fill msg external s = elim (read_buffer (length msg - head_len) external s) [
    | none ↦ none
    | some (body, external, s) ↦ some (overwrite head_len body msg, external, s)
  ]

  module _ ⦃bo : ByteOrder⦄ where
    -- The body is read into a message that is allocated by the head. The result is the message,
    -- or `none` where it is too large or the stream ends; the outer `none` is a panic.
    unfoldable pub recv_body : Env → Bytes → Source → S → Option (Option (Msg × Source × S))
    unfolding fill
    recv_body env buffer external s = do
      extension_length ← Access.extension_length buffer
      payload_length ← Access.payload_length buffer
      if ltb body_size (extension_length + payload_length)
          then some none
          else do head ← Head.from buffer; msg ← pre_alloc env head; some (fill msg external s)

    -- Where a delimiter stands inside a head or a message, reading starts again with the bytes
    -- from there on, put behind the rest of the source.
    unfoldable pub recv_msg : ℕ → Env → Source → S → Received S
    unfolding find_delimiter recv_body pre_check read_buffer
    recv_msg zero env external s = out_of_fuel
    recv_msg (suc fuel) env external s = elim (find_delimiter (suc fuel) [] external s) [
      | none ↦ out_of_fuel
      | some none ↦ crashed
      | some (some (external, s)) ↦ elim (read_buffer head_len external s) [
        | none ↦ crashed
        | some (buffer, external, s) ↦ elim (pre_check buffer == length buffer) [
          | false ↦ recv_msg fuel env (some (or_empty external ++ drop (pre_check buffer) buffer)) s
          | true ↦ elim (recv_body env buffer external s) [
            | none ↦ panicked
            | some none ↦ crashed
            | some (some (msg, external, s)) ↦ elim (pre_check msg == length msg) [
              | false ↦ recv_msg fuel env (some (or_empty external ++ drop (pre_check msg) msg)) s
              | true ↦ received msg s
            ]
          ]
        ]
      ]
    ]

-- `none` where the message holds a delimiter or a write fails.
module _ {T : Type 0} ⦃stream : SendStream T⦄ where
  unfoldable pub send_msg : Msg → T → Option T
  unfolding pre_check
  send_msg msg t =
      if not (pre_check msg == length msg)
      then none
      else do t ← stream.write_all msg_delimiter t; stream.write_all msg t
