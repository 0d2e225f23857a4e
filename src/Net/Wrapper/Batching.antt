-- ===== src/Net/Wrapper/Batching.antt =====
-- What becomes of messages that are sent in batches.
use prim.Prelude.{
  ℕ, zero, suc, ◌^◌, ◌<◌, ◌≡◌, refl, sym, ◌∙◌, true, false, subst, inl, inr, none, some, List, [],
  ◌∷◌, ◌++◌, length, length-drop, take, drop, ◌==◌, Bool-cases, Option-cases, arith,
}
use prim.External.ByteOrder.{Bytes, ByteOrder}
use prim.External.Primitive.{FromPrimitive}
use prim.Entity.Env.{Env}
use prim.Entity.MsgType
use prim.Entity.Msg.{Msg, payload}
use prim.Entity.Msg.Batch.{batch_limit, joined, packed, with_uncompressed, unpacked}
use prim.Entity.Msg.BatchLaws.{with_uncompressed_lem, PacksPrefix, Stops}
use prim.Net.Delimiter.{msg_delimiter}
use prim.Net.Transport.{SendStream}
use prim.Net.Receive.{send_msg}
use prim.Net.Channel.{Sent, send_msg-Sent}
use prim.Net.Wrapper.{Sending, goes_on, closed, send_alone, send_batches, send_round, hand_on}

not_zero : (n : ℕ) → (n == 0) ≡ false → 0 < n
not_zero n e = ground (arith, e)

module _ ⦃bo : ByteOrder⦄ where
  -- How the messages of a list reach the stream: batches of at least one message, each behind a
  -- delimiter and with the bytes of its messages as payload, in the order of the list, until
  -- nothing is left or the next message is longer than the limit. That one and those behind it are
  -- dropped.
  pub data Batches : List Msg → Bytes → Bytes → Type 0 where
    done : (before : Bytes) → Batches [] before before
    dropped :
        (msg : Msg) (rest : List Msg) (before : Bytes)
        → batch_limit < length msg
        → Batches (msg ∷ rest) before before
    batch :
        (list : List Msg) (count : ℕ) (msg : Msg) (before after : Bytes)
        → 0 < count
        → payload msg ≡ some (joined (take count list))
        → Batches (drop count list) (before ++ (msg_delimiter ++ msg)) after
        → Batches list before after

module _ {T : Type 0} ⦃out : SendStream T⦄ ⦃bo : ByteOrder⦄ ⦃p : FromPrimitive MsgType.value⦄ where
  -- Batches of a list are packed and written one after the other, which leaves the rest of the list
  -- and the stream.
  pub data Progress (env : Env) : List Msg → T → List Msg → T → Type 0 where
    start : (list : List Msg) (t : T) → Progress env list t list t
    written_first :
        (list remain rest : List Msg) (msg : Msg) (t t1 t' : T)
        → with_uncompressed env list ≡ some (packed msg remain)
        → send_msg msg t ≡ some t1
        → Progress env remain t1 rest t'
        → Progress env list t rest t'

  -- What `send_batches` results in. Where it fails, some batches of the list were written and the
  -- write of the next one failed.
  pub data Sends (env : Env) (list later : List Msg) (t : T) : Sending T → Type 0 where
    failed :
        (rest remain : List Msg) (m : Msg) (t1 : T)
        → Progress env list t rest t1
        → with_uncompressed env rest ≡ some (packed m remain)
        → send_msg m t1 ≡ none
        → Sends env list later t (closed later)
    passed :
        (t' : T)
        → Batches list (out.written t) (out.written t')
        → Sends env list later t (goes_on t')

  from_refusal :
      (env : Env) (list : List Msg) (later : List Msg) (t : T)
      → Stops 0 list
      → Sends env list later t (goes_on t)
  from_refusal env [] later t stops = passed t (done (out.written t))
  from_refusal env (msg ∷ rest) later t stops =
      passed t (dropped msg rest (out.written t) (omega arith))

  -- A batch in front of what is sent after it.
  batch_first :
      (env : Env) (list : List Msg) (later : List Msg) (t t1 : T) (r : Sending T)
      (w : PacksPrefix env list (with_uncompressed env list))
      → send_msg w.batch t ≡ some t1
      → Sends env (drop w.count list) later t1 r
      → Sends env list later t r
  unfolding Sent
  batch_first env list later t t1 _ w sent (failed rest remain m t2 before packs e) =
      failed rest remain m t2
        (written_first list (drop w.count list) rest w.batch t t1 t2 w.returns sent before) packs e
  batch_first env list later t t1 _ w sent (passed t' rest) = passed t' (
      batch list w.count w.batch (out.written t) (out.written t') w.some_packed w.holds.has_payload
        (subst (λ (b : Bytes). Batches (drop w.count list) b (out.written t'))
          (send_msg-Sent w.batch t t1 sent).1 rest))

  nothing_left :
      (env : Env) (list later : List Msg) (t : T)
      → (length list == 0) ≡ true
      → Sends env list later t (goes_on t)
  nothing_left env [] later t none_left = passed t (done (out.written t))
  nothing_left env (msg ∷ list) later t none_left = absurd (ground (arith, none_left))

  send_batches_lem :
      (rounds : ℕ) (env : Env) (later list : List Msg) (t : T)
      → env.now < 2 ^ 46
      → length list < rounds
      → Sends env list later t (send_batches rounds env later list t)
  unfolding send_batches
  send_batches_lem zero env later list t now enough = absurd (omega arith)
  send_batches_lem (suc rounds) env later list t now enough =
      elim (with_uncompressed_lem env list now) [
        | inl (stops, refused) ↦ rw (send_batches, refused) (from_refusal env list later t stops)
        | inr w ↦ elim (Option-cases (send_msg w.batch t)) [
          | inl broken ↦
              rw (send_batches, w.returns, broken)
                (failed list (drop w.count list) w.batch t (start list t) w.returns broken)
          | inr (t1, sent) ↦ elim (Bool-cases (length (drop w.count list) == 0)) [
            | inl none_left ↦
                rw (send_batches, w.returns, sent, none_left)
                  (batch_first env list later t t1 _ w sent
                    (nothing_left env (drop w.count list) later t1 none_left))
            | inr more ↦
                rw (send_batches, w.returns, sent, more)
                  (batch_first env list later t t1 _ w sent (
                    send_batches_lem rounds env later (drop w.count list) t1 now (
                      omega (
                        arith,
                        w.some_packed,
                        length-drop w.count list,
                        not_zero (length (drop w.count list)) more,
                      ))))
          ]
        ]
      ]

  -- What a round results in: a message alone goes as it is, and two or more in batches.
  pub data Round (env : Env) (msg : Msg) (ready later : List Msg) (t : T) : Sending T → Type 0 where
    alone_failed : ready ≡ [] → send_msg msg t ≡ none → Round env msg ready later t (closed later)
    batch_failed :
        (rest remain : List Msg) (m : Msg) (t1 : T)
        → 0 < length ready
        → Progress env (msg ∷ ready) t rest t1
        → with_uncompressed env rest ≡ some (packed m remain)
        → send_msg m t1 ≡ none
        → Round env msg ready later t (closed later)
    alone :
        (t' : T)
        → ready ≡ []
        → out.written t' ≡ out.written t ++ (msg_delimiter ++ msg)
        → Round env msg ready later t (goes_on t')
    together :
        (t' : T)
        → 0 < length ready
        → Batches (msg ∷ ready) (out.written t) (out.written t')
        → Round env msg ready later t (goes_on t')

  from_batches :
      (env : Env) (msg next : Msg) (ready later : List Msg) (t : T) (r : Sending T)
      → Sends env (msg ∷ next ∷ ready) later t r
      → Round env msg (next ∷ ready) later t r
  from_batches env msg next ready later t _ (failed rest remain m t1 before packs e) =
      batch_failed rest remain m t1 (omega arith) before packs e
  from_batches env msg next ready later t _ (passed t' sent) = together t' (omega arith) sent

  -- A round of the sending loop, with the clock below 2^46, neither panics nor runs on. Either the
  -- write of the message alone, or of the next batch after those that were written, fails, and then
  -- only the messages that are in the channel later are logged; or the loop goes on: a message alone
  -- was written as it is behind a delimiter, and two or more were written in batches, in their order
  -- and up to the first that is longer than the limit.
  pub send_round_lem :
      (env : Env) (later : List Msg) (msg : Msg) (ready : List Msg) (t : T)
      → env.now < 2 ^ 46
      → Round env msg ready later t (send_round env later msg ready t)
  unfolding send_round send_alone Sent
  send_round_lem env later msg [] t now = elim (Option-cases (send_msg msg t)) [
    | inl stops ↦ rw (send_alone, stops) (alone_failed refl stops)
    | inr (t1, sent) ↦ rw (send_alone, sent) (alone t1 refl (send_msg-Sent msg t t1 sent).1)
  ]
  send_round_lem env later msg (next ∷ ready) t now = from_batches env msg next ready later t _ (
      send_batches_lem (suc (length (msg ∷ next ∷ ready))) env later (msg ∷ next ∷ ready) t now
        (omega arith))

-- What the other end makes of batches.
module _ ⦃bo : ByteOrder⦄ ⦃p : FromPrimitive MsgType.value⦄ where
  -- A batch that `with_uncompressed` packs, with the clock below 2^46, is not taken apart at the
  -- other end: the receiver is handed the batch itself.
  pub hand_on-with_uncompressed :
      (env env' : Env) (list remain : List Msg) (msg : Msg)
      → env.now < 2 ^ 46
      → with_uncompressed env list ≡ some (packed msg remain)
      → hand_on env' msg ≡ unpacked (msg ∷ [])
  unfolding hand_on
  hand_on-with_uncompressed env env' list remain msg now e =
      elim (with_uncompressed_lem env list now) [
        | inl (stops, refused) ↦ absurd (ground (arith, e, refused))
        | inr w ↦
            let same : w.batch ≡ msg = ground (arith, sym w.returns ∙ e) in
            subst (λ (b : Msg). hand_on env' b ≡ unpacked (b ∷ [])) same
              (rw (hand_on, w.holds.shows.shows_typ) refl)
      ]
