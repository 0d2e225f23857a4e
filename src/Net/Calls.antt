-- ===== src/Net/Calls.antt =====
-- One request of a client and its answer: the future `Reqwest` and `ResponsePlaceholder` of
-- server/lib-net-tokio/src/net/mod.rs.
pub mod Link
pub mod Step
pub mod Sound
pub mod Kept
pub mod Answered
pub mod Once
pub mod Sent
pub mod Reached
pub mod Forgotten
pub mod Lost
pub mod Awake
pub mod Stopped
use prim.Prelude.{ℕ, Bool, true, false, Option, none, some}
use prim.Entity.Reqwest.{ReqwestMsg}

-- What `ResponsePlaceholder` holds: a response, or the error that the time is up.
pub data Answer : Type 0 where
  response : ReqwestMsg → Answer
  timeout : Answer

-- A `Reqwest` with the value of its placeholder. `sender_task` holds the request that waits for
-- room in the channel, `woken` says that the waker of the task was called since the last poll, and
-- `result` is what the future returned.
pub record Call : Type 0 where
  pub req_id : ℕ
  pub req : Option ReqwestMsg
  pub sender_task : Option ReqwestMsg
  pub sender_task_done : Bool
  pub slot : Option Answer
  pub woken : Bool
  pub result : Option Answer

-- The state of the channel to the task of the stream, as its `send` finds it.
pub data Channel : Type 0 where
  open_channel full closed_channel : Channel

-- What a poll returns, beside the future: `queued` is the request that went into the channel.
pub data Polled : Type 0 where
  ready : Answer → Polled
  pending panics : Polled

-- `resp_receiver.get()`
unfoldable pub take_answer : Call → Call × Polled
take_answer c = elim c.slot [
  | none ↦ (c, pending)
  | some a ↦ (record c { slot = none; result = some a }, ready a)
]

-- The sender task is polled. Its error is not looked at.
unfoldable pub drive : Channel → ReqwestMsg → Call → Call × Option ReqwestMsg × Polled
unfolding take_answer
drive open_channel req c =
    let (c, polled) = take_answer (record c { sender_task = none; sender_task_done = true }) in
    (c, some req, polled)
drive closed_channel req c =
    let (c, polled) = take_answer (record c { sender_task = none; sender_task_done = true }) in
    (c, none, polled)
drive full req c = (record c { sender_task = some req }, none, pending)

-- `poll`. The first takes the request and makes the task that sends it.
unfoldable pub poll : Channel → Call → Call × Option ReqwestMsg × Polled
unfolding drive take_answer
poll channel c = elim c.sender_task_done [
  | true ↦ let (c, polled) = take_answer c in (c, none, polled)
  | false ↦ elim c.sender_task [
    | some req ↦ drive channel req c
    | none ↦ elim c.req [
      | none ↦ (c, none, panics)
      | some req ↦ drive channel req (record c { req = none })
    ]
  ]
]
