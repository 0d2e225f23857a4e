-- ===== src/Tests/Calls.antt =====
-- Calls on a stream of requests, and connections that are accepted.
use prim.Prelude.{
  ◌≡◌, ◌+◌, ◌≤◌, ◌↔◌, refl, slice, false, true, none, some, List, [], ◌∷◌, ◌++◌, arith,
}
use prim.External.ByteOrder.Model.{big_endian, read_be}
use prim.Entity.Reqwest
use prim.Entity.Reqwest.{ReqwestMsg}
use prim.Net.Calls.{response}
use prim.Net.Calls.Link.{single, shared, client, start}
use prim.Net.Calls.Step.{Event, call, polled, take, wrote, read, up, second_act, run}
use prim.Net.Calls.Sound.{Earned}
use prim.Net.Calls.Answered.{run_result}
use prim.Net.Calls.Lost.{Waits, overtaken, response_lost}
use prim.Net.Calls.Awake.{answer_kept}
use prim.Net.Calls.Stopped.{Hopeless, never_returns}
use prim.Net.Server.{accept, listen, Connection, arrives, ends, serve}
use prim.Net.Server.Places.{serve_iff}

-- A request with the id 5, and its response.
abbrev request : ReqwestMsg
request = 0 ∷ 10 ∷ 0 ∷ 0 ∷ 0 ∷ 0 ∷ 0 ∷ 0 ∷ 0 ∷ 5 ∷ 0 ∷ 3 ∷ []

abbrev reply : ReqwestMsg
reply = 0 ∷ 11 ∷ 0 ∷ 0 ∷ 0 ∷ 0 ∷ 0 ∷ 0 ∷ 0 ∷ 5 ∷ 0 ∷ 3 ∷ 1 ∷ []

abbrev sending : List Event
sending = call 5 request ∷ polled 0 ∷ take ∷ wrote true ∷ []

run_result_example :
    let l = run single client (sending ++ read reply ∷ second_act ∷ polled 0 ∷ []) start in
    Earned l.arrived (l.calls 0).req_id (response reply)
unfolding run start read_be Reqwest.req_id slice
run_result_example =
    run_result single client (sending ++ read reply ∷ second_act ∷ polled 0 ∷ []) 0 (response reply)
      refl

sending-Waits : Waits 0 5 (run single client sending start)
unfolding run start
sending-Waits = record {
  listed = refl;
  empty = refl;
  sleeps = refl;
  unreturned = refl;
  alive = refl;
  reads = refl;
  at_rest = refl;
}

has_id_five : Reqwest.req_id reply ≡ some 5
unfolding Reqwest.req_id read_be slice
has_id_five = refl

response_lost_example :
    let l' = run single client (overtaken 0 reply) (run single client sending start) in
    ((l'.calls 0).slot ≡ some (response reply))
    × ((later : List Event) → ((run single client later l').calls 0).result ≡ none)
response_lost_example = response_lost 0 client sending 5 reply sending-Waits has_id_five refl

answer_kept_example :
    let l = run shared client (sending ++ read reply ∷ second_act ∷ []) start in
    ((l.calls 0).woken ≡ true)
    × ((run shared client (polled 0 ∷ []) l).calls 0).result ≡ some (response reply)
unfolding run start read_be Reqwest.req_id slice
answer_kept_example =
    answer_kept client (sending ++ read reply ∷ second_act ∷ []) 0 (response reply) refl refl
      (λ b e. ground (arith, e))

-- The write of the first request fails, and another request is made.
abbrev failing : List Event
failing = call 5 request ∷ polled 0 ∷ take ∷ wrote false ∷ call 6 request ∷ []

failing-Hopeless : Hopeless 1 (run single client failing start)
unfolding run start
failing-Hopeless = record {
  stopped = refl;
  still_open = (refl, refl);
  unlisted = λ id e. ground (arith, e);
  not_half = λ a e. ground (arith, e);
}

never_returns_example :
    ((run single client (polled 1 ∷ up 5 ∷ second_act ∷ []) (run single client failing start)).calls
      1).result
    ≡ none
never_returns_example =
    never_returns 1 single client (polled 1 ∷ up 5 ∷ second_act ∷ [])
      (run single client failing start) failing-Hopeless

-- Two connections fit, the third is refused, and one ends.
abbrev crowd : List Connection
crowd = arrives ∷ arrives ∷ arrives ∷ ends ∷ []

serve_iff_example :
    let l = serve crowd (listen 1) in
    ((accept l).open_handlers ≡ l.open_handlers + 1) ↔ (l.open_handlers + l.refused ≤ 1)
serve_iff_example = serve_iff 1 crowd (omega arith)
