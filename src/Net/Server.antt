-- ===== src/Net/Server.antt =====
-- The connections that `ServerTcp` and `ServerReqwestTcp` of server/lib-net-tokio/src/net/server.rs
-- accept, and the counter of them.
pub mod Places
use prim.Prelude.{ℕ, zero, suc, ◌+◌, ◌-◌, ◌%◌, ◌^◌, List, [], ◌∷◌, ltb, if◌then◌else◌}

-- `counter` is the `AtomicUsize`, `open` the handlers that run, `refused` the connections that were
-- told "too many connections." so far.
pub record Listener : Type 0 where
  pub max_connections : ℕ
  pub counter : ℕ
  pub open_handlers : ℕ
  pub refused : ℕ

unfoldable pub listen : ℕ → Listener
listen max_connections = record {
  max_connections = max_connections;
  counter = 0;
  open_handlers = 0;
  refused = 0;
}

-- The body of the loop in `run`, for a stream whose handshake has succeeded.
unfoldable pub accept : Listener → Listener
accept l =
    let number = l.counter in
    let l : Listener = record l { counter = (l.counter + 1) % 2 ^ 64 } in
    if ltb l.max_connections number
    then record l { refused = l.refused + 1 }
    else record l { open_handlers = l.open_handlers + 1 }

-- The end of `handle_new_connection`, for a handler that runs.
unfoldable pub finish : Listener → Listener
finish l = elim l.open_handlers [
  | zero ↦ l
  | suc others ↦ record l { open_handlers = others; counter = (l.counter + 2 ^ 64 - 1) % 2 ^ 64 }
]

pub data Connection : Type 0 where
  arrives ends : Connection

unfoldable pub serve : List Connection → Listener → Listener
unfolding accept finish
serve [] l = l
serve (arrives ∷ rest) l = serve rest (accept l)
serve (ends ∷ rest) l = serve rest (finish l)
