-- ===== src/Net/Server/Places.antt =====
-- Which connections are served.
use prim.Prelude.{
  ℕ, ◌+◌, ◌^◌, ◌≤◌, ◌<◌, ◌≡◌, ◌↔◌, refl, subst, List, [], ◌∷◌, length, ltb, arith, if_lem,
}
use prim.Net.Server.{Listener, listen, accept, finish, Connection, arrives, ends, serve}

-- The counter is the number of handlers that run and of all connections that were refused. No more
-- than `n` connections have arrived.
record Counts (max n : ℕ) (l : Listener) : Type 0 where
  same_max : l.max_connections ≡ max
  counted : l.counter ≡ l.open_handlers + l.refused
  few : l.open_handlers + l.refused ≤ n

listen-Counts : (max : ℕ) → Counts max 0 (listen max)
unfolding listen
listen-Counts max = record { same_max = refl; counted = omega arith; few = omega arith }

accept-Counts :
    (max n : ℕ) (l : Listener) → n + 1 < 2 ^ 64 → Counts max n l → Counts max (n + 1) (accept l)
unfolding accept
accept-Counts max n l small c =
    if_lem (Counts max (n + 1)) (ltb l.max_connections l.counter) _ _
      (λ e. record { same_max = c.same_max; counted = omega (arith, c); few = omega (arith, c) })
      (λ e. record { same_max = c.same_max; counted = omega (arith, c); few = omega (arith, c) })

finish-Counts : (max n : ℕ) (l : Listener) → n < 2 ^ 64 → Counts max n l → Counts max n (finish l)
unfolding finish
finish-Counts max n l small c = ground (arith, c)

serve-Counts :
    (max n : ℕ) (events : List Connection) (l : Listener)
    → n + length events < 2 ^ 64
    → Counts max n l
    → Counts max (n + length events) (serve events l)
unfolding serve
serve-Counts max n [] l small c = record {
  same_max = c.same_max;
  counted = c.counted;
  few = omega (arith, c.few);
}
serve-Counts max n (arrives ∷ rest) l small c =
    subst (λ k. Counts max k (serve rest (accept l))) (omega arith)
      (serve-Counts max (n + 1) rest (accept l) (omega arith)
        (accept-Counts max n l (omega arith) c))
serve-Counts max n (ends ∷ rest) l small c =
    let d = finish-Counts max n l (omega arith) c in
    subst (λ k. Counts max k (serve rest (finish l))) (omega arith)
      (serve-Counts max (n + 1) rest (finish l) (omega arith)
        (record { same_max = d.same_max; counted = d.counted; few = omega (arith, d.few) }))

accept_iff :
    (max n : ℕ) (l : Listener)
    → n < 2 ^ 64
    → Counts max n l
    → ((accept l).open_handlers ≡ l.open_handlers + 1) ↔ (l.open_handlers + l.refused ≤ max)
unfolding accept
accept_iff max n l small c = ground (arith, c)

-- After any sequence of fewer than 2^64 - 1 connections that arrive and end, the next is served
-- exactly if the handlers that run and all connections that were ever refused are together at most
-- `max_connections`: a place that a refused connection has taken is never given back.
pub serve_iff :
    (max : ℕ) (events : List Connection)
    → length events + 1 < 2 ^ 64
    → let l = serve events (listen max) in
      ((accept l).open_handlers ≡ l.open_handlers + 1) ↔ (l.open_handlers + l.refused ≤ max)
serve_iff max events small =
    accept_iff max (length events) (serve events (listen max)) (omega arith) (
      subst (λ k. Counts max k (serve events (listen max))) (omega arith)
        (serve-Counts max 0 events (listen max) (omega arith) (listen-Counts max)))
