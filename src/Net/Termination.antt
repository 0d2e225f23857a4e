-- ===== src/Net/Termination.antt =====
-- `recv_msg` ends on every stream, once its fuel exceeds the number of bytes that are left.
use prim.Prelude.{
  ℕ, zero, suc, ◌+◌, ◌-◌, ◌≤◌, ◌<◌, ◌≡◌, ◌≢◌, refl, inl, inr, true, Option, none, some, ◌>>=◌,
  overwrite, length-take, [], ◌++◌, length, length-append, length-drop, take, drop, ◌==◌, ltb,
  if_lem, Bool-cases, arith,
}
use prim.External.ByteOrder.{Bytes, ByteOrder}
use prim.Entity.{head_len, body_size}
use prim.Entity.Env.{Env}
use prim.Entity.Head
use prim.Entity.Head.Access
use prim.Entity.Msg.{Msg, pre_alloc}
use prim.Net.Delimiter.{pre_check}
use prim.Net.Transport.{RecvStream}
use prim.Net.Receive.{
  Source, or_empty, read_buffer, find_delimiter, out_of_fuel, recv_body, recv_msg, fill,
}
use prim.Net.Progress.{
  left, Reads, ended, took, read_buffer-Reads, Finds, closed, found, find_delimiter-Finds,
}

length-overwrite :
    (msg body : Msg)
    → length body ≡ length msg - head_len
    → length (overwrite head_len body msg) ≡ length msg
unfolding overwrite
length-overwrite msg body e = omega (
  arith,
  length-append (take head_len msg) (body ++ drop (head_len + length body) msg),
  length-append body (drop (head_len + length body) msg),
  length-take head_len msg,
  length-drop (head_len + length body) msg,
)

module _ {S : Type 0} ⦃stream : RecvStream S⦄ where
  -- How reading a body ends: the message holds its head and what was read.
  data Body (external : Source) (s : S) : Option (Option (Msg × Source × S)) → Type 0 where
    panics : Body external s none
    refused : Body external s (some none)
    filled :
        (msg : Msg) (external' : Source) (s' : S)
        → left external' s' + length msg ≤ left external s + head_len
        → Body external s (some (some (msg, external', s')))

  bind-Body :
      {A : Type 0} (external : Source) (s : S) (r : Option A)
      (f : A → Option (Option (Msg × Source × S)))
      → ((x : A) → Body external s (f x))
      → Body external s (r >>= f)
  bind-Body external s none f h = panics
  bind-Body external s (some x) f h = h x

  filled-Body :
      (msg : Msg) (external : Source) (s : S) (r : Option (Bytes × Source × S))
      → Reads (length msg - head_len) external s r
      → read_buffer (length msg - head_len) external s ≡ r
      → Body external s (some (fill msg external s))
  unfolding fill
  filled-Body msg external s _ ended e = rw (fill, e) refused
  filled-Body msg external s _ (took body external' s' size uses) e =
      rw (fill, e)
        (filled (overwrite head_len body msg) external' s'
          (omega (arith, length-overwrite msg body size)))

  module _ ⦃bo : ByteOrder⦄ where
    recv_body-Body :
        (env : Env) (buffer : Bytes) (external : Source) (s : S)
        → Body external s (recv_body env buffer external s)
    unfolding recv_body
    recv_body-Body env buffer external s =
        bind-Body external s (Access.extension_length buffer) _ (λ n.
          bind-Body external s (Access.payload_length buffer) _ (λ k.
            if_lem (Body external s) (ltb body_size (n + k)) _ _ (λ _. refused)
              (λ _. bind-Body external s (Head.from buffer) _ (λ head.
                bind-Body external s (pre_alloc env head) _ (λ msg.
                  filled-Body msg external s _
                    (read_buffer-Reads (length msg - head_len) external s) refl)))))

    -- What the recursive calls of `recv_msg` rely on: fewer bytes are left.
    abbrev Later : ℕ → Env → Source → S → Type 0
    Later fuel env external s =
        (external' : Source) (s' : S)
        → left external' s' < left external s
        → recv_msg fuel env external' s' ≢ out_of_fuel

    after_reading :
        (fuel : ℕ) (env : Env) (external : Source) (s : S) (external1 : Source) (s1 : S)
        (buffer : Bytes) (external2 : Source) (s2 : S) (r : Option (Option (Msg × Source × S)))
        → find_delimiter (suc fuel) [] external s ≡ some (some (external1, s1))
        → read_buffer head_len external1 s1 ≡ some (buffer, external2, s2)
        → (pre_check buffer == length buffer) ≡ true
        → Body external2 s2 r
        → recv_body env buffer external2 s2 ≡ r
        → left external2 s2 + head_len < left external s
        → Later fuel env external s
        → recv_msg (suc fuel) env external s ≢ out_of_fuel
    unfolding recv_msg
    after_reading fuel env external s external1 s1 buffer external2 s2 _ e1 e2 e3 panics e4 less
          later =
        rw (recv_msg, e1, e2, e3, e4) (λ e. ground (arith, e))
    after_reading fuel env external s external1 s1 buffer external2 s2 _ e1 e2 e3 refused e4 less
          later =
        rw (recv_msg, e1, e2, e3, e4) (λ e. ground (arith, e))
    after_reading fuel env external s external1 s1 buffer external2 s2 _ e1 e2 e3
          (filled msg external3 s3 size) e4 less later =
        elim (Bool-cases (pre_check msg == length msg)) [
          | inl whole ↦ rw (recv_msg, e1, e2, e3, e4, whole) (λ e. ground (arith, e))
          | inr split ↦
              rw (recv_msg, e1, e2, e3, e4, split)
                (later (some (or_empty external3 ++ drop (pre_check msg) msg)) s3 (
                  omega (
                    arith,
                    length-append (or_empty external3) (drop (pre_check msg) msg),
                    length-drop (pre_check msg) msg,
                  )))
        ]

    after_head :
        (fuel : ℕ) (env : Env) (external : Source) (s : S) (external1 : Source) (s1 : S)
        (r : Option (Bytes × Source × S))
        → find_delimiter (suc fuel) [] external s ≡ some (some (external1, s1))
        → left external1 s1 + 1 ≤ left external s
        → Reads head_len external1 s1 r
        → read_buffer head_len external1 s1 ≡ r
        → Later fuel env external s
        → recv_msg (suc fuel) env external s ≢ out_of_fuel
    unfolding recv_msg
    after_head fuel env external s external1 s1 _ e1 less ended e2 later =
        rw (recv_msg, e1, e2) (λ e. ground (arith, e))
    after_head fuel env external s external1 s1 _ e1 less (took buffer external2 s2 size uses) e2
          later =
        elim (Bool-cases (pre_check buffer == length buffer)) [
          | inl whole ↦
              after_reading fuel env external s external1 s1 buffer external2 s2 _ e1 e2 whole
                (recv_body-Body env buffer external2 s2) refl (omega arith) later
          | inr split ↦
              rw (recv_msg, e1, e2, split)
                (later (some (or_empty external2 ++ drop (pre_check buffer) buffer)) s2 (
                  omega (
                    arith,
                    length-append (or_empty external2) (drop (pre_check buffer) buffer),
                    length-drop (pre_check buffer) buffer,
                  )))
        ]

    after_search :
        (fuel : ℕ) (env : Env) (external : Source) (s : S) (r : Option (Option (Source × S)))
        → Finds external s r
        → find_delimiter (suc fuel) [] external s ≡ r
        → Later fuel env external s
        → recv_msg (suc fuel) env external s ≢ out_of_fuel
    unfolding recv_msg
    after_search fuel env external s _ closed e1 later = rw (recv_msg, e1) (λ e. ground (arith, e))
    after_search fuel env external s _ (found external1 s1 less) e1 later =
        after_head fuel env external s external1 s1 _ e1 less
          (read_buffer-Reads head_len external1 s1) refl later

    -- With more fuel than bytes are left, put back or still to arrive, `recv_msg` ends for every
    -- stream and whatever the bytes are: with a message, an error or a panic, never for want of
    -- fuel.
    pub recv_msg_ends :
        (fuel : ℕ) (env : Env) (external : Source) (s : S)
        → left external s < fuel
        → recv_msg fuel env external s ≢ out_of_fuel
    recv_msg_ends zero env external s more = absurd (omega arith)
    recv_msg_ends (suc fuel) env external s more =
        after_search fuel env external s _
          (find_delimiter-Finds (suc fuel) [] external s (omega arith) more) refl
          (λ external' s' less. recv_msg_ends fuel env external' s' (omega arith))
