-- ===== src/Net/Request/Termination.antt =====
-- Receiving a request ends on every stream, and never panics.
use prim.Prelude.{
  ℕ, zero, suc, ◌+◌, ◌≤◌, ◌<◌, ◌≡◌, refl, Option, none, some, ◌++◌, [], length, length-append,
  length-drop, drop, ◌==◌, Bool-cases, inl, inr, arith,
}
use prim.External.ByteOrder.{Bytes, ByteOrder}
use prim.Entity.Env.{Env}
use prim.Entity.Reqwest.{ReqwestMsg}
use prim.Net.Delimiter.{pre_check}
use prim.Net.Transport.{RecvStream}
use prim.Net.Receive.{Source, or_empty, read_buffer, find_delimiter, Received, received, crashed}
use prim.Net.Progress.{
  left, Reads, ended, took, read_buffer-Reads, Finds, closed, found, find_delimiter-Finds,
}
use prim.Net.Request.{read_body, request_body, recv_request}
use prim.Net.Request.Body.{pre_alloc-Allocated, overwrite_body}

module _ {S : Type 0} ⦃stream : RecvStream S⦄ ⦃bo : ByteOrder⦄ where
  -- The results of `recv_request` that end it in the way the program means.
  pub data Ends : Received S → Type 0 where
    with_request : (msg : ReqwestMsg) (s : S) → Ends (received msg s)
    with_error : Ends crashed

  -- How reading a request's body ends: it holds its length and what was read.
  data Body (external : Source) (s : S) : Option (Option (ReqwestMsg × Source × S)) → Type 0 where
    refused : Body external s (some none)
    filled :
        (msg : ReqwestMsg) (external' : Source) (s' : S)
        → left external' s' + length msg ≤ left external s + 2
        → Body external s (some (some (msg, external', s')))

  filled-Body :
      (n : ℕ) (junk : Bytes) (external : Source) (s : S) (r : Option (Bytes × Source × S))
      → Reads (length junk) external s r
      → read_buffer (length junk) external s ≡ r
      → Body external s (some (read_body (bo.write 2 n ++ junk) (length junk) external s))
  unfolding read_body
  filled-Body n junk external s _ ended e = rw (read_body, e) refused
  filled-Body n junk external s _ (took new external' s' size uses) e =
      rw (read_body, e, overwrite_body n junk new size)
        (filled (bo.write 2 n ++ new) external' s'
          (omega (arith, length-append (bo.write 2 n) new, bo.length-write 2 n)))

  request_body-Body :
      (env : Env) (len_buf : Bytes) (external : Source) (s : S)
      → Body external s (request_body env len_buf external s)
  unfolding request_body
  request_body-Body env len_buf external s =
      let a = pre_alloc-Allocated env (bo.read 2 len_buf) in
      rw (a.returns, a.has_body)
        (filled-Body (bo.read 2 len_buf) a.junk external s _
          (read_buffer-Reads (length a.junk) external s) refl)

  -- What the recursive calls rely on: fewer bytes are left.
  abbrev Later : ℕ → Env → Source → S → Type 0
  Later fuel env external s =
      (external' : Source) (s' : S)
      → left external' s' < left external s
      → Ends (recv_request fuel env external' s')

  after_reading :
      (fuel : ℕ) (env : Env) (external : Source) (s : S) (external1 : Source) (s1 : S)
      (len_buf : Bytes) (external2 : Source) (s2 : S)
      (r : Option (Option (ReqwestMsg × Source × S)))
      → find_delimiter (suc fuel) [] external s ≡ some (some (external1, s1))
      → read_buffer 2 external1 s1 ≡ some (len_buf, external2, s2)
      → Body external2 s2 r
      → request_body env len_buf external2 s2 ≡ r
      → left external2 s2 + 2 < left external s
      → Later fuel env external s
      → Ends (recv_request (suc fuel) env external s)
  unfolding recv_request
  after_reading fuel env external s external1 s1 len_buf external2 s2 _ e1 e2 refused e3 less
        later =
      rw (recv_request, e1, e2, e3) with_error
  after_reading fuel env external s external1 s1 len_buf external2 s2 _ e1 e2
        (filled msg external3 s3 size) e3 less later =
      elim (Bool-cases (pre_check msg == length msg)) [
        | inl whole ↦ rw (recv_request, e1, e2, e3, whole) (with_request msg s3)
        | inr split ↦
            rw (recv_request, e1, e2, e3, split)
              (later (some (or_empty external3 ++ drop (pre_check msg) msg)) s3 (
                omega (
                  arith,
                  length-append (or_empty external3) (drop (pre_check msg) msg),
                  length-drop (pre_check msg) msg,
                )))
      ]

  after_length :
      (fuel : ℕ) (env : Env) (external : Source) (s : S) (external1 : Source) (s1 : S)
      (r : Option (Bytes × Source × S))
      → find_delimiter (suc fuel) [] external s ≡ some (some (external1, s1))
      → left external1 s1 + 1 ≤ left external s
      → Reads 2 external1 s1 r
      → read_buffer 2 external1 s1 ≡ r
      → Later fuel env external s
      → Ends (recv_request (suc fuel) env external s)
  unfolding recv_request
  after_length fuel env external s external1 s1 _ e1 less ended e2 later =
      rw (recv_request, e1, e2) with_error
  after_length fuel env external s external1 s1 _ e1 less (took len_buf external2 s2 size uses) e2
        later =
      after_reading fuel env external s external1 s1 len_buf external2 s2 _ e1 e2
        (request_body-Body env len_buf external2 s2) refl (omega arith) later

  after_search :
      (fuel : ℕ) (env : Env) (external : Source) (s : S) (r : Option (Option (Source × S)))
      → Finds external s r
      → find_delimiter (suc fuel) [] external s ≡ r
      → Later fuel env external s
      → Ends (recv_request (suc fuel) env external s)
  unfolding recv_request
  after_search fuel env external s _ closed e1 later = rw (recv_request, e1) with_error
  after_search fuel env external s _ (found external1 s1 less) e1 later =
      after_length fuel env external s external1 s1 _ e1 less (read_buffer-Reads 2 external1 s1)
        refl later

  -- With more fuel than bytes are left, put back or still to arrive, receiving a request ends for
  -- every stream and whatever the bytes are: with a request or with the error that closes the
  -- stream, and never with a panic.
  pub recv_request-Ends :
      (fuel : ℕ) (env : Env) (external : Source) (s : S)
      → left external s < fuel
      → Ends (recv_request fuel env external s)
  recv_request-Ends zero env external s more = absurd (omega arith)
  recv_request-Ends (suc fuel) env external s more =
      after_search fuel env external s _
        (find_delimiter-Finds (suc fuel) [] external s (omega arith) more) refl
        (λ external' s' less. recv_request-Ends fuel env external' s' (omega arith))
