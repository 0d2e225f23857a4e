-- ===== src/Net/Progress.antt =====
-- Reading uses up what is there: how many bytes are left after each step of `recv_msg`.
use prim.Prelude.{
  ℕ, zero, suc, ◌+◌, ◌-◌, ◌≤◌, ◌<◌, ◌≡◌, refl, sym, ap, subst, inl, inr, Option, none, some, ◌>>=◌,
  [], ◌∷◌, ◌++◌, length, length-append, length-take, length-drop, take, drop, ltb, ltb→lt, ltb→le,
  if_lem, Bool-cases, Option-cases, arith,
}
use prim.External.ByteOrder.{Bytes}
use prim.Net.Delimiter.{advance}
use prim.Net.Transport.{RecvStream}
use prim.Net.Receive.{Source, or_empty, read_buffer, find_delimiter}

-- A step of the search drops at least one byte.
advance-pos : (buffer : Bytes) (k : ℕ) → advance buffer ≡ some k → 1 ≤ k
unfolding advance
advance-pos [] k e = ground (arith, e)
advance-pos (a ∷ []) k e = ground (arith, e)
advance-pos (a ∷ b ∷ []) k e = ground (arith, e)
advance-pos (a ∷ b ∷ c ∷ []) k e = ground (arith, e)
advance-pos (a ∷ b ∷ c ∷ d ∷ rest) k e = ground (arith, e)

module _ {S : Type 0} ⦃stream : RecvStream S⦄ where
  -- The bytes that are left: those put back, and those that arrive.
  abbrev pub left : Source → S → ℕ
  left external s = length (or_empty external) + length (stream.pending s)

  -- How a read of `n` bytes from the stream ends.
  data Exact (n : ℕ) (s : S) : Option (Bytes × S) → Type 0 where
    short : Exact n s none
    exact :
        (bs : Bytes) (s' : S)
        → length bs ≡ n
        → length (stream.pending s') + n ≡ length (stream.pending s)
        → Exact n s (some (bs, s'))

  read_exact-Exact : (n : ℕ) (s : S) → Exact n s (stream.read_exact n s)
  read_exact-Exact n s = elim (Bool-cases (ltb (length (stream.pending s)) n)) [
    | inl less ↦
        subst (Exact n s) (sym (stream.read-none n s (ltb→lt (length (stream.pending s)) n less)))
          short
    | inr enough ↦
        (let fits : n ≤ length (stream.pending s) = ltb→le (length (stream.pending s)) n enough in
          let (s', reads, rest) = stream.read-some n s fits in
          subst (Exact n s) (sym reads) (
            exact (take n (stream.pending s)) s' (omega (arith, length-take n (stream.pending s)))
              (omega (arith, ap length rest, length-drop n (stream.pending s)))))
  ]

  -- How a read of `n` bytes, first from the source, ends.
  pub data Reads (n : ℕ) (external : Source) (s : S) : Option (Bytes × Source × S) → Type 0 where
    ended : Reads n external s none
    took :
        (bs : Bytes) (external' : Source) (s' : S)
        → length bs ≡ n
        → left external' s' + n ≡ left external s
        → Reads n external s (some (bs, external', s'))

  then_read :
      (n : ℕ) (s : S) (r : Option (Bytes × S))
      → Exact n s r
      → Reads n none s (do (buffer, s) ← r; some (buffer, none, s))
  then_read n s _ short = ended
  then_read n s _ (exact bs s' size uses) = took bs none s' size (omega arith)

  then_append :
      (n : ℕ) (external : Bytes) (s : S) (r : Option (Bytes × S))
      → length external ≤ n
      → Exact (n - length external) s r
      → Reads n (some external) s (do (rest, s) ← r; some (external ++ rest, none, s))
  then_append n external s _ small short = ended
  then_append n external s _ small (exact bs s' size uses) =
      took (external ++ bs) none s' (omega (arith, length-append external bs)) (omega arith)

  pub read_buffer-Reads :
      (n : ℕ) (external : Source) (s : S) → Reads n external s (read_buffer n external s)
  unfolding read_buffer
  read_buffer-Reads n none s = then_read n s (stream.read_exact n s) (read_exact-Exact n s)
  read_buffer-Reads n (some external) s =
      if_lem (Reads n (some external) s) (ltb (length external) n) _ _
        (λ less.
          then_append n external s (stream.read_exact (n - length external) s)
            (omega (arith, ltb→lt (length external) n less))
            (read_exact-Exact (n - length external) s))
        (λ enough.
          took (take n external) (some (drop n external)) s
            (omega (arith, length-take n external, ltb→le (length external) n enough))
            (omega (arith, length-drop n external, ltb→le (length external) n enough)))

  -- How the search for a delimiter ends where it does not run out of fuel.
  pub data Finds (external : Source) (s : S) : Option (Option (Source × S)) → Type 0 where
    closed : Finds external s (some none)
    found :
        (external' : Source) (s' : S)
        → left external' s' + 1 ≤ left external s
        → Finds external s (some (some (external', s')))

  Finds-weaken :
      (external external' : Source) (s s' : S) (r : Option (Option (Source × S)))
      → left external' s' ≤ left external s
      → Finds external' s' r
      → Finds external s r
  Finds-weaken external external' s s' _ small closed = closed
  Finds-weaken external external' s s' _ small (found e t less) = found e t (omega arith)

  -- The search after one step of it, where its later steps end.
  step-Finds :
      (fuel : ℕ) (kept : Bytes) (external : Source) (s : S) (r : Option (Bytes × Source × S))
      → length kept ≤ 3
      → Reads (4 - length kept) external s r
      → read_buffer (4 - length kept) external s ≡ r
      → ((kept' : Bytes) (external' : Source) (s' : S)
          → length kept' ≤ 3
          → left external' s' + 1 ≤ left external s
          → Finds external' s' (find_delimiter fuel kept' external' s'))
      → Finds external s (find_delimiter (suc fuel) kept external s)
  unfolding find_delimiter
  step-Finds fuel kept external s _ few ended e later = rw (find_delimiter, e) closed
  step-Finds fuel kept external s _ few (took bs external' s' size uses) e later =
      elim (Option-cases (advance (kept ++ bs))) [
        | inl none_left ↦ rw (find_delimiter, e, none_left) (found external' s' (omega arith))
        | inr (k, some_left) ↦
            rw (find_delimiter, e, some_left)
              (Finds-weaken external external' s s' _ (omega arith) (
                later (drop k (kept ++ bs)) external' s'
                  (omega (
                    arith,
                    length-drop k (kept ++ bs),
                    length-append kept bs,
                    advance-pos (kept ++ bs) k some_left,
                  ))
                  (omega arith)))
      ]

  pub find_delimiter-Finds :
      (fuel : ℕ) (kept : Bytes) (external : Source) (s : S)
      → length kept ≤ 3
      → left external s < fuel
      → Finds external s (find_delimiter fuel kept external s)
  find_delimiter-Finds zero kept external s few more = absurd (omega arith)
  find_delimiter-Finds (suc fuel) kept external s few more =
      step-Finds fuel kept external s _ few (read_buffer-Reads (4 - length kept) external s) refl
        (λ kept' external' s' few' less.
          find_delimiter-Finds fuel kept' external' s' few' (omega arith))
