-- ===== src/Net/Request/Body.antt =====
-- The memory that a request is read into.
use prim.Prelude.{
  ℕ, ◌+◌, ◌≡◌, refl, ◌∙◌, ap, some, ◌++◌, length, length-append, length-drop, drop, drop-append,
  slice, slice_from, overwrite, le→leb, overwrite-append, subst, append-nil, [], arith,
}
use prim.External.ByteOrder.{Bytes, ByteOrder}
use prim.Entity.Env.{Env, uninit, length-uninit}
use prim.Entity.Reqwest
use prim.Entity.Reqwest.{ReqwestMsg, write_at}

module _ ⦃bo : ByteOrder⦄ where
  -- A request with the length `n` and any bytes in its body.
  pub record Allocated (env : Env) (n : ℕ) : Type 0 where
    pub junk : Bytes
    pub sized : length junk ≡ n
    pub returns : Reqwest.pre_alloc env n ≡ some (bo.write 2 n ++ junk)
    pub has_body : Reqwest.body (bo.write 2 n ++ junk) ≡ some junk

  pub pre_alloc-Allocated : (env : Env) (n : ℕ) → Allocated env n
  unfolding Reqwest.pre_alloc write_at overwrite slice Reqwest.body slice_from
  pre_alloc-Allocated env n =
      let junk = drop 2 (uninit env (n + 2)) in
      record {
        junk = junk;
        sized = omega (arith, length-drop 2 (uninit env (n + 2)), length-uninit env (n + 2));
        returns =
            rw
              (
                le→leb 2 (length (uninit env (n + 2))) (omega (arith, length-uninit env (n + 2))),
                bo.length-write 2 n,
              )
              refl;
        has_body =
            rw
              (
                le→leb 2 (length (bo.write 2 n ++ junk))
                    (omega (arith, length-append (bo.write 2 n) junk, bo.length-write 2 n)),
                drop-append 2 (bo.write 2 n) junk (bo.length-write 2 n),
              )
              refl;
      }

  -- A body of the same length takes the place of all of it.
  pub overwrite_body :
      (n : ℕ) (junk new : Bytes)
      → length new ≡ length junk
      → overwrite 2 new (bo.write 2 n ++ junk) ≡ bo.write 2 n ++ new
  overwrite_body n junk new same =
      subst (λ b. overwrite 2 new (bo.write 2 n ++ b) ≡ bo.write 2 n ++ new) (append-nil junk)
        (overwrite-append 2 (bo.write 2 n) junk new [] (bo.length-write 2 n) same
          ∙ ap (λ b. bo.write 2 n ++ b) (append-nil new))
