-- ===== src/Seqnum/Reply.antt =====
-- The reply of the handler carries the number that was issued.
use prim.Prelude.{
  ℕ, ◌+◌, ◌≤◌, ◌≡◌, refl, ◌⊎◌, inl, inr, ◌<◌, ◌^◌, Bool, Option, none, some, length, take, slice,
  le→leb, arith,
}
use prim.External.ByteOrder.{Bytes, ByteOrder}
use prim.External.Primitive.{FromPrimitive}
use prim.Entity.Env.{Env}
use prim.Entity.ResourceId
use prim.Entity.ResourceId.{ReqwestResourceId}
use prim.Entity.Reqwest.{ReqwestMsg}
use prim.Entity.Reqwest.Fields.{layout}
use prim.Entity.Reqwest.Laws.{Holds, layout-Holds, with_resource_id_payload-layout}
use prim.Seqnum.Store.{Store}
use prim.Seqnum.Handler.{Io, issue, run}

module _ ⦃bo : ByteOrder⦄ ⦃p : FromPrimitive ResourceId.value⦄ where
  -- A request with a key of 16 bytes or more is answered with what `issue` does for that key: the
  -- number as the eight bytes of the payload under the resource of the request, or the error of
  -- the write.
  pub run_lem :
      (env : Env) (io : Io) (exactly_mode : Bool) (w id : ℕ) (r : ReqwestResourceId)
      (content : Bytes) (msg : ReqwestMsg) (s s' : Store) (issued : Option ℕ)
      → Holds msg id r content
      → 16 ≤ length content
      → issue env io exactly_mode w (bo.read 16 (take 16 content)) s ≡ some (s', issued)
      → ((issued ≡ none) × (run env io exactly_mode w msg s ≡ some (s', none)))
        ⊎ ((n : ℕ) × (reply : ReqwestMsg) × (issued ≡ some n)
            × (run env io exactly_mode w msg s ≡ some (s', some reply))
            × Holds reply 0 r (bo.write 8 n))
  unfolding run slice
  run_lem env io exactly_mode w id r content msg s s' none holds long result =
      inl (refl, rw (holds.has_payload, le→leb 16 (length content) long, result) refl)
  run_lem env io exactly_mode w id r content msg s s' (some n) holds long result =
      let fits : length (bo.write 8 n) + 10 < 2 ^ 16 = omega (arith, bo.length-write 8 n) in
      inr (
        n,
        layout (length (bo.write 8 n) + 10) 0 (ResourceId.value r) (bo.write 8 n),
        refl,
        rw
            (
              holds.has_payload,
              le→leb 16 (length content) long,
              result,
              holds.has_resource,
              with_resource_id_payload-layout env r (bo.write 8 n) fits,
            )
            refl,
        layout-Holds 0 r (bo.write 8 n) fits (omega arith),
      )
