-- ===== src/Entity/Msg/BatchLaws.antt =====
-- What `with_uncompressed` packs: the longest run of messages that fits.
use prim.Prelude.{
  ℕ, zero, suc, ◌+◌, ◌^◌, ◌≤◌, ◌<◌, ◌≡◌, refl, ◌∙◌, subst, ◌⊎◌, inl, inr, Option, some, List, [],
  ◌∷◌, length, length-append, take, drop, arith, ltb, ltb→lt, ltb→le, Bool-cases,
}
use prim.External.ByteOrder.{ByteOrder}
use prim.External.Primitive.{FromPrimitive}
use prim.Entity.Env.{Env}
use prim.Entity.MsgType
use prim.Entity.Msg.{Msg}
use prim.Entity.Msg.Build.{head_of}
use prim.Entity.Msg.Layout.{IsMsg}
use prim.Entity.Msg.Built.{AreIds, plain_lem}
use prim.Entity.Msg.Batch.{
  batch_limit, fitting, joined, pack_first, Packed, empty_or_too_large, packed, with_uncompressed,
}

-- Nothing is left, or the next message does not fit after `size` bytes.
abbrev pub Stops : ℕ → List Msg → Type 0
Stops size [] = Unit {0}
Stops size (msg ∷ rest) = batch_limit < size + length msg

record Run (size i : ℕ) (list : List Msg) : Type 0 where
  count : ℕ
  in_list : count ≤ length list
  result : fitting size i list ≡ (i + count, size + length (joined (take count list)))
  fits : size + length (joined (take count list)) ≤ batch_limit
  stops : Stops (size + length (joined (take count list))) (drop count list)

fitting-Run : (size i : ℕ) (list : List Msg) → size ≤ batch_limit → Run size i list
unfolding fitting
fitting-Run size i [] h = record {
  count = 0;
  in_list = omega arith;
  result = ground arith;
  fits = omega arith;
  stops = tt;
}
fitting-Run size i (msg ∷ rest) h = elim (Bool-cases (ltb batch_limit (size + length msg))) [
  | inl over ↦ record {
    count = 0;
    in_list = omega arith;
    result = rw over (ground arith);
    fits = omega arith;
    stops = omega (arith, ltb→lt batch_limit (size + length msg) over);
  }
  | inr under ↦
      let r =
        fitting-Run (size + length msg) (i + 1) rest
          (ltb→le batch_limit (size + length msg) under) in
      let total : size + length msg + length (joined (take r.count rest))
          ≡ size + length (joined (take (suc r.count) (msg ∷ rest))) =
        omega (arith, length-append msg (joined (take r.count rest))) in
      record {
        count = suc r.count;
        in_list = omega (arith, r.in_list);
        result = rw under (r.result ∙ ground (arith, total));
        fits = omega (arith, total, r.fits);
        stops = subst (λ n. Stops n (drop r.count rest)) total r.stops;
      }
]

module _ ⦃bo : ByteOrder⦄ ⦃p : FromPrimitive MsgType.value⦄ where
  -- A batch was returned. It is a message with the bytes of the first `count` messages as its
  -- payload, at least one and as many as fit the limit, and the others are left over in order.
  pub record PacksPrefix (env : Env) (list : List Msg) (result : Option Packed) : Type 0 where
    pub count : ℕ
    pub batch : Msg
    pub returns : result ≡ some (packed batch (drop count list))
    pub some_packed : 0 < count
    pub in_list : count ≤ length list
    pub fits : length (joined (take count list)) ≤ batch_limit
    pub longest : Stops (length (joined (take count list))) (drop count list)
    pub holds :
        IsMsg batch
          (head_of env MsgType.na 0 0 0 0 (joined (take count list)) [])
          (joined (take count list))
          []

  pack_first_lem :
      (env : Env) (list : List Msg) (count : ℕ)
      → env.now < 2 ^ 46
      → 0 < count
      → count ≤ length list
      → length (joined (take count list)) ≤ batch_limit
      → Stops (length (joined (take count list))) (drop count list)
      → PacksPrefix env list (pack_first env list count (length (joined (take count list))))
  unfolding pack_first
  pack_first_lem env list zero now positive in_list fits stops = absurd (omega arith)
  pack_first_lem env list (suc count) now positive in_list fits stops =
      let content = joined (take (suc count) list) in
      let ids : AreIds env 0 0 0 = omega arith in
      let built = plain_lem env MsgType.na 0 0 0 0 content ids (omega arith) (omega arith) in
      record {
        count = suc count;
        batch = built.msg;
        returns = rw built.returns (ground arith);
        some_packed = positive;
        in_list = in_list;
        fits = fits;
        longest = stops;
        holds = built.is_msg;
      }

  abbrev Outcome : Env → List Msg → Option Packed → Type 0
  Outcome env list result =
      (Stops 0 list × (result ≡ some empty_or_too_large)) ⊎ PacksPrefix env list result

  pack_cases :
      (env : Env) (list : List Msg) (count : ℕ)
      → env.now < 2 ^ 46
      → count ≤ length list
      → length (joined (take count list)) ≤ batch_limit
      → Stops (length (joined (take count list))) (drop count list)
      → Outcome env list (pack_first env list count (length (joined (take count list))))
  pack_cases env list zero now in_list fits stops = inl (stops, unfold pack_first in refl)
  pack_cases env list (suc count) now in_list fits stops =
      inr (pack_first_lem env list (suc count) now (omega arith) in_list fits stops)

  -- `with_uncompressed` fails exactly when the list is empty or its first message is longer than
  -- the limit, and packs the longest prefix that fits otherwise.
  pub with_uncompressed_lem :
      (env : Env) (list : List Msg)
      → env.now < 2 ^ 46
      → (Stops 0 list × (with_uncompressed env list ≡ some empty_or_too_large))
        ⊎ PacksPrefix env list (with_uncompressed env list)
  unfolding with_uncompressed
  with_uncompressed_lem env list now =
      let r = fitting-Run 0 0 list (omega arith) in
      let content = joined (take r.count list) in
      let start : 0 + length content ≡ length content = omega arith in
      let found : fitting 0 0 list ≡ (r.count, length content) = r.result ∙ ground arith in
      rw (found, with_uncompressed)
        (pack_cases env list r.count now r.in_list (omega (arith, r.fits))
          (subst (λ n. Stops n (drop r.count list)) start r.stops))
