-- ===== src/Entity/Reqwest/Laws.antt =====
-- What the operations do on the layout of a request.
use prim.Prelude.{
  ℕ, ◌+◌, ◌%◌, ◌^◌, ◌≤◌, ◌<◌, ◌≡◌, refl, sym, ◌∙◌, ap, Option, some, ◌>>=◌, [], ◌++◌, append_assoc,
  append-nil, length, length-append, length-take, length-drop, take, drop, drop-append,
  take-append-drop, slice, slice_from, overwrite, overwrite-append, le→leb, ==_iff, arith,
}
use prim.External.ByteOrder.{Bytes, IsBytes, ByteOrder}
use prim.External.Primitive.{FromPrimitive}
use prim.Entity.Env.{Env, uninit, length-uninit}
use prim.Entity.Head.Frame.{IsBytes-take}
use prim.Entity.ResourceId
use prim.Entity.ResourceId.{ReqwestResourceId, from-value, value-lt}
use prim.Entity.Reqwest
use prim.Entity.Reqwest.{
  ReqwestMsg, read_at, write_at, body_length, req_id, set_req_id, resource_id, set_resource_id,
  with_resource_id_payload, pre_alloc, set_body,
}
use prim.Entity.Reqwest.Fields.{length-nil, layout, read_at-append, write_at-append, write_at-after}

module _ ⦃bo : ByteOrder⦄ where
  module _ ⦃p : FromPrimitive ResourceId.value⦄ where
    -- What a reader of the message sees: these parts, and a length field that counts every byte
    -- after itself.
    pub record Holds (msg : ReqwestMsg) (id : ℕ) (r : ReqwestResourceId) (content : Bytes)
        : Type 0 where
      pub counts : body_length msg ≡ some (length content + 10)
      pub whole : length msg ≡ length content + 12
      pub has_id : req_id msg ≡ some id
      pub has_resource : resource_id msg ≡ some r
      pub has_payload : Reqwest.payload msg ≡ some content

    length_parts :
        (n id k : ℕ)
        → (length (bo.write 2 n ++ bo.write 8 id) ≡ 10)
          × (length ((bo.write 2 n ++ bo.write 8 id) ++ bo.write 2 k) ≡ 12)
    length_parts n id k = (
      omega (
        arith,
        length-append (bo.write 2 n) (bo.write 8 id),
        bo.length-write 2 n,
        bo.length-write 8 id,
      ),
      omega (
        arith,
        length-append (bo.write 2 n ++ bo.write 8 id) (bo.write 2 k),
        length-append (bo.write 2 n) (bo.write 8 id),
        bo.length-write 2 n,
        bo.length-write 8 id,
        bo.length-write 2 k,
      ),
    )

    pub length-layout :
        (n id k : ℕ) (content : Bytes) → length (layout n id k content) ≡ length content + 12
    unfolding layout
    length-layout n id k content = omega (
      arith,
      length-append (bo.write 2 n) (bo.write 8 id ++ (bo.write 2 k ++ content)),
      length-append (bo.write 8 id) (bo.write 2 k ++ content),
      length-append (bo.write 2 k) content,
      bo.length-write 2 n,
      bo.length-write 8 id,
      bo.length-write 2 k,
    )

    -- The resource id and the payload are read whatever the length field says.
    pub layout-resource_id :
        (n id : ℕ) (r : ReqwestResourceId) (content : Bytes)
        → resource_id (layout n id (ResourceId.value r) content) ≡ some r
    unfolding layout resource_id
    layout-resource_id n id r content =
        let k = ResourceId.value r in
        rw
          (
            ← append_assoc (bo.write 2 n) (bo.write 8 id) (bo.write 2 k ++ content),
            read_at-append 10 2 k (bo.write 2 n ++ bo.write 8 id) content (length_parts n id k).0
                (value-lt r),
            from-value r,
          )
          refl

    pub layout-payload :
        (n id k : ℕ) (content : Bytes) → Reqwest.payload (layout n id k content) ≡ some content
    unfolding layout Reqwest.payload slice_from
    layout-payload n id k content =
        rw
          (le→leb 12 (length (layout n id k content)) (omega (arith, length-layout n id k content)))
          (ap some (
            ap (drop 12) (
              sym (append_assoc (bo.write 2 n) (bo.write 8 id) (bo.write 2 k ++ content))
              ∙ sym (append_assoc (bo.write 2 n ++ bo.write 8 id) (bo.write 2 k) content))
            ∙ drop-append 12 ((bo.write 2 n ++ bo.write 8 id) ++ bo.write 2 k) content
                (length_parts n id k).1))

    pub layout-Holds :
        (id : ℕ) (r : ReqwestResourceId) (content : Bytes)
        → length content + 10 < 2 ^ 16
        → id < 2 ^ 64
        → Holds (layout (length content + 10) id (ResourceId.value r) content) id r content
    unfolding layout body_length req_id
    layout-Holds id r content fits small =
        let n = length content + 10 in
        let k = ResourceId.value r in
        record {
          counts = read_at-append 0 2 n [] (bo.write 8 id ++ (bo.write 2 k ++ content)) refl fits;
          whole = length-layout n id k content;
          has_id =
              read_at-append 2 8 id (bo.write 2 n) (bo.write 2 k ++ content) (bo.length-write 2 n)
                small;
          has_resource = layout-resource_id n id r content;
          has_payload = layout-payload n id k content;
        }

    -- A length field that has wrapped around is the only trace of a payload that is too long.
    pub with_resource_id_payload_any :
        (env : Env) (r : ReqwestResourceId) (content : Bytes)
        → with_resource_id_payload env r content
          ≡ some (layout ((length content % 2 ^ 16 + 10) % 2 ^ 16) 0 (ResourceId.value r) content)
    unfolding with_resource_id_payload layout
    with_resource_id_payload_any env r content =
        let n = (length content % 2 ^ 16 + 10) % 2 ^ 16 in
        let k = ResourceId.value r in
        let u = uninit env 12 in
        let size : length u ≡ 12 = length-uninit env 12 in
        let ten : length (bo.write 2 n ++ bo.write 8 0) ≡ 10 = omega (
          arith,
          length-append (bo.write 2 n) (bo.write 8 0),
          bo.length-write 2 n,
          bo.length-write 8 0,
        ) in
        let nothing : drop 2 (drop 8 (drop 2 u)) ≡ [] = length-nil (drop 2 (drop 8 (drop 2 u))) (
          omega (
            arith,
            length-drop 2 (drop 8 (drop 2 u)),
            length-drop 8 (drop 2 u),
            length-drop 2 u,
          )) in
        rw
          (
            write_at-after 0 2 n [] u refl (omega arith),
            write_at-after 2 8 0 (bo.write 2 n) (drop 2 u) (bo.length-write 2 n)
                (omega (arith, length-drop 2 u)),
            ← append_assoc (bo.write 2 n) (bo.write 8 0) (drop 8 (drop 2 u)),
            write_at-after 10 2 k (bo.write 2 n ++ bo.write 8 0) (drop 8 (drop 2 u)) ten
                (omega (arith, length-drop 2 u, length-drop 8 (drop 2 u))),
            nothing,
            append-nil (bo.write 2 k),
            append_assoc (bo.write 2 n) (bo.write 8 0) (bo.write 2 k),
            append_assoc (bo.write 2 n) (bo.write 8 0 ++ bo.write 2 k) content,
            append_assoc (bo.write 8 0) (bo.write 2 k) content,
          )
          refl

    pub with_resource_id_payload-layout :
        (env : Env) (r : ReqwestResourceId) (content : Bytes)
        → length content + 10 < 2 ^ 16
        → with_resource_id_payload env r content
          ≡ some (layout (length content + 10) 0 (ResourceId.value r) content)
    with_resource_id_payload-layout env r content fits =
        let wraps : (length content % 2 ^ 16 + 10) % 2 ^ 16 ≡ length content + 10 = omega arith in
        with_resource_id_payload_any env r content
        ∙ ap (λ n. some (layout n 0 (ResourceId.value r) content)) wraps

    set_req_id-layout :
        (n id id' k : ℕ) (content : Bytes)
        → set_req_id id' (layout n id k content) ≡ some (layout n id' k content)
    unfolding set_req_id layout
    set_req_id-layout n id id' k content =
        write_at-append 2 8 id' (bo.write 2 n) (bo.write 8 id) (bo.write 2 k ++ content)
          (bo.length-write 2 n) (bo.length-write 8 id)

    -- A request that is built from a resource id and a payload of at most 65525 bytes, and is then
    -- given a request id, reads back as those three, and its length field counts the rest of it.
    pub with_resource_id_payload_lem :
        (env : Env) (id : ℕ) (r : ReqwestResourceId) (content : Bytes)
        → length content + 10 < 2 ^ 16
        → id < 2 ^ 64
        → (msg : ReqwestMsg) × ((with_resource_id_payload env r content >>= set_req_id id)
            ≡ some msg)
          × Holds msg id r content
    with_resource_id_payload_lem env id r content fits small =
        let n = length content + 10 in
        let k = ResourceId.value r in
        (
          layout n id k content,
          rw
              (
                with_resource_id_payload-layout env r content fits,
                set_req_id-layout n 0 id k content,
              )
              refl,
          layout-Holds id r content fits small,
        )

  set_body-append :
      (before old new : Bytes)
      → length before ≡ 2
      → length new ≡ length old
      → set_body new (before ++ old) ≡ some (before ++ new)
  unfolding set_body slice_from
  set_body-append before old new e h =
      let replaced : overwrite 2 new (before ++ old) ≡ before ++ new =
        ap (λ (o : Bytes). overwrite 2 new (before ++ o)) (sym (append-nil old))
        ∙ overwrite-append 2 before old new [] e h
        ∙ ap (λ (o : Bytes). before ++ o) (append-nil new) in
      rw
        (
          le→leb 2 (length (before ++ old)) (omega (arith, length-append before old)),
          drop-append 2 before old e,
          replaced,
        )
        (ground (arith, ==_iff (length new) (length old)))

  -- The length field, as its two bytes.
  write-body_length :
      (msg : ReqwestMsg) (n : ℕ)
      → IsBytes msg
      → 2 ≤ length msg
      → body_length msg ≡ some n
      → bo.write 2 n ≡ take 2 msg
  unfolding body_length read_at slice
  write-body_length msg n bytes long counts =
      let counts' : Path (Option ℕ) (some (bo.read 2 (take 2 msg))) (some n) =
        rw (le→leb 2 (length msg) long) at counts in
      let found : bo.read 2 (take 2 msg) ≡ n = ground arith in
      ap (bo.write 2) (sym found)
      ∙ bo.write-read 2 (take 2 msg) (omega (arith, length-take 2 msg)) (IsBytes-take 2 msg bytes)

  -- For a request whose length field counts the bytes after it: the receiver allocates a message by
  -- that field and fills in the rest, and has the bytes that were sent, whatever the memory held.
  pub set_body-pre_alloc :
      (env : Env) (msg : ReqwestMsg) (n : ℕ)
      → IsBytes msg
      → body_length msg ≡ some n
      → length msg ≡ n + 2
      → (pre_alloc env n >>= set_body (drop 2 msg)) ≡ some msg
  unfolding pre_alloc
  set_body-pre_alloc env msg n bytes counts whole =
      let u = uninit env (n + 2) in
      let size : length u ≡ n + 2 = length-uninit env (n + 2) in
      rw
        (
          write_at-after 0 2 n [] u refl (omega arith),
          set_body-append (bo.write 2 n) (drop 2 u) (drop 2 msg) (bo.length-write 2 n)
              (omega (arith, length-drop 2 u, length-drop 2 msg)),
          write-body_length msg n bytes (omega arith) counts,
          take-append-drop 2 msg,
        )
        refl
