-- ===== src/Net/Operator.antt =====
-- `ReqwestOperatorManager` of server/lib-net-tokio/src/net/mod.rs: which connection a request takes.
use prim.Prelude.{
  ℕ, zero, suc, ◌+◌, ◌-◌, ◌%◌, ◌^◌, ◌≤◌, ◌<◌, ◌≡◌, ◌≢◌, refl, sym, ap, subst, bit_or, true, false,
  Option, some, ◌>>=◌, List, [], ◌∷◌, length, take, drop, length-take, length-drop,
  take-append-drop, get_elem?, ltb, ltb→lt, ltb→le, arith, Bool-cases, ◌⊎◌, inl, inr, ◌∙◌,
}
use prim.External.ByteOrder.{ByteOrder}
use prim.Entity.Reqwest.{ReqwestMsg, set_req_id, write_at}
use prim.Entity.Reqwest.Fields.{write_at-after}

-- The loads of the operators, and the next request id.
pub record ReqwestOperatorManager : Type 0 where
  pub target_mask : ℕ
  pub req_id : ℕ
  pub load_list : List ℕ

-- `u64::MAX`
abbrev pub max_load : ℕ
max_load = 2 ^ 64 - 1

-- The loop over the loads from index `i` on: the index and the load of the first smallest one.
unfoldable pub least_from : ℕ → ℕ → ℕ → List ℕ → ℕ × ℕ
least_from min_index min_load i [] = (min_index, min_load)
least_from min_index min_load i (load_val ∷ rest) = elim (ltb load_val min_load) [
  | true ↦ least_from i load_val (i + 1) rest
  | false ↦ least_from min_index min_load (i + 1) rest
]

unfoldable pub add_load : ℕ → List ℕ → List ℕ
add_load i [] = []
add_load zero (load ∷ rest) = (load + 1) % 2 ^ 64 ∷ rest
add_load (suc i) (load ∷ rest) = load ∷ add_load i rest

module _ ⦃bo : ByteOrder⦄ where
  -- `call`: the manager afterwards, the index of the operator and the request as it is sent.
  -- `none` is the panic of an index where there is no operator.
  unfoldable pub call :
      ReqwestMsg → ReqwestOperatorManager → Option (ReqwestOperatorManager × ℕ × ReqwestMsg)
  unfolding least_from add_load
  call req manager = do
    let min_index = (least_from 0 max_load 0 manager.load_list).0
    _ ← get_elem? manager.load_list min_index
    let req_id = bit_or manager.req_id manager.target_mask
    req ← set_req_id req_id req
    some (
      record manager {
        load_list = add_load min_index manager.load_list;
        req_id = (manager.req_id + 1) % 2 ^ 64;
      },
      min_index,
      req,
    )

set_req_id-some :
    ⦃bo : ByteOrder⦄ (id : ℕ) (req : ReqwestMsg)
    → 10 ≤ length req
    → (sent : ReqwestMsg) × (set_req_id id req ≡ some sent)
unfolding set_req_id
set_req_id-some id req long = (
  _,
  ap (write_at 2 8 id) (sym (take-append-drop 2 req))
      ∙ write_at-after 2 8 id (take 2 req) (drop 2 req) (omega (arith, length-take 2 req))
          (omega (arith, length-drop 2 req)),
)

-- No load of the list is below `l`.
abbrev pub AreAtLeast : ℕ → List ℕ → Type 0
AreAtLeast l [] = Unit {0}
AreAtLeast l (load ∷ rest) = (l ≤ load) × AreAtLeast l rest

-- What the loop finds: a smallest load of the list, or the one that it started with.
record Least (mi ml i : ℕ) (loads : List ℕ) (result : ℕ × ℕ) : Type 0 where
  at_least : AreAtLeast (result.1) loads
  below : result.1 ≤ ml
  place :
      ((result.0 ≡ mi) × (result.1 ≡ ml))
      ⊎ ((k : ℕ) × (result.0 ≡ i + k) × (get_elem? loads k ≡ some (result.1)))

least_from-Least : (mi ml i : ℕ) (loads : List ℕ) → Least mi ml i loads (least_from mi ml i loads)
unfolding least_from
least_from-Least mi ml i [] = record {
  at_least = tt;
  below = omega arith;
  place = inl (refl, refl);
}
least_from-Least mi ml i (load ∷ rest) = elim (Bool-cases (ltb load ml)) [
  | inl less ↦
      let r = least_from-Least i load (i + 1) rest in
      let h = ltb→lt load ml less in
      rw (least_from, less)
        (record {
          at_least = (r.below, r.at_least);
          below = omega (arith, r.below);
          place = inr (elim r.place [
            | inl (same, same') ↦ (0, omega arith, ap some (sym same'))
            | inr (k, found, value) ↦ (suc k, omega arith, value)
          ]);
        })
  | inr more ↦
      let r = least_from-Least mi ml (i + 1) rest in
      let h = ltb→le load ml more in
      rw (least_from, more)
        (record {
          at_least = (omega (arith, r.below), r.at_least);
          below = r.below;
          place = elim r.place [
            | inl unchanged ↦ inl unchanged
            | inr (k, found, value) ↦ inr (suc k, omega arith, value)
          ];
        })
]

-- The load at index `i` is one higher than `load`, and nothing else of the list is another.
pub record IsRaised (i load : ℕ) (loads loads' : List ℕ) : Type 0 where
  pub one_more : get_elem? loads' i ≡ some (load + 1)
  pub same_length : length loads' ≡ length loads
  pub others : (j : ℕ) → j ≢ i → get_elem? loads' j ≡ get_elem? loads j

not_first :
    (j : ℕ) (loads : List ℕ) (l : ℕ) → j ≢ 0 → get_elem? (l ∷ drop 1 loads) j ≡ get_elem? loads j
not_first zero loads l apart = absurd (apart refl)
not_first (suc j) [] l apart = refl
not_first (suc j) (k ∷ loads) l apart = refl

behind :
    (i j l : ℕ) (loads loads' : List ℕ)
    → j ≢ suc i
    → ((k : ℕ) → k ≢ i → get_elem? loads' k ≡ get_elem? loads k)
    → get_elem? (l ∷ loads') j ≡ get_elem? (l ∷ loads) j
behind i zero l loads loads' apart same = refl
behind i (suc j) l loads loads' apart same = same j (λ e. apart (ap suc e))

add_load-IsRaised :
    (i load : ℕ) (loads : List ℕ)
    → load < max_load
    → get_elem? loads i ≡ some load
    → IsRaised i load loads (add_load i loads)
unfolding add_load
add_load-IsRaised i load [] small at = ground arith
add_load-IsRaised zero load (l ∷ loads) small at = record {
  one_more = ground (arith, small, at);
  same_length = refl;
  others = λ j apart. not_first j (l ∷ loads) ((l + 1) % 2 ^ 64) apart;
}
add_load-IsRaised (suc i) load (l ∷ loads) small at =
    let r = add_load-IsRaised i load loads small at in
    record {
      one_more = r.one_more;
      same_length = ap suc r.same_length;
      others = λ j apart. behind i j l loads (add_load i loads) apart r.others;
    }

module _ ⦃bo : ByteOrder⦄ where
  -- Where there is an operator and the first has a load below `u64::MAX`, a request of at least ten
  -- bytes goes to an operator whose load no other is below: that load goes up by one while the
  -- others stay, the request carries the next id combined with the mask, and the next id goes up.
  pub call_lem :
      (req : ReqwestMsg) (manager : ReqwestOperatorManager) (first : ℕ) (others : List ℕ)
      → manager.load_list ≡ first ∷ others
      → first < max_load
      → 10 ≤ length req
      → (i : ℕ) × (load : ℕ) × (sent : ReqwestMsg) × (loads : List ℕ) × (get_elem? manager.load_list
            i
          ≡ some load)
        × AreAtLeast load manager.load_list
        × (set_req_id (bit_or manager.req_id manager.target_mask) req ≡ some sent)
        × IsRaised i load manager.load_list loads
        × (call req manager
            ≡ some (
              record manager { load_list = loads; req_id = (manager.req_id + 1) % 2 ^ 64 },
              i,
              sent,
            ))
  unfolding call
  call_lem req manager first others loads small long =
      let found = least_from 0 max_load 0 manager.load_list in
      let r = least_from-Least 0 max_load 0 manager.load_list in
      let id = bit_or manager.req_id manager.target_mask in
      let bounded : AreAtLeast (found.1) (first ∷ others) =
        subst (AreAtLeast (found.1)) loads r.at_least in
      let placed : get_elem? manager.load_list (found.0) ≡ some (found.1) = elim r.place [
        | inl (same, same') ↦ absurd (omega (arith, bounded.0))
        | inr (k, here, value) ↦ ap (get_elem? manager.load_list) (omega (arith, here)) ∙ value
      ] in
      let (sent, writes) = set_req_id-some id req long in
      let low : found.1 < max_load = omega (arith, bounded.0) in
      (
        found.0,
        found.1,
        sent,
        add_load (found.0) manager.load_list,
        placed,
        r.at_least,
        writes,
        add_load-IsRaised (found.0) (found.1) manager.load_list low placed,
        rw (placed, writes) refl,
      )
