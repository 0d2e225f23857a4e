-- ===== src/Api/Steps.antt =====
-- What each part of a handler keeps, and what is known of its result.
use prim.Prelude.{
  ℕ, ◌≡◌, refl, subst, ◌⊎◌, inl, inr, Bool, true, false, Option, none, some, List, Option-cases,
  ◌++◌, arith,
}
use prim.Prelude.Decimal.{to_string}
use prim.Prelude.Action.{Result, ok, err, panicked, ◌>>=◌, pure, raise, panic, continue, Keeps}
use prim.External.ByteOrder.{Bytes}
use prim.External.Value.{JsonValue}
use prim.Entity.Msg.{Msg}
use prim.Api.{Reason, HandlerError, Stop, user_token}
use prim.Api.Tables.{
  Group, UserRelationship, User, World, Outcome, fails, lost, works, Outside, chosen, redis_answer,
  count_call, carried_out, execute, query, get_redis, get_group_id, get_user_id_peer_id,
  get_account_id, call_push_msg, relationships_of, insert_group, update_group, set_redis, push,
  insert_relationship, update_relationship, delete_relationship,
}
use prim.Api.Verify.{
  Authorization, check_token, check_audience, or_refused, verify_user, verified, role_of,
}
use prim.Api.Kept.{
  is_admin_of, says_admin, is_admin_of-append, is_admin_of-set_relationship,
  is_admin_of-mark_deleted, choose-IsFound, row_admin_lem,
}
use prim.Api.Yields.{Holds, Yields, YieldsFrom}

-- Admins are only those that `P` allows.
pub record OnlyAdmins {V : Type 0} ⦃json : JsonValue V⦄ (P : ℕ → ℕ → Type 0) (w : World V)
    : Type 0 where
  pub only : (u g : ℕ) → is_admin_of u g w.relationships ≡ true → P u g

-- What is known of a row that a handler has read.
pub record IsAllowed {V : Type 0} ⦃json : JsonValue V⦄ (P : ℕ → ℕ → Type 0) (a b : ℕ)
    (r : UserRelationship V) : Type 0 where
  pub same_user : r.user_id ≡ a
  pub same_group : r.peer_id ≡ b
  pub allowed : says_admin (role_of r.info) ≡ true → P a b

-- The token names the user and fits the key that Redis has for that user.
pub record Proves (outside : Outside) (authorization : Authorization) (redis : Bytes → Option Bytes)
    (u : ℕ) : Type 0 where
  pub token : Bytes
  pub key : Bytes
  pub sent : authorization ≡ some (some token)
  pub names : outside.audience_of_token token ≡ inr u
  pub has_key : redis (user_token ++ to_string u) ≡ some key
  pub fits : outside.verify_token token key u ≡ none

-- What is known of the user that a request was checked to be from.
abbrev IsChecked : Outside → Authorization → (Bytes → Option Bytes) → Reason ⊎ ℕ → Type 0
IsChecked outside authorization redis x = (v : ℕ) → x ≡ inr v → Proves outside authorization redis v

redis_answer-key :
    (o : Outcome) (no_value : Bytes) (found : Option Bytes) (key : Bytes)
    → redis_answer o no_value found ≡ inr key
    → found ≡ some key
redis_answer-key (fails t) no_value found key e = absurd (ground (arith, e))
redis_answer-key (lost t) no_value found key e = absurd (ground (arith, e))
redis_answer-key (works i) no_value none key e = absurd (ground (arith, e))
redis_answer-key (works i) no_value (some k) key e = ground (arith, e)

check_token-Proves :
    (outside : Outside) (token : Bytes) (redis : Bytes → Option Bytes) (u : ℕ)
    (found : Bytes ⊎ Bytes) (v : ℕ)
    → ((key : Bytes) → found ≡ inr key → redis (user_token ++ to_string u) ≡ some key)
    → outside.audience_of_token token ≡ inr u
    → check_token outside token u found ≡ inr v
    → Proves outside (some (some token)) redis v
check_token-Proves outside token redis u (inl t) v has_key names e = absurd (ground (arith, e))
check_token-Proves outside token redis u (inr key) v has_key names e =
    elim (Option-cases (outside.verify_token token key u)) [
      | inl good ↦
          let same : u ≡ v = ground (arith, e, good) in
          subst (Proves outside (some (some token)) redis) same (record {
            token = token;
            key = key;
            sent = refl;
            names = names;
            has_key = has_key key refl;
            fits = good;
          })
      | inr (t, bad) ↦ absurd (ground (arith, e, bad))
    ]

module _ {V : Type 0} ⦃json : JsonValue V⦄ {P : ℕ → ℕ → Type 0} (outside : Outside) where
  carried_out-OnlyAdmins :
      (o : Outcome) (change : World V → World V) (w : World V)
      → OnlyAdmins P w
      → OnlyAdmins P (change w)
      → OnlyAdmins P (carried_out o change w).1
  carried_out-OnlyAdmins (fails e) change w before after = before
  carried_out-OnlyAdmins (lost e) change w before after = after
  carried_out-OnlyAdmins (works i) change w before after = after

  pub execute-Keeps :
      (change : World V → World V)
      → ((w : World V) → OnlyAdmins P w → OnlyAdmins P (change w))
      → Keeps (OnlyAdmins P) (execute outside change)
  unfolding execute
  execute-Keeps change k = record {
    at = λ w inv.
        let same : OnlyAdmins P (count_call w) = record { only = inv.only } in
        carried_out-OnlyAdmins (outside.outcome w.calls) change (count_call w) same
          (k (count_call w) same);
  }

  -- A change of anything but the rows of user_relationship.
  pub untouched-Keeps :
      (change : World V → World V)
      → ((w : World V) → (change w).relationships ≡ w.relationships)
      → Keeps (OnlyAdmins P) (execute outside change)
  untouched-Keeps change same = execute-Keeps change (λ w inv. record {
    only = λ u g e. inv.only u g (subst (λ rows. is_admin_of u g rows ≡ true) (same w) e);
  })

  pub update_group-Keeps : (g : Group V) → Keeps (OnlyAdmins P) (execute outside (update_group g))
  unfolding update_group
  update_group-Keeps g = untouched-Keeps _ (λ w. refl)

  pub insert_group-Keeps : (g : Group V) → Keeps (OnlyAdmins P) (execute outside (insert_group g))
  unfolding insert_group
  insert_group-Keeps g = untouched-Keeps _ (λ w. refl)

  pub set_redis-Keeps :
      (key value : Bytes) → Keeps (OnlyAdmins {V = V} P) (execute outside (set_redis key value))
  unfolding set_redis
  set_redis-Keeps key value = untouched-Keeps _ (λ w. refl)

  pub call_push_msg-Keeps :
      (msg : Msg) → Keeps {A = Bool} (OnlyAdmins P) (call_push_msg {V = V} outside msg)
  unfolding call_push_msg push
  call_push_msg-Keeps msg = untouched-Keeps _ (λ w. refl)

  pub delete_relationship-Keeps :
      (r : UserRelationship V) → Keeps (OnlyAdmins P) (execute outside (delete_relationship r))
  unfolding delete_relationship
  delete_relationship-Keeps r = execute-Keeps _ (λ w inv. record {
    only = λ u g e. inv.only u g (is_admin_of-mark_deleted u g r.id w.relationships e);
  })

  pub update_relationship-Keeps :
      (r : UserRelationship V)
      → (says_admin (role_of r.info) ≡ true → P r.user_id r.peer_id)
      → Keeps (OnlyAdmins P) (execute outside (update_relationship r))
  unfolding update_relationship
  update_relationship-Keeps r allowed = execute-Keeps _ (λ w inv. record {
    only = λ u g e. elim (is_admin_of-set_relationship u g w.relationships r e) [
      | inl before ↦ inv.only u g before
      | inr it ↦ row_admin_lem P u g (record r { deleted = false }) it allowed
    ];
  })

  pub insert_relationship-Keeps :
      (r : UserRelationship V)
      → (says_admin (role_of r.info) ≡ true → P r.user_id r.peer_id)
      → Keeps (OnlyAdmins P) (execute outside (insert_relationship r))
  unfolding insert_relationship
  insert_relationship-Keeps r allowed = execute-Keeps _ (λ w inv. record {
    only = λ u g e.
        elim (is_admin_of-append u g w.relationships (record r { id = w.next_id; deleted = false })
          e) [
            | inl before ↦ inv.only u g before
            | inr it ↦ row_admin_lem P u g (record r { id = w.next_id; deleted = false }) it allowed
          ];
  })

  pub get_redis-Keeps :
      (key : Bytes) → Keeps {A = Bytes ⊎ Bytes} (OnlyAdmins P) (get_redis {V = V} outside key)
  unfolding get_redis
  get_redis-Keeps key = record { at = λ w inv. record { only = inv.only } }

  pub query-Keeps :
      {A : Type 0} (rows : World V → List A)
      → Keeps {A = Option A} (OnlyAdmins P) (query outside rows)
  unfolding query
  query-Keeps rows = record { at = λ w inv. record { only = inv.only } }

  pub get_group_id-Keeps :
      (g : ℕ) → Keeps {A = Option (Group V)} (OnlyAdmins P) (get_group_id outside g)
  unfolding get_group_id
  get_group_id-Keeps g = query-Keeps _

  pub get_account_id-Keeps :
      (u : ℕ) → Keeps {A = Option User} (OnlyAdmins P) (get_account_id {V = V} outside u)
  unfolding get_account_id
  get_account_id-Keeps u = query-Keeps _

  chosen-IsAllowed :
      (a b : ℕ) (o : Outcome) (w : World V)
      → OnlyAdmins P w
      → (r : UserRelationship V) → chosen o (relationships_of a b w.relationships) ≡ some r
      → IsAllowed P a b r
  chosen-IsAllowed a b (fails t) w inv r e = absurd (ground (arith, e))
  chosen-IsAllowed a b (lost t) w inv r e = absurd (ground (arith, e))
  chosen-IsAllowed a b (works i) w inv r e =
      let f = choose-IsFound a b i w.relationships r e in
      record {
        same_user = f.same_user;
        same_group = f.same_group;
        allowed = λ h. inv.only a b (f.is_admin h);
      }

  pub get_user_id_peer_id-Yields :
      (a b : ℕ)
      → Yields
          (OnlyAdmins P)
          (λ (o : Option (UserRelationship V)).
            (r : UserRelationship V) → o ≡ some r → IsAllowed P a b r)
          (get_user_id_peer_id outside a b)
  unfolding get_user_id_peer_id query
  get_user_id_peer_id-Yields a b = record {
    at =
        λ w inv. (record { only = inv.only }, chosen-IsAllowed a b (outside.outcome w.calls) w inv);
  }

  check_audience_lem :
      (token : Bytes) (audience : Bytes ⊎ ℕ) (w : World V)
      → outside.audience_of_token token ≡ audience
      → OnlyAdmins P w
      → let r = check_audience {V = V} outside token audience w in
        OnlyAdmins P r.1 × Holds (IsChecked outside (some (some token)) w.redis) r.0
  unfolding ◌>>=◌ get_redis pure
  check_audience_lem token (inl t) w names inv = (inv, λ v e. absurd (ground (arith, e)))
  check_audience_lem token (inr u) w names inv =
      let key = user_token ++ to_string u in
      (
        record { only = inv.only },
        λ v e.
            check_token-Proves outside token w.redis u _ v
              (redis_answer-key (outside.outcome w.calls) outside.no_value (w.redis key)) names e,
      )

  verify_user_lem :
      (authorization : Authorization) (w : World V)
      → OnlyAdmins P w
      → let r = verify_user {V = V} outside authorization w in
        OnlyAdmins P r.1 × Holds (IsChecked outside authorization w.redis) r.0
  unfolding verify_user pure panic
  verify_user_lem none w inv = (inv, λ v e. absurd (ground (arith, e)))
  verify_user_lem (some none) w inv = (inv, tt)
  verify_user_lem (some (some token)) w inv =
      check_audience_lem token (outside.audience_of_token token) w refl inv

  continue-Proves :
      (error : Reason → HandlerError) (authorization : Authorization) (redis : Bytes → Option Bytes)
      (r : Result Stop (Reason ⊎ ℕ) × World V)
      → OnlyAdmins P r.1
      → Holds (IsChecked outside authorization redis) r.0
      → let s = continue r (or_refused outside error) in
        OnlyAdmins P s.1 × Holds (Proves outside authorization redis) s.0
  unfolding raise pure
  continue-Proves error authorization redis (ok (inl e), w) inv post = (inv, tt)
  continue-Proves error authorization redis (ok (inr v), w) inv post = (inv, post v refl)
  continue-Proves error authorization redis (err e, w) inv post = (inv, tt)
  continue-Proves error authorization redis (panicked, w) inv post = (inv, tt)

  -- A user that is verified is proved by what Redis had before the request.
  pub verified-YieldsFrom :
      (error : Reason → HandlerError) (authorization : Authorization) (w : World V)
      → YieldsFrom
          (OnlyAdmins P)
          (Proves outside authorization w.redis)
          w
          (verified {V = V} outside error authorization)
  unfolding verified ◌>>=◌
  verified-YieldsFrom error authorization w = record {
    at = λ inv.
        let (kept, post) = verify_user_lem authorization w inv in
        continue-Proves error authorization w.redis (verify_user outside authorization w) kept post;
  }
