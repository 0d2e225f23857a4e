-- ===== src/Api/Kept.antt =====
-- What the rows of user_relationship say about admins, and what keeps it.
use prim.Prelude.{
  ℕ, zero, suc, ◌≡◌, subst, ◌⊎◌, Bool, true, false, not, ◌&&◌, ◌||◌, Option, none, some, List, [],
  ◌∷◌, ◌++◌, ◌==◌, if_lem, arith,
}
use prim.External.ByteOrder.{Bytes}
use prim.External.Value.{JsonValue, is_same}
use prim.Api.{admin}
use prim.Api.Tables.{UserRelationship, choose, relationships_of, set_relationship, mark_deleted}
use prim.Api.Verify.{role_of}

abbrev pub All : {A : Type 0} → (A → Type 0) → List A → Type 0
All Q [] = Unit {0}
All Q (x ∷ xs) = Q x × All Q xs

All-map :
    {A : Type 0} (Q R : A → Type 0) (xs : List A) → ((x : A) → Q x → R x) → All Q xs → All R xs
All-map Q R [] f all = tt
All-map Q R (x ∷ xs) f all = (f x all.0, All-map Q R xs f all.1)

choose-All :
    {A : Type 0} (Q : A → Type 0) (i : ℕ) (xs : List A) (x : A)
    → All Q xs
    → choose i xs ≡ some x
    → Q x
choose-All Q i [] x all e = absurd (ground (arith, e))
choose-All Q i (y ∷ []) x all e = subst Q (cc e) all.0
choose-All Q zero (y ∷ z ∷ xs) x all e = subst Q (cc e) all.0
choose-All Q (suc i) (y ∷ z ∷ xs) x all e = choose-All Q i (z ∷ xs) x all.1 e

abbrev pub says_admin : Option Bytes → Bool
says_admin none = false
says_admin (some user_role) = is_same user_role admin

module _ {V : Type 0} ⦃json : JsonValue V⦄ where
  abbrev pub row_admin : ℕ → ℕ → UserRelationship V → Bool
  row_admin user_id group_id row =
      (row.user_id == user_id)
      && (row.peer_id == group_id)
      && not row.deleted
      && says_admin (role_of row.info)

  pub row_admin_lem :
      (P : ℕ → ℕ → Type 0) (u g : ℕ) (row : UserRelationship V)
      → row_admin u g row ≡ true
      → (says_admin (role_of row.info) ≡ true → P row.user_id row.peer_id)
      → P u g
  row_admin_lem P u g row e allowed =
      let same_user : row.user_id ≡ u = ground (arith, e) in
      let same_group : row.peer_id ≡ g = ground (arith, e) in
      let says : says_admin (role_of row.info) ≡ true = ground (arith, e) in
      subst (λ k. P k g) same_user (subst (λ k. P row.user_id k) same_group (allowed says))

  -- Some row that is not deleted says that the user is an admin of the group.
  abbrev pub is_admin_of : ℕ → ℕ → List (UserRelationship V) → Bool
  is_admin_of user_id group_id [] = false
  is_admin_of user_id group_id (row ∷ rows) =
      row_admin user_id group_id row || is_admin_of user_id group_id rows

  pub is_admin_of-append :
      (u g : ℕ) (rows : List (UserRelationship V)) (r : UserRelationship V)
      → is_admin_of u g (rows ++ r ∷ []) ≡ true
      → (is_admin_of u g rows ≡ true) ⊎ (row_admin u g r ≡ true)
  is_admin_of-append u g [] r e = ground (arith, e)
  is_admin_of-append u g (row ∷ rows) r e = ground (arith, e, is_admin_of-append u g rows r)

  pub is_admin_of-set_relationship :
      (u g : ℕ) (rows : List (UserRelationship V)) (r : UserRelationship V)
      → is_admin_of u g (set_relationship r rows) ≡ true
      → (is_admin_of u g rows ≡ true) ⊎ (row_admin u g (record r { deleted = false }) ≡ true)
  is_admin_of-set_relationship u g [] r e = absurd (ground (arith, e))
  is_admin_of-set_relationship u g (row ∷ rows) r e =
      ground (arith, e, is_admin_of-set_relationship u g rows r)

  pub is_admin_of-mark_deleted :
      (u g id : ℕ) (rows : List (UserRelationship V))
      → is_admin_of u g (mark_deleted id rows) ≡ true
      → is_admin_of u g rows ≡ true
  is_admin_of-mark_deleted u g id [] e = e
  is_admin_of-mark_deleted u g id (row ∷ rows) e =
      ground (arith, e, is_admin_of-mark_deleted u g id rows)

  -- What is known of a row that was found among the rows.
  pub record IsFound (a b : ℕ) (rows : List (UserRelationship V)) (r : UserRelationship V)
      : Type 0 where
    pub same_user : r.user_id ≡ a
    pub same_group : r.peer_id ≡ b
    pub is_admin : says_admin (role_of r.info) ≡ true → is_admin_of a b rows ≡ true

  relationships_of-All :
      (a b : ℕ) (rows : List (UserRelationship V))
      → All (IsFound a b rows) (relationships_of a b rows)
  relationships_of-All a b [] = tt
  relationships_of-All a b (row ∷ rows) =
      let rest =
        All-map (IsFound a b rows) (IsFound a b (row ∷ rows)) (relationships_of a b rows)
          (λ r f. record {
            same_user = f.same_user;
            same_group = f.same_group;
            is_admin = λ e. ground (arith, f.is_admin e);
          })
          (relationships_of-All a b rows) in
      if_lem (All (IsFound a b (row ∷ rows)))
        ((row.user_id == a) && (row.peer_id == b) && not row.deleted) _ _
        (λ e. (
          record {
            same_user = ground (arith, e);
            same_group = ground (arith, e);
            is_admin = λ h. ground (arith, e, h);
          },
          rest,
        ))
        (λ e. rest)

  pub choose-IsFound :
      (a b i : ℕ) (rows : List (UserRelationship V)) (r : UserRelationship V)
      → choose i (relationships_of a b rows) ≡ some r
      → IsFound a b rows r
  choose-IsFound a b i rows r e =
      choose-All (IsFound a b rows) i (relationships_of a b rows) r (relationships_of-All a b rows)
        e
