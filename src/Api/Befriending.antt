-- ===== src/Api/Befriending.antt =====
-- The handlers of relationships change no role.
use prim.Prelude.{ℕ, ◌≡◌, refl, sym, subst, ◌⊎◌, inl, inr, Bool, true, false, Option, arith}
use prim.Prelude.Action.{Keeps, Keeps-bind, keeps_rules}
use prim.External.ByteOrder.{Bytes, ByteOrder}
use prim.External.Primitive.{FromPrimitive}
use prim.External.Value.{JsonValue}
use prim.Entity.Env.{Env}
use prim.Entity.MsgType.{MsgType}
use prim.Api.{says, request_mismatch, role}
use prim.Api.Tables
use prim.Api.Tables.{
  UserRelationship, World, Outside, Handler, or_reply, execute, get_user_id, del_redis,
  insert_relationship,
}
use prim.Api.Verify.{Authorization, role_of}
use prim.Api.Friends.{
  status_value, AddFriendReq, ConfirmAddFriendReq, UpdateRelationshipReq, not_applied, applied,
  get_friend_list, get_peer_relationship, pushed_or_forgotten, push_text, add_friend, delete_friend,
  new_friend, confirm_add_friend, own_row, other_row, write_rows, change_relationship,
  put_relationship, refuse_internal,
}
use prim.Api.Kept.{says_admin}
use prim.Api.Yields.{Yields-bind, or_reply-Yields}
use prim.Api.Steps.{
  OnlyAdmins, IsAllowed, untouched-Keeps, set_redis-Keeps, get_redis-Keeps, call_push_msg-Keeps,
  delete_relationship-Keeps, update_relationship-Keeps, insert_relationship-Keeps,
  get_user_id_peer_id-Yields,
}
use prim.Api.Plain.{reply_rules, verified-Keeps, get_user_id_peer_id-Keeps, ensure-Keeps}

module _ {V : Type 0} {Inv : World V → Type 0} where
  not_applied-Keeps : (found : Bytes ⊎ Bytes) → Keeps Inv (not_applied found)
  not_applied-Keeps (inr value) = search keeps_rules
  not_applied-Keeps (inl e) = search keeps_rules

  applied-Keeps : (found : Bytes ⊎ Bytes) → Keeps Inv (applied found)
  applied-Keeps (inr value) = search keeps_rules
  applied-Keeps (inl e) = search keeps_rules

module _ {V : Type 0} ⦃bo : ByteOrder⦄ ⦃json : JsonValue V⦄ {P : ℕ → ℕ → Type 0} (outside : Outside)
    (env : Env) where
  get_user_id-Keeps :
      (user_id number offset : ℕ)
      → Keeps (OnlyAdmins {V = V} P) (get_user_id {V = V} outside user_id number offset)
  unfolding get_user_id
  get_user_id-Keeps user_id number offset = record { at = λ w inv. record { only = inv.only } }

  del_redis-Keeps : (key : Bytes) → Keeps (OnlyAdmins {V = V} P) (execute outside (del_redis key))
  unfolding del_redis
  del_redis-Keeps key = untouched-Keeps outside _ (λ w. refl)

  pub get_friend_list-Keeps :
      (authorization : Authorization) (query_number query_offset : Option ℕ)
      → Keeps
          (OnlyAdmins {V = V} P)
          (get_friend_list {V = V} outside authorization query_number query_offset)
  unfolding get_friend_list
  get_friend_list-Keeps authorization query_number query_offset =
      search (reply_rules, verified-Keeps outside env, get_user_id-Keeps) depth 24

  pub get_peer_relationship-Keeps :
      (authorization : Authorization) (query : Option ℕ)
      → Keeps (OnlyAdmins {V = V} P) (get_peer_relationship {V = V} outside authorization query)
  unfolding get_peer_relationship
  get_peer_relationship-Keeps authorization query =
      search (reply_rules, verified-Keeps outside env, get_user_id_peer_id-Keeps outside env) depth
        24

  pushed_or_forgotten-Keeps :
      (key : Bytes) (pushed : Bool)
      → Keeps (OnlyAdmins {V = V} P) (pushed_or_forgotten {V = V} outside key pushed)
  unfolding pushed_or_forgotten
  pushed_or_forgotten-Keeps key true = search reply_rules
  pushed_or_forgotten-Keeps key false = search (reply_rules, del_redis-Keeps)

  push_text-Keeps :
      (typ : MsgType) (user_id peer_id : ℕ) (payload : Bytes)
      → Keeps (OnlyAdmins {V = V} P) (push_text {V = V} outside env typ user_id peer_id payload)
  unfolding push_text
  push_text-Keeps typ user_id peer_id payload =
      search (reply_rules, call_push_msg-Keeps outside) depth 14

  pub add_friend-Keeps :
      (authorization : Authorization) (sent : Bytes ⊎ AddFriendReq)
      → Keeps (OnlyAdmins {V = V} P) (add_friend {V = V} outside env authorization sent)
  unfolding add_friend
  add_friend-Keeps authorization sent =
      search
        (
          reply_rules,
          verified-Keeps outside env,
          get_redis-Keeps outside,
          set_redis-Keeps outside,
          not_applied-Keeps,
          push_text-Keeps,
          pushed_or_forgotten-Keeps,
        )
        depth 30

  pub delete_friend-Keeps :
      (authorization : Authorization) (query : Option ℕ)
      → Keeps (OnlyAdmins {V = V} P) (delete_friend {V = V} outside env authorization query)
  unfolding delete_friend
  delete_friend-Keeps authorization query =
      search
        (
          reply_rules,
          verified-Keeps outside env,
          get_user_id_peer_id-Keeps outside env,
          delete_relationship-Keeps outside,
          push_text-Keeps,
        )
        depth 40

  friend-Keeps :
      (a b : ℕ)
      → Keeps
          (OnlyAdmins {V = V} P)
          (execute outside (insert_relationship (new_friend {V = V} outside env a b)))
  unfolding role_of
  friend-Keeps a b =
      insert_relationship-Keeps outside (new_friend outside env a b)
        (λ e. absurd (ground (arith, e, json.get-null role)))

  pub confirm_add_friend-Keeps :
      (authorization : Authorization) (sent : Bytes ⊎ ConfirmAddFriendReq)
      → Keeps (OnlyAdmins {V = V} P) (confirm_add_friend {V = V} outside env authorization sent)
  unfolding confirm_add_friend
  confirm_add_friend-Keeps authorization sent =
      search
        (
          reply_rules,
          verified-Keeps outside env,
          get_redis-Keeps outside,
          applied-Keeps,
          del_redis-Keeps,
          friend-Keeps,
          call_push_msg-Keeps outside,
        )
        depth 50

  -- A row that was found stays as it is but for what says nothing of a role.
  allowed_row :
      (a b : ℕ) (r : UserRelationship V)
      → IsAllowed P a b r
      → says_admin (role_of r.info) ≡ true
      → P r.user_id r.peer_id
  allowed_row a b r known said =
      subst (λ k. P k r.peer_id) (sym known.same_user)
        (subst (P a) (sym known.same_group) (known.allowed said))

  module _ ⦃fp : FromPrimitive status_value⦄ where
    own_row-Keeps :
        (a b : ℕ) (form : UpdateRelationshipReq) (r : UserRelationship V)
        → IsAllowed P a b r
        → Keeps
            (OnlyAdmins {V = V} P)
            (execute outside (Tables.update_relationship (own_row {V = V} outside env form r)))
    own_row-Keeps a b form r known =
        update_relationship-Keeps outside (own_row outside env form r) (allowed_row a b r known)

    other_row-Keeps :
        (a b : ℕ) (form : UpdateRelationshipReq) (r : UserRelationship V)
        → IsAllowed P a b r
        → Keeps
            (OnlyAdmins {V = V} P)
            (execute outside (Tables.update_relationship (other_row {V = V} outside env form r)))
    other_row-Keeps a b form r known =
        update_relationship-Keeps outside (other_row outside env form r) (allowed_row a b r known)

    write_rows-Keeps :
        (user_id : ℕ) (form : UpdateRelationshipReq) (res1 res2 : UserRelationship V)
        → IsAllowed P user_id form.peer_id res1
        → IsAllowed P form.peer_id user_id res2
        → Keeps (OnlyAdmins {V = V} P) (write_rows {V = V} outside env user_id form res1 res2)
    unfolding write_rows
    write_rows-Keeps user_id form res1 res2 known1 known2 =
        Keeps-bind _ _ (own_row-Keeps user_id form.peer_id form res1 known1) λ updated1.
          Keeps-bind _ _ (ensure-Keeps updated1 (refuse_internal 400)) λ x.
            Keeps-bind _ _ (other_row-Keeps form.peer_id user_id form res2 known2)
              λ updated2. search (reply_rules, push_text-Keeps) depth 14

    change_relationship-Keeps :
        (user_id : ℕ) (form : UpdateRelationshipReq)
        → Keeps (OnlyAdmins {V = V} P) (change_relationship {V = V} outside env user_id form)
    unfolding change_relationship
    change_relationship-Keeps user_id form =
        Yields-bind _ _ _ (get_user_id_peer_id-Yields outside user_id form.peer_id) λ found1 finds1.
          Yields-bind _ _ _ (or_reply-Yields found1 (request_mismatch 400 (says "not friend.")))
            λ res1 is_res1.
              Yields-bind _ _ _ (get_user_id_peer_id-Yields outside form.peer_id user_id)
                λ found2 finds2.
                  Yields-bind _ _ (write_rows outside env user_id form res1)
                    (or_reply-Yields found2 (request_mismatch 400 (says "not friend.")))
                    λ res2 is_res2.
                      write_rows-Keeps user_id form res1 res2 (finds1 res1 is_res1)
                        (finds2 res2 is_res2)

    pub put_relationship-Keeps :
        (authorization : Authorization) (sent : Bytes ⊎ UpdateRelationshipReq)
        → Keeps (OnlyAdmins {V = V} P) (put_relationship {V = V} outside env authorization sent)
    unfolding put_relationship
    put_relationship-Keeps authorization sent =
        search (reply_rules, verified-Keeps outside env, change_relationship-Keeps) depth 14
