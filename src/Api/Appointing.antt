-- ===== src/Api/Appointing.antt =====
-- The handlers that add rows to user_relationship or change roles.
use prim.Prelude.{
  ℕ, ◌≡◌, refl, sym, subst, ◌∙◌, ◌⊎◌, inr, Bool, true, false, Option, none, some, List, [], ◌∷◌,
  arith,
}
use prim.Prelude.Dict.{contains}
use prim.Prelude.Action.{◌>>=◌, pure, raise, Keeps, Keeps-bind, keeps_rules}
use prim.External.ByteOrder.{Bytes, ByteOrder}
use prim.External.Value.{JsonValue}
use prim.Entity.Env.{Env}
use prim.Api.{says, request_mismatch, parameter_mismatch, admin, member, role}
use prim.Api.Tables.{World, Group, UserRelationship, Outside, execute, insert_relationship}
use prim.Api.Verify.{Authorization, role_of}
use prim.Api.Join.{CreateGroupReq, draw, new_relationship, found_group, create_group}
use prim.Api.Members.{
  ApproveJoinReq, SetAdminReq, enter, approve_join, role_for, moved_lists, store, set_role,
  change_role, set_admin,
}
use prim.Api.Kept.{says_admin}
use prim.Api.Plain.{
  require_admin-Yields, reply_rules, or_reply-Keeps, parsed-Keeps, notify-Keeps, verified-Keeps,
}
use prim.Api.Yields.{
  Yields-after, Holds-map, Yields, Yields-bind, YieldsFrom-bind, KeepsFrom, unwrap-Yields,
  or_reply-Yields, parsed-Yields,
}
use prim.Api.Steps.{
  OnlyAdmins, update_group-Keeps, insert_group-Keeps, set_redis-Keeps, update_relationship-Keeps,
  insert_relationship-Keeps, get_group_id-Keeps, get_account_id-Keeps, IsAllowed,
  get_user_id_peer_id-Yields, Proves, verified-YieldsFrom,
}

module _ (V : Type 0) ⦃json : JsonValue V⦄ where
  or_as_str :
      {found : Option V} (value : V)
      → found ≡ some value
      → (elim found [ none ↦ none | some value ↦ json.as_str value ]) ≡ json.as_str value
  or_as_str value e = cc e

  role_of_new :
      (user_role : Bytes)
      → role_of {V = V} (json.object ((role, json.text user_role) ∷ [])) ≡ some user_role
  unfolding role_of
  role_of_new user_role =
      or_as_str (json.text user_role) (json.get-object role (json.text user_role))
      ∙ json.as_str-text user_role

  role_of_inserted :
      (user_role : Bytes) (before changed : V)
      → json.insert role (json.text user_role) before ≡ some changed
      → role_of changed ≡ some user_role
  unfolding role_of
  role_of_inserted user_role before changed e =
      or_as_str (json.text user_role) (json.get-insert role (json.text user_role) before changed e)
      ∙ json.as_str-text user_role

  new_not_admin : says_admin (role_of {V = V} (json.object ((role, json.text member) ∷ []))) ≡ false
  new_not_admin = rw (role_of_new member) refl

module _ {V : Type 0} ⦃bo : ByteOrder⦄ ⦃json : JsonValue V⦄ {P : ℕ → ℕ → Type 0} (outside : Outside)
    (env : Env) where
  draw_on-Yields :
      (group_id : ℕ) (draws : List ℕ) (found : Option (Group V))
      → Yields (OnlyAdmins {V = V} P) (λ g. contains g draws ≡ true) (draw outside env draws)
      → Yields
          (OnlyAdmins {V = V} P)
          (λ g. contains g (group_id ∷ draws) ≡ true)
          (elim found [ none ↦ pure group_id | some group ↦ draw outside env draws ])
  unfolding pure
  draw_on-Yields group_id draws none y = record { at = λ w inv. (inv, ground arith) }
  draw_on-Yields group_id draws (some group) y = record {
    at = λ w inv.
        let (kept, post) = y.at w inv in
        (kept, Holds-map _ _ (draw outside env draws w).0 (λ g e. ground (arith, e)) post);
  }

  draw-Yields :
      (draws : List ℕ)
      → Yields (OnlyAdmins {V = V} P) (λ g. contains g draws ≡ true) (draw outside env draws)
  unfolding draw pure raise
  draw-Yields [] = record { at = λ w inv. (inv, tt) }
  draw-Yields (group_id ∷ draws) =
      Yields-after _ _ _ (get_group_id-Keeps outside group_id)
        λ found. draw_on-Yields group_id draws found (draw-Yields draws)

  new_relationship-Keeps :
      (u g : ℕ) (name user_role : Bytes)
      → (says_admin (role_of {V = V} (json.object ((role, json.text user_role) ∷ []))) ≡ true
          → P u g)
      → Keeps
          (OnlyAdmins {V = V} P)
          (execute outside (insert_relationship (new_relationship outside env u g name user_role)))
  new_relationship-Keeps u g name user_role allowed =
      insert_relationship-Keeps outside (new_relationship outside env u g name user_role) allowed

  member-Keeps :
      (u g : ℕ) (name : Bytes)
      → Keeps
          (OnlyAdmins {V = V} P)
          (execute outside (insert_relationship (new_relationship outside env u g name member)))
  member-Keeps u g name =
      let no : says_admin (role_of {V = V} (json.object ((role, json.text member) ∷ []))) ≡ false =
        new_not_admin V in
      new_relationship-Keeps u g name member (λ e. absurd (ground (arith, e, no)))

  found_group-Keeps :
      (user_id : ℕ) (form : CreateGroupReq) (group_id : ℕ)
      → P user_id group_id
      → Keeps (OnlyAdmins {V = V} P) (found_group outside env user_id form group_id)
  unfolding found_group
  found_group-Keeps user_id form group_id allowed =
      search
        (
          reply_rules,
          set_redis-Keeps outside,
          insert_group-Keeps outside,
          new_relationship-Keeps,
          λ (e : says_admin (role_of {V = V} (json.object ((role, json.text admin) ∷ []))) ≡ true).
              allowed,
        )
        depth 20

  pub create_group-KeepsFrom :
      (draws : List ℕ) (authorization : Authorization) (sent : Bytes ⊎ CreateGroupReq) (w : World V)
      → ((u g : ℕ) → Proves outside authorization w.redis u → contains g draws ≡ true → P u g)
      → KeepsFrom (OnlyAdmins P) w (create_group outside env draws authorization sent)
  unfolding create_group
  create_group-KeepsFrom draws authorization sent w allowed =
      YieldsFrom-bind _ _ _ w (verified-YieldsFrom outside _ authorization w) λ user_id proves.
        Keeps-bind _ _ (parsed-Keeps (request_mismatch 400) sent) λ form.
          Yields-bind _ _ (found_group outside env user_id form) (draw-Yields draws)
            λ group_id drawn.
              found_group-Keeps user_id form group_id (allowed user_id group_id proves drawn)

  enter-Keeps : (form : ApproveJoinReq) → Keeps (OnlyAdmins {V = V} P) (enter outside env form)
  unfolding enter
  enter-Keeps form =
      search
        (
          reply_rules,
          get_group_id-Keeps outside,
          get_account_id-Keeps outside,
          update_group-Keeps outside,
          member-Keeps,
        )
        depth 30

  pub approve_join-Keeps :
      (authorization : Authorization) (sent : Bytes ⊎ ApproveJoinReq)
      → Keeps (OnlyAdmins {V = V} P) (approve_join outside env authorization sent)
  unfolding approve_join
  approve_join-Keeps authorization sent =
      search (reply_rules, verified-Keeps outside env, enter-Keeps, notify-Keeps outside env) depth
        20

  -- A role that was changed to that of an admin, by an admin.
  changed-allowed :
      (is_admin : Bool) (u g : ℕ) (r : UserRelationship V) (info : V)
      → json.insert role (json.text (role_for is_admin)) r.info ≡ some info
      → IsAllowed P u g r
      → (is_admin ≡ true → P u g)
      → says_admin (role_of info) ≡ true
      → P r.user_id r.peer_id
  changed-allowed true u g r info e a allowed said =
      subst (λ k. P k r.peer_id) (sym a.same_user) (subst (P u) (sym a.same_group) (allowed refl))
  changed-allowed false u g r info e a allowed said =
      let now : role_of info ≡ some member = role_of_inserted V member r.info info e in
      absurd (ground (arith, said, now))

  store-Keeps :
      (r : UserRelationship V) (group : Group V)
      → (says_admin (role_of r.info) ≡ true → P r.user_id r.peer_id)
      → Keeps (OnlyAdmins {V = V} P) (store outside env r group)
  unfolding store
  store-Keeps r group allowed =
      Keeps-bind _ _ (update_relationship-Keeps outside r allowed)
        λ updated. search (reply_rules, update_group-Keeps outside) depth 14

  moved_lists-Keeps :
      (form : SetAdminReq) (group : Group V)
      → Keeps (OnlyAdmins {V = V} P) (moved_lists outside env form group)
  unfolding moved_lists
  moved_lists-Keeps form group = search keeps_rules depth 14

  set_role-Keeps :
      (form : SetAdminReq) (r : UserRelationship V)
      → IsAllowed P form.user_id form.group_id r
      → (form.is_admin ≡ true → P form.user_id form.group_id)
      → Keeps (OnlyAdmins {V = V} P) (set_role outside env form r)
  unfolding set_role
  set_role-Keeps form r row allowed =
      Keeps-bind _ _ (get_group_id-Keeps outside form.group_id) λ found.
        Keeps-bind _ _ (or_reply-Keeps found (request_mismatch 400 (says "group not found.")))
          λ group.
            Yields-bind _ _
              (λ info.
                moved_lists outside env form group >>= store outside env (record r { info = info }))
              (unwrap-Yields (json.insert role (json.text (role_for form.is_admin)) r.info))
              λ info is_info. Keeps-bind _ _ (moved_lists-Keeps form group) λ changed.
                store-Keeps (record r { info = info }) changed
                  (changed-allowed form.is_admin form.user_id form.group_id r info is_info row
                    allowed)

  change_role-Keeps :
      (form : SetAdminReq)
      → (form.is_admin ≡ true → P form.user_id form.group_id)
      → Keeps (OnlyAdmins {V = V} P) (change_role outside env form)
  unfolding change_role
  change_role-Keeps form allowed =
      Yields-bind _ _ _ (get_user_id_peer_id-Yields outside form.user_id form.group_id)
        λ found finds.
          Yields-bind _ _ (set_role outside env form)
            (or_reply-Yields found (request_mismatch 400 (says "iser2 not in the group.")))
            λ r is_r. set_role-Keeps form r (finds r is_r) allowed

  pub set_admin-KeepsFrom :
      (authorization : Authorization) (sent : Bytes ⊎ SetAdminReq) (w : World V)
      → ((u : ℕ) (form : SetAdminReq)
          → Proves outside authorization w.redis u
          → sent ≡ inr form
          → form.is_admin ≡ true
          → P u form.group_id
          → P form.user_id form.group_id)
      → KeepsFrom (OnlyAdmins P) w (set_admin outside env authorization sent)
  unfolding set_admin
  set_admin-KeepsFrom authorization sent w allowed =
      YieldsFrom-bind _ _ _ w (verified-YieldsFrom outside _ authorization w) λ user_id proves.
        Yields-bind _ _ _
          (parsed-Yields (λ e. parameter_mismatch (says "set admin parameter mismatch.")) sent)
          λ form is_form.
            Yields-bind _ _ (λ x. change_role outside env form)
              (require_admin-Yields outside env user_id form.group_id _ _)
              λ x passed. change_role-Keeps form λ e. allowed user_id form proves is_form e passed
