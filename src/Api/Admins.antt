-- ===== src/Api/Admins.antt =====
-- What a request can change about the admins of groups.
use prim.Prelude.{ℕ, ◌≡◌, refl, ◌⊎◌, inl, inr, true}
use prim.Prelude.Dict.{contains}
use prim.External.ByteOrder.{Bytes, ByteOrder}
use prim.External.Value.{JsonValue}
use prim.Entity.Env.{Env}
use prim.Api.Tables.{World, Outside}
use prim.Api.Verify.{Authorization}
use prim.Api.Members.{SetAdminReq}
use prim.Api.Requests
use prim.Api.Requests.{
  Request, join, leave, create, info, update, user_list, remove, approve, add, confirm, friends,
  drop, peer, put, handle,
}
use prim.External.Primitive.{FromPrimitive}
use prim.Api.Friends.{status_value}
use prim.Api.Befriending.{
  add_friend-Keeps, confirm_add_friend-Keeps, get_friend_list-Keeps, delete_friend-Keeps,
  get_peer_relationship-Keeps, put_relationship-Keeps,
}
use prim.Api.Appointing.{create_group-KeepsFrom, approve_join-Keeps, set_admin-KeepsFrom}
use prim.Api.Kept.{is_admin_of}
use prim.Api.Plain.{
  join_group-Keeps, leave_group-Keeps, get_group_info-Keeps, get_group_user_list-Keeps,
  update_group_info-Keeps, remove_member-Keeps,
}
use prim.Api.Steps.{OnlyAdmins, Proves}

-- A form that makes the user an admin was sent by one who is an admin of the group.
pub record IsPromoted {V : Type 0} ⦃json : JsonValue V⦄ (outside : Outside)
    (authorization : Authorization) (sent : Bytes ⊎ SetAdminReq) (w : World V) (u g : ℕ)
    : Type 0 where
  pub form : SetAdminReq
  pub is_sent : sent ≡ inr form
  pub same_user : u ≡ form.user_id
  pub same_group : g ≡ form.group_id
  pub promotes : form.is_admin ≡ true
  pub caller : ℕ
  pub proves : Proves outside authorization w.redis caller
  pub is_admin : is_admin_of caller g w.relationships ≡ true

-- A request may make `u` an admin of `g`: it creates the group, and `u` is who asks, or it is one
-- of `set_admin`.
pub IsGranted : {V : Type 0} → ⦃json : JsonValue V⦄ → Outside → Request V → World V → ℕ → ℕ → Type 0
IsGranted outside (create draws authorization sent) w u g =
    Proves outside authorization w.redis u × (contains g draws ≡ true)
IsGranted outside (Requests.admin authorization sent) w u g =
    IsPromoted outside authorization sent w u g
IsGranted outside _ w u g = ⊥

module _ {V : Type 0} ⦃bo : ByteOrder⦄ ⦃json : JsonValue V⦄ ⦃fp : FromPrimitive status_value⦄
    (outside : Outside) (env : Env) where
  abbrev Allowed : Request V → World V → ℕ → ℕ → Type 0
  Allowed request w u g = (is_admin_of u g w.relationships ≡ true) ⊎ IsGranted outside request w u g

  start-OnlyAdmins : (request : Request V) (w : World V) → OnlyAdmins (Allowed request w) w
  start-OnlyAdmins request w = record { only = λ u g e. inl e }

  promoted :
      (authorization : Authorization) (sent : Bytes ⊎ SetAdminReq) (w : World V) (u : ℕ)
      (form : SetAdminReq)
      → Proves outside authorization w.redis u
      → sent ≡ inr form
      → form.is_admin ≡ true
      → Allowed (Requests.admin authorization sent) w u form.group_id
      → Allowed (Requests.admin authorization sent) w form.user_id form.group_id
  unfolding IsGranted
  promoted authorization sent w u form proves is_form promotes (inl before) = inr (record {
    form = form;
    is_sent = is_form;
    same_user = refl;
    same_group = refl;
    promotes = promotes;
    caller = u;
    proves = proves;
    is_admin = before;
  })
  promoted authorization sent w u form proves is_form promotes (inr p) = inr (record {
    form = form;
    is_sent = is_form;
    same_user = refl;
    same_group = refl;
    promotes = promotes;
    caller = p.caller;
    proves = p.proves;
    is_admin = p.is_admin;
  })

  -- Whatever the tables hold and however the calls of the database, of Redis and of the scheduler
  -- end: a user whom the tables show as an admin of a group after a request was one before, or has
  -- asked by it, with a verified token, to create a group, for which the id was drawn; or the
  -- request is one of set_admin that makes this user an admin of this group, with a verified token of
  -- a user who was an admin of the group before. A verified token names the user and fits the key
  -- that Redis had for that user before the request.
  pub handle_admins :
      (request : Request V) (w : World V) (u g : ℕ)
      → is_admin_of u g (handle outside env request w).relationships ≡ true
      → (is_admin_of u g w.relationships ≡ true) ⊎ IsGranted outside request w u g
  unfolding handle IsGranted
  handle_admins (join authorization form) w =
      ((join_group-Keeps outside env authorization form).at w
        (start-OnlyAdmins (join authorization form) w)).only
  handle_admins (leave authorization query) w =
      ((leave_group-Keeps outside env authorization query).at w
        (start-OnlyAdmins (leave authorization query) w)).only
  handle_admins (create draws authorization form) w =
      ((create_group-KeepsFrom outside env draws authorization form w
          λ u g proves drawn. inr (proves, drawn)).at
        (start-OnlyAdmins (create draws authorization form) w)).only
  handle_admins (info query) w =
      ((get_group_info-Keeps outside env query).at w (start-OnlyAdmins (info query) w)).only
  handle_admins (update authorization form) w =
      ((update_group_info-Keeps outside env authorization form).at w
        (start-OnlyAdmins (update authorization form) w)).only
  handle_admins (user_list group user_role offset limit) w =
      ((get_group_user_list-Keeps outside env group user_role offset limit).at w
        (start-OnlyAdmins (user_list group user_role offset limit) w)).only
  handle_admins (remove authorization user group reason) w =
      ((remove_member-Keeps outside env authorization user group reason).at w
        (start-OnlyAdmins (remove authorization user group reason) w)).only
  handle_admins (approve authorization form) w =
      ((approve_join-Keeps outside env authorization form).at w
        (start-OnlyAdmins (approve authorization form) w)).only
  handle_admins (Requests.admin authorization form) w =
      ((set_admin-KeepsFrom outside env authorization form w (promoted authorization form w)).at
        (start-OnlyAdmins (Requests.admin authorization form) w)).only
  handle_admins (add authorization form) w =
      ((add_friend-Keeps outside env authorization form).at w
        (start-OnlyAdmins (add authorization form) w)).only
  handle_admins (confirm authorization form) w =
      ((confirm_add_friend-Keeps outside env authorization form).at w
        (start-OnlyAdmins (confirm authorization form) w)).only
  handle_admins (friends authorization number offset) w =
      ((get_friend_list-Keeps outside env authorization number offset).at w
        (start-OnlyAdmins (friends authorization number offset) w)).only
  handle_admins (drop authorization query) w =
      ((delete_friend-Keeps outside env authorization query).at w
        (start-OnlyAdmins (drop authorization query) w)).only
  handle_admins (peer authorization query) w =
      ((get_peer_relationship-Keeps outside env authorization query).at w
        (start-OnlyAdmins (peer authorization query) w)).only
  handle_admins (put authorization form) w =
      ((put_relationship-Keeps outside env authorization form).at w
        (start-OnlyAdmins (put authorization form) w)).only
