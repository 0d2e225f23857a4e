-- ===== src/Api/Join.antt =====
-- `join_group`, `leave_group` and `create_group` of server/api/src/handler/group.rs.
use prim.Prelude.{
  ℕ, false, ◌⊎◌, inl, inr, Option, none, some, List, [], ◌∷◌, ◌++◌, ◌==◌, if◌then◌else◌,
}
use prim.Prelude.Decimal.{to_string}
use prim.Prelude.Action.{◌>>=◌, pure, raise, unwrap}
use prim.External.ByteOrder.{Bytes, ByteOrder}
use prim.External.Value.{JsonValue, is_same}
use prim.Entity.Env.{Env}
use prim.Entity.MsgType.{MsgType}
use prim.Entity.Msg
use prim.Entity.Msg.{Msg}
use prim.Entity.Msg.Build.{raw, raw2}
use prim.Api.{
  says, told, HandlerError, parameter_mismatch, internal_error, request_mismatch, still_drawing,
  ResponseResult, admin, member, role, user_id_key, remark_key, group_id_key, check_code_key,
  check_code_prefix, join_group_prefix, default_classification,
}
use prim.Api.Tables
use prim.Api.Tables.{
  Group, UserRelationship, World, Outside, Handler, or_reply, execute, get_redis, set_redis,
  get_group_id, get_user_id_peer_id, insert_group, update_group, insert_relationship,
  delete_relationship, call_push_msg,
}
use prim.Api.Verify.{Authorization, reply, ensure, parsed, done, verified, role_of, user_id_of}

pub record JoinGroupReq : Type 0 where
  pub group_id : ℕ
  pub check_code : Bytes

pub record CreateGroupReq : Type 0 where
  pub group_name : Bytes
  pub check_code : Bytes

module _ {V : Type 0} where
  -- `Err(e) => return Err(InternalError(e.to_string()))`
  abbrev pub or_internal : Bytes ⊎ Bytes → Handler V Bytes
  or_internal (inl e) = reply (internal_error (told e))
  or_internal (inr value) = pure value

  -- Of the entries of a list, those of other users.
  abbrev pub retained : ℕ → V → Option ℕ → Option (List V) → Option (List V)
  retained user_id entry none rest = none
  retained user_id entry (some id) none = none
  retained user_id entry (some id) (some rest) = some (if id == user_id then rest else entry ∷ rest)

  unfoldable pub retain_others : ⦃json : JsonValue V⦄ → ℕ → List V → Option (List V)
  unfolding user_id_of
  retain_others user_id [] = some []
  retain_others user_id (entry ∷ entries) =
      retained user_id entry (user_id_of entry) (retain_others user_id entries)

  module _ (outside : Outside) where
    -- A message is made for each entry and pushed.
    unfoldable pub push_all : (V → Handler V Msg) → HandlerError → List V → Handler V (Unit {0})
    unfolding call_push_msg ◌>>=◌ pure raise
    push_all message error [] = pure tt
    push_all message error (entry ∷ entries) = do
      msg ← message entry
      sent ← call_push_msg outside msg
      _ ← ensure sent error
      push_all message error entries

    module _ ⦃bo : ByteOrder⦄ ⦃json : JsonValue V⦄ (env : Env) where
      unfoldable pub join_msg : ℕ → JoinGroupReq → V → Handler V Msg
      unfolding raw2 ◌>>=◌ unwrap
      join_msg user_id form entry = do
        value ← unwrap (json.get user_id_key entry)
        admin_user_id ← unwrap (json.as_u64 value)
        msg ← unwrap (
            raw2 env user_id admin_user_id 0
              (json.to_vec (
                json.object (
                  (group_id_key, json.number form.group_id)
                  ∷ (check_code_key, json.text form.check_code)
                  ∷ [])))
              (to_string user_id))
        unwrap (Msg.set_type MsgType.join_group msg)

      -- The key in Redis is that of an application; that it expires after three days is left out.
      abbrev pub apply :
          ℕ → JoinGroupReq → Bytes → Bytes ⊎ Bytes → Handler V (ResponseResult (Unit {0}))
      apply user_id form key (inr code) =
          reply (request_mismatch 400 (says "you have already applied for joining this group."))
      apply user_id form key (inl e) = do
        noted ← execute outside (set_redis key form.check_code)
        _ ← ensure noted (internal_error (says ""))
        found ← get_group_id outside form.group_id
        group ← or_reply found (request_mismatch 406 (says "group not found."))
        _ ← push_all (join_msg user_id form) (internal_error (says "")) group.admin_list
        done tt

      unfoldable pub join_group :
          Authorization → Bytes ⊎ JoinGroupReq → Handler V (ResponseResult (Unit {0}))
      unfolding verified get_redis get_group_id execute set_redis push_all join_msg ◌>>=◌ pure raise
      join_group authorization sent = do
        user_id ← verified outside (request_mismatch 401) authorization
        form ← parsed parameter_mismatch sent
        answer ← get_redis outside (check_code_prefix ++ to_string form.group_id)
        check_code ← or_internal answer
        _ ←
            ensure (is_same check_code form.check_code)
              (request_mismatch 401 (says "check code mismatch"))
        let key = join_group_prefix ++ to_string user_id ++ 45 ∷ to_string form.group_id
        applied ← get_redis outside key
        apply user_id form key applied

      unfoldable pub leave_msg : ℕ → V → Handler V Msg
      unfolding raw user_id_of ◌>>=◌ unwrap
      leave_msg user_id entry = do
        admin_user_id ← unwrap (user_id_of entry)
        msg ← unwrap (raw env user_id admin_user_id 0 (to_string user_id))
        unwrap (Msg.set_type MsgType.leave_group msg)

      -- The lists without the user, by the role.
      abbrev pub leave_lists : ℕ → Bytes → Group V → Handler V (Group V)
      leave_lists user_id user_role group =
          if is_same user_role admin
          then (do
            admin_list ← unwrap (retain_others user_id group.admin_list)
            pure (record group { admin_list = admin_list }))
          else if is_same user_role member
          then (do
            member_list ← unwrap (retain_others user_id group.member_list)
            pure (record group { member_list = member_list }))
          else pure group

      unfoldable pub leave_group : Authorization → Option ℕ → Handler V (ResponseResult (Unit {0}))
      unfolding verified get_user_id_peer_id get_group_id execute delete_relationship update_group
          push_all leave_msg role_of retain_others ◌>>=◌ pure raise unwrap
      leave_group authorization query = do
        user_id ← verified outside (request_mismatch 401) authorization
        group_id ← or_reply query (parameter_mismatch (says "leave group parameter mismatch."))
        found ← get_user_id_peer_id outside user_id group_id
        user_relationship ← or_reply found (request_mismatch 400 (says "user not in this group."))
        found_group ← get_group_id outside group_id
        group ← or_reply found_group (request_mismatch 400 (says "group not found."))
        _ ←
            push_all (leave_msg user_id) (internal_error (says "internal server error."))
              group.admin_list
        _ ← execute outside (delete_relationship user_relationship)
        user_role ← unwrap (role_of user_relationship.info)
        changed ← leave_lists user_id user_role group
        updated ← execute outside (update_group changed)
        _ ← ensure updated (internal_error (says "internal server error."))
        done tt

      -- `fastrand` draws `draws` one after the other, until `get_group_id` gives an error.
      unfoldable pub draw : List ℕ → Handler V ℕ
      unfolding get_group_id ◌>>=◌ pure raise
      draw [] = raise still_drawing
      draw (group_id ∷ draws) = do
        found ← get_group_id outside group_id
        elim found [ none ↦ pure group_id | some group ↦ draw draws ]

      abbrev pub new_group : ℕ → ℕ → Bytes → Group V
      new_group user_id group_id name = record {
        id = 0;
        group_id = group_id;
        name = name;
        avatar = [];
        admin_list =
            json.object (
              (user_id_key, json.number user_id) ∷ (remark_key, json.text (to_string user_id)) ∷ [])
            ∷ [];
        member_list = [];
        status = Tables.GroupStatus.normal;
        info = json.object [];
        deleted = false;
      }

      -- The row of a user in a group.
      abbrev pub new_relationship : ℕ → ℕ → Bytes → Bytes → UserRelationship V
      new_relationship user_id group_id name user_role = record {
        id = 0;
        user_id = user_id;
        peer_id = group_id;
        remark = name;
        status = Tables.UserRelationshipStatus.normal;
        classification = default_classification;
        tag_list = [];
        info = json.object ((role, json.text user_role) ∷ []);
        deleted = false;
      }

      -- What follows once a number is found.
      unfoldable pub found_group : ℕ → CreateGroupReq → ℕ → Handler V (ResponseResult ℕ)
      unfolding execute set_redis insert_group insert_relationship ◌>>=◌ pure raise
      found_group user_id form group_id = do
        noted ←
            execute outside (set_redis (check_code_prefix ++ to_string group_id) form.check_code)
        _ ← ensure noted (internal_error (says "internal server error."))
        inserted ← execute outside (insert_group (new_group user_id group_id form.group_name))
        _ ← ensure inserted (internal_error (says "internal server error."))
        related ←
            execute outside
              (insert_relationship (new_relationship user_id group_id form.group_name admin))
        _ ← ensure related (internal_error (says "internal server error."))
        done group_id

      unfoldable pub create_group :
          List ℕ → Authorization → Bytes ⊎ CreateGroupReq → Handler V (ResponseResult ℕ)
      unfolding verified draw found_group ◌>>=◌ pure raise
      create_group draws authorization sent = do
        user_id ← verified outside (λ e. request_mismatch 401 (says "unauthorized.")) authorization
        form ← parsed (request_mismatch 400) sent
        group_id ← draw draws
        found_group user_id form group_id
