-- ===== src/Api/Info.antt =====
-- `get_group_info`, `update_group_info` and `get_group_user_list` of
-- server/api/src/handler/group.rs.
use prim.Prelude.{
  ℕ, ◌+◌, ◌-◌, ◌%◌, ◌^◌, ◌⊎◌, Option, none, some, List, [], ◌∷◌, length, take, drop, ltb,
  if◌then◌else◌,
}
use prim.Prelude.Action.{◌>>=◌, pure, raise, unwrap}
use prim.External.ByteOrder.{Bytes}
use prim.External.Value.{JsonValue, is_same}
use prim.Api.{
  says, parameter_mismatch, internal_error, request_mismatch, ResponseResult, admin, member,
}
use prim.Api.Tables
use prim.Api.Tables.{
  GroupStatus, Group, UserRelationship, Outside, Handler, or_reply, execute, get_group_id,
  get_user_id_peer_id, update_group,
}
use prim.Api.Verify.{Authorization, ensure, parsed, done, verified, require_admin}

pub record GroupInfoResp (V : Type 0) : Type 0 where
  pub name : Bytes
  pub avatar : Bytes
  pub admin_number : ℕ
  pub member_number : ℕ
  pub status : ℕ
  pub info : V

pub record UpdateGroupInfoReq (V : Type 0) : Type 0 where
  pub group_id : ℕ
  pub name : Option Bytes
  pub avatar : Option Bytes
  pub info : Option V

abbrev pub status_number : GroupStatus → ℕ
status_number Tables.GroupStatus.na = 0
status_number Tables.GroupStatus.normal = 1
status_number Tables.GroupStatus.banned = 2

-- `as_slice()[offset..limit]` with the bounds of the query, which are below 2^32.
unfoldable pub page : {A : Type 0} → ℕ → ℕ → List A → List A
page offset limit list =
    let first = if ltb (length list) offset then length list else offset in
    let last = if ltb (length list) (limit + first) then length list else limit + first in
    take (last - first) (drop first list)

abbrev pub or_old : Option Bytes → Bytes → Bytes
or_old none old = old
or_old (some new) old = new

module _ {V : Type 0} (outside : Outside) where
  unfoldable pub get_group_info : Option ℕ → Handler V (ResponseResult (GroupInfoResp V))
  unfolding get_group_id ◌>>=◌ pure raise
  get_group_info query = do
    group_id ← or_reply query (parameter_mismatch (says "group id is required."))
    found ← get_group_id outside group_id
    group ← or_reply found (internal_error (says "internal server error."))
    done (record {
      name = group.name;
      avatar = group.avatar;
      admin_number = length group.admin_list % 2 ^ 32;
      member_number = length group.member_list % 2 ^ 32;
      status = status_number group.status;
      info = group.info;
    })

  unfoldable pub get_group_user_list :
      Option ℕ → Option Bytes → Option ℕ → Option ℕ → Handler V (ResponseResult (List V))
  unfolding get_group_id page ◌>>=◌ pure raise
  get_group_user_list query_group query_role query_offset query_limit = do
    group_id ← or_reply query_group (parameter_mismatch (says "group id is required."))
    user_role ← or_reply query_role (parameter_mismatch (says "user role is required."))
    offset ← or_reply query_offset (parameter_mismatch (says "offset is required."))
    limit ← or_reply query_limit (parameter_mismatch (says "limit is required."))
    found ← get_group_id outside group_id
    group ← or_reply found (internal_error (says "group not found."))
    if is_same user_role admin
        then done (page offset limit group.admin_list)
        else if is_same user_role member
        then done (page offset limit group.member_list)
        else pure (record { code = 400; message = "user role is invalid."; data_ = [] })

  module _ ⦃json : JsonValue V⦄ where
    -- `for (k, v) in info_map { group_info_map.insert(..) }`
    abbrev pub merged : List (Bytes × V) → V → Option V
    merged [] info = some info
    merged ((key, value) ∷ fields) info = elim (json.insert key value info) [
      | none ↦ none
      | some changed ↦ merged fields changed
    ]

    -- Without new information the old is kept; what is not an object panics.
    unfoldable pub new_info : Option V → V → Option V
    new_info none info = some info
    new_info (some given) info = elim (json.as_object given) [
      | none ↦ none
      | some fields ↦ elim (json.as_object info) [ none ↦ none | some old ↦ merged fields info ]
    ]

    unfoldable pub update_group_info :
        Authorization → Bytes ⊎ UpdateGroupInfoReq V → Handler V (ResponseResult (Unit {0}))
    unfolding verified get_group_id require_admin execute update_group new_info ◌>>=◌ pure raise
        unwrap
    update_group_info authorization sent = do
      user_id ← verified outside (λ e. request_mismatch 401 (says "unauthorized.")) authorization
      form ← parsed (request_mismatch 400) sent
      found ← get_group_id outside form.group_id
      group ← or_reply found (internal_error (says "internal server error."))
      _ ←
          require_admin outside user_id form.group_id
            (internal_error (says "internal server error."))
            (request_mismatch 403 (says "you are not admin of this group."))
      info ← unwrap (new_info form.info group.info)
      updated ← execute outside (
          update_group (record group {
            name = or_old form.name group.name;
            avatar = or_old form.avatar group.avatar;
            info = info;
          }))
      _ ← ensure updated (internal_error (says "internal server error."))
      done tt
