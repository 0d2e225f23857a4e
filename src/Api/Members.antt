-- ===== src/Api/Members.antt =====
-- `remove_member`, `approve_join` and `set_admin` of server/api/src/handler/group.rs.
use prim.Prelude.{
  ℕ, zero, suc, ◌+◌, Bool, true, false, not, ◌⊎◌, Option, none, some, List, [], ◌∷◌, ◌++◌, ◌==◌,
  if◌then◌else◌,
}
use prim.Prelude.Decimal.{to_string}
use prim.Prelude.Action.{◌>>=◌, pure, raise, unwrap}
use prim.External.ByteOrder.{Bytes, ByteOrder}
use prim.External.Value.{JsonValue, is_same}
use prim.Entity.Env.{Env}
use prim.Entity.MsgType.{MsgType}
use prim.Entity.Msg
use prim.Entity.Msg.{Msg}
use prim.Entity.Msg.Build.{raw}
use prim.Api.{
  says, parameter_mismatch, internal_error, request_mismatch, ResponseResult, admin, member, role,
  user_id_key, remark_key, reason_key, group_id_key, approved_key,
}
use prim.Api.Tables.{
  Group, UserRelationship, Outside, Handler, or_reply, execute, get_group_id, get_user_id_peer_id,
  get_account_id, update_group, insert_relationship, update_relationship, delete_relationship,
  call_push_msg,
}
use prim.Api.Verify.{
  Authorization, ensure, parsed, done, verified, role_of, user_id_of, require_admin,
}
use prim.Api.Join.{retain_others, new_relationship}

pub record ApproveJoinReq : Type 0 where
  pub group_id : ℕ
  pub peer_id : ℕ
  pub approved : Bool

pub record SetAdminReq : Type 0 where
  pub group_id : ℕ
  pub user_id : ℕ
  pub is_admin : Bool

abbrev pub counted : ℕ → Option ℕ → Option ℕ → Option ℕ
counted user_id none rest = none
counted user_id (some id) none = none
counted user_id (some id) (some n) = some (if id == user_id then n + 1 else n)

abbrev pub role_for : Bool → Bytes
role_for is_admin = if is_admin then admin else member

module _ {V : Type 0} where
  -- How many entries are of the user.
  unfoldable pub count_user : ⦃json : JsonValue V⦄ → ℕ → List V → Option ℕ
  unfolding user_id_of
  count_user user_id [] = some 0
  count_user user_id (entry ∷ entries) =
      counted user_id (user_id_of entry) (count_user user_id entries)

  module _ (outside : Outside) ⦃bo : ByteOrder⦄ ⦃json : JsonValue V⦄ (env : Env) where
    -- A message of a type with a JSON payload is made and pushed.
    unfoldable pub notify : MsgType → ℕ → ℕ → V → Handler V (Unit {0})
    unfolding raw call_push_msg ◌>>=◌ pure raise unwrap
    notify typ user_id peer_id payload = do
      msg ← unwrap (raw env user_id peer_id 0 (json.to_vec payload))
      typed ← unwrap (Msg.set_type typ msg)
      sent ← call_push_msg outside typed
      ensure sent (internal_error (says "internal server error."))

    unfoldable pub remove_member :
        Authorization → Option ℕ → Option ℕ → Option Bytes → Handler V (ResponseResult (Unit {0}))
    unfolding verified require_admin get_user_id_peer_id get_group_id execute update_group
        delete_relationship retain_others role_of notify ◌>>=◌ pure raise unwrap
    remove_member authorization query_user query_group query_reason = do
      user_id ← verified outside (λ e. internal_error (says "internal server error.")) authorization
      peer_id ← or_reply query_user (parameter_mismatch (says "peer id is required."))
      group_id ← or_reply query_group (parameter_mismatch (says "group id is required."))
      reason ← or_reply query_reason (parameter_mismatch (says "reason is required."))
      _ ←
          require_admin outside user_id group_id
            (internal_error (says "operation user id mismatch."))
            (request_mismatch 400 (says "operation user is not admin."))
      found_group ← get_group_id outside group_id
      group ← or_reply found_group (internal_error (says "operation group id mismatch."))
      found_peer ← get_user_id_peer_id outside peer_id group_id
      peer_group_list ← or_reply found_peer (internal_error (says "operation peer id mismatch."))
      peer_role ← unwrap (role_of peer_group_list.info)
      _ ← ensure (not (is_same peer_role admin)) (request_mismatch 400 (says "peer user is admin."))
      member_list ← unwrap (retain_others peer_id group.member_list)
      _ ← execute outside (update_group (record group { member_list = member_list }))
      _ ← execute outside (delete_relationship peer_group_list)
      _ ←
          notify MsgType.leave_group user_id peer_id
            (json.object ((user_id_key, json.number peer_id) ∷ (reason_key, json.text reason) ∷ []))
      done tt

    abbrev pub answer_of : ApproveJoinReq → Bool → V
    answer_of form approved =
        json.object
          ((group_id_key, json.number form.group_id) ∷ (approved_key, json.truth approved) ∷ [])

    -- The new row, and the entry of the list. Who asks for it is not looked at.
    unfoldable pub enter : ApproveJoinReq → Handler V (Unit {0})
    unfolding get_group_id get_account_id execute insert_relationship update_group ◌>>=◌ pure raise
        unwrap
    enter form = do
      found ← get_group_id outside form.group_id
      group ← or_reply found (internal_error (says "operation group id mismatch."))
      inserted ← execute outside (
          insert_relationship
            (new_relationship outside env form.peer_id form.group_id group.name member))
      _ ← ensure inserted (internal_error (says "user may already in the group."))
      found_user ← get_account_id outside form.peer_id
      user ← or_reply found_user (internal_error (says "account not found."))
      found_again ← get_group_id outside form.group_id
      group_again ← unwrap found_again
      let entry =
          json.object
            ((user_id_key, json.number form.peer_id) ∷ (remark_key, json.text user.nickname) ∷ [])
      _ ← execute outside (
          update_group (record group_again { member_list = group_again.member_list ++ entry ∷ [] }))
      pure tt

    unfoldable pub approve_join :
        Authorization → Bytes ⊎ ApproveJoinReq → Handler V (ResponseResult (Unit {0}))
    unfolding verified enter notify ◌>>=◌ pure raise
    approve_join authorization sent = do
      user_id ← verified outside (λ e. request_mismatch 401 (says "unauthorized.")) authorization
      form ← parsed (λ e. parameter_mismatch (says "approve join parameter mismatch.")) sent
      _ ←
          if form.approved
          then (do
            _ ← enter form
            notify MsgType.join_group user_id form.peer_id (answer_of form true))
          else notify MsgType.join_group user_id form.peer_id (answer_of form false)
      done tt

    -- The entry is added unless one is there.
    abbrev pub with_entry : ℕ → List V → ℕ → List V
    with_entry user_id entries zero =
        entries
        ++ json.object
            ((user_id_key, json.number user_id) ∷ (remark_key, json.text (to_string user_id)) ∷ [])
          ∷ []
    with_entry user_id entries (suc n) = entries

    -- The lists in which the user has changed sides.
    unfoldable pub moved_lists : SetAdminReq → Group V → Handler V (Group V)
    unfolding count_user retain_others ◌>>=◌ pure unwrap
    moved_lists form group =
        if form.is_admin
        then (do
          flag ← unwrap (count_user form.user_id group.admin_list)
          member_list ← unwrap (retain_others form.user_id group.member_list)
          pure (record group {
            admin_list = with_entry form.user_id group.admin_list flag;
            member_list = member_list;
          }))
        else (do
          flag ← unwrap (count_user form.user_id group.member_list)
          admin_list ← unwrap (retain_others form.user_id group.admin_list)
          pure (record group {
            member_list = with_entry form.user_id group.member_list flag;
            admin_list = admin_list;
          }))

    unfoldable pub store : UserRelationship V → Group V → Handler V (ResponseResult (Unit {0}))
    unfolding execute update_relationship update_group ◌>>=◌ pure raise
    store user_relationship group = do
      updated ← execute outside (update_relationship user_relationship)
      _ ← ensure updated (internal_error (says "internal server error."))
      updated_group ← execute outside (update_group group)
      _ ← ensure updated_group (internal_error (says "internal server error."))
      done tt

    unfoldable pub set_role :
        SetAdminReq → UserRelationship V → Handler V (ResponseResult (Unit {0}))
    unfolding get_group_id store moved_lists ◌>>=◌ pure raise unwrap
    set_role form user_relationship2 = do
      found_group ← get_group_id outside form.group_id
      group ← or_reply found_group (request_mismatch 400 (says "group not found."))
      info ← unwrap (json.insert role (json.text (role_for form.is_admin)) user_relationship2.info)
      changed ← moved_lists form group
      store (record user_relationship2 { info = info }) changed

    unfoldable pub change_role : SetAdminReq → Handler V (ResponseResult (Unit {0}))
    unfolding get_user_id_peer_id set_role ◌>>=◌ pure raise
    change_role form = do
      found2 ← get_user_id_peer_id outside form.user_id form.group_id
      user_relationship2 ← or_reply found2 (request_mismatch 400 (says "iser2 not in the group."))
      set_role form user_relationship2

    unfoldable pub set_admin :
        Authorization → Bytes ⊎ SetAdminReq → Handler V (ResponseResult (Unit {0}))
    unfolding verified require_admin change_role ◌>>=◌ pure raise
    set_admin authorization sent = do
      user_id ← verified outside (λ e. request_mismatch 401 (says "unauthorized.")) authorization
      form ← parsed (λ e. parameter_mismatch (says "set admin parameter mismatch.")) sent
      _ ←
          require_admin outside user_id form.group_id
            (request_mismatch 400 (says "not in the group."))
            (request_mismatch 400 (says "you are not admin of the group."))
      change_role form
