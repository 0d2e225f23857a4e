-- ===== src/Api/Friends.antt =====
-- The handlers of server/api/src/handler/relationship.rs.
pub mod Numbers
use prim.Prelude.{
  ℕ, ◌≡◌, Bool, true, false, not, ◌⊎◌, inl, inr, Option, none, some, List, [], ◌∷◌, ◌++◌, map, ltb,
  if◌then◌else◌,
}
use prim.Prelude.Decimal.{to_string}
use prim.Prelude.Action.{ok, ◌>>=◌, pure, raise, gets, unwrap}
use prim.External.ByteOrder.{Bytes, ByteOrder}
use prim.External.Primitive.{FromPrimitive}
use prim.External.Value.{JsonValue}
use prim.Entity.Env.{Env}
use prim.Entity.MsgType
use prim.Entity.MsgType.{MsgType}
use prim.Entity.Msg
use prim.Entity.Msg.{Msg}
use prim.Entity.Msg.Build.{text, text2}
use prim.Api.{
  Reason, says, HandlerError, parameter_mismatch, request_mismatch, ResponseResult,
  add_friend_prefix,
}
use prim.Api.Tables
use prim.Api.Tables.{
  UserRelationshipStatus, UserRelationship, World, Outside, Handler, or_reply, execute, get_redis,
  set_redis, del_redis, get_user_id, get_user_id_peer_id, insert_relationship, update_relationship,
  delete_relationship, call_push_msg,
}
use prim.Api.Verify.{Authorization, reply, ensure, parsed, done, verified}

pub record AddFriendReq : Type 0 where
  pub peer_id : ℕ
  pub remark : Bytes

pub record ConfirmAddFriendReq : Type 0 where
  pub peer_id : ℕ
  pub passed : Bool

pub record FriendListResp : Type 0 where
  pub peer_id : ℕ
  pub remark : Bytes
  pub status : ℕ
  pub classification : Bytes
  pub tag_list : List Bytes

pub record UpdateRelationshipReq : Type 0 where
  pub peer_id : ℕ
  pub remark : Option Bytes
  pub status : Option ℕ
  pub classification : Option Bytes
  pub tag_list : Option (List Bytes)

abbrev pub status_value : UserRelationshipStatus → ℕ
status_value Tables.UserRelationshipStatus.na = 0
status_value Tables.UserRelationshipStatus.normal = 1
status_value Tables.UserRelationshipStatus.lover = 2
status_value Tables.UserRelationshipStatus.best_friend = 3
status_value Tables.UserRelationshipStatus.deleting = 4
status_value Tables.UserRelationshipStatus.deleted = 5
status_value Tables.UserRelationshipStatus.blocked = 6

abbrev pub or_normal : Option UserRelationshipStatus → UserRelationshipStatus
or_normal none = Tables.UserRelationshipStatus.normal
or_normal (some status) = status

-- `From<u8> for UserRelationshipStatus`
module _ ⦃fp : FromPrimitive status_value⦄ where
  abbrev pub status_from : ℕ → UserRelationshipStatus
  status_from n = or_normal (fp.from_u16 n)

  abbrev pub status_given : Option ℕ → Option UserRelationshipStatus
  status_given none = none
  status_given (some n) = some (status_from n)

abbrev pub to_text : Bool → Bytes
to_text true = 116 ∷ 114 ∷ 117 ∷ 101 ∷ []
to_text false = 102 ∷ 97 ∷ 108 ∷ 115 ∷ 101 ∷ []

-- `we have broken up.`
abbrev pub broken_up : Bytes
broken_up =
    119 ∷ 101 ∷ 32 ∷ 104 ∷ 97 ∷ 118 ∷ 101 ∷ 32 ∷ 98 ∷ 114 ∷ 111 ∷ 107 ∷ 101 ∷ 110 ∷ 32 ∷ 117 ∷ 112
    ∷ 46 ∷ []

-- `relationship updated`
abbrev pub updated_text : Bytes
updated_text =
    114 ∷ 101 ∷ 108 ∷ 97 ∷ 116 ∷ 105 ∷ 111 ∷ 110 ∷ 115 ∷ 104 ∷ 105 ∷ 112 ∷ 32 ∷ 117 ∷ 112 ∷ 100 ∷ 97
    ∷ 116 ∷ 101 ∷ 100 ∷ []

-- `if let Some(new) = .. { field = new }`
abbrev pub given_or : {A : Type 0} → Option A → A → A
given_or none old = old
given_or (some new) old = new

abbrev pub refuse_internal : ℕ → HandlerError
refuse_internal code = request_mismatch code (says "internal server error.")

abbrev pub unauthorized : Reason → HandlerError
unauthorized e = request_mismatch 401 (says "unauthorized.")

abbrev pub invalid_form : Reason → HandlerError
invalid_form e = request_mismatch 400 (says "request parameter missing or invalid.")

module _ {V : Type 0} where
  -- The key of an application is absent, or the user is refused.
  abbrev pub not_applied : Bytes ⊎ Bytes → Handler V (Unit {0})
  not_applied (inr value) = reply (request_mismatch 400 (says "already request for new friend."))
  not_applied (inl e) = pure tt

  abbrev pub applied : Bytes ⊎ Bytes → Handler V Bytes
  applied (inr value) = pure value
  applied (inl e) = reply (request_mismatch 500 (says "no add friend request."))

  abbrev pub friend_entry : UserRelationship V → FriendListResp
  friend_entry item = record {
    peer_id = item.peer_id;
    remark = item.remark;
    status = status_value item.status;
    classification = item.classification;
    tag_list = item.tag_list;
  }

  module _ (outside : Outside) where
    unfoldable pub get_friend_list :
        Authorization → Option ℕ → Option ℕ → Handler V (ResponseResult (List FriendListResp))
    unfolding verified get_user_id ◌>>=◌ pure raise
    get_friend_list authorization query_number query_offset = do
      user_id ← verified outside unauthorized authorization
      number ← or_reply query_number (request_mismatch 400 (says "number is required."))
      offset ← or_reply query_offset (request_mismatch 400 (says "offset is required."))
      _ ←
          ensure (not (ltb 100 number))
            (request_mismatch 400 (says "number must be less than 100."))
      found ← get_user_id outside user_id number offset
      res ← or_reply found (request_mismatch 500 (says "no relationship."))
      done (map friend_entry res)

    unfoldable pub get_peer_relationship : Authorization → Option ℕ → Handler V (ResponseResult ℕ)
    unfolding verified get_user_id_peer_id ◌>>=◌ pure raise
    get_peer_relationship authorization query = do
      user_id ← verified outside unauthorized authorization
      peer_id ← or_reply query (parameter_mismatch (says "peer_id is required."))
      found ← get_user_id_peer_id outside user_id peer_id
      res ← or_reply found (request_mismatch 400 (says "not friend."))
      done (status_value res.status)

    -- Where the scheduler fails, the key is taken away again.
    unfoldable pub pushed_or_forgotten : Bytes → Bool → Handler V (ResponseResult (Unit {0}))
    unfolding execute del_redis ◌>>=◌ pure raise
    pushed_or_forgotten key true = done tt
    pushed_or_forgotten key false = do
      _ ← execute outside (del_redis key)
      reply (refuse_internal 500)

    module _ ⦃bo : ByteOrder⦄ (env : Env) where
      -- A message of a type with a text is made and pushed.
      unfoldable pub push_text : MsgType → ℕ → ℕ → Bytes → Handler V Bool
      unfolding text call_push_msg ◌>>=◌ pure unwrap
      push_text typ user_id peer_id payload = do
        msg ← unwrap (text env user_id peer_id 0 payload)
        typed ← unwrap (Msg.set_type typ msg)
        call_push_msg outside typed

      unfoldable pub add_friend :
          Authorization → Bytes ⊎ AddFriendReq → Handler V (ResponseResult (Unit {0}))
      unfolding verified get_redis execute set_redis push_text pushed_or_forgotten ◌>>=◌ pure raise
      add_friend authorization sent = do
        user_id ← verified outside unauthorized authorization
        form ← parsed invalid_form sent
        let key = add_friend_prefix ++ to_string user_id ++ 45 ∷ to_string form.peer_id
        found ← get_redis outside key
        _ ← not_applied found
        _ ← execute outside (set_redis key form.remark)
        pushed ← push_text MsgType.add_friend user_id form.peer_id form.remark
        pushed_or_forgotten key pushed

      unfoldable pub delete_friend :
          Authorization → Option ℕ → Handler V (ResponseResult (Unit {0}))
      unfolding verified get_user_id_peer_id execute delete_relationship push_text ◌>>=◌ pure raise
      delete_friend authorization query = do
        user_id ← verified outside unauthorized authorization
        peer_id ← or_reply query (parameter_mismatch (says "peer_id is required."))
        found1 ← get_user_id_peer_id outside user_id peer_id
        res1 ← or_reply found1 (request_mismatch 400 (says "relationship already unlocked."))
        found2 ← get_user_id_peer_id outside peer_id user_id
        res2 ← or_reply found2 (request_mismatch 400 (says "relationship already unlocked."))
        _ ← execute outside (delete_relationship res1)
        _ ← execute outside (delete_relationship res2)
        pushed ← push_text MsgType.remove_friend user_id peer_id broken_up
        _ ← ensure pushed (refuse_internal 500)
        done tt

      module _ ⦃json : JsonValue V⦄ where
        abbrev pub new_friend : ℕ → ℕ → UserRelationship V
        new_friend user_id peer_id = record {
          id = 0;
          user_id = user_id;
          peer_id = peer_id;
          remark = [];
          status = Tables.UserRelationshipStatus.normal;
          classification = [];
          tag_list = [];
          info = json.null;
          deleted = false;
        }

        -- `passed` is sent on and not looked at.
        unfoldable pub confirm_add_friend :
            Authorization → Bytes ⊎ ConfirmAddFriendReq → Handler V (ResponseResult (Unit {0}))
        unfolding verified get_redis execute del_redis insert_relationship text2 call_push_msg ◌>>=◌
            pure raise unwrap
        confirm_add_friend authorization sent = do
          user_id ← verified outside unauthorized authorization
          form ← parsed invalid_form sent
          let key = add_friend_prefix ++ to_string form.peer_id ++ 45 ∷ to_string user_id
          found ← get_redis outside key
          remark ← applied found
          _ ← execute outside (del_redis key)
          inserted1 ← execute outside (insert_relationship (new_friend user_id form.peer_id))
          _ ← ensure inserted1 (refuse_internal 500)
          inserted2 ← execute outside (insert_relationship (new_friend form.peer_id user_id))
          _ ← ensure inserted2 (refuse_internal 500)
          msg ← unwrap (text2 env user_id form.peer_id 0 remark (to_text form.passed))
          typed ← unwrap (Msg.set_type MsgType.add_friend msg)
          pushed ← call_push_msg outside typed
          _ ← ensure pushed (refuse_internal 500)
          done tt

      module _ ⦃fp : FromPrimitive status_value⦄ where
        -- The row of the caller, and that of the other user, with what the form gives.
        abbrev pub own_row : UpdateRelationshipReq → UserRelationship V → UserRelationship V
        own_row form row = record row {
          remark = given_or form.remark row.remark;
          status = given_or (status_given form.status) row.status;
          classification = given_or form.classification row.classification;
          tag_list = given_or form.tag_list row.tag_list;
        }

        abbrev pub other_row : UpdateRelationshipReq → UserRelationship V → UserRelationship V
        other_row form row = record row { status = given_or (status_given form.status) row.status }

        -- Both rows are written, and the other user is told.
        unfoldable pub write_rows :
            ℕ
            → UpdateRelationshipReq
            → UserRelationship V
            → UserRelationship V
            → Handler V (ResponseResult (Unit {0}))
        unfolding execute update_relationship push_text ◌>>=◌ pure raise
        write_rows user_id form res1 res2 = do
          updated1 ← execute outside (Tables.update_relationship (own_row form res1))
          _ ← ensure updated1 (refuse_internal 400)
          updated2 ← execute outside (Tables.update_relationship (other_row form res2))
          _ ← ensure updated2 (refuse_internal 400)
          pushed ← push_text MsgType.set_relationship user_id form.peer_id updated_text
          _ ← ensure pushed (refuse_internal 500)
          done tt

        unfoldable pub change_relationship :
            ℕ → UpdateRelationshipReq → Handler V (ResponseResult (Unit {0}))
        unfolding get_user_id_peer_id write_rows ◌>>=◌ pure raise
        change_relationship user_id form = do
          found1 ← get_user_id_peer_id outside user_id form.peer_id
          res1 ← or_reply found1 (request_mismatch 400 (says "not friend."))
          found2 ← get_user_id_peer_id outside form.peer_id user_id
          res2 ← or_reply found2 (request_mismatch 400 (says "not friend."))
          write_rows user_id form res1 res2

        unfoldable pub put_relationship :
            Authorization → Bytes ⊎ UpdateRelationshipReq → Handler V (ResponseResult (Unit {0}))
        unfolding verified change_relationship ◌>>=◌ pure raise
        put_relationship authorization sent = do
          user_id ← verified outside unauthorized authorization
          form ← parsed (λ e. request_mismatch 400 (says "parameter missing or invalid.")) sent
          change_relationship user_id form
