-- ===== src/Api/Verify.antt =====
-- `verify_user` of server/api/src/handler/mod.rs, and what the handlers share.
use prim.Prelude.{ℕ, Bool, true, false, ◌⊎◌, inl, inr, Option, none, some, ◌++◌}
use prim.Prelude.Decimal.{to_string}
use prim.Prelude.Action.{◌>>=◌, pure, raise, panic, unwrap}
use prim.External.ByteOrder.{Bytes}
use prim.External.Value.{JsonValue, is_same}
use prim.Api.{
  Reason, says, told, says_of, HandlerError, replies, ResponseResult, user_token, admin, role,
  user_id_key,
}
use prim.Api.Tables.{UserRelationship, Outside, Handler, or_reply, get_redis, get_user_id_peer_id}

-- The header `Authorization`: absent, not a visible text, or a token.
abbrev pub Authorization : Type 0
Authorization = Option (Option Bytes)

abbrev pub check_token : Outside → Bytes → ℕ → Bytes ⊎ Bytes → Reason ⊎ ℕ
check_token outside token user_id (inl e) = inl (says "user not login.")
check_token outside token user_id (inr token_key) =
    elim (outside.verify_token token token_key user_id) [
      | some e ↦ inl (says_of "token is invalid: {}." e)
      | none ↦ inr user_id
    ]

module _ {V : Type 0} where
  abbrev pub reply : {A : Type 0} → HandlerError → Handler V A
  reply e = raise (replies e)

  -- `if !done { return Err(e) }`
  abbrev pub ensure : Bool → HandlerError → Handler V (Unit {0})
  ensure true e = pure tt
  ensure false e = reply e

  -- `match req.parse_json() { Ok(form) => form, Err(e) => return Err(..) }`
  abbrev pub parsed : {A : Type 0} → (Reason → HandlerError) → Bytes ⊎ A → Handler V A
  parsed error (inl e) = reply (error (told e))
  parsed error (inr form) = pure form

  abbrev pub done : {A : Type 0} → A → Handler V (ResponseResult A)
  done data_ = pure (record { code = 200; message = "ok."; data_ = data_ })

  module _ (outside : Outside) where
    abbrev pub check_audience : Bytes → Bytes ⊎ ℕ → Handler V (Reason ⊎ ℕ)
    check_audience token (inl e) = pure (inl (says_of "token is invalid: {}." e))
    check_audience token (inr user_id) = do
      found ← get_redis outside (user_token ++ to_string user_id)
      pure (check_token outside token user_id found)

    unfoldable pub verify_user : Authorization → Handler V (Reason ⊎ ℕ)
    unfolding get_redis ◌>>=◌ pure panic
    verify_user none = pure (inl (says "token is required."))
    verify_user (some none) = panic
    verify_user (some (some token)) = check_audience token (outside.audience_of_token token)

    abbrev pub or_refused : (Reason → HandlerError) → Reason ⊎ ℕ → Handler V ℕ
    or_refused error (inl e) = reply (error e)
    or_refused error (inr user_id) = pure user_id

    -- `match verify_user(..) { Ok(user_id) => user_id, Err(e) => return Err(..) }`
    unfoldable pub verified : (Reason → HandlerError) → Authorization → Handler V ℕ
    unfolding verify_user ◌>>=◌
    verified error authorization = do result ← verify_user authorization; or_refused error result

  module _ ⦃json : JsonValue V⦄ where
    -- `info.as_object().unwrap().get("role").unwrap().as_str().unwrap()`
    unfoldable pub role_of : V → Option Bytes
    role_of info = elim (json.get role info) [ none ↦ none | some value ↦ json.as_str value ]

    -- The same of `user_id`, with `as_f64().unwrap() as u64`.
    unfoldable pub user_id_of : V → Option ℕ
    user_id_of entry = elim (json.get user_id_key entry) [
      | none ↦ none
      | some value ↦ json.as_f64_u64 value
    ]

    unfoldable pub row_passes : HandlerError → UserRelationship V → Handler V (Unit {0})
    unfolding role_of ◌>>=◌ raise pure unwrap
    row_passes refused user_relationship = do
      user_role ← unwrap (role_of user_relationship.info)
      ensure (is_same user_role admin) refused

    -- The caller must have a row for the group that says `admin`.
    unfoldable pub require_admin :
        Outside → ℕ → ℕ → HandlerError → HandlerError → Handler V (Unit {0})
    unfolding get_user_id_peer_id row_passes ◌>>=◌ raise pure
    require_admin outside user_id group_id absent refused = do
      found ← get_user_id_peer_id outside user_id group_id
      user_relationship ← or_reply found absent
      row_passes refused user_relationship
