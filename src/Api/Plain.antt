-- ===== src/Api/Plain.antt =====
-- The handlers that add no row to user_relationship and change no role.
use prim.Prelude.{ℕ, ◌⊎◌, inl, inr, Bool, Option, List, [], ◌∷◌, arith}
use prim.Prelude.Action.{
  Action, Result, ok, err, panicked, continue, ◌>>=◌, pure, raise, unwrap, Keeps, Keeps-bind,
  Keeps-if, Keeps-pure, Keeps-raise, Keeps-unwrap, keeps_rules,
}
use prim.External.ByteOrder.{Bytes, ByteOrder}
use prim.External.Value.{JsonValue, is_same}
use prim.Entity.Env.{Env}
use prim.Entity.MsgType.{MsgType}
use prim.Entity.Msg.{Msg}
use prim.Api.{Reason, HandlerError, admin}
use prim.Api.Tables.{UserRelationship, World, Outside, Handler, or_reply, get_user_id_peer_id}
use prim.Api.Verify.{Authorization, ensure, parsed, verified, role_of, row_passes, require_admin}
use prim.Api.Join.{
  JoinGroupReq, or_internal, push_all, join_msg, apply, join_group, leave_msg, leave_group,
}
use prim.Api.Members.{notify, remove_member}
use prim.Api.Info.{UpdateGroupInfoReq, get_group_info, get_group_user_list, update_group_info}
use prim.Api.Yields.{
  Yields-then, Holds-map, Yields, unwrap-Yields, or_reply-Yields, parsed-Yields, ensure-Yields,
}
use prim.Api.Steps.{
  OnlyAdmins, update_group-Keeps, set_redis-Keeps, call_push_msg-Keeps, delete_relationship-Keeps,
  get_redis-Keeps, get_group_id-Keeps, IsAllowed, get_user_id_peer_id-Yields, verified-YieldsFrom,
}

module _ {V A : Type 0} {Inv : World V → Type 0} where
  pub Yields-Keeps :
      (Post : A → Type 0) (action : Handler V A) → Yields Inv Post action → Keeps Inv action
  Yields-Keeps Post action y = record { at = λ w inv. (y.at w inv).0 }

  pub or_reply-Keeps : (o : Option A) (e : HandlerError) → Keeps Inv (or_reply o e)
  or_reply-Keeps o e = Yields-Keeps _ _ (or_reply-Yields o e)

  pub parsed-Keeps :
      (error : Reason → HandlerError) (sent : Bytes ⊎ A) → Keeps Inv (parsed error sent)
  parsed-Keeps error sent = Yields-Keeps _ _ (parsed-Yields error sent)

module _ {V : Type 0} {Inv : World V → Type 0} where
  pub ensure-Keeps : (b : Bool) (e : HandlerError) → Keeps Inv (ensure b e)
  ensure-Keeps b e = Yields-Keeps _ _ (ensure-Yields b e)

  pub or_internal-Keeps : (r : Bytes ⊎ Bytes) → Keeps Inv (or_internal r)
  or_internal-Keeps (inl e) = search keeps_rules
  or_internal-Keeps (inr value) = search keeps_rules

pub ruleset reply_rules =
    (keeps_rules, or_reply-Keeps, parsed-Keeps, ensure-Keeps, or_internal-Keeps)

module _ {V : Type 0} ⦃bo : ByteOrder⦄ ⦃json : JsonValue V⦄ {P : ℕ → ℕ → Type 0} (outside : Outside)
    (env : Env) where
  pub verified-Keeps :
      (error : Reason → HandlerError) (authorization : Authorization)
      → Keeps (OnlyAdmins {V = V} P) (verified {V = V} outside error authorization)
  verified-Keeps error authorization = record {
    at = λ w inv. ((verified-YieldsFrom outside error authorization w).at inv).0;
  }

  pub get_user_id_peer_id-Keeps :
      (a b : ℕ) → Keeps (OnlyAdmins {V = V} P) (get_user_id_peer_id {V = V} outside a b)
  get_user_id_peer_id-Keeps a b = Yields-Keeps _ _ (get_user_id_peer_id-Yields outside a b)

  row_passes-Yields :
      (user_id group_id : ℕ) (refused : HandlerError) (row : UserRelationship V)
      → IsAllowed P user_id group_id row
      → Yields (OnlyAdmins {V = V} P) (λ x. P user_id group_id) (row_passes {V = V} refused row)
  unfolding row_passes
  row_passes-Yields user_id group_id refused row known =
      Yields-then _ _ _ (λ user_role. ensure (is_same user_role admin) refused)
        (unwrap-Yields (role_of row.info))
        λ user_role is_role. record {
          at = λ w inv.
              let (kept, post) =
                (ensure-Yields {Inv = OnlyAdmins {V = V} P} (is_same user_role admin) refused).at w
                  inv in
              (kept, Holds-map _ _ _ (λ x e. known.allowed (ground (arith, is_role, e))) post);
        }

  -- Who passes is an admin.
  pub require_admin-Yields :
      (user_id group_id : ℕ) (absent refused : HandlerError)
      → Yields
          (OnlyAdmins {V = V} P)
          (λ x. P user_id group_id)
          (require_admin outside user_id group_id absent refused)
  unfolding require_admin
  require_admin-Yields user_id group_id absent refused =
      Yields-then _ _ _ (λ found. or_reply found absent >>= row_passes refused)
        (get_user_id_peer_id-Yields outside user_id group_id)
        λ found finds.
          Yields-then _ _ _ (row_passes refused) (or_reply-Yields found absent)
            λ row is_row. row_passes-Yields user_id group_id refused row (finds row is_row)

  require_admin-Keeps :
      (user_id group_id : ℕ) (absent refused : HandlerError)
      → Keeps (OnlyAdmins {V = V} P) (require_admin outside user_id group_id absent refused)
  require_admin-Keeps user_id group_id absent refused =
      Yields-Keeps _ _ (require_admin-Yields user_id group_id absent refused)

  push_all-Keeps :
      (message : V → Handler V Msg) (error : HandlerError) (entries : List V)
      → ((entry : V) → Keeps (OnlyAdmins {V = V} P) (message entry))
      → Keeps (OnlyAdmins {V = V} P) (push_all outside message error entries)
  unfolding push_all
  push_all-Keeps message error [] k = search keeps_rules
  push_all-Keeps message error (entry ∷ entries) k = Keeps-bind _ _ (k entry) λ msg.
      Keeps-bind _ _ (call_push_msg-Keeps outside msg)
        λ sent. Keeps-bind _ _ (ensure-Keeps sent error) λ x. push_all-Keeps message error entries k

  join_msg-Keeps :
      (user_id : ℕ) (form : JoinGroupReq) (entry : V)
      → Keeps (OnlyAdmins {V = V} P) (join_msg outside env user_id form entry)
  unfolding join_msg
  join_msg-Keeps user_id form entry = search keeps_rules depth 14

  apply-Keeps :
      (user_id : ℕ) (form : JoinGroupReq) (key : Bytes) (applied : Bytes ⊎ Bytes)
      → Keeps (OnlyAdmins {V = V} P) (apply outside env user_id form key applied)
  apply-Keeps user_id form key (inr code) = search keeps_rules
  apply-Keeps user_id form key (inl e) =
      search
        (
          reply_rules,
          set_redis-Keeps outside,
          get_group_id-Keeps outside,
          push_all-Keeps,
          join_msg-Keeps,
        )
        depth 20

  pub join_group-Keeps :
      (authorization : Authorization) (sent : Bytes ⊎ JoinGroupReq)
      → Keeps (OnlyAdmins {V = V} P) (join_group outside env authorization sent)
  unfolding join_group
  join_group-Keeps authorization sent =
      search (reply_rules, verified-Keeps, get_redis-Keeps outside, apply-Keeps) depth 20

  leave_msg-Keeps :
      (user_id : ℕ) (entry : V) → Keeps (OnlyAdmins {V = V} P) (leave_msg outside env user_id entry)
  unfolding leave_msg
  leave_msg-Keeps user_id entry = search keeps_rules depth 14

  pub leave_group-Keeps :
      (authorization : Authorization) (query : Option ℕ)
      → Keeps (OnlyAdmins {V = V} P) (leave_group outside env authorization query)
  unfolding leave_group
  leave_group-Keeps authorization query =
      search
        (
          reply_rules,
          verified-Keeps,
          get_user_id_peer_id-Keeps,
          get_group_id-Keeps outside,
          push_all-Keeps,
          leave_msg-Keeps,
          delete_relationship-Keeps outside,
          update_group-Keeps outside,
        )
        depth 40

  pub get_group_info-Keeps :
      (query : Option ℕ) → Keeps (OnlyAdmins {V = V} P) (get_group_info {V = V} outside query)
  unfolding get_group_info
  get_group_info-Keeps query = search (reply_rules, get_group_id-Keeps outside) depth 14

  pub get_group_user_list-Keeps :
      (query_group : Option ℕ) (query_role : Option Bytes) (query_offset query_limit : Option ℕ)
      → Keeps
          (OnlyAdmins {V = V} P)
          (get_group_user_list {V = V} outside query_group query_role query_offset query_limit)
  unfolding get_group_user_list
  get_group_user_list-Keeps query_group query_role query_offset query_limit =
      search (reply_rules, get_group_id-Keeps outside) depth 24

  pub update_group_info-Keeps :
      (authorization : Authorization) (sent : Bytes ⊎ UpdateGroupInfoReq V)
      → Keeps (OnlyAdmins {V = V} P) (update_group_info outside authorization sent)
  unfolding update_group_info
  update_group_info-Keeps authorization sent =
      search
        (
          reply_rules,
          verified-Keeps,
          require_admin-Keeps,
          get_group_id-Keeps outside,
          update_group-Keeps outside,
        )
        depth 30

  pub notify-Keeps :
      (typ : MsgType) (user_id peer_id : ℕ) (payload : V)
      → Keeps (OnlyAdmins {V = V} P) (notify outside env typ user_id peer_id payload)
  unfolding notify
  notify-Keeps typ user_id peer_id payload =
      search (reply_rules, call_push_msg-Keeps outside) depth 14

  pub remove_member-Keeps :
      (authorization : Authorization) (query_user query_group : Option ℕ)
      (query_reason : Option Bytes)
      → Keeps
          (OnlyAdmins {V = V} P)
          (remove_member outside env authorization query_user query_group query_reason)
  unfolding remove_member
  remove_member-Keeps authorization query_user query_group query_reason =
      search
        (
          reply_rules,
          verified-Keeps,
          require_admin-Keeps,
          get_user_id_peer_id-Keeps,
          get_group_id-Keeps outside,
          update_group-Keeps outside,
          delete_relationship-Keeps outside,
          notify-Keeps,
        )
        depth 50
