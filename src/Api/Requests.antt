-- ===== src/Api/Requests.antt =====
-- The requests about groups and relationships, as main.rs routes them to the handlers.
use prim.Prelude.{ℕ, ◌⊎◌, Option, List}
use prim.External.ByteOrder.{Bytes, ByteOrder}
use prim.External.Value.{JsonValue}
use prim.Entity.Env.{Env}
use prim.External.Primitive.{FromPrimitive}
use prim.Api.Friends.{
  status_value, AddFriendReq, ConfirmAddFriendReq, UpdateRelationshipReq, add_friend,
  confirm_add_friend, get_friend_list, delete_friend, get_peer_relationship, put_relationship,
}
use prim.Api.Tables.{World, Outside}
use prim.Api.Verify.{Authorization}
use prim.Api.Join.{JoinGroupReq, CreateGroupReq, join_group, leave_group, create_group}
use prim.Api.Members.{ApproveJoinReq, SetAdminReq, remove_member, approve_join, set_admin}
use prim.Api.Info.{UpdateGroupInfoReq, get_group_info, update_group_info, get_group_user_list}

-- A form is what `parse_json` gives, a query what `query` gives. The list of `create` are the
-- numbers that are drawn.
pub data Request (V : Type 0) : Type 0 where
  join : Authorization → Bytes ⊎ JoinGroupReq → Request V
  leave : Authorization → Option ℕ → Request V
  create : List ℕ → Authorization → Bytes ⊎ CreateGroupReq → Request V
  info : Option ℕ → Request V
  update : Authorization → Bytes ⊎ UpdateGroupInfoReq V → Request V
  user_list : Option ℕ → Option Bytes → Option ℕ → Option ℕ → Request V
  remove : Authorization → Option ℕ → Option ℕ → Option Bytes → Request V
  approve : Authorization → Bytes ⊎ ApproveJoinReq → Request V
  admin : Authorization → Bytes ⊎ SetAdminReq → Request V
  add : Authorization → Bytes ⊎ AddFriendReq → Request V
  confirm : Authorization → Bytes ⊎ ConfirmAddFriendReq → Request V
  friends : Authorization → Option ℕ → Option ℕ → Request V
  drop : Authorization → Option ℕ → Request V
  peer : Authorization → Option ℕ → Request V
  put : Authorization → Bytes ⊎ UpdateRelationshipReq → Request V

module _ {V : Type 0} ⦃bo : ByteOrder⦄ ⦃json : JsonValue V⦄ ⦃fp : FromPrimitive status_value⦄
    (outside : Outside) (env : Env) where
  -- The tables after a request, whatever the reply.
  unfoldable pub handle : Request V → World V → World V
  unfolding join_group leave_group create_group get_group_info update_group_info get_group_user_list
      remove_member approve_join set_admin add_friend confirm_add_friend get_friend_list
      delete_friend get_peer_relationship put_relationship
  handle (join authorization form) w = (join_group outside env authorization form w).1
  handle (leave authorization query) w = (leave_group outside env authorization query w).1
  handle (create draws authorization form) w =
      (create_group outside env draws authorization form w).1
  handle (info query) w = (get_group_info outside query w).1
  handle (update authorization form) w = (update_group_info outside authorization form w).1
  handle (user_list group user_role offset limit) w =
      (get_group_user_list outside group user_role offset limit w).1
  handle (remove authorization user group reason) w =
      (remove_member outside env authorization user group reason w).1
  handle (approve authorization form) w = (approve_join outside env authorization form w).1
  handle (admin authorization form) w = (set_admin outside env authorization form w).1
  handle (add authorization form) w = (add_friend outside env authorization form w).1
  handle (confirm authorization form) w = (confirm_add_friend outside env authorization form w).1
  handle (friends authorization number offset) w =
      (get_friend_list outside authorization number offset w).1
  handle (drop authorization query) w = (delete_friend outside env authorization query w).1
  handle (peer authorization query) w = (get_peer_relationship outside authorization query w).1
  handle (put authorization form) w = (put_relationship outside env authorization form w).1
