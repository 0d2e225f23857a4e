-- ===== src/Tests/Api.antt =====
-- Requests about groups.
use prim.Prelude.{ℕ, ◌≡◌, refl, ◌⊎◌, inl, inr, true, false, none, some, [], ◌∷◌}
use prim.External.ByteOrder.{Bytes}
use prim.External.ByteOrder.Model.{big_endian}
use prim.External.Value.Model.{Tree, trees}
use prim.External.Value.Model
use prim.Entity.Env.{Env}
use prim.Api.{admin, member, role, user_id_key}
use prim.Api.Tables
use prim.Api.Tables.{
  Group, UserRelationship, World, Outside, works, query, execute, get_redis, get_group_id,
  get_user_id_peer_id, update_group, update_relationship,
}
use prim.Api.Friends.Numbers.{numbered}
use prim.Api.Verify.{verify_user, verified, role_of, user_id_of, row_passes, require_admin}
use prim.Api.Join.{retain_others}
use prim.Api.Members.{count_user, moved_lists, store, set_role, change_role, set_admin}
use prim.Api.Requests
use prim.Api.Requests.{Request, handle}
use prim.Api.Kept.{is_admin_of}
use prim.Api.Admins.{IsGranted, handle_admins}

abbrev a_machine : Env
a_machine = record { now = 0; memory = λ i. 0 }

-- Every call works, and a token is the id of its user.
abbrev all_well : Outside
all_well = record {
  outcome = λ n. works 0;
  no_value = [];
  audience_of_token = λ token. elim token [ [] ↦ inl [] | n ∷ rest ↦ inr n ];
  verify_token = λ token key user_id. none;
}

abbrev entry : ℕ → Tree
entry user_id = Model.object (Model.field user_id_key (Model.number user_id) Model.empty)

abbrev row : ℕ → ℕ → Bytes → UserRelationship Tree
row id user_id user_role = record {
  id = id;
  user_id = user_id;
  peer_id = 7;
  remark = [];
  status = Tables.UserRelationshipStatus.normal;
  classification = [];
  tag_list = [];
  info = Model.object (Model.field role (Model.text user_role) Model.empty);
  deleted = false;
}

-- The group 7 with the admin 1 and the member 2.
abbrev two_users : World Tree
two_users = record {
  groups =
      record {
        id = 1;
        group_id = 7;
        name = [];
        avatar = [];
        admin_list = entry 1 ∷ [];
        member_list = entry 2 ∷ [];
        status = Tables.GroupStatus.normal;
        info = Model.object Model.empty;
        deleted = false;
      }
      ∷ [];
  relationships = row 1 1 admin ∷ row 2 2 member ∷ [];
  users = [];
  redis = λ key. some [];
  pushed = [];
  next_id = 3;
  calls = 0;
}

abbrev promotion : Request Tree
promotion =
    Requests.admin (some (some (1 ∷ [])))
      (inr (record { group_id = 7; user_id = 2; is_admin = true }))

is_admin_now : is_admin_of 2 7 (handle all_well a_machine promotion two_users).relationships ≡ true
unfolding handle set_admin verified verify_user get_redis require_admin row_passes role_of
    get_user_id_peer_id query change_role set_role get_group_id moved_lists count_user retain_others
    user_id_of store execute update_relationship update_group trees Model.get Model.insert
is_admin_now = refl

handle_admins_example :
    (is_admin_of 2 7 two_users.relationships ≡ true) ⊎ IsGranted all_well promotion two_users 2 7
handle_admins_example = handle_admins all_well a_machine promotion two_users 2 7 is_admin_now
