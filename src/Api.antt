-- ===== src/Api.antt =====
-- The HTTP interface of groups: server/api/src/handler/group.rs and handler/mod.rs.
pub mod Tables
pub mod Verify
pub mod Join
pub mod Members
pub mod Info
pub mod Friends
pub mod Requests
pub mod Kept
pub mod Yields
pub mod Steps
pub mod Plain
pub mod Befriending
pub mod Appointing
pub mod Admins
use Prim.Native.String.{String}
use prim.Prelude.{ℕ, [], ◌∷◌}
use prim.External.ByteOrder.{Bytes}

-- The text of an error: one of the program, what another crate says, or the first formatted with the
-- second.
pub data Reason : Type 0 where
  says : String → Reason
  told : Bytes → Reason
  says_of : String → Bytes → Reason

pub data HandlerError : Type 0 where
  parameter_mismatch internal_error : Reason → HandlerError
  request_mismatch : ℕ → Reason → HandlerError

-- How a handler ends without a result: with a reply, or it draws numbers still.
pub data Stop : Type 0 where
  replies : HandlerError → Stop
  still_drawing : Stop

pub record ResponseResult (A : Type 0) : Type 0 where
  pub code : ℕ
  pub message : String
  pub data_ : A

-- The bytes of `admin`, `member`, and of the keys `role`, `user_id`, `remark`, `reason`, `group_id`
-- and `approved`.
abbrev pub admin : Bytes
admin = 97 ∷ 100 ∷ 109 ∷ 105 ∷ 110 ∷ []

abbrev pub member : Bytes
member = 109 ∷ 101 ∷ 109 ∷ 98 ∷ 101 ∷ 114 ∷ []

abbrev pub role : Bytes
role = 114 ∷ 111 ∷ 108 ∷ 101 ∷ []

abbrev pub user_id_key : Bytes
user_id_key = 117 ∷ 115 ∷ 101 ∷ 114 ∷ 95 ∷ 105 ∷ 100 ∷ []

abbrev pub remark_key : Bytes
remark_key = 114 ∷ 101 ∷ 109 ∷ 97 ∷ 114 ∷ 107 ∷ []

abbrev pub reason_key : Bytes
reason_key = 114 ∷ 101 ∷ 97 ∷ 115 ∷ 111 ∷ 110 ∷ []

abbrev pub group_id_key : Bytes
group_id_key = 103 ∷ 114 ∷ 111 ∷ 117 ∷ 112 ∷ 95 ∷ 105 ∷ 100 ∷ []

abbrev pub approved_key : Bytes
approved_key = 97 ∷ 112 ∷ 112 ∷ 114 ∷ 111 ∷ 118 ∷ 101 ∷ 100 ∷ []

abbrev pub check_code_key : Bytes
check_code_key = 99 ∷ 104 ∷ 101 ∷ 99 ∷ 107 ∷ 95 ∷ 99 ∷ 111 ∷ 100 ∷ 101 ∷ []

-- `USER_TOKEN_`, `CHECK_CODE_`, `JOIN_GROUP_`, `default`
abbrev pub user_token : Bytes
user_token = 85 ∷ 83 ∷ 69 ∷ 82 ∷ 95 ∷ 84 ∷ 79 ∷ 75 ∷ 69 ∷ 78 ∷ 95 ∷ []

abbrev pub check_code_prefix : Bytes
check_code_prefix = 67 ∷ 72 ∷ 69 ∷ 67 ∷ 75 ∷ 95 ∷ 67 ∷ 79 ∷ 68 ∷ 69 ∷ 95 ∷ []

abbrev pub join_group_prefix : Bytes
join_group_prefix = 74 ∷ 79 ∷ 73 ∷ 78 ∷ 95 ∷ 71 ∷ 82 ∷ 79 ∷ 85 ∷ 80 ∷ 95 ∷ []

abbrev pub default_classification : Bytes
default_classification = 100 ∷ 101 ∷ 102 ∷ 97 ∷ 117 ∷ 108 ∷ 116 ∷ []

-- `ADD_FRIEND_`
abbrev pub add_friend_prefix : Bytes
add_friend_prefix = 65 ∷ 68 ∷ 68 ∷ 95 ∷ 70 ∷ 82 ∷ 73 ∷ 69 ∷ 78 ∷ 68 ∷ 95 ∷ []
