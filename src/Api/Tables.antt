-- ===== src/Api/Tables.antt =====
-- The tables that the handlers read and write (server/api/src/model), Redis and the calls of the
-- scheduler. Every call of another program may fail, before or after what it does is done.
use prim.Prelude.{
  ℕ, zero, suc, ◌+◌, Bool, true, false, not, ◌&&◌, ◌⊎◌, inl, inr, Option, none, some, List, [], ◌∷◌,
  ◌++◌, take, drop, ltb, ◌^◌, ◌==◌, if◌then◌else◌,
}
use prim.Prelude.Action.{Action, Result, ok, pure, raise}
use prim.External.ByteOrder.{Bytes}
use prim.External.Value.{is_same}
use prim.Entity.Msg.{Msg}
use prim.Api.{HandlerError, Stop, replies}

pub data GroupStatus : Type 0 where
  na normal banned : GroupStatus

-- An `i64` is the `u64` of the same bits. Of the three times only whether the row is deleted is
-- kept.
pub record Group (V : Type 0) : Type 0 where
  pub id : ℕ
  pub group_id : ℕ
  pub name : Bytes
  pub avatar : Bytes
  pub admin_list : List V
  pub member_list : List V
  pub status : GroupStatus
  pub info : V
  pub deleted : Bool

pub data UserRelationshipStatus : Type 0 where
  na normal lover best_friend deleting deleted blocked : UserRelationshipStatus

pub record UserRelationship (V : Type 0) : Type 0 where
  pub id : ℕ
  pub user_id : ℕ
  pub peer_id : ℕ
  pub remark : Bytes
  pub status : UserRelationshipStatus
  pub classification : Bytes
  pub tag_list : List Bytes
  pub info : V
  pub deleted : Bool

-- What the handlers of groups read of a user.
pub record User : Type 0 where
  pub account_id : ℕ
  pub nickname : Bytes
  pub deleted : Bool

-- `pushed` are the messages that the scheduler was given, `next_id` is the next `bigserial` and
-- `calls` the number of calls made so far.
pub record World (V : Type 0) : Type 0 where
  pub groups : List (Group V)
  pub relationships : List (UserRelationship V)
  pub users : List User
  pub redis : Bytes → Option Bytes
  pub pushed : List Msg
  pub next_id : ℕ
  pub calls : ℕ

-- A call fails with a text, is done but reported as failed, or works; of several rows that match it
-- gives the one with the number, or the last.
pub data Outcome : Type 0 where
  fails lost : Bytes → Outcome
  works : ℕ → Outcome

-- What the handlers get from outside: the outcome of each call, the text of Redis for a key that is
-- absent, and the check of a token by the library for JSON web tokens, for which
-- `audience_of_token` and `verify_token` of server/lib/src/util/jwt.rs stand. The second gives an
-- error or nothing. That the first panics on a token without a dot is not modelled: it is an error
-- here.
pub record Outside : Type 0 where
  pub outcome : ℕ → Outcome
  pub no_value : Bytes
  pub audience_of_token : Bytes → Bytes ⊎ ℕ
  pub verify_token : Bytes → Bytes → ℕ → Option Bytes

abbrev pub Handler : Type 0 → Type 0 → Type 0
Handler V A = Action (World V) Stop A

abbrev pub choose : {A : Type 0} → ℕ → List A → Option A
choose i [] = none
choose i (a ∷ []) = some a
choose zero (a ∷ b ∷ rest) = some a
choose (suc i) (a ∷ b ∷ rest) = choose i (b ∷ rest)

abbrev pub fetched : {A : Type 0} → Outcome → A → Option A
fetched (fails e) rows = none
fetched (lost e) rows = none
fetched (works i) rows = some rows

abbrev pub chosen : {A : Type 0} → Outcome → List A → Option A
chosen (fails e) rows = none
chosen (lost e) rows = none
chosen (works i) rows = choose i rows

abbrev pub users_of : ℕ → List User → List User
users_of account_id [] = []
users_of account_id (row ∷ rows) =
    let rest = users_of account_id rows in
    if (row.account_id == account_id) && not row.deleted then row ∷ rest else rest

-- Redis answers with a value or with a text.
abbrev pub redis_answer : Outcome → Bytes → Option Bytes → Bytes ⊎ Bytes
redis_answer (fails e) no_value found = inl e
redis_answer (lost e) no_value found = inl e
redis_answer (works i) no_value none = inl no_value
redis_answer (works i) no_value (some value) = inr value

module _ {V : Type 0} where
  abbrev pub relationships_from : ℕ → List (UserRelationship V) → List (UserRelationship V)
  relationships_from user_id [] = []
  relationships_from user_id (row ∷ rows) =
      let rest = relationships_from user_id rows in
      if (row.user_id == user_id) && not row.deleted then row ∷ rest else rest

  unfoldable pub insert_group : Group V → World V → World V
  insert_group g w = record w {
    groups = w.groups ++ record g { id = w.next_id; deleted = false } ∷ [];
    next_id = w.next_id + 1;
  }

  -- `UPDATE api.group SET .. WHERE id = $9`
  abbrev pub set_group : Group V → List (Group V) → List (Group V)
  set_group g [] = []
  set_group g (row ∷ rows) =
      let rest = set_group g rows in
      if row.id == g.id then record g { deleted = row.deleted } ∷ rest else row ∷ rest

  unfoldable pub update_group : Group V → World V → World V
  update_group g w = record w { groups = set_group g w.groups }

  abbrev pub groups_of : ℕ → List (Group V) → List (Group V)
  groups_of group_id [] = []
  groups_of group_id (row ∷ rows) =
      let rest = groups_of group_id rows in
      if (row.group_id == group_id) && not row.deleted then row ∷ rest else rest

  unfoldable pub insert_relationship : UserRelationship V → World V → World V
  insert_relationship r w = record w {
    relationships = w.relationships ++ record r { id = w.next_id; deleted = false } ∷ [];
    next_id = w.next_id + 1;
  }

  abbrev pub set_relationship :
      UserRelationship V → List (UserRelationship V) → List (UserRelationship V)
  set_relationship r [] = []
  set_relationship r (row ∷ rows) =
      let rest = set_relationship r rows in
      if row.id == r.id then record r { deleted = row.deleted } ∷ rest else row ∷ rest

  unfoldable pub update_relationship : UserRelationship V → World V → World V
  update_relationship r w = record w { relationships = set_relationship r w.relationships }

  abbrev pub mark_deleted : ℕ → List (UserRelationship V) → List (UserRelationship V)
  mark_deleted id [] = []
  mark_deleted id (row ∷ rows) =
      let rest = mark_deleted id rows in
      if row.id == id then record row { deleted = true } ∷ rest else row ∷ rest

  unfoldable pub delete_relationship : UserRelationship V → World V → World V
  delete_relationship r w = record w { relationships = mark_deleted r.id w.relationships }

  abbrev pub relationships_of : ℕ → ℕ → List (UserRelationship V) → List (UserRelationship V)
  relationships_of user_id peer_id [] = []
  relationships_of user_id peer_id (row ∷ rows) =
      let rest = relationships_of user_id peer_id rows in
      if (row.user_id == user_id) && (row.peer_id == peer_id) && not row.deleted
      then row ∷ rest
      else rest

  -- `SET`, and `PSETEX` without the time after which the key is gone.
  unfoldable pub set_redis : Bytes → Bytes → World V → World V
  set_redis key value w = record w { redis = λ k. if is_same k key then some value else w.redis k }

  unfoldable pub del_redis : Bytes → World V → World V
  del_redis key w = record w { redis = λ k. if is_same k key then none else w.redis k }

  unfoldable pub push : Msg → World V → World V
  push msg w = record w { pushed = w.pushed ++ msg ∷ [] }

  abbrev pub count_call : World V → World V
  count_call w = record w { calls = w.calls + 1 }

  -- A statement that changes something; the result says whether it is reported to have worked.
  abbrev pub carried_out : Outcome → (World V → World V) → World V → Result Stop Bool × World V
  carried_out (fails e) change w = (ok false, w)
  carried_out (lost e) change w = (ok false, change w)
  carried_out (works i) change w = (ok true, change w)

  abbrev pub or_reply : {A : Type 0} → Option A → HandlerError → Handler V A
  or_reply none e = raise (replies e)
  or_reply (some a) e = pure a

  module _ (outside : Outside) where
    unfoldable pub execute : (World V → World V) → Handler V Bool
    execute change w = carried_out (outside.outcome w.calls) change (count_call w)

    unfoldable pub query : {A : Type 0} → (World V → List A) → Handler V (Option A)
    query rows w = (ok (chosen (outside.outcome w.calls) (rows w)), count_call w)

    -- Of the rows of the user, in the order of the table. An offset that is negative as an `i64` is
    -- an error of the database.
    unfoldable pub get_user_id : ℕ → ℕ → ℕ → Handler V (Option (List (UserRelationship V)))
    get_user_id user_id number offset w =
        let rows = take number (drop offset (relationships_from user_id w.relationships)) in
        (
          ok (if ltb offset (2 ^ 63) then fetched (outside.outcome w.calls) rows else none),
          count_call w,
        )

    unfoldable pub get_redis : Bytes → Handler V (Bytes ⊎ Bytes)
    get_redis key w =
        (ok (redis_answer (outside.outcome w.calls) outside.no_value (w.redis key)), count_call w)

    unfoldable pub get_group_id : ℕ → Handler V (Option (Group V))
    unfolding query
    get_group_id group_id = query (λ w. groups_of group_id w.groups)

    unfoldable pub get_user_id_peer_id : ℕ → ℕ → Handler V (Option (UserRelationship V))
    unfolding query
    get_user_id_peer_id user_id peer_id =
        query (λ w. relationships_of user_id peer_id w.relationships)

    unfoldable pub get_account_id : ℕ → Handler V (Option User)
    unfolding query
    get_account_id account_id = query (λ w. users_of account_id w.users)

    -- `call_push_msg`, where an error is a reply.
    unfoldable pub call_push_msg : Msg → Handler V Bool
    unfolding execute
    call_push_msg msg = execute (push msg)
