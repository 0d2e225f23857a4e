-- ===== src/Api/Friends/Numbers.antt =====
-- The numbering of the statuses, looked up: a value of `FromPrimitive` that runs in tests.
use prim.Prelude.{◌≡◌, refl, some, List, [], ◌∷◌}
use prim.External.Primitive.{FromPrimitive}
use prim.External.Primitive.Lookup.{lookup, value-lookup}
use prim.Api.Tables
use prim.Api.Tables.{UserRelationshipStatus}
use prim.Api.Friends.{status_value}

abbrev pub statuses : List UserRelationshipStatus
statuses =
    Tables.UserRelationshipStatus.na ∷ Tables.UserRelationshipStatus.normal
    ∷ Tables.UserRelationshipStatus.lover ∷ Tables.UserRelationshipStatus.best_friend
    ∷ Tables.UserRelationshipStatus.deleting ∷ Tables.UserRelationshipStatus.deleted
    ∷ Tables.UserRelationshipStatus.blocked ∷ []

pub status_found :
    (s : UserRelationshipStatus) → lookup status_value (status_value s) statuses ≡ some s
unfolding lookup
status_found Tables.UserRelationshipStatus.na = refl
status_found _ = refl

instance abbrev pub numbered : FromPrimitive status_value
numbered = record {
  from_u16 = λ n. lookup status_value n statuses;
  from_u16-value = status_found;
  value-from_u16 = λ n a. value-lookup status_value n statuses a;
}
