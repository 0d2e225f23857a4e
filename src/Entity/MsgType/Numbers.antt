-- ===== src/Entity/MsgType/Numbers.antt =====
-- The numbering of the message types, looked up: a value of `FromPrimitive` that runs in tests.
use prim.Prelude.{◌≡◌, refl, some, List, [], ◌∷◌}
use prim.External.Primitive.{FromPrimitive}
use prim.External.Primitive.Lookup.{lookup, value-lookup}
use prim.Entity.MsgType.{
  MsgType, value, na, ack, text, meme, file, image, video, audio, edit, withdraw, auth, ping, pong,
  echo, error, be_offline, internal_error, system_message, add_friend, remove_friend, join_group,
  leave_group, remote_invoke, set_relationship, noop, close, compressed,
}

abbrev pub types : List MsgType
types =
    na ∷ ack ∷ text ∷ meme ∷ file ∷ image ∷ video ∷ audio ∷ edit ∷ withdraw ∷ auth ∷ ping ∷ pong
    ∷ echo ∷ error ∷ be_offline ∷ internal_error ∷ system_message ∷ add_friend ∷ remove_friend
    ∷ join_group ∷ leave_group ∷ remote_invoke ∷ set_relationship ∷ noop ∷ close ∷ compressed ∷ []

pub type_of : (t : MsgType) → lookup value (value t) types ≡ some t
unfolding value lookup
type_of na = refl
type_of _ = refl

instance abbrev pub msg_types : FromPrimitive value
msg_types = record {
  from_u16 = λ n. lookup value n types;
  from_u16-value = type_of;
  value-from_u16 = λ n a. value-lookup value n types a;
}
