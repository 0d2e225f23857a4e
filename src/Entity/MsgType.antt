-- ===== src/Entity/MsgType.antt =====
-- The enum `Type` of server/lib/src/entity/mod.rs and its conversions in entity/msg.rs.
pub mod Laws
pub mod Numbers
use Prim.Native.String.{String}
use prim.Prelude.{ℕ, ◌%◌, ◌^◌, Option, none, some}
use prim.External.Primitive.{FromPrimitive}

pub data MsgType : Type 0 where
  na ack : MsgType
  text meme file image video audio : MsgType
  edit withdraw : MsgType
  auth ping pong echo error be_offline internal_error : MsgType
  system_message add_friend remove_friend join_group leave_group remote_invoke : MsgType
  set_relationship : MsgType
  noop close compressed : MsgType

-- The discriminants; `value` and `Into<u16>` are the cast `as u16`.
unfoldable pub value : MsgType → ℕ
value na = 0
value ack = 1
value text = 32
value meme = 33
value file = 34
value image = 35
value video = 36
value audio = 37
value edit = 64
value withdraw = 65
value auth = 96
value ping = 97
value pong = 98
value echo = 99
value error = 100
value be_offline = 101
value internal_error = 102
value system_message = 128
value add_friend = 129
value remove_friend = 130
value join_group = 131
value leave_group = 132
value remote_invoke = 133
value set_relationship = 134
value noop = 160
value close = 161
value compressed = 162

or_na : Option MsgType → MsgType
or_na (some e) = e
or_na none = na

-- `From<u16>`: an unknown number is `NA`.
unfoldable pub from : ⦃p : FromPrimitive value⦄ → ℕ → MsgType
unfolding or_na
from ⦃p⦄ n = or_na (p.from_u16 n)

-- `Display`
unfoldable pub display : MsgType → String
display ack = "Ack"
display text = "Text"
display meme = "Meme"
display file = "File"
display image = "Image"
display video = "Video"
display audio = "Audio"
display edit = "Edit"
display withdraw = "Withdraw"
display auth = "Auth"
display ping = "Ping"
display echo = "Echo"
display error = "Error"
display be_offline = "Offline"
display internal_error = "InternalError"
display system_message = "SysNotification"
display add_friend = "AddFriend"
display remove_friend = "RemoveFriend"
display join_group = "JoinGroup"
display leave_group = "LeaveGroup"
display noop = "Noop"
display close = "Close"
display compressed = "Compressed"
display _ = "NA"
