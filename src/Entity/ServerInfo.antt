-- ===== src/Entity/ServerInfo.antt =====
-- `ServerInfo` of server/lib/src/entity/mod.rs and its conversions in entity/server.rs. An `f32`
-- is its bits; an address is the bytes of its text.
pub mod Codec
use prim.Prelude.{ℕ, ◌≡◌, refl, Option, none, some, List, [], ◌∷◌}
use prim.External.ByteOrder.{Bytes}
use prim.External.Json.{Json}

pub data ServerStatus : Type 0 where
  na online normal overload crash offline : ServerStatus

pub data ServerType : Type 0 where
  na scheduler_cluster scheduler_client message_cluster seqnum_cluster : ServerType
  msgprocessor_cluster : ServerType

pub record ServerLoad : Type 0 where
  pub cpu : ℕ × ℕ
  pub mem : ℕ × ℕ
  pub net : ℕ × ℕ
  pub disk : ℕ × ℕ
  pub thread_num : ℕ
  pub process_num : ℕ
  pub physical_mem : ℕ
  pub virtual_mem : ℕ
  pub swap_disk : ℕ
  pub disk_write : ℕ
  pub disk_read : ℕ
  pub net_write : ℕ
  pub net_read : ℕ

pub record ServerInfo : Type 0 where
  pub id : ℕ
  pub cluster_address : Option Bytes
  pub service_address : Bytes
  pub connection_id : ℕ
  pub status : ServerStatus
  pub typ : ServerType
  pub load : Option ServerLoad

-- `[::]:12345`
abbrev pub default_address : Bytes
default_address = 91 ∷ 58 ∷ 58 ∷ 93 ∷ 58 ∷ 49 ∷ 50 ∷ 51 ∷ 52 ∷ 53 ∷ []

unfoldable pub default : ServerInfo
default = record {
  id = 0;
  cluster_address = none;
  service_address = default_address;
  connection_id = 0;
  status = ServerStatus.na;
  typ = ServerType.na;
  load = none;
}

-- Without a load there is no float in it, which JSON may lack.
abbrev pub IsPlain : ServerInfo → Type 0
IsPlain info = info.load ≡ none

or_default : Option ServerInfo → ServerInfo
unfolding default
or_default (some info) = info
or_default none = default

or_empty : Option Bytes → Bytes
or_empty (some bs) = bs
or_empty none = []

module _ ⦃json : Json IsPlain⦄ where
  -- `From<&[u8]>`: the default where the bytes do not parse.
  unfoldable pub from : Bytes → ServerInfo
  unfolding or_default
  from bytes = or_default (json.from_slice bytes)

  unfoldable pub to_bytes : ServerInfo → Bytes
  unfolding or_empty
  to_bytes info = or_empty (json.to_vec info)

  pub from-to_bytes : (info : ServerInfo) → IsPlain info → from (to_bytes info) ≡ info
  unfolding from to_bytes
  from-to_bytes info plain =
      let (bs, writes, reads) = json.from_slice-to_vec info plain in rw (writes, reads) refl
