-- ===== src/Entity/ServerInfo/Codec.antt =====
-- A value of `Json` that runs in tests: the fields in a row.
use prim.Prelude.{
  ℕ, ◌≡◌, refl, Option, none, some, ◌>>=◌, List, [], ◌∷◌, ◌++◌, length, take, drop, take-append,
  drop-append, get_elem?, ◌==◌, if◌then◌else◌,
}
use prim.External.ByteOrder.{Bytes}
use prim.External.Json.{Json}
use prim.Entity.ServerInfo.{ServerStatus, ServerType, ServerInfo, IsPlain}

status_number : ServerStatus → ℕ
status_number ServerStatus.na = 0
status_number ServerStatus.online = 1
status_number ServerStatus.normal = 2
status_number ServerStatus.overload = 3
status_number ServerStatus.crash = 4
status_number ServerStatus.offline = 5

abbrev statuses : List ServerStatus
statuses =
    ServerStatus.na ∷ ServerStatus.online ∷ ServerStatus.normal ∷ ServerStatus.overload
    ∷ ServerStatus.crash ∷ ServerStatus.offline ∷ []

type_number : ServerType → ℕ
type_number ServerType.na = 0
type_number ServerType.scheduler_cluster = 1
type_number ServerType.scheduler_client = 2
type_number ServerType.message_cluster = 3
type_number ServerType.seqnum_cluster = 4
type_number ServerType.msgprocessor_cluster = 5

abbrev types : List ServerType
types =
    ServerType.na ∷ ServerType.scheduler_cluster ∷ ServerType.scheduler_client
    ∷ ServerType.message_cluster ∷ ServerType.seqnum_cluster ∷ ServerType.msgprocessor_cluster ∷ []

status_of : (s : ServerStatus) → get_elem? statuses (status_number s) ≡ some s
unfolding status_number
status_of ServerStatus.na = refl
status_of _ = refl

type_of : (t : ServerType) → get_elem? types (type_number t) ≡ some t
unfolding type_number
type_of ServerType.na = refl
type_of _ = refl

cluster_bytes : Option Bytes → Bytes
cluster_bytes none = []
cluster_bytes (some address) = 1 ∷ address

cluster_of : Bytes → Option Bytes
cluster_of [] = none
cluster_of (flag ∷ address) = some address

cluster_of-cluster_bytes : (c : Option Bytes) → cluster_of (cluster_bytes c) ≡ c
unfolding cluster_of cluster_bytes
cluster_of-cluster_bytes none = refl
cluster_of-cluster_bytes (some address) = refl

unfoldable pub encode : ServerInfo → Bytes
unfolding status_number type_number cluster_bytes
encode info =
    123
    ∷ info.id
    ∷ info.connection_id
    ∷ status_number info.status
    ∷ type_number info.typ
    ∷ length info.service_address
    ∷ (info.service_address ++ cluster_bytes info.cluster_address)

decode_info : ℕ → ℕ → ℕ → ℕ → ℕ → Bytes → Option ServerInfo
unfolding cluster_of
decode_info id connection_id status typ n rest = do
  status ← get_elem? statuses status
  typ ← get_elem? types typ
  some (record {
    id = id;
    cluster_address = cluster_of (drop n rest);
    service_address = take n rest;
    connection_id = connection_id;
    status = status;
    typ = typ;
    load = none;
  })

unfoldable pub decode : Bytes → Option ServerInfo
unfolding decode_info
decode (brace ∷ id ∷ connection_id ∷ status ∷ typ ∷ n ∷ rest) =
    if brace == 123 then decode_info id connection_id status typ n rest else none
decode _ = none

decode_info-encode :
    (info : ServerInfo)
    → IsPlain info
    → decode_info info.id info.connection_id
        (status_number info.status)
        (type_number info.typ)
        (length info.service_address)
        (info.service_address ++ cluster_bytes info.cluster_address)
      ≡ some info
unfolding decode_info
decode_info-encode info plain =
    rw
      (
        decode_info,
        status_of info.status,
        type_of info.typ,
        take-append (length info.service_address) info.service_address
            (cluster_bytes info.cluster_address) refl,
        drop-append (length info.service_address) info.service_address
            (cluster_bytes info.cluster_address) refl,
        cluster_of-cluster_bytes info.cluster_address,
        ← plain,
      )
      refl

pub decode-encode : (info : ServerInfo) → IsPlain info → decode (encode info) ≡ some info
unfolding decode encode
decode-encode info plain = decode_info-encode info plain

instance abbrev pub plain_json : Json IsPlain
plain_json = record {
  to_vec = λ info. some (encode info);
  from_slice = decode;
  from_slice-to_vec = λ info plain. (encode info, refl, decode-encode info plain);
}
