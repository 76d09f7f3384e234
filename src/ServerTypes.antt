-- ===== src/ServerTypes.antt =====
-- server/types.go: the values that the server stores, and the state of an object.
use Prim.Native.String.{String}
use stor.Base.{ℕ, ◌<◌, ◌^◌, Bytes}

pub record Object : Type 0 where
  pub content : Bytes

-- `reserved` is a uint64.
pub record Namespace : Type 0 where
  pub reserved : ℕ
  pub label : Bytes

-- Both fields are a uint64.
pub record StoreStat : Type 0 where
  pub size_available : ℕ
  pub size_used : ℕ

pub data ObjectStatus : Type 0 where
  missing status_ok corrupted : ObjectStatus

-- (ObjectStatus).String, which cuts the texts out of one constant
unfoldable pub status_string : ObjectStatus → String
status_string status_ok = "ok"
status_string corrupted = "corrupted"
status_string missing = "missing"

abbrev pub IsUint32 : ℕ → Type 0
IsUint32 v = v < 2 ^ 32

abbrev pub IsUint64 : ℕ → Type 0
IsUint64 v = v < 2 ^ 64
