-- ===== src/Storage/Types.antt =====
-- client/datastor/pipeline/storage/storage.go: what the chunk storages share.
use stor.Base.{ℕ, Bytes, List, take, drop, codes}
use stor.Cluster.Types
use stor.Cluster.Types.{ObjectRef}

-- The errors of a storage, those of reed-solomon coding, and those that it passes on.
pub data Error : Type 0 where
  unexpected_object_count shards_unavailable not_supported invalid_data_size : Error
  too_few_shards too_few_data_shards too_few_parity_shards no_data unexpected_parts : Error
  library : ℕ → Error
  datastor : Types.Error → Error

pub record ChunkConfig : Type 0 where
  pub size : ℕ
  pub objects : List ObjectRef

pub data CheckStatus : Type 0 where
  invalid valid optimal : CheckStatus

-- checkStatusString
abbrev status_names : Bytes
status_names = codes "invalidoptimal"

-- String
abbrev pub check_status_string : CheckStatus → Bytes
check_status_string invalid = take 7 status_names
check_status_string valid = drop 2 (take 7 status_names)
check_status_string optimal = drop 7 status_names
