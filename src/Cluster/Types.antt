-- ===== src/Cluster/Types.antt =====
-- client/datastor/types.go, client.go and cluster.go, and the objects and chunks of
-- client/metastor/metatypes/types.go. A shard is named by its identifier: what can be asked of it
-- depends on the world, the state of the servers and of the network.
use stor.Base.{ℕ, Bytes, List, Result}
use stor.ServerTypes.{ObjectStatus}

-- The errors that the client tells apart; any other is `other`.
pub data Error : Type 0 where
  key_not_found object_corrupted permission_denied no_shards_available : Error
  other : ℕ → Error

-- metatypes.Object: where an object of a chunk is stored, and under which key.
pub record ObjectRef : Type 0 where
  pub key : Bytes
  pub shard_id : Bytes

-- metatypes.Chunk
pub record Chunk : Type 0 where
  pub size : ℕ
  pub objects : List ObjectRef
  pub hash : Bytes

-- The interfaces Cluster and Shard. Reading changes nothing.
pub record Cluster : Type 1 where
  pub World : Type 0
  pub get_shard : Bytes → World → Result Error (Unit {0})
  pub create_object : Bytes → Bytes → World → Result Error Bytes × World
  pub get_object : Bytes → Bytes → World → Result Error Bytes
  pub get_object_status : Bytes → Bytes → World → Result Error ObjectStatus
  pub delete_object : Bytes → Bytes → World → Result Error (Unit {0}) × World
