-- ===== src/Pipeline/Storages.antt =====
-- RandomChunkStorage (client/datastor/pipeline/storage/random.go) as a ChunkStorage of a pipeline. The
-- order in which the random iterator hands out the shards may depend on the data and on the state.
use stor.Base.{◌≡◌, Bytes, List, ok}
use stor.Cluster.Types.{Cluster}
use stor.Storage.Random
use stor.Storage.Random.{random_read-write}
use stor.Storage.Distributed.Writing.Storing.{IsDurable}
use stor.Pipeline.Types.{ChunkStorage, IsStorage}

abbrev pub random_storage : (C : Cluster) → (Bytes → C.World → List Bytes) → ChunkStorage
random_storage C order = record {
  World = C.World;
  write_chunk = λ bytes w. Random.write_chunk C bytes (order bytes w) w;
  read_chunk = λ cfg w. Random.read_chunk C cfg w;
  check_chunk = λ cfg fast w. Random.check_chunk C cfg w;
  repair_chunk = λ cfg w. (Random.repair_chunk cfg, w);
  delete_chunk = λ cfg w. Random.delete_chunk C cfg w;
}

-- RandomChunkStorage is a storage that reads what it has written, over a cluster that can be reached and
-- keeps what it acknowledges.
pub random_storage-IsStorage :
    (C : Cluster) (order : Bytes → C.World → List Bytes)
    → IsDurable C
    → ((id : Bytes) (w : C.World) → C.get_shard id w ≡ ok tt)
    → IsStorage (random_storage C order)
random_storage-IsStorage C order durable reachable = λ bytes w w' cfg e.
    random_read-write C bytes (order bytes w) w w' cfg durable e (λ id. reachable id w')
