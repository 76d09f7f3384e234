-- ===== src/Tests/Pipeline.antt =====
-- A pipeline over one store, with a processor that reverses and a hasher that keeps the first byte.
use mathlib.Core.List.{reverse, reverse-reverse}
use stor.Base.{◌∙◌, sym, ◌≡◌, refl, ap, [], ◌∷◌, ok, ok-injective}
use stor.Cluster.Types.{Chunk}
use stor.Storage.Random.{write_chunk, read_chunk}
use stor.Pipeline.Types.{Processor, Hasher, IsReversible}
use stor.Pipeline.SingleObject.{SingleObject, write, read}
use stor.Pipeline.SingleObject.Reading.{pipeline_read-write, read-hash}
use stor.Pipeline.Storages.{random_storage, random_storage-IsStorage}
use stor.Tests.Client.{small_cluster, small_cluster-IsDurable, three_shards}

abbrev pub turned : Processor
turned = record {
  write_process = λ bytes. ok (reverse bytes);
  read_process = λ bytes. ok (reverse bytes);
}

pub turned-IsReversible : IsReversible turned
turned-IsReversible bytes processed e =
    ap ok (ap reverse (sym (ok-injective e)) ∙ reverse-reverse bytes)

abbrev pub first_byte : Hasher
first_byte [] = []
first_byte (b ∷ bytes) = b ∷ []

abbrev small_pipeline : SingleObject
small_pipeline = record {
  hasher = ok first_byte;
  processor = ok turned;
  chunk_storage = random_storage small_cluster (λ bytes w. three_shards);
}

abbrev small_chunk : Chunk
small_chunk = record {
  size = 2;
  objects = record { key = 0 ∷ []; shard_id = 1 ∷ [] } ∷ [];
  hash = 7 ∷ [];
}

pipeline_read-write_test :
    read small_pipeline (small_chunk ∷ []) ((8 ∷ 7 ∷ []) ∷ []) ≡ ok (7 ∷ 8 ∷ [])
unfolding write write_chunk
pipeline_read-write_test =
    pipeline_read-write small_pipeline first_byte turned (7 ∷ 8 ∷ []) (small_chunk ∷ []) []
      ((8 ∷ 7 ∷ []) ∷ [])
      (random_storage-IsStorage small_cluster (λ bytes w. three_shards) small_cluster-IsDurable
        (λ id w. refl))
      turned-IsReversible refl refl refl

read-hash_example : first_byte (7 ∷ 8 ∷ []) ≡ small_chunk.hash
unfolding read read_chunk
read-hash_example =
    read-hash small_pipeline first_byte turned small_chunk ((8 ∷ 7 ∷ []) ∷ []) (7 ∷ 8 ∷ []) refl
      refl refl
