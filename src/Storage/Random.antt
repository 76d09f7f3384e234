-- ===== src/Storage/Random.antt =====
-- client/datastor/pipeline/storage/random.go: RandomChunkStorage, which stores a chunk on one shard.
use stor.Base.{
  true, false, panic-ne-ok, ok-injective, sym, err-ne-ok, ℕ, ◌≡◌, refl, ap, Bytes, List, [], ◌∷◌,
  not, ◌==◌, ltb, ==_refl, length, Result, ok, err, panic, ◌>>=◌, ◌>>◌, fail_if,
}
use stor.Cluster.Types
use stor.Cluster.Types.{Cluster, ObjectRef}
use stor.Storage.Types.{
  too_few_shards, Error, unexpected_object_count, shards_unavailable, not_supported,
  invalid_data_size, datastor, ChunkConfig, CheckStatus, invalid, optimal,
}
use stor.Storage.Distributed.{is_valid_object}
use stor.Storage.Distributed.Writing.Storing.{IsDurable}

-- NewRandomChunkStorage, for a number of listed shards
unfoldable pub new_random_chunk_storage : ℕ → Result Error (Unit {0})
new_random_chunk_storage listed_shard_count = fail_if (ltb listed_shard_count 1) too_few_shards

-- What WriteChunk does with the answer of a shard: another shard is tried after an error.
abbrev pub written :
    {W : Type 0}
    → Bytes
    → Bytes
    → Result Types.Error Bytes × W
    → (W → Result Error ChunkConfig × W)
    → Result Error ChunkConfig × W
written bytes id (ok key, w) again =
    (ok (record { size = length bytes; objects = record { key = key; shard_id = id } ∷ [] }), w)
written bytes id (err _, w) again = again w
written bytes id (panic, w) again = (panic, w)

-- WriteChunk, for the order in which the random iterator hands out the shards
unfoldable pub write_chunk :
    (C : Cluster) → Bytes → List Bytes → C.World → Result Error ChunkConfig × C.World
write_chunk C bytes [] w = (err shards_unavailable, w)
write_chunk C bytes (id ∷ ids) w =
    written bytes id (C.create_object id bytes w) (λ w'. write_chunk C bytes ids w')

-- What the client returns of an error of its cluster.
abbrev pub passed_on : {A : Type 0} → Result Types.Error A → Result Error A
passed_on (ok a) = ok a
passed_on (err e) = err (datastor e)
passed_on panic = panic

-- `if len(cfg.Objects) != 1`
abbrev pub only_object : List ObjectRef → Result Error ObjectRef
only_object (object ∷ []) = ok object
only_object objects = err unexpected_object_count

-- ReadChunk; with invalid_data_size it returns the data as well
unfoldable pub read_chunk : (C : Cluster) → ChunkConfig → C.World → Result Error Bytes
read_chunk C cfg w = only_object cfg.objects >>= λ object.
    passed_on (C.get_shard object.shard_id w)
    >> (passed_on (C.get_object object.shard_id object.key w) >>= λ bytes.
        fail_if (not (length bytes == cfg.size)) invalid_data_size >> ok bytes)

-- CheckChunk, fast or not
unfoldable pub check_chunk : (C : Cluster) → ChunkConfig → C.World → Result Error CheckStatus
check_chunk C cfg w = only_object cfg.objects >>= λ object.
    ok (elim (is_valid_object C w object) [ true ↦ optimal | false ↦ invalid ])

-- RepairChunk
unfoldable pub repair_chunk : ChunkConfig → Result Error ChunkConfig
repair_chunk cfg = err not_supported

-- DeleteChunk
unfoldable pub delete_chunk :
    (C : Cluster) → ChunkConfig → C.World → Result Error (Unit {0}) × C.World
delete_chunk C cfg w = elim (only_object cfg.objects) [
  | ok object ↦ elim (C.get_shard object.shard_id w) [
    | ok _ ↦
        let (answer, w') = C.delete_object object.shard_id object.key w in (passed_on answer, w')
    | err e ↦ (err (datastor e), w)
    | panic ↦ (panic, w)
  ]
  | err e ↦ (err e, w)
  | panic ↦ (panic, w)
]

read_chunk_lem :
    (C : Cluster) (id key bytes : Bytes) (w : C.World)
    → C.get_shard id w ≡ ok tt
    → C.get_object id key w ≡ ok bytes
    → read_chunk C
        (record { size = length bytes; objects = record { key = key; shard_id = id } ∷ [] })
        w
      ≡ ok bytes
unfolding read_chunk
read_chunk_lem C id key bytes w s e = rw (s, e, ==_refl (length bytes)) refl

module _ (C : Cluster) (bytes : Bytes) (d : IsDurable C) (cfg : ChunkConfig) (w' : C.World)
    (reachable : (id : Bytes) → C.get_shard id w' ≡ ok tt) where
  read_written :
      (id : Bytes) (w : C.World) (r : Result Types.Error Bytes × C.World)
      (again : C.World → Result Error ChunkConfig × C.World)
      → C.create_object id bytes w ≡ r
      → written bytes id r again ≡ (ok cfg, w')
      → ((v : C.World) → again v ≡ (ok cfg, w') → read_chunk C cfg w' ≡ ok bytes)
      → read_chunk C cfg w' ≡ ok bytes
  read_written id w (ok key, v) again e f k =
      let same : v ≡ w' = ap (λ x. x.1) f in
      rw (sym (ok-injective (ap (λ x. x.0) f))) (
        read_chunk_lem C id key bytes w' (reachable id) (rw same at (d.created id bytes key w v e)))
  read_written id w (err x, v) again e f k = k v f
  read_written id w (panic, v) again e f k = absurd (panic-ne-ok (ap (λ x. x.0) f))

-- What WriteChunk has stored, on whichever shard took it, ReadChunk reads back, if the shards keep what
-- they acknowledge and can be reached.
pub random_read-write :
    (C : Cluster) (bytes : Bytes) (ids : List Bytes) (w w' : C.World) (cfg : ChunkConfig)
    → IsDurable C
    → write_chunk C bytes ids w ≡ (ok cfg, w')
    → ((id : Bytes) → C.get_shard id w' ≡ ok tt)
    → read_chunk C cfg w' ≡ ok bytes
unfolding write_chunk
random_read-write C bytes [] w w' cfg d e reachable = absurd (err-ne-ok (ap (λ x. x.0) e))
random_read-write C bytes (id ∷ ids) w w' cfg d e reachable =
    read_written C bytes d cfg w' reachable id w (C.create_object id bytes w)
      (λ v. write_chunk C bytes ids v) refl e
      (λ v f. random_read-write C bytes ids v w' cfg d f reachable)
