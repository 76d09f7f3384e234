-- ===== src/Storage/Distributed.antt =====
-- client/datastor/pipeline/storage/distributed.go: DistributedChunkStorage. Its goroutines share
-- channels: reading takes the order in which their results arrive, checking and writing are step
-- relations on what the channels and the workers hold.
pub mod Reading
pub mod Checking
pub mod Writing
pub mod RoundTrip
pub mod Deleting
use stor.Base.{
  ℕ, zero, suc, ◌+◌, ◌≡◌, Bytes, List, [], ◌∷◌, Option, none, some, Bool, true, false, ltb, leb,
  ◌==◌, not, if◌then◌else◌, replicate, length, get_elem?, set, Result, ok, err, panic, ◌>>=◌, ◌>>◌,
  fail_if,
}
use stor.ServerTypes.{ObjectStatus}
use stor.Cluster.Types
use stor.Cluster.Types.{Cluster, ObjectRef}
use stor.Storage.Types.{
  Error, too_few_shards, unexpected_object_count, shards_unavailable, invalid_data_size,
  ChunkConfig, CheckStatus, invalid, valid, optimal,
}
use stor.Storage.Erasure.{
  EncodeReconster, new_reed_solomon, ReedSolomon, encode, decode, minimum_valid_shard_count,
  required_shard_count,
}

-- DistributedEncoderDecoder
pub record EncoderDecoder : Type 0 where
  pub encode_parts : Bytes → Result Error (List Bytes)
  pub decode_parts : List Bytes → ℕ → Result Error Bytes
  pub minimum : ℕ
  pub required : ℕ

abbrev pub reed_solomon_coder : ReedSolomon → EncoderDecoder
reed_solomon_coder rs = record {
  encode_parts = encode rs;
  decode_parts = decode rs;
  minimum = minimum_valid_shard_count rs;
  required = required_shard_count rs;
}

-- NewDistributedChunkStorageWithEncoderDecoder: without a job count, the default is taken
abbrev pub job_count_or : ℕ → ℕ → ℕ
job_count_or default_job_count job_count = if ltb job_count 1 then default_job_count else job_count

-- NewDistributedChunkStorage, for a number of listed shards: the coder and the job count
unfoldable pub new_distributed_chunk_storage :
    (ℕ → ℕ → Result Error EncodeReconster) → ℕ → ℕ → ℕ → ℕ → ℕ → Result Error (ReedSolomon × ℕ)
new_distributed_chunk_storage new default_job_count listed_shard_count data_count parity_count
      job_count =
    fail_if (ltb listed_shard_count (data_count + parity_count)) too_few_shards
    >> (new_reed_solomon new data_count parity_count >>= λ rs.
        ok (rs, job_count_or default_job_count job_count))

abbrev pub part_of : Result Types.Error (Unit {0}) → Result Types.Error Bytes → Option Bytes
part_of (ok _) (ok bytes) = some bytes
part_of shard object = none

-- What a worker of ReadChunk gets for an object; it passes over those that it cannot get.
unfoldable pub fetch_part : (C : Cluster) → C.World → ObjectRef → Option Bytes
fetch_part C w object =
    part_of (C.get_shard object.shard_id w) (C.get_object object.shard_id object.key w)

abbrev pub fetch_listed : (C : Cluster) → C.World → Option ObjectRef → Option Bytes
fetch_listed C w (some object) = fetch_part C w object
fetch_listed C w none = none

-- `cfg.Objects[index]`
unfoldable pub fetch_at : (C : Cluster) → C.World → List ObjectRef → ℕ → Option Bytes
fetch_at C w objects index = fetch_listed C w (get_elem? objects index)

abbrev pub delivered : ℕ → Option Bytes → List (ℕ × Bytes) → List (ℕ × Bytes)
delivered index (some bytes) later = (index, bytes) ∷ later
delivered index none later = later

-- What arrives on resultCh, when the workers finish with the objects in the given order.
unfoldable pub results : (C : Cluster) → C.World → List ObjectRef → List ℕ → List (ℕ × Bytes)
results C w objects [] = []
results C w objects (index ∷ arrival) =
    delivered index (fetch_at C w objects index) (results C w objects arrival)

-- `for result := range resultCh`: as many results as are needed are put in their slots.
unfoldable pub collect : ℕ → List (ℕ × Bytes) → ℕ → List Bytes → ℕ × List Bytes
collect minimum [] count parts = (count, parts)
collect minimum (result ∷ later) count parts =
    let parts' = set parts result.0 result.1 in
    (let rest = collect minimum later (count + 1) parts' in
      (if count + 1 == minimum then (count + 1, parts') else rest))

abbrev pub parts_read : EncoderDecoder → ℕ → ℕ × List Bytes → Result Error Bytes
parts_read dec size (count, parts) =
    fail_if (ltb count dec.minimum) shards_unavailable
    >> (dec.decode_parts parts size >>= λ bytes.
        fail_if (not (length bytes == size)) invalid_data_size >> ok bytes)

-- ReadChunk
unfoldable pub read_chunk :
    (C : Cluster) → EncoderDecoder → C.World → List ℕ → ChunkConfig → Result Error Bytes
read_chunk C dec w arrival cfg =
    fail_if (not (dec.required == length cfg.objects)) unexpected_object_count
    >> parts_read dec cfg.size
        (collect dec.minimum (results C w cfg.objects arrival) 0 (replicate dec.required []))

-- Whether a worker of CheckChunk finds the object in order.
unfoldable pub is_valid_object : (C : Cluster) → C.World → ObjectRef → Bool
is_valid_object C w object = elim (C.get_shard object.shard_id w) [
  | ok _ ↦ elim (C.get_object_status object.shard_id object.key w) [
    | ok status ↦ elim status [ ObjectStatus.status_ok ↦ true | _ ↦ false ]
    | _ ↦ false
  ]
  | _ ↦ false
]

-- `searchObjectCount`
abbrev pub search_object_count : EncoderDecoder → Bool → ℕ
search_object_count dec true = dec.minimum
search_object_count dec false = dec.required

-- What CheckChunk makes of the number of valid objects that were found.
unfoldable pub check_status : EncoderDecoder → ℕ → CheckStatus
check_status dec found =
    if found == dec.required then optimal else (if leb dec.minimum found then valid else invalid)
