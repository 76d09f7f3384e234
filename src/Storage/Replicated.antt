-- ===== src/Storage/Replicated.antt =====
-- client/datastor/pipeline/storage/replicated.go: ReplicatedChunkStorage, which stores the same data on
-- several shards. DeleteChunk is the code of DistributedChunkStorage once more (Storage.Distributed.Deleting).
pub mod Checking
pub mod Writing
pub mod Repairing
use stor.Base.{
  ℕ, zero, suc, ◌+◌, ◌-◌, Bytes, List, [], ◌∷◌, ◌++◌, map, Option, none, some, Bool, true, false,
  ltb, leb, ◌==◌, not, if◌then◌else◌, max, length, drop, count_if, Result, ok, err, panic, ◌>>=◌,
  ◌>>◌, fail_if, panic_if,
}
use stor.ServerTypes.{ObjectStatus, missing, status_ok, corrupted}
use stor.Cluster.Types
use stor.Cluster.Types.{Cluster, ObjectRef}
use stor.Storage.Types.{
  Error, too_few_shards, unexpected_object_count, shards_unavailable, ChunkConfig, CheckStatus,
  invalid, valid, optimal,
}
use stor.Storage.Distributed.{fetch_part, is_valid_object, job_count_or}

pub record Replicated : Type 0 where
  pub data_shard_count : ℕ
  pub job_count : ℕ
  pub write_job_count : ℕ

-- NewReplicatedChunkStorage, for a number of listed shards
unfoldable pub new_replicated_chunk_storage : ℕ → ℕ → ℕ → ℕ → Result Error Replicated
new_replicated_chunk_storage default_job_count listed_shard_count data_shard_count job_count =
    panic_if (ltb data_shard_count 1)
    >> (fail_if (ltb listed_shard_count data_shard_count) too_few_shards
        >> ok (record {
          data_shard_count = data_shard_count;
          job_count = job_count_or default_job_count job_count;
          write_job_count = max (job_count_or default_job_count job_count) data_shard_count;
        }))

-- An object that could be read is taken if it has the size of the chunk.
abbrev pub sized : ℕ → Option Bytes → Result Error Bytes → Result Error Bytes
sized size (some bytes) later = if length bytes == size then ok bytes else later
sized size none later = later

-- The loop of ReadChunk
unfoldable pub read_objects : (C : Cluster) → C.World → ℕ → List ObjectRef → Result Error Bytes
read_objects C w size [] = err shards_unavailable
read_objects C w size (object ∷ objects) =
    sized size (fetch_part C w object) (read_objects C w size objects)

-- ReadChunk
unfoldable pub read_chunk : (C : Cluster) → ChunkConfig → C.World → Result Error Bytes
read_chunk C cfg w =
    fail_if (length cfg.objects == 0) unexpected_object_count
    >> read_objects C w cfg.size cfg.objects

-- `for range resultCh`, which stops at as many results as there are to be replicas
unfoldable pub count_results : ℕ → ℕ → ℕ → CheckStatus
count_results data_shard_count zero found = if ltb 0 found then valid else invalid
count_results data_shard_count (suc results) found =
    let rest = count_results data_shard_count results (found + 1) in
    if found + 1 == data_shard_count then optimal else rest

-- The status for the first result, or for none.
abbrev pub fast_status : ℕ → ℕ → CheckStatus
fast_status data_shard_count zero = invalid
fast_status data_shard_count (suc results) = if data_shard_count == 1 then optimal else valid

abbrev pub status_for : Bool → ℕ → ℕ → CheckStatus
status_for true data_shard_count results = fast_status data_shard_count results
status_for false data_shard_count results = count_results data_shard_count results 0

-- CheckChunk: each object is looked at by one worker, which sends an empty result for a valid one.
unfoldable pub check_chunk :
    (C : Cluster) → ℕ → ChunkConfig → Bool → C.World → Result Error CheckStatus
check_chunk C data_shard_count cfg fast w =
    fail_if (length cfg.objects == 0) unexpected_object_count
    >> ok (status_for fast data_shard_count (count_if (is_valid_object C w) cfg.objects))

-- What splitObjects finds about an object: a missing or corrupted object is neither valid nor invalid.
pub data Finding : Type 0 where
  found_valid found_invalid found_neither unreachable : Finding

abbrev pub finding_of : Result Types.Error (Unit {0}) → Result Types.Error ObjectStatus → Finding
finding_of (ok _) (ok status_ok) = found_valid
finding_of (ok _) (ok missing) = found_neither
finding_of (ok _) (ok corrupted) = found_neither
finding_of (ok _) status = found_invalid
finding_of shard status = unreachable

unfoldable pub finding : (C : Cluster) → C.World → ObjectRef → Finding
finding C w object =
    finding_of (C.get_shard object.shard_id w) (C.get_object_status object.shard_id object.key w)

abbrev pub sorted_in :
    Finding → ObjectRef → List ObjectRef × List ObjectRef → List ObjectRef × List ObjectRef
sorted_in found_valid object (valids, invalids) = (object ∷ valids, invalids)
sorted_in found_invalid object (valids, invalids) = (valids, object ∷ invalids)
sorted_in found_neither object sorted = sorted
sorted_in unreachable object sorted = sorted

-- splitObjects, for the objects in the order in which the workers report them
unfoldable pub split_objects :
    (C : Cluster) → C.World → List ObjectRef → List ObjectRef × List ObjectRef
split_objects C w [] = ([], [])
split_objects C w (object ∷ objects) =
    sorted_in (finding C w object) object (split_objects C w objects)

-- What the loop of RepairChunk finds behind an object.
pub data Look : Type 0 where
  no_shard no_object : Look
  wrong_size right_size : Bytes → Look

abbrev pub look_at : ℕ → Result Types.Error (Unit {0}) → Result Types.Error Bytes → Look
look_at size (ok _) (ok bytes) = if length bytes == size then right_size bytes else wrong_size bytes
look_at size (ok _) object = no_object
look_at size shard object = no_shard

-- An iteration: the variable `object` keeps what was read last, also if its size is wrong, and each
-- failure drops the first valid object.
abbrev pub source_step :
    Look
    → Option Bytes
    → List ObjectRef
    → (Option Bytes → Option Bytes × List ObjectRef)
    → Option Bytes × List ObjectRef
source_step no_shard object valids again = again object
source_step no_object object valids again = again none
source_step (wrong_size bytes) object valids again = again (some bytes)
source_step (right_size bytes) object valids again = (some bytes, valids)

-- The loop of RepairChunk, over the valid objects as they were before it
unfoldable pub pick_source :
    (C : Cluster)
    → C.World
    → ℕ
    → List ObjectRef
    → Option Bytes
    → List ObjectRef
    → Option Bytes × List ObjectRef
pick_source C w size [] object valids = (object, valids)
pick_source C w size (o ∷ os) object valids =
    source_step (look_at size (C.get_shard o.shard_id w) (C.get_object o.shard_id o.key w)) object
      valids (λ object'. pick_source C w size os object' (drop 1 valids))

-- What RepairChunk decides: it ends, or it writes replicas to the shards that are not excepted.
pub data Plan : Type 0 where
  repaired : Result Error ChunkConfig → Plan
  replicate_to : List ObjectRef → List Bytes → ℕ → Bytes → Plan

abbrev pub planned : ℕ → List ObjectRef → Option Bytes × List ObjectRef → Plan
planned data_shard_count invalids (none, valids) = repaired (err shards_unavailable)
planned data_shard_count invalids (some bytes, valids) =
    replicate_to valids (map (λ (o : ObjectRef). o.shard_id) (invalids ++ valids))
      (data_shard_count - length valids) bytes

abbrev pub plan_for : (C : Cluster) → ℕ → C.World → ℕ → List ObjectRef × List ObjectRef → Plan
plan_for C data_shard_count w size (valids, invalids) =
    if length valids == 0
    then repaired (err shards_unavailable)
    else if leb data_shard_count (length valids)
    then repaired (ok (record { size = size; objects = valids }))
    else planned data_shard_count invalids (pick_source C w size valids none valids)

abbrev pub single_plan : ChunkConfig → Bool → Plan
single_plan cfg true = repaired (ok cfg)
single_plan cfg false = repaired (err shards_unavailable)

-- RepairChunk before it writes, for the order in which splitObjects reports the objects
unfoldable pub repair_plan : (C : Cluster) → ℕ → C.World → List ObjectRef → ChunkConfig → Plan
repair_plan C data_shard_count w reported cfg =
    if length cfg.objects == 0
    then repaired (err unexpected_object_count)
    else if length cfg.objects == 1
    then single_plan cfg (count_if (is_valid_object C w) cfg.objects == 1)
    else plan_for C data_shard_count w cfg.size (split_objects C w reported)

-- RepairChunk after the write, from what the write returned
unfoldable pub repair_result :
    ℕ → ChunkConfig → List ObjectRef → ChunkConfig × Option Error → ChunkConfig × Option Error
repair_result data_shard_count cfg valids (out, some e) = (out, some e)
repair_result data_shard_count cfg valids (out, none) = (
  record { size = out.size; objects = valids ++ out.objects },
  if ltb (length cfg.objects) data_shard_count then some shards_unavailable else none,
)
