-- ===== src/Storage/Replicated/Writing.antt =====
-- client/datastor/pipeline/storage/replicated.go: write, and its workers.
pub mod Replicas
use stor.Base.{
  ℕ, zero, suc, ◌≡◌, ◌⊎◌, Bytes, List, [], ◌∷◌, Bool, true, false, ltb, if◌then◌else◌, Option, none,
  some, min, length, Result, ok, err, Pick,
}
use stor.Cluster.Types
use stor.Cluster.Types.{Cluster, ObjectRef}
use stor.Storage.Distributed.{is_valid_object}
use stor.Storage.Replicated.{repair_plan, split_objects, finding, pick_source}
use stor.Storage.Types.{Error, shards_unavailable, ChunkConfig}

-- What is left on requestCh, the shards that the random iterator has left, the workers that wait for a
-- request, and for a shard, the shards that others write to, the objects that are held and returned, and
-- whether the context is cancelled.
pub record Writer (C : Cluster) : Type 0 where
  pub world : C.World
  pub requests : ℕ
  pub shards : List Bytes
  pub idle : ℕ
  pub waiting : ℕ
  pub writing : List Bytes
  pub holding : List ObjectRef
  pub returned : List ObjectRef
  pub cancelled : Bool

pub data Step (C : Cluster) (bytes : Bytes) : Writer C → Writer C → Type 0 where
  take_request :
      {s : Writer C} {requests idle : ℕ}
      → s.requests ≡ suc requests
      → s.idle ≡ suc idle
      → Step C bytes s (record s { requests = requests; idle = idle; waiting = suc s.waiting })
  -- requestCh is closed, after the last request or because of a failure
  no_request :
      {s : Writer C} {idle : ℕ}
      → (s.requests ≡ 0) ⊎ (s.cancelled ≡ true)
      → s.idle ≡ suc idle
      → Step C bytes s (record s { idle = idle })
  take_shard :
      {s : Writer C} {waiting : ℕ} {id : Bytes} {shards : List Bytes}
      → s.shards ≡ id ∷ shards
      → s.waiting ≡ suc waiting
      → Step C bytes s (record s { shards = shards; waiting = waiting; writing = id ∷ s.writing })
  -- shardCh is closed: ErrShardsUnavailable cancels the context
  no_shard :
      {s : Writer C} {waiting : ℕ}
      → (s.shards ≡ []) ⊎ (s.cancelled ≡ true)
      → s.waiting ≡ suc waiting
      → Step C bytes s (record s { waiting = waiting; cancelled = true })
  stored :
      {s : Writer C} {id key : Bytes} {writing : List Bytes} {world : C.World}
      → Pick id s.writing writing
      → C.create_object id bytes s.world ≡ (ok key, world)
      → Step C bytes s (record s {
        world = world;
        writing = writing;
        holding = record { key = key; shard_id = id } ∷ s.holding;
      })
  refused :
      {s : Writer C} {id : Bytes} {writing : List Bytes} {world : C.World} {e : Types.Error}
      → Pick id s.writing writing
      → C.create_object id bytes s.world ≡ (err e, world)
      → Step C bytes s (record s { world = world; writing = writing; waiting = suc s.waiting })
  return_object :
      {s : Writer C} {object : ObjectRef} {holding : List ObjectRef}
      → Pick object s.holding holding
      → Step C bytes s
          (record s { holding = holding; returned = object ∷ s.returned; idle = suc s.idle })
  -- the context is cancelled before the object is returned
  give_up :
      {s : Writer C} {object : ObjectRef} {holding : List ObjectRef}
      → s.cancelled ≡ true
      → Pick object s.holding holding
      → Step C bytes s (record s { holding = holding })

-- The state in which write starts its workers, for the shards that the random iterator hands out.
unfoldable pub start : (C : Cluster) → C.World → List Bytes → ℕ → ℕ → Writer C
start C w shards job_count data_shard_count = record {
  world = w;
  requests = data_shard_count;
  shards = shards;
  idle = min job_count data_shard_count;
  waiting = 0;
  writing = [];
  holding = [];
  returned = [];
  cancelled = false;
}

-- What write returns; the objects are in the order in which they arrive, here the last one first.
unfoldable pub write_result : {C : Cluster} → Bytes → ℕ → Writer C → ChunkConfig × Option Error
write_result bytes data_shard_count s = (
  record { size = length bytes; objects = s.returned },
  if ltb (length s.returned) data_shard_count then some shards_unavailable else none,
)

-- What a repair unfolds to.
unfoldable pub replicating : Unit {0}
unfolding repair_plan split_objects finding pick_source is_valid_object start write_result
replicating = tt
