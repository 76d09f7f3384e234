-- ===== src/Storage/Distributed/Writing.antt =====
-- WriteChunk of client/datastor/pipeline/storage/distributed.go, and its workers.
pub mod Parts
pub mod Shards
pub mod Storing
pub mod Ending
pub mod Progress
use stor.Base.{
  ◌⊎◌, ℕ, zero, suc, ◌≡◌, Bytes, List, [], ◌∷◌, Bool, true, false, ltb, if◌then◌else◌, Option, none,
  some, min, replicate, length, set, Result, ok, err, ◌>>=◌, Pick,
}
use stor.Cluster.Types
use stor.Cluster.Types.{Cluster, ObjectRef}
use stor.Storage.Distributed.{EncoderDecoder, read_chunk}
use stor.Storage.Types.{Error, shards_unavailable, ChunkConfig}

-- indexedPart, indexedObject, and a part that a worker writes to a shard
abbrev pub Part : Type 0
Part = ℕ × Bytes

abbrev pub Stored : Type 0
Stored = ℕ × ObjectRef

abbrev pub Attempt : Type 0
Attempt = Part × Bytes

-- What the channels and the workers hold: the parts that wait on inputCh, the shards that the random
-- iterator has left, the workers that wait for a part, for a shard, for the answer of a shard, and for
-- the room to return an object, the objects returned, and whether the context is cancelled.
pub record Writer (C : Cluster) : Type 0 where
  pub world : C.World
  pub pending : List Part
  pub shards : List Bytes
  pub idle : ℕ
  pub waiting : List Part
  pub writing : List Attempt
  pub holding : List Stored
  pub returned : List Stored
  pub cancelled : Bool

pub data Step (C : Cluster) : Writer C → Writer C → Type 0 where
  -- `part, open = <-inputCh`
  take_part :
      {s : Writer C} {part : Part} {pending : List Part} {idle : ℕ}
      → s.pending ≡ part ∷ pending
      → s.idle ≡ suc idle
      → Step C s (record s { pending = pending; idle = idle; waiting = part ∷ s.waiting })
  -- inputCh is closed, after the last part or because of a failure
  no_part :
      {s : Writer C} {idle : ℕ}
      → (s.pending ≡ []) ⊎ (s.cancelled ≡ true)
      → s.idle ≡ suc idle
      → Step C s (record s { idle = idle })
  -- `shard, open = <-shardCh`
  take_shard :
      {s : Writer C} {part : Part} {waiting : List Part} {id : Bytes} {shards : List Bytes}
      → s.shards ≡ id ∷ shards
      → Pick part s.waiting waiting
      → Step C s (record s { shards = shards; waiting = waiting; writing = (part, id) ∷ s.writing })
  -- shardCh is closed: ErrShardsUnavailable cancels the context
  no_shard :
      {s : Writer C} {part : Part} {waiting : List Part}
      → (s.shards ≡ []) ⊎ (s.cancelled ≡ true)
      → Pick part s.waiting waiting
      → Step C s (record s { waiting = waiting; cancelled = true })
  -- CreateObject succeeds
  stored :
      {s : Writer C} {part : Part} {id key : Bytes} {writing : List Attempt} {world : C.World}
      → Pick (part, id) s.writing writing
      → C.create_object id part.1 s.world ≡ (ok key, world)
      → Step C s (record s {
        world = world;
        writing = writing;
        holding = (part.0, record { key = key; shard_id = id }) ∷ s.holding;
      })
  -- CreateObject fails: the worker tries another shard
  refused :
      {s : Writer C} {part : Part} {id : Bytes} {writing : List Attempt} {world : C.World}
      {e : Types.Error}
      → Pick (part, id) s.writing writing
      → C.create_object id part.1 s.world ≡ (err e, world)
      → Step C s (record s { world = world; writing = writing; waiting = part ∷ s.waiting })
  -- `resultCh <- indexedObject{…}`
  return_object :
      {s : Writer C} {object : Stored} {holding : List Stored}
      → Pick object s.holding holding
      → Step C s (record s { holding = holding; returned = object ∷ s.returned; idle = suc s.idle })
  -- the context is cancelled before the object is returned
  give_up :
      {s : Writer C} {object : Stored} {holding : List Stored}
      → s.cancelled ≡ true
      → Pick object s.holding holding
      → Step C s (record s { holding = holding })

-- `for index, part := range parts`
abbrev pub indexed : ℕ → List Bytes → List Part
indexed i [] = []
indexed i (part ∷ parts) = (i, part) ∷ indexed (suc i) parts

-- The state in which WriteChunk starts its workers, for the order of the random iterator.
unfoldable pub start : (C : Cluster) → C.World → List Bytes → ℕ → List Bytes → Writer C
start C w shards job_count parts = record {
  world = w;
  pending = indexed 0 parts;
  shards = shards;
  idle = min job_count (length parts);
  waiting = [];
  writing = [];
  holding = [];
  returned = [];
  cancelled = false;
}

-- WriteChunk up to its workers
unfoldable pub write_start :
    (C : Cluster) → EncoderDecoder → C.World → List Bytes → ℕ → Bytes → Result Error (Writer C)
write_start C dec w shards job_count bytes =
    dec.encode_parts bytes >>= λ parts. ok (start C w shards job_count parts)

-- RepairChunk up to the workers of its WriteChunk
unfoldable pub repair_start :
    (C : Cluster)
    → EncoderDecoder
    → C.World
    → List ℕ
    → List Bytes
    → ℕ
    → ChunkConfig
    → Result Error (Writer C)
repair_start C dec w arrival shards job_count cfg =
    read_chunk C dec w arrival cfg >>= λ bytes. write_start C dec w shards job_count bytes

-- `group.Wait()` returns when no worker is left.
abbrev pub IsFinished : {C : Cluster} → Writer C → Type 0
IsFinished s = (s.idle ≡ 0) × (s.waiting ≡ []) × (s.writing ≡ []) × (s.holding ≡ [])

-- `objects[result.Index] = result.Object`
unfoldable pub place : List Stored → List ObjectRef → List ObjectRef
place [] objects = objects
place ((index, object) ∷ later) objects = set (place later objects) index object

-- What WriteChunk returns: the configuration, and the error.
unfoldable pub write_result : {C : Cluster} → Bytes → ℕ → Writer C → ChunkConfig × Option Error
write_result bytes parts_count s =
    let cfg : ChunkConfig = record {
      size = length bytes;
      objects = place s.returned (replicate parts_count (record { key = []; shard_id = [] }));
    } in
    (cfg, if ltb (length s.returned) parts_count then some shards_unavailable else none)
