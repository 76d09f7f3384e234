-- ===== src/Pipeline/Splitter/Jobs.antt =====
-- client/datastor/pipeline/async_splitter.go: Check, Repair and Delete, whose goroutines take the indices
-- of the chunks from one channel, and whose first error cancels the context. The channel takes every index at
-- once, which allows more runs than its capacity does.
pub mod Outcome
pub mod Statuses
pub mod Checked
pub mod Repaired
use stor.Base.{
  ℕ, suc, ◌<◌, ◌≡◌, ◌⊎◌, List, [], ◌∷◌, Bool, true, false, ◌&&◌, not, ltb, if◌then◌else◌, Option,
  none, some, length, replicate, set, get_elem?, Result, ok, err, panic, ◌>>=◌, ◌>>◌, fail_if, Runs,
}
use stor.Cluster.Types.{Chunk}
use stor.Storage.Types
use stor.Storage.Types.{ChunkConfig, CheckStatus, invalid, valid, optimal}
use stor.Pipeline.Types.{Error, no_chunks, invalid_status, ChunkStorage}
use stor.Pipeline.SingleObject
use stor.Pipeline.SingleObject.{from_storage, config_of, passed_on_from}
use stor.Pipeline.Workers.{Stage, Move, Send, IsDrained, put, new_stage}
use stor.Pipeline.Collecting.{empty_chunk}
use stor.Pipeline.Splitter.{AsyncSplitter, with_chunk, single}

-- What the goroutines do with a chunk. Those of Delete have nothing to send and do not look at the context.
pub record Work : Type 1 where
  pub World : Type 0
  pub Out : Type 0
  pub call : Chunk → World → Result Error Out × World
  pub gives_up : Bool

pub record Jobs (K : Work) : Type 0 where
  pub world : K.World
  pub source : List Chunk
  pub next : ℕ
  pub feeding : Bool
  pub stage : Stage Chunk K.Out
  pub received : List (ℕ × K.Out)

abbrev pub is_cancelled : {K : Work} → Jobs K → Bool
is_cancelled s = elim s.stage.error [ none ↦ false | some e ↦ true ]

pub data JobStep (K : Work) (s : Jobs K) : Jobs K → Type 0 where
  -- `indexCh <- i`
  feed_index :
      {x : Chunk} {source : List Chunk}
      → s.feeding ≡ true
      → s.source ≡ x ∷ source
      → JobStep K s
          (record s { source = source; next = suc s.next; stage = put (s.next, x) s.stage })
  end_indices : s.feeding ≡ true → s.source ≡ [] → JobStep K s (record s { feeding = false })
  -- `case <-ctx.Done()`
  stop_indices :
      s.feeding ≡ true → is_cancelled s ≡ true → JobStep K s (record s { feeding = false })
  move_job :
      {w : K.World} {stage : Stage Chunk K.Out}
      → Move K.call (not s.feeding) (is_cancelled s && K.gives_up) s.world s.stage w stage
      → JobStep K s (record s { world = w; stage = stage })
  send_result :
      {y : ℕ × K.Out} {stage : Stage Chunk K.Out}
      → Send s.stage y stage
      → JobStep K s (record s { stage = stage; received = y ∷ s.received })

unfoldable pub start_jobs : (K : Work) → K.World → List Chunk → ℕ → Jobs K
start_jobs K w chunks jobs = record {
  world = w;
  source = chunks;
  next = 0;
  feeding = true;
  stage = new_stage Chunk K.Out jobs;
  received = [];
}

-- `if status == storage.CheckStatusInvalid { … }`
abbrev pub is_optimal : CheckStatus → Result Error Bool
is_optimal invalid = err invalid_status
is_optimal valid = ok false
is_optimal optimal = ok true

-- Checking leaves the world `w` as it is.
abbrev pub check_work : (S : ChunkStorage) → Bool → S.World → Work
check_work S fast w = record {
  World = Unit {0};
  Out = Bool;
  call = λ chunk u. (from_storage (S.check_chunk (config_of chunk) fast w) >>= is_optimal, u);
  gives_up = true;
}

abbrev pub repair_work : ChunkStorage → Work
repair_work S = record {
  World = S.World;
  Out = Chunk;
  call = λ chunk w. with_chunk chunk.hash (S.repair_chunk (config_of chunk) w);
  gives_up = true;
}

abbrev pub delete_work : ChunkStorage → Work
delete_work S = record {
  World = S.World;
  Out = Unit {0};
  call = λ chunk w. passed_on_from (S.delete_chunk (config_of chunk) w);
  gives_up = false;
}

-- `dataIsOptimal = dataIsOptimal && chunkIsOptimal`
abbrev pub all_optimal : {A : Type 0} → List (A × Bool) → Bool
all_optimal [] = true
all_optimal ((i, chunk_is_optimal) ∷ earlier) = all_optimal earlier && chunk_is_optimal

-- `switch err`
abbrev pub check_result : Option Error → Bool → Result Error CheckStatus
check_result none data_is_optimal = ok (if data_is_optimal then optimal else valid)
check_result (some invalid_status) data_is_optimal = ok invalid
check_result (some e) data_is_optimal = err e

-- `outputChunks[result.Index] = …`
abbrev pub output_chunks : List (ℕ × Chunk) → ℕ → List Chunk
output_chunks [] n = replicate n empty_chunk
output_chunks ((i, chunk) ∷ earlier) n = set (output_chunks earlier n) i chunk

module _ (P : AsyncSplitter) where
  abbrev pub job_count : ℕ → ℕ
  job_count n = if ltb n P.storage_job_count then n else P.storage_job_count

  -- Check, for some schedule of its goroutines
  pub data Checks (chunks : List Chunk) (fast : Bool) (w : P.chunk_storage.World)
      (answer : Result Error CheckStatus) : Type 0 where
    nothing_to_check : chunks ≡ [] → answer ≡ err no_chunks → Checks chunks fast w answer
    one_to_check :
        length chunks ≡ 1
        → answer ≡ SingleObject.check (single P) chunks fast w
        → Checks chunks fast w answer
    checked :
        {last : Jobs (check_work P.chunk_storage fast w)}
        → 1 < length chunks
        → Runs
            (JobStep (check_work P.chunk_storage fast w))
            (start_jobs (check_work P.chunk_storage fast w) tt chunks (job_count (length chunks)))
            last
        → IsDrained last.stage
        → answer ≡ check_result last.stage.error (all_optimal last.received)
        → Checks chunks fast w answer

  -- Repair: the chunks and the error that it returns
  pub data Repairs (chunks : List Chunk) (w : P.chunk_storage.World) (output : List Chunk)
      (error : Option Error) (w' : P.chunk_storage.World) : Type 0 where
    nothing_to_repair :
        chunks ≡ []
        → output ≡ []
        → error ≡ some no_chunks
        → w' ≡ w
        → Repairs chunks w output error w'
    one_repaired :
        length chunks ≡ 1
        → SingleObject.repair (single P) chunks w ≡ (ok output, w')
        → error ≡ none
        → Repairs chunks w output error w'
    one_not_repaired :
        {e : Error}
        → length chunks ≡ 1
        → SingleObject.repair (single P) chunks w ≡ (err e, w')
        → output ≡ []
        → error ≡ some e
        → Repairs chunks w output error w'
    repaired :
        {last : Jobs (repair_work P.chunk_storage)}
        → 1 < length chunks
        → Runs
            (JobStep (repair_work P.chunk_storage))
            (start_jobs (repair_work P.chunk_storage) w chunks (job_count (length chunks)))
            last
        → IsDrained last.stage
        → output ≡ output_chunks last.received (length chunks)
        → error ≡ last.stage.error
        → w' ≡ last.world
        → Repairs chunks w output error w'

  -- Delete
  pub data Deletes (chunks : List Chunk) (w : P.chunk_storage.World) (error : Option Error)
      (w' : P.chunk_storage.World) : Type 0 where
    nothing_to_delete : chunks ≡ [] → error ≡ some no_chunks → w' ≡ w → Deletes chunks w error w'
    one_deleted :
        length chunks ≡ 1
        → SingleObject.delete (single P) chunks w ≡ (ok tt, w')
        → error ≡ none
        → Deletes chunks w error w'
    one_not_deleted :
        {e : Error}
        → length chunks ≡ 1
        → SingleObject.delete (single P) chunks w ≡ (err e, w')
        → error ≡ some e
        → Deletes chunks w error w'
    deleted :
        {last : Jobs (delete_work P.chunk_storage)}
        → 1 < length chunks
        → Runs
            (JobStep (delete_work P.chunk_storage))
            (start_jobs (delete_work P.chunk_storage) w chunks (job_count (length chunks)))
            last
        → IsDrained last.stage
        → error ≡ last.stage.error
        → w' ≡ last.world
        → Deletes chunks w error w'
