-- ===== src/Pipeline/Splitter.antt =====
-- client/datastor/pipeline/async_splitter.go: AsyncSplitterPipeline, which cuts what it reads into chunks
-- and processes and stores them at once. A reader is the data that its calls of Read give, and how it
-- ends; the writer takes all that it is given. An error while a hasher or a processor is constructed
-- is that of the first.
pub mod Writing
pub mod Reading
pub mod RoundTrip
pub mod Jobs
use stor.Base.{
  ℕ, ◌*◌, ◌<◌, ◌≡◌, Bytes, bytes_eq, List, [], ◌∷◌, not, ltb, if◌then◌else◌, ◌==◌, length, Option,
  none, some, Result, ok, err, panic, ◌>>=◌, ◌>>◌, panic_if, fail_if, Runs,
}
use stor.Cluster.Types.{Chunk}
use stor.Storage.Types
use stor.Storage.Types.{ChunkConfig}
use stor.Pipeline.Types.{Error, hash_mismatch, no_chunks, ChunkStorage, Processor, Hasher}
use stor.Pipeline.SingleObject
use stor.Pipeline.SingleObject.{SingleObject, from_storage, config_of}
use stor.Pipeline.Flow.{Stages, Flow, Step, start, IsFinished}
use stor.Pipeline.Collecting.{collected}
use stor.Pipeline.Composing.{composed}

pub record AsyncSplitter : Type 1 where
  pub hasher : Result Error Hasher
  pub processor : Result Error Processor
  pub chunk_storage : ChunkStorage
  pub storage_job_count : ℕ
  pub processor_job_count : ℕ
  pub chunk_size : ℕ

-- NewAsyncSplitterPipeline, with all that it needs given; no job count is 0.
unfoldable pub new_async_splitter :
    ChunkStorage
    → ℕ
    → Result Error Processor
    → Result Error Hasher
    → ℕ
    → ℕ
    → Result Error AsyncSplitter
new_async_splitter S chunk_size pc hc job_count default_job_count =
    let jobs = if job_count == 0 then default_job_count else job_count in
    panic_if (chunk_size == 0)
    >> ok (record {
      hasher = hc;
      processor = pc;
      chunk_storage = S;
      storage_job_count = jobs * 2;
      processor_job_count = jobs;
      chunk_size = chunk_size;
    })

-- io.Reader: the data of the calls that return no error, those that come with the last, which
-- returns io.EOF or the failure.
pub record Reader : Type 0 where
  pub reads : List Bytes
  pub last : Bytes
  pub failure : Option Error

-- What the splitting goroutine sends: the data that come with an error are left out.
abbrev pub split_data : Reader → List Bytes
split_data r = r.reads

abbrev pub single : AsyncSplitter → SingleObject
single P = record { hasher = P.hasher; processor = P.processor; chunk_storage = P.chunk_storage }

abbrev pub with_chunk :
    {W : Type 0} → Bytes → Result Types.Error ChunkConfig × W → Result Error Chunk × W
with_chunk hash (cfg, w) =
    (from_storage cfg >>= λ c. ok (record { size = c.size; objects = c.objects; hash = hash }), w)

-- The two stages of Write: hash and process, then store.
abbrev pub write_stages : ChunkStorage → Hasher → Processor → Stages
write_stages S hash p = record {
  World = S.World;
  In = Bytes;
  Mid = Bytes × Bytes;
  Out = Chunk;
  first = λ input w. (p.write_process input >>= λ bytes. ok (hash input, bytes), w);
  second = λ item w. with_chunk item.0 (S.write_chunk item.1 w);
}

-- The two stages of Read: load, then process and compare the hash. Reading leaves the world `w` as it is.
abbrev pub read_stages : (S : ChunkStorage) → Hasher → Processor → S.World → Stages
read_stages S hash p w = record {
  World = Unit {0};
  In = Chunk;
  Mid = Bytes × Bytes;
  Out = Bytes;
  first = λ chunk u.
      (from_storage (S.read_chunk (config_of chunk) w) >>= λ bytes. ok (bytes, chunk.hash), u);
  second = λ item u. (
    p.read_process item.0 >>= λ bytes.
        fail_if (not (bytes_eq item.1 (hash bytes))) hash_mismatch >> ok bytes,
    u,
  );
}

abbrev pub unless : {A : Type 0} → Option Error → Result Error A → Result Error A
unless none r = r
unless (some e) r = err e

module _ (P : AsyncSplitter) where
  -- The state in which the goroutines of Write start.
  abbrev pub write_start :
      (hash : Hasher) (p : Processor)
      → Reader
      → P.chunk_storage.World
      → Flow (write_stages P.chunk_storage hash p)
  write_start hash p r w =
      start (write_stages P.chunk_storage hash p) w (split_data r) r.failure P.processor_job_count
        P.storage_job_count

  -- Write, for some schedule of its goroutines: what it returns, and the world that it leaves.
  pub data Writes (r : Reader) (w : P.chunk_storage.World) (answer : Result Error (List Chunk))
      (w' : P.chunk_storage.World) : Type 0 where
    no_hasher : {e : Error} → P.hasher ≡ err e → answer ≡ err e → w' ≡ w → Writes r w answer w'
    no_processor :
        {hash : Hasher} {e : Error}
        → P.hasher ≡ ok hash
        → P.processor ≡ err e
        → answer ≡ err e
        → w' ≡ w
        → Writes r w answer w'
    written :
        {hash : Hasher} {p : Processor} {last : Flow (write_stages P.chunk_storage hash p)}
        → P.hasher ≡ ok hash
        → P.processor ≡ ok p
        → Runs (Step (write_stages P.chunk_storage hash p)) (write_start hash p r w) last
        → IsFinished last
        → answer ≡ unless last.error (collected P.storage_job_count last.received)
        → w' ≡ last.world
        → Writes r w answer w'

  -- `if storageJobCount > chunkLength { … }`
  abbrev pub limited_jobs : ℕ → ℕ × ℕ
  limited_jobs n =
      if ltb n P.storage_job_count
      then (n, n)
      else (P.storage_job_count, if ltb n P.processor_job_count then n else P.processor_job_count)

  abbrev pub read_start :
      (hash : Hasher) (p : Processor)
      → List Chunk
      → (w : P.chunk_storage.World) → Flow (read_stages P.chunk_storage hash p w)
  read_start hash p chunks w =
      start (read_stages P.chunk_storage hash p w) tt chunks none (limited_jobs (length chunks)).0
        (limited_jobs (length chunks)).1

  -- Read, for some schedule of its goroutines: the error, or what the writer has been given.
  pub data Reads (chunks : List Chunk) (w : P.chunk_storage.World) (answer : Result Error Bytes)
      : Type 0 where
    nothing : chunks ≡ [] → answer ≡ err no_chunks → Reads chunks w answer
    one_chunk :
        length chunks ≡ 1 → answer ≡ SingleObject.read (single P) chunks w → Reads chunks w answer
    no_read_hasher :
        {e : Error} → 1 < length chunks → P.hasher ≡ err e → answer ≡ err e → Reads chunks w answer
    no_read_processor :
        {hash : Hasher} {e : Error}
        → 1 < length chunks
        → P.hasher ≡ ok hash
        → P.processor ≡ err e
        → answer ≡ err e
        → Reads chunks w answer
    composed_from :
        {hash : Hasher} {p : Processor} {last : Flow (read_stages P.chunk_storage hash p w)}
        → 1 < length chunks
        → P.hasher ≡ ok hash
        → P.processor ≡ ok p
        → Runs (Step (read_stages P.chunk_storage hash p w)) (read_start hash p chunks w) last
        → IsFinished last
        → answer ≡ unless last.error (ok (composed last.received).written)
        → Reads chunks w answer
