-- ===== src/Pipeline/SingleObject.antt =====
-- client/datastor/pipeline/single_object.go: SingleObjectPipeline, which stores all that it reads as one
-- chunk. The reader is the bytes that it gives, and what is read is the result.
pub mod Reading
use stor.Base.{
  Bytes, bytes_eq, List, [], ◌∷◌, Bool, not, Result, ok, err, panic, ◌>>=◌, ◌>>◌, fail_if,
}
use stor.Cluster.Types.{Chunk}
use stor.Storage.Types
use stor.Storage.Types.{ChunkConfig, CheckStatus}
use stor.Pipeline.Types.{
  Error, unexpected_chunk_count, hash_mismatch, storage, ChunkStorage, Processor, Hasher,
}

pub record SingleObject : Type 1 where
  pub hasher : Result Error Hasher
  pub processor : Result Error Processor
  pub chunk_storage : ChunkStorage

-- What the pipeline returns of an error of its storage.
abbrev pub from_storage : {A : Type 0} → Result Types.Error A → Result Error A
from_storage (ok a) = ok a
from_storage (err e) = err (storage e)
from_storage panic = panic

-- `if len(chunks) != 1`
abbrev pub only_chunk : List Chunk → Result Error Chunk
only_chunk (chunk ∷ []) = ok chunk
only_chunk chunks = err unexpected_chunk_count

abbrev pub config_of : Chunk → ChunkConfig
config_of chunk = record { size = chunk.size; objects = chunk.objects }

-- The chunk of a configuration
abbrev pub chunks_of : Bytes → Result Types.Error ChunkConfig → Result Error (List Chunk)
chunks_of hash cfg =
    from_storage cfg >>= λ c. ok (record { size = c.size; objects = c.objects; hash = hash } ∷ [])

abbrev pub with_chunks :
    {W : Type 0} → Bytes → Result Types.Error ChunkConfig × W → Result Error (List Chunk) × W
with_chunks hash (cfg, w) = (chunks_of hash cfg, w)

abbrev pub stored_processed :
    (S : ChunkStorage) → Bytes → Result Error Bytes → S.World → Result Error (List Chunk) × S.World
stored_processed S hash (ok processed) w = with_chunks hash (S.write_chunk processed w)
stored_processed S hash (err e) w = (err e, w)
stored_processed S hash panic w = (panic, w)

abbrev pub written_by :
    (S : ChunkStorage)
    → Bytes
    → Result Error Hasher
    → Result Error Processor
    → S.World
    → Result Error (List Chunk) × S.World
written_by S input (ok hash) (ok p) w = stored_processed S (hash input) (p.write_process input) w
written_by S input (ok hash) (err e) w = (err e, w)
written_by S input (ok hash) panic w = (panic, w)
written_by S input (err e) p w = (err e, w)
written_by S input panic p w = (panic, w)

abbrev pub passed_on_from :
    {W : Type 0} → Result Types.Error (Unit {0}) × W → Result Error (Unit {0}) × W
passed_on_from (r, w) = (from_storage r, w)

module _ (P : SingleObject) where
  -- Write
  unfoldable pub write :
      Bytes → P.chunk_storage.World → Result Error (List Chunk) × P.chunk_storage.World
  write input w = written_by P.chunk_storage input P.hasher P.processor w

  -- Read
  unfoldable pub read : List Chunk → P.chunk_storage.World → Result Error Bytes
  read chunks w = only_chunk chunks >>= λ chunk. P.hasher >>= λ hash. P.processor >>= λ p.
      from_storage (P.chunk_storage.read_chunk (config_of chunk) w) >>= λ raw.
      p.read_process raw >>= λ bytes.
      fail_if (not (bytes_eq chunk.hash (hash bytes))) hash_mismatch >> ok bytes

  -- Check
  unfoldable pub check : List Chunk → Bool → P.chunk_storage.World → Result Error CheckStatus
  check chunks fast w = only_chunk chunks >>= λ chunk.
      from_storage (P.chunk_storage.check_chunk (config_of chunk) fast w)

  -- Repair
  unfoldable pub repair :
      List Chunk → P.chunk_storage.World → Result Error (List Chunk) × P.chunk_storage.World
  repair (chunk ∷ []) w = with_chunks chunk.hash (P.chunk_storage.repair_chunk (config_of chunk) w)
  repair chunks w = (err unexpected_chunk_count, w)

  -- Delete
  unfoldable pub delete :
      List Chunk → P.chunk_storage.World → Result Error (Unit {0}) × P.chunk_storage.World
  delete (chunk ∷ []) w = passed_on_from (P.chunk_storage.delete_chunk (config_of chunk) w)
  delete chunks w = (err unexpected_chunk_count, w)
