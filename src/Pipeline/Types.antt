-- ===== src/Pipeline/Types.antt =====
-- client/datastor/pipeline/storage/storage.go: the interface ChunkStorage, and what a pipeline takes:
-- a processor of client/processing and a hasher of client/datastor/pipeline/crypto.
use stor.Base.{ℕ, Bytes, Bool, ◌≡◌, Result, ok}
use stor.Storage.Types
use stor.Storage.Types.{ChunkConfig, CheckStatus}

-- The errors of a pipeline, and those that it passes on.
pub data Error : Type 0 where
  unexpected_chunk_count hash_mismatch no_chunks incomplete invalid_status : Error
  processor reader : ℕ → Error
  storage : Types.Error → Error

-- ChunkStorage: what a call does depends on the state of the cluster.
pub record ChunkStorage : Type 1 where
  pub World : Type 0
  pub write_chunk : Bytes → World → Result Types.Error ChunkConfig × World
  pub read_chunk : ChunkConfig → World → Result Types.Error Bytes
  pub check_chunk : ChunkConfig → Bool → World → Result Types.Error CheckStatus
  pub repair_chunk : ChunkConfig → World → Result Types.Error ChunkConfig × World
  pub delete_chunk : ChunkConfig → World → Result Types.Error (Unit {0}) × World

-- Processor
pub record Processor : Type 0 where
  pub write_process : Bytes → Result Error Bytes
  pub read_process : Bytes → Result Error Bytes

-- Hasher
abbrev pub Hasher : Type 0
Hasher = Bytes → Bytes

-- A storage reads what it has written.
abbrev pub IsStorage : ChunkStorage → Type 0
IsStorage S =
    (bytes : Bytes) (w w' : S.World) (cfg : ChunkConfig)
    → S.write_chunk bytes w ≡ (ok cfg, w')
    → S.read_chunk cfg w' ≡ ok bytes

-- What can be read of a storage can still be read after another write.
abbrev pub KeepsChunks : ChunkStorage → Type 0
KeepsChunks S =
    (cfg : ChunkConfig) (bytes bytes' : Bytes) (w : S.World)
    → S.read_chunk cfg w ≡ ok bytes
    → S.read_chunk cfg (S.write_chunk bytes' w).1 ≡ ok bytes

-- Reading undoes the processing of a write.
abbrev pub IsReversible : Processor → Type 0
IsReversible p =
    (bytes processed : Bytes)
    → p.write_process bytes ≡ ok processed
    → p.read_process processed ≡ ok bytes
