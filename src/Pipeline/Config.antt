-- ===== src/Pipeline/Config.antt =====
-- client/datastor/pipeline/config.go: the pipeline that a configuration asks for. A count or a size that is
-- 0 or less is 0. The constructors of processors, of hashers and of chunk storages are arguments; the
-- first two are those of the registries.
pub mod Chosen
use stor.Base.{
  ℕ, Bytes, List, [], ◌∷◌, ltb, ◌==◌, if◌then◌else◌, length, Result, ok, err, panic, ◌>>=◌, ◌>>◌,
}
use stor.Pipeline.Types.{processor, Error, ChunkStorage, Processor, Hasher}
use stor.Pipeline.SingleObject.{SingleObject}
use stor.Pipeline.Splitter.{AsyncSplitter, new_async_splitter}
use stor.Processing.{nop_processor, new_processor_chain}

pub record HashingConfig : Type 0 where
  pub hash_type : ℕ
  pub private_key : Bytes

pub record CompressionConfig : Type 0 where
  pub mode : ℕ
  pub compression_type : ℕ

pub record EncryptionConfig : Type 0 where
  pub private_key : Bytes
  pub encryption_type : ℕ

pub record ObjectDistributionConfig : Type 0 where
  pub data_shard_count : ℕ
  pub parity_shard_count : ℕ

pub record Config : Type 0 where
  pub block_size : ℕ
  pub hashing : HashingConfig
  pub compression : CompressionConfig
  pub encryption : EncryptionConfig
  pub distribution : ObjectDistributionConfig

-- What the functions call, for one cluster
pub record Constructors : Type 1 where
  pub compressor : ℕ → ℕ → Result Error Processor
  pub encrypter : ℕ → Bytes → Result Error Processor
  pub hasher : ℕ → Bytes → Result Error Hasher
  pub random_chunk_storage : Result Error ChunkStorage
  pub replicated_chunk_storage : ℕ → ℕ → Result Error ChunkStorage
  pub distributed_chunk_storage : ℕ → ℕ → ℕ → Result Error ChunkStorage
  pub default_job_count : ℕ

-- A call of what NewProcessorConstructor returns; the compression mode 0 is CompressionModeDisabled.
unfoldable pub new_processor :
    Constructors → CompressionConfig → EncryptionConfig → Result Error Processor
new_processor K compression encryption =
    if compression.mode == 0
    then if length encryption.private_key == 0
      then ok nop_processor
      else K.encrypter encryption.encryption_type encryption.private_key
    else if length encryption.private_key == 0
    then K.compressor compression.compression_type compression.mode
    else K.compressor compression.compression_type compression.mode >>= λ cd.
        K.encrypter encryption.encryption_type encryption.private_key >>= λ ed.
        new_processor_chain (cd ∷ ed ∷ [])

abbrev pub jobs_or_default : Constructors → ℕ → ℕ
jobs_or_default K job_count = if job_count == 0 then K.default_job_count else job_count

-- The error of a parity shard count without a data shard count
abbrev pub illegal_distribution : Error
illegal_distribution = processor 1

-- NewChunkStorage
unfoldable pub new_chunk_storage :
    Constructors → ObjectDistributionConfig → ℕ → Result Error ChunkStorage
new_chunk_storage K cfg job_count =
    let jobs = jobs_or_default K job_count in
    if cfg.data_shard_count == 0
    then if ltb 0 cfg.parity_shard_count then err illegal_distribution else K.random_chunk_storage
    else if cfg.parity_shard_count == 0
    then if cfg.data_shard_count == 1
      then K.random_chunk_storage
      else K.replicated_chunk_storage cfg.data_shard_count jobs
    else K.distributed_chunk_storage cfg.data_shard_count cfg.parity_shard_count jobs

pub data NewPipeline : Type 1 where
  sequential : SingleObject → NewPipeline
  parallel : AsyncSplitter → NewPipeline

-- `if len(cfg.Hashing.PrivateKey) == 0`
abbrev pub hashing_key : Config → Bytes
hashing_key cfg =
    if length cfg.hashing.private_key == 0
    then cfg.encryption.private_key
    else cfg.hashing.private_key

-- NewPipeline
unfoldable pub new_pipeline : Constructors → Config → ℕ → Result Error NewPipeline
new_pipeline K cfg job_count =
    let pc = new_processor K cfg.compression cfg.encryption in
    let jobs = jobs_or_default K job_count in
    let hc = K.hasher cfg.hashing.hash_type (hashing_key cfg) in
    pc >>= λ p. new_chunk_storage K cfg.distribution jobs >>= λ S. hc >>= λ h.
    if cfg.block_size == 0
    then ok (sequential (record { hasher = hc; processor = pc; chunk_storage = S }))
    else new_async_splitter S cfg.block_size pc hc jobs K.default_job_count >>= λ P. ok (parallel P)
