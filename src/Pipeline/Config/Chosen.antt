-- ===== src/Pipeline/Config/Chosen.antt =====
-- client/datastor/pipeline/config.go: what can be relied on of a pipeline that is made of a configuration.
use stor.Pipeline.SingleObject.{SingleObject}
use stor.Base.{
  ◌∙◌, pos→==_false, ℕ, ◌<◌, ◌≡◌, refl, sym, Bytes, [], ◌∷◌, Bool-cases, inl, inr, ◌==◌,
  if◌then◌else◌, length, Result, ok, ◌>>=◌, bind-ok, ok-injective, panic-ne-ok, arith,
}
use stor.Pipeline.Types.{Error, ChunkStorage, Processor, Hasher, IsReversible}
use stor.Pipeline.Splitter.{AsyncSplitter, new_async_splitter}
use stor.Pipeline.Splitter.Writing.{HasJobs}
use stor.Processing.{new_processor_chain}
use stor.Processing.Chains.{new_processor_chain-IsReversible, nop_processor-IsReversible}
use stor.Pipeline.Config.{
  SingleObject, Config, CompressionConfig, EncryptionConfig, Constructors, new_processor,
  jobs_or_default, new_chunk_storage, NewPipeline, sequential, parallel, hashing_key, new_pipeline,
}

-- The processors that the constructors make are reversible.
pub record AreReversible (K : Constructors) : Type 0 where
  pub compressors : (t mode : ℕ) (p : Processor) → K.compressor t mode ≡ ok p → IsReversible p
  pub encrypters : (t : ℕ) (key : Bytes) (p : Processor) → K.encrypter t key ≡ ok p → IsReversible p

-- The processor of a configuration, which is none, a compressor, an encrypter or both, is reversible, if
-- the compressors and the encrypters are.
pub new_processor-IsReversible :
    (K : Constructors) (compression : CompressionConfig) (encryption : EncryptionConfig)
    (p : Processor)
    → AreReversible K
    → new_processor K compression encryption ≡ ok p
    → IsReversible p
unfolding new_processor
new_processor-IsReversible K compression encryption p k e =
    elim (Bool-cases (compression.mode == 0)) [
      | inl m ↦ elim (Bool-cases (length encryption.private_key == 0)) [
        | inl n ↦ rw (sym (ok-injective (rw (m, n) at e))) nop_processor-IsReversible
        | inr n ↦ k.encrypters encryption.encryption_type encryption.private_key p (rw (m, n) at e)
      ]
      | inr m ↦ elim (Bool-cases (length encryption.private_key == 0)) [
        | inl n ↦ k.compressors compression.compression_type compression.mode p (rw (m, n) at e)
        | inr n ↦
            let (cd, f, g) =
              bind-ok (K.compressor compression.compression_type compression.mode)
                (λ cd. K.encrypter encryption.encryption_type encryption.private_key >>= λ ed.
                  new_processor_chain (cd ∷ ed ∷ []))
                p (rw (m, n) at e) in
            let (ed, f', g') =
              bind-ok (K.encrypter encryption.encryption_type encryption.private_key)
                (λ ed. new_processor_chain (cd ∷ ed ∷ [])) p g in
            new_processor_chain-IsReversible (cd ∷ ed ∷ []) p
              (
                k.compressors compression.compression_type compression.mode cd f,
                (k.encrypters encryption.encryption_type encryption.private_key ed f', tt),
              )
              g'
      ]
    ]

-- Its jobs, its block size, its processor and its hasher are those of the arguments.
new_async_splitter_lem :
    (S : ChunkStorage) (size : ℕ) (pc : Result Error Processor) (hc : Result Error Hasher)
    (jobs default : ℕ) (P : AsyncSplitter)
    → 0 < jobs
    → new_async_splitter S size pc hc jobs default ≡ ok P
    → (HasJobs P) × (P.processor ≡ pc) × (P.hasher ≡ hc) × (P.chunk_size ≡ size) × (0 < size)
unfolding new_async_splitter
new_async_splitter_lem S size pc hc jobs default P some_job e = elim (Bool-cases (size == 0)) [
  | inl t ↦ absurd (panic-ne-ok (rw t at e))
  | inr f ↦
      let same = ok-injective (rw (f, pos→==_false jobs some_job) at e) in
      rw (sym same) ((omega arith, some_job), refl, refl, refl, ground (arith, f))
]

sequential-ne-parallel :
    {P : SingleObject} {Q : AsyncSplitter}
    → ◌≡◌ {A = Result Error NewPipeline} (ok (sequential P)) (ok (parallel Q))
    → ⊥
sequential-ne-parallel e = cc

parallel-injective :
    {P Q : AsyncSplitter}
    → ◌≡◌ {A = Result Error NewPipeline} (ok (parallel P)) (ok (parallel Q))
    → P ≡ Q
parallel-injective e = cc

chosen_parallel :
    (K : Constructors) (cfg : Config) (jobs : ℕ) (pc : Result Error Processor)
    (hc : Result Error Hasher) (S : ChunkStorage) (P : AsyncSplitter)
    → 0 < jobs
    → (if cfg.block_size == 0
        then ok (sequential (record { hasher = hc; processor = pc; chunk_storage = S }))
        else new_async_splitter S cfg.block_size pc hc jobs K.default_job_count >>= λ P.
            ok (parallel P))
      ≡ ok (parallel P)
    → (HasJobs P)
      × (P.processor ≡ pc)
      × (P.hasher ≡ hc)
      × (P.chunk_size ≡ cfg.block_size)
      × (0 < cfg.block_size)
chosen_parallel K cfg jobs pc hc S P some_job e = elim (Bool-cases (cfg.block_size == 0)) [
  | inl t ↦ absurd (sequential-ne-parallel (rw t at e))
  | inr f ↦
      let (P', g, h) =
        bind-ok (new_async_splitter S cfg.block_size pc hc jobs K.default_job_count)
          (λ P. ok (parallel P)) (parallel P) (rw f at e) in
      rw (sym (parallel-injective h))
        (new_async_splitter_lem S cfg.block_size pc hc jobs K.default_job_count P' some_job g)
]

-- A splitting pipeline is made only for a positive block size, which is its chunk size, and it has
-- jobs, a processor, which is reversible, and a hasher, if the processors that are constructed are
-- reversible and the default job count is positive.
pub new_pipeline-parallel :
    (K : Constructors) (cfg : Config) (job_count : ℕ) (P : AsyncSplitter)
    → 0 < K.default_job_count
    → AreReversible K
    → new_pipeline K cfg job_count ≡ ok (parallel P)
    → HasJobs P
      × ((p : Processor) × (P.processor ≡ ok p) × IsReversible p)
      × ((h : Hasher) × (P.hasher ≡ ok h))
      × (P.chunk_size ≡ cfg.block_size)
      × (0 < cfg.block_size)
unfolding new_pipeline
new_pipeline-parallel K cfg job_count P some_default k e =
    let pc = new_processor K cfg.compression cfg.encryption in
    let hc = K.hasher cfg.hashing.hash_type (hashing_key cfg) in
    let jobs = jobs_or_default K job_count in
    let some_job : 0 < jobs = ground arith in
    let (p, p_ok, e₁) = bind-ok pc _ (parallel P) e in
    let (S, S_ok, e₂) = bind-ok (new_chunk_storage K cfg.distribution jobs) _ (parallel P) e₁ in
    let (h, h_ok, e₃) = bind-ok hc _ (parallel P) e₂ in
    let (has_jobs, same_p, same_h, size, some_size) =
      chosen_parallel K cfg jobs pc hc S P some_job e₃ in
    (
      has_jobs,
      (p, same_p ∙ p_ok, new_processor-IsReversible K cfg.compression cfg.encryption p k p_ok),
      (h, same_h ∙ h_ok),
      size,
      some_size,
    )
