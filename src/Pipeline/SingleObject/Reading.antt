-- ===== src/Pipeline/SingleObject/Reading.antt =====
-- What Read of the single-object pipeline gives.
use stor.Base.{
  ◌≡◌, refl, sym, ap, ◌∙◌, Bytes, bytes_eq, bytes_eq_refl, bytes_eq→eq, List, [], ◌∷◌, not,
  Bool-cases, inl, inr, Result, ok, err, panic, ◌>>=◌, ◌>>◌, fail_if, ok-injective, err-ne-ok,
  panic-ne-ok,
}
use stor.Cluster.Types.{Chunk}
use stor.Storage.Types
use stor.Storage.Types.{ChunkConfig}
use stor.Pipeline.Types.{Error, hash_mismatch, Processor, Hasher, IsStorage, IsReversible}
use stor.Pipeline.SingleObject.{
  SingleObject, from_storage, config_of, with_chunks, stored_processed, write, read,
}

pub read_lem :
    (P : SingleObject) (hash : Hasher) (p : Processor) (cfg : ChunkConfig) (input processed : Bytes)
    (w : P.chunk_storage.World)
    → P.hasher ≡ ok hash
    → P.processor ≡ ok p
    → P.chunk_storage.read_chunk cfg w ≡ ok processed
    → p.read_process processed ≡ ok input
    → read P (record { size = cfg.size; objects = cfg.objects; hash = hash input } ∷ []) w
      ≡ ok input
unfolding read
read_lem P hash p cfg input processed w h k e f =
    rw (h, k) (rw e (rw f (rw (bytes_eq_refl (hash input)) refl)))

module _ (P : SingleObject) (storage : IsStorage P.chunk_storage) (input : Bytes)
    (w w' : P.chunk_storage.World) (chunks : List Chunk) (hash : Hasher) (p : Processor)
    (reversible : IsReversible p) (h : P.hasher ≡ ok hash) (k : P.processor ≡ ok p) where
  read_answered :
      (processed : Bytes) (r : Result Types.Error ChunkConfig × P.chunk_storage.World)
      → p.write_process input ≡ ok processed
      → P.chunk_storage.write_chunk processed w ≡ r
      → with_chunks (hash input) r ≡ (ok chunks, w')
      → read P chunks w' ≡ ok input
  read_answered processed (ok cfg, v) e f g =
      let same : v ≡ w' = ap (λ x. x.1) g in
      rw (sym (ok-injective (ap (λ x. x.0) g))) (
        read_lem P hash p cfg input processed w' h k (rw same at (storage processed w v cfg f))
          (reversible input processed e))
  read_answered processed (err x, v) e f g = absurd (err-ne-ok (ap (λ x. x.0) g))
  read_answered processed (panic, v) e f g = absurd (panic-ne-ok (ap (λ x. x.0) g))

  read_stored :
      (r : Result Error Bytes)
      → p.write_process input ≡ r
      → stored_processed P.chunk_storage (hash input) r w ≡ (ok chunks, w')
      → read P chunks w' ≡ ok input
  read_stored (ok processed) e f =
      read_answered processed (P.chunk_storage.write_chunk processed w) e refl f
  read_stored (err x) e f = absurd (err-ne-ok (ap (λ x. x.0) f))
  read_stored panic e f = absurd (panic-ne-ok (ap (λ x. x.0) f))

-- Read of the single-object pipeline gives what Write has stored, over any storage that reads what it
-- has written, if its processor is reversible.
pub pipeline_read-write :
    (P : SingleObject) (hash : Hasher) (p : Processor) (input : Bytes) (chunks : List Chunk)
    (w w' : P.chunk_storage.World)
    → IsStorage P.chunk_storage
    → IsReversible p
    → P.hasher ≡ ok hash
    → P.processor ≡ ok p
    → write P input w ≡ (ok chunks, w')
    → read P chunks w' ≡ ok input
unfolding write
pipeline_read-write P hash p input chunks w w' storage reversible h k e =
    read_stored P storage input w w' chunks hash p reversible h k (p.write_process input) refl
      (rw (h, k) at e)

hash_checked :
    (hash : Hasher) (sum : Bytes) (bytes bytes' : Bytes)
    → ◌≡◌ {A = Result Error Bytes}
        (fail_if (not (bytes_eq sum (hash bytes'))) hash_mismatch >> ok bytes')
        (ok bytes)
    → hash bytes ≡ sum
hash_checked hash sum bytes bytes' e = elim (Bool-cases (bytes_eq sum (hash bytes'))) [
  | inl t ↦
      let same : bytes' ≡ bytes = ok-injective (rw t at e) in
      ap hash (sym same) ∙ sym (bytes_eq→eq sum (hash bytes') t)
  | inr f ↦ absurd (err-ne-ok (rw f at e))
]

processed_checked :
    (hash : Hasher) (p : Processor) (sum bytes : Bytes) (r : Result Error Bytes)
    → (r >>= λ b. fail_if (not (bytes_eq sum (hash b))) hash_mismatch >> ok b) ≡ ok bytes
    → hash bytes ≡ sum
processed_checked hash p sum bytes (ok b) e = hash_checked hash sum bytes b e
processed_checked hash p sum bytes (err x) e = absurd (err-ne-ok e)
processed_checked hash p sum bytes panic e = absurd (panic-ne-ok e)

raw_checked :
    (hash : Hasher) (p : Processor) (sum bytes : Bytes) (r : Result Error Bytes)
    → (r >>= λ raw.
        p.read_process raw >>= λ b. fail_if (not (bytes_eq sum (hash b))) hash_mismatch >> ok b)
      ≡ ok bytes
    → hash bytes ≡ sum
raw_checked hash p sum bytes (ok raw) e = processed_checked hash p sum bytes (p.read_process raw) e
raw_checked hash p sum bytes (err x) e = absurd (err-ne-ok e)
raw_checked hash p sum bytes panic e = absurd (panic-ne-ok e)

-- Whatever the storage answers and the processor makes of it, what Read of the single-object pipeline
-- gives has the hash that the chunk records.
pub read-hash :
    (P : SingleObject) (hash : Hasher) (p : Processor) (chunk : Chunk) (w : P.chunk_storage.World)
    (bytes : Bytes)
    → P.hasher ≡ ok hash
    → P.processor ≡ ok p
    → read P (chunk ∷ []) w ≡ ok bytes
    → hash bytes ≡ chunk.hash
unfolding read
read-hash P hash p chunk w bytes h k e =
    raw_checked hash p chunk.hash bytes
      (from_storage (P.chunk_storage.read_chunk (config_of chunk) w)) (rw (h, k) at e)
