-- ===== src/Pipeline/Splitter/Reading.antt =====
-- client/datastor/pipeline/async_splitter.go: the bytes that Read writes.
use mathlib.Core.List.{append-nil}
use stor.Base.{
  ℕ, ◌<◌, ◌≡◌, refl, sym, ap, ◌∙◌, Bytes, bytes_eq_refl, List, [], ◌∷◌, none, length, Result, ok,
  ok-injective, err-ne-ok, Runs, arith,
}
use stor.Cluster.Types.{Chunk}
use stor.Pipeline.Types.{Error, ChunkStorage, Processor, Hasher, IsReversible}
use stor.Pipeline.SingleObject
use stor.Pipeline.SingleObject.{from_storage, config_of}
use stor.Pipeline.SingleObject.Reading.{read_lem}
use stor.Pipeline.Numbered.{Related, Related-get_right, length-Related}
use stor.Pipeline.Flow.{Flow, Step, start, IsFinished}
use stor.Pipeline.Flow.Items.{Contract, IsItem}
use stor.Pipeline.Flow.Clean.{Runs-IsClean}
use stor.Pipeline.Flow.Results.{finished-Complete}
use stor.Pipeline.Composing.{composed}
use stor.Pipeline.Composing.Order.{joined, composed_lem}
use stor.Pipeline.Splitter.{
  AsyncSplitter, read_stages, limited_jobs, Reads, nothing, one_chunk, no_read_hasher,
  no_read_processor, composed_from, single,
}
use stor.Pipeline.Splitter.Writing.{WellStored, HasJobs}

module _ (S : ChunkStorage) (hash : Hasher) (p : Processor) (reversible : IsReversible p)
    (items : List Bytes) (chunks : List Chunk) (world : S.World)
    (stored : Related (WellStored S hash p world) items chunks) where
  abbrev Loaded : Unit {0} → ℕ × (Bytes × Bytes) → Type 0
  Loaded u item =
      (raw : Bytes) × IsItem items (item.0, raw)
      × (hash raw ≡ item.1.1)
      × (p.read_process item.1.0 ≡ ok raw)

  abbrev Composable : Unit {0} → ℕ × Bytes → Type 0
  Composable u item = IsItem items item

  -- What the storage gives of a chunk
  load :
      (x : ℕ × Chunk)
      → IsItem chunks x
      → (bytes raw : Bytes) × (S.read_chunk (config_of x.1) world ≡ ok bytes)
        × IsItem items (x.0, raw)
        × (hash raw ≡ x.1.hash)
        × (p.read_process bytes ≡ ok raw)
  load (i, chunk) item =
      let (raw, e, (h, bytes, f, g)) =
        Related-get_right (WellStored S hash p world) items chunks i chunk stored item in
      (bytes, raw, g, e, h, reversible raw bytes f)

  loads :
      (x : ℕ × Chunk)
      → IsItem chunks x
      → (bytes : Bytes) × Loaded tt (x.0, (bytes, x.1.hash))
        × ((u : Unit {0}) → (read_stages S hash p world).first x.1 u ≡ (ok (bytes, x.1.hash), u))
  loads x item =
      let (bytes, raw, e, f, h, g) = load x item in (bytes, (raw, f, h, g), λ u. rw e refl)

  composes :
      (y : ℕ × (Bytes × Bytes))
      → Loaded tt y
      → (raw : Bytes) × IsItem items (y.0, raw)
        × ((u : Unit {0}) → (read_stages S hash p world).second y.1 u ≡ (ok raw, u))
  composes (i, (bytes, sum)) (raw, item, h, e) =
      (raw, item, λ u. rw e (rw (sym h) (rw (bytes_eq_refl (hash raw)) refl)))

  read_contract : Contract (read_stages S hash p world) (IsItem chunks) Loaded Composable
  read_contract = record {
    first_makes = λ x m u u' item e.
        let (bytes, known, f) = loads x item in
        rw (sym (ok-injective (ap (λ z. z.0) (sym (f u) ∙ e)))) known;
    second_makes = λ y o u u' loaded e.
        let (raw, item, f) = composes y loaded in
        rw (sym (ok-injective (ap (λ z. z.0) (sym (f u) ∙ e)))) item;
    first_keeps = λ x r u u' e. (λ y h. h, λ z h. h);
    second_keeps = λ y r u u' e. (λ y h. h, λ z h. h);
  }

  -- No call fails, so that all items arrive.
  composed_all :
      (jobs_one jobs_two : ℕ) (last : Flow (read_stages S hash p world))
      → 0 < jobs_one
      → 0 < jobs_two
      → Runs
          (Step (read_stages S hash p world))
          (start (read_stages S hash p world) tt chunks none jobs_one jobs_two)
          last
      → IsFinished last
      → (last.error ≡ none) × ((composed last.received).written ≡ joined items)
  composed_all jobs_one jobs_two last some_one some_two run end =
      let stages = read_stages S hash p world in
      let clean : last.error ≡ none =
        (Runs-IsClean stages chunks Loaded Composable read_contract
          (λ x e u u' item f.
            let (bytes, known, g) = loads x item in
            err-ne-ok (sym (ap (λ z. z.0) f) ∙ ap (λ z. z.0) (g u)))
          (λ y e u u' loaded f.
            let (raw, item, g) = composes y loaded in
            err-ne-ok (sym (ap (λ z. z.0) f) ∙ ap (λ z. z.0) (g u)))
          tt jobs_one jobs_two last run).flow_error in
      let all =
        finished-Complete stages chunks Loaded Composable read_contract tt none jobs_one jobs_two
          some_one some_two last run end clean in
      let len = length-Related (WellStored S hash p world) items chunks stored in
      (
        clean,
        composed_lem items last.received all.all_done (λ i lt. ground (arith, all.once i, len)),
      )

limited-HasJobs :
    (P : AsyncSplitter) (n : ℕ)
    → HasJobs P
    → 0 < n
    → (0 < (limited_jobs P n).0) × (0 < (limited_jobs P n).1)
limited-HasJobs P n (some_storage, some_processor) h = (ground arith, ground arith)

read_single :
    (P : AsyncSplitter) (hash : Hasher) (p : Processor) (items : List Bytes) (chunks : List Chunk)
    (w : P.chunk_storage.World)
    → IsReversible p
    → P.hasher ≡ ok hash
    → P.processor ≡ ok p
    → Related (WellStored P.chunk_storage hash p w) items chunks
    → length chunks ≡ 1
    → SingleObject.read (single P) chunks w ≡ ok (joined items)
read_single P hash p items [] w reversible h k r e = absurd (omega (arith, e))
read_single P hash p items (c ∷ d ∷ cs) w reversible h k r e = absurd (omega (arith, e))
read_single P hash p [] (c ∷ []) w reversible h k r e = absurd r
read_single P hash p (x ∷ y ∷ ys) (c ∷ []) w reversible h k r e = absurd r.1
read_single P hash p (x ∷ []) (c ∷ []) w reversible h k ((sum, bytes, f, g), u) e =
    rw (append-nil x)
      (rw sum at (read_lem (single P) hash p (config_of c) x bytes w h k g (reversible x bytes f)))

-- However the goroutines of Read are scheduled, it gives the data of which chunks are given that are
-- well stored, in their order, and no error, if its processor is reversible and there is a chunk.
pub splitter_read_lem :
    (P : AsyncSplitter) (hash : Hasher) (p : Processor) (items : List Bytes) (chunks : List Chunk)
    (w : P.chunk_storage.World) (answer : Result Error Bytes)
    → IsReversible p
    → HasJobs P
    → P.hasher ≡ ok hash
    → P.processor ≡ ok p
    → Related (WellStored P.chunk_storage hash p w) items chunks
    → 0 < length chunks
    → Reads P chunks w answer
    → answer ≡ ok (joined items)
splitter_read_lem P hash p items chunks w answer reversible jobs h k stored some_chunk
      (nothing e f) =
    absurd (omega (arith, some_chunk, ap length e))
splitter_read_lem P hash p items chunks w answer reversible jobs h k stored some_chunk
      (one_chunk e f) =
    f ∙ read_single P hash p items chunks w reversible h k stored e
splitter_read_lem P hash p items chunks w answer reversible jobs h k stored some_chunk
      (no_read_hasher l a f) =
    absurd (err-ne-ok (sym a ∙ h))
splitter_read_lem P hash p items chunks w answer reversible jobs h k stored some_chunk
      (no_read_processor l a b f) =
    absurd (err-ne-ok (sym b ∙ k))
splitter_read_lem P hash p items chunks w answer reversible jobs h k stored some_chunk
      (composed_from {hash = hash'} {p = p'} {last = last} l a b run end f) =
    let same_hash : hash ≡ hash' = ok-injective (sym h ∙ a) in
    let same_p : p ≡ p' = ok-injective (sym k ∙ b) in
    let limits = limited-HasJobs P (length chunks) jobs some_chunk in
    let (clean, all) =
      composed_all P.chunk_storage hash' p' (rw same_p at reversible) items chunks w
        (rw (same_hash, same_p) at stored) (limited_jobs P (length chunks)).0
        (limited_jobs P (length chunks)).1 last limits.0 limits.1 run end in
    f ∙ rw (clean, all) refl
