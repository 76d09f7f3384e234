-- ===== src/Pipeline/Splitter/Writing.antt =====
-- client/datastor/pipeline/async_splitter.go: the chunks that Write returns.
use stor.Pipeline.Collecting.Order.{collected_lem, collected-ne-panic}
use stor.Pipeline.Flow.Results.{finished-Complete}
use stor.Pipeline.Collecting.{collected}
use stor.Pipeline.Numbered.{Related-of_get, Related}
use stor.Pipeline.Flow.{IsFinished, Step, Flow}
use stor.Base.{
  ◌<◌, arith, length, inr, inl, ◌∙◌, Option-cases, some, panic-ne-err, none, Runs, Option, ℕ, ◌≡◌,
  refl, sym, ap, Bytes, List, Result, ok, err, panic, ok-injective, err-ne-ok, panic-ne-ok, bind-ok,
}
use stor.Cluster.Types.{Chunk}
use stor.Storage.Types
use stor.Storage.Types.{ChunkConfig}
use stor.Pipeline.Types.{Error, ChunkStorage, Processor, Hasher, IsStorage, KeepsChunks}
use stor.Pipeline.SingleObject.{config_of}
use stor.Pipeline.Flow.Items.{Contract, IsItem}
use stor.Pipeline.Splitter.{
  written, write_start, no_processor, no_hasher, unless, Writes, Reader, AsyncSplitter, with_chunk,
  write_stages,
}

-- The chunk has the hash of the data, and what can be read of it is what the processor made of them.
abbrev pub WellStored : (S : ChunkStorage) → Hasher → Processor → S.World → Bytes → Chunk → Type 0
WellStored S hash p w raw chunk =
    (hash raw ≡ chunk.hash)
    × (bytes : Bytes) × (p.write_process raw ≡ ok bytes)
    × (S.read_chunk (config_of chunk) w ≡ ok bytes)

module _ (S : ChunkStorage) (hash : Hasher) (p : Processor) (storage : IsStorage S)
    (keeps : KeepsChunks S) (items : List Bytes) where
  abbrev Halfway : S.World → ℕ × (Bytes × Bytes) → Type 0
  Halfway w item =
      (raw : Bytes) × IsItem items (item.0, raw)
      × (hash raw ≡ item.1.0)
      × (p.write_process raw ≡ ok item.1.1)

  abbrev Done : S.World → ℕ × Chunk → Type 0
  Done w item = (raw : Bytes) × IsItem items (item.0, raw) × WellStored S hash p w raw item.1

  stored_chunk :
      (i : ℕ) (raw bytes sum : Bytes) (chunk : Chunk) (w w' : S.World)
      (r : Result Types.Error ChunkConfig × S.World)
      → IsItem items (i, raw)
      → hash raw ≡ sum
      → p.write_process raw ≡ ok bytes
      → S.write_chunk bytes w ≡ r
      → with_chunk sum r ≡ (ok chunk, w')
      → Done w' (i, chunk)
  stored_chunk i raw bytes sum chunk w w' (ok cfg, v) item h f e g =
      let same : v ≡ w' = ap (λ x. x.1) g in
      let made = ok-injective (ap (λ x. x.0) g) in
      (raw, item, rw (sym made) (h, bytes, f, rw same at (storage bytes w v cfg e)))
  stored_chunk i raw bytes sum chunk w w' (err x, v) item h f e g =
      absurd (err-ne-ok (ap (λ x. x.0) g))
  stored_chunk i raw bytes sum chunk w w' (panic, v) item h f e g =
      absurd (panic-ne-ok (ap (λ x. x.0) g))

  Done-kept :
      (bytes : Bytes) (w : S.World) (z : ℕ × Chunk) → Done w z → Done (S.write_chunk bytes w).1 z
  Done-kept bytes w z (raw, item, (h, b, f, e)) =
      (raw, item, (h, b, f, keeps (config_of z.1) b bytes w e))

  write_contract : Contract (write_stages S hash p) (IsItem items) Halfway Done
  write_contract = record {
    first_makes = λ x m w w' item e.
        let (bytes, f, g) =
          bind-ok (p.write_process x.1) (λ bytes. ok (hash x.1, bytes)) m (ap (λ z. z.0) e) in
        rw (sym (ok-injective g)) (x.1, item, refl, f);
    second_makes = λ y chunk w w' (raw, item, h, f) e.
        stored_chunk y.0 raw y.1.1 y.1.0 chunk w w' (S.write_chunk y.1.1 w) item h f refl e;
    first_keeps =
        λ x r w w' e. let same : w ≡ w' = ap (λ z. z.1) e in (λ y h. h, λ z h. rw same at h);
    second_keeps = λ y r w w' e.
        let same : (S.write_chunk y.1 w).1 ≡ w' = ap (λ z. z.1) e in
        (λ y h. h, λ z h. rw same at (Done-kept y.1 w z h));
  }

abbrev pub HasJobs : AsyncSplitter → Type 0
HasJobs P = (0 < P.storage_job_count) × (0 < P.processor_job_count)

unless-ok :
    {A : Type 0} (o : Option Error) (r : Result Error A) (a : A)
    → unless o r ≡ ok a
    → (o ≡ none) × (r ≡ ok a)
unless-ok none r a e = (refl, e)
unless-ok (some d) r a e = absurd (err-ne-ok e)

module _ (P : AsyncSplitter) (storage : IsStorage P.chunk_storage)
    (keeps : KeepsChunks P.chunk_storage) (jobs : HasJobs P) (r : Reader)
    (w : P.chunk_storage.World) (hash : Hasher) (p : Processor)
    (last : Flow (write_stages P.chunk_storage hash p))
    (run : Runs (Step (write_stages P.chunk_storage hash p)) (write_start P hash p r w) last)
    (end : IsFinished last) (e : last.error ≡ none) where
  abbrev Stored : List Chunk → Type 0
  Stored chunks =
      (r.failure ≡ none) × Related (WellStored P.chunk_storage hash p last.world) r.reads chunks

  collected-Stored :
      (chunks : List Chunk) × (collected P.storage_job_count last.received ≡ ok chunks)
      × Stored chunks
  collected-Stored =
      let S = P.chunk_storage in
      let all =
        finished-Complete (write_stages S hash p) r.reads (Halfway S hash p storage keeps r.reads)
          (Done S hash p storage keeps r.reads) (write_contract S hash p storage keeps r.reads) w
          r.failure P.processor_job_count P.storage_job_count jobs.1 jobs.0 last run end e in
      let (chunks, f, len, h) =
        collected_lem (Done S hash p storage keeps r.reads last.world) (length r.reads)
          last.received all.once P.storage_job_count jobs.0 all.all_done all.all_received in
      (
        chunks,
        f,
        (
          all.no_failure,
          Related-of_get (WellStored S hash p last.world) r.reads chunks (sym len) (λ i lt.
              let (c, g, (raw, item, stored)) = h i (omega (arith, lt, len)) in
              (raw, c, item, g, stored)),
        ),
      )

-- However the goroutines of Write are scheduled, if it returns chunks, the reader has ended without an
-- error and there is a chunk for each call of Read that returned no error, in their order, with the
-- hash of what the call gave, from which the storage gives what the processor made of it, if the storage
-- reads what it has written and keeps it when more is written, and there are a processor, a hasher and
-- jobs of both kinds. The bytes that come with io.EOF get no chunk.
pub splitter_write_lem :
    (P : AsyncSplitter) (hash : Hasher) (p : Processor) (r : Reader) (chunks : List Chunk)
    (w w' : P.chunk_storage.World)
    → IsStorage P.chunk_storage
    → KeepsChunks P.chunk_storage
    → HasJobs P
    → P.hasher ≡ ok hash
    → P.processor ≡ ok p
    → Writes P r w (ok chunks) w'
    → (r.failure ≡ none) × Related (WellStored P.chunk_storage hash p w') r.reads chunks
splitter_write_lem P hash p r chunks w w' storage keeps jobs h k (no_hasher a f b) =
    absurd (err-ne-ok (sym f))
splitter_write_lem P hash p r chunks w w' storage keeps jobs h k (no_processor a b f g) =
    absurd (err-ne-ok (sym f))
splitter_write_lem P hash p r chunks w w' storage keeps jobs h k
      (written {hash = hash'} {p = p'} {last = last} a b run end f g) =
    let same_hash : hash' ≡ hash = ok-injective (sym a ∙ h) in
    let same_p : p' ≡ p = ok-injective (sym b ∙ k) in
    let (n, c) =
      unless-ok last.error (collected P.storage_job_count last.received) chunks (sym f) in
    let (chunks', c', stored) = collected-Stored P storage keeps jobs r w hash' p' last run end n in
    let same : chunks' ≡ chunks = ok-injective (sym c' ∙ c) in
    (stored.0, rw (g, sym same_hash, sym same_p, sym same) stored.1)

-- However the goroutines of Write are scheduled, and whatever the storage and the processor answer, it
-- does not panic, if there are jobs of both kinds.
pub splitter_write_total :
    (P : AsyncSplitter) (r : Reader) (w w' : P.chunk_storage.World)
    → HasJobs P
    → ¬ Writes P r w panic w'
splitter_write_total P r w w' jobs (no_hasher a f b) = panic-ne-err f
splitter_write_total P r w w' jobs (no_processor a b f g) = panic-ne-err f
splitter_write_total P r w w' jobs (written {last = last} a b run end f g) =
    elim (Option-cases last.error) [
      | inl n ↦ collected-ne-panic P.storage_job_count last.received jobs.0 (sym (rw n at f))
      | inr (e, n) ↦ panic-ne-err (rw n at f)
    ]
