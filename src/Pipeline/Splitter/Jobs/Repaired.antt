-- ===== src/Pipeline/Splitter/Jobs/Repaired.antt =====
-- client/datastor/pipeline/async_splitter.go: what Repair and Delete have done when they return no error.
use stor.Pipeline.Splitter.Jobs.Outcome.{Answered, jobs_succeeded}
use stor.Pipeline.Flow.Items.{IsItem}
use stor.Pipeline.Splitter.Writing.{HasJobs}
use stor.Base.{
  zero, suc, some-injective, none-ne-some, none, ℕ, ◌<◌, ◌≡◌, inl, inr, refl, sym, ap, ◌∙◌, List,
  [], ◌∷◌, ◌==◌, ==_iff, Bool-cases, some, length, length-set, length-replicate, get_elem?, Result,
  ok, err, panic, ok-injective, err-ne-ok, panic-ne-ok, All, arith,
}
use stor.Cluster.Types.{Chunk}
use stor.Storage.Types
use stor.Storage.Types.{ChunkConfig}
use stor.Pipeline.Types.{ChunkStorage}
use stor.Pipeline.SingleObject
use stor.Pipeline.SingleObject.{config_of, passed_on_from, with_chunks}
use stor.Pipeline.Numbered.{get_elem?-lt, Related-of_get, Related, get_elem?-set_read}
use stor.Pipeline.Workers.Counting.{count}
use stor.Pipeline.Collecting.{empty_chunk}
use stor.Pipeline.Splitter.{single, AsyncSplitter, with_chunk}
use stor.Pipeline.Splitter.Jobs.{
  repair_work, delete_work, repaired, deleted, one_not_repaired, one_not_deleted, one_repaired,
  one_deleted, nothing_to_delete, nothing_to_repair, job_count, Repairs, Deletes, output_chunks,
}

length-output_chunks : (rs : List (ℕ × Chunk)) (n : ℕ) → length (output_chunks rs n) ≡ n
length-output_chunks [] n = length-replicate n empty_chunk
length-output_chunks ((i, c) ∷ rs) n =
    length-set (output_chunks rs n) i c ∙ length-output_chunks rs n

output_chunks-get :
    (Q : ℕ × Chunk → Type 0) (rs : List (ℕ × Chunk)) (n i : ℕ)
    → All Q rs
    → i < n
    → 0 < count i rs
    → (c : Chunk) × (get_elem? (output_chunks rs n) i ≡ some c) × Q (i, c)
output_chunks-get Q [] n i h l p = absurd (omega arith)
output_chunks-get Q ((j, d) ∷ rs) n i h l p =
    let at =
      get_elem?-set_read (output_chunks rs n) j i d (omega (arith, length-output_chunks rs n, l)) in
    elim (Bool-cases (j == i)) [
      | inl t ↦ (d, rw t at at, rw ((==_iff j i).0 t) at h.0)
      | inr f ↦
          let (c, e, q) = output_chunks-get Q rs n i h.1 l (omega (arith, rw f at p)) in
          (c, rw f at at ∙ e, q)
    ]

-- The chunk is what the storage has made of another in some state of the cluster, under the same hash.
abbrev pub IsRepaired : (S : ChunkStorage) → Chunk → Chunk → Type 0
IsRepaired S chunk output =
    (chunk.hash ≡ output.hash)
    × (w : S.World) × (w' : S.World) × (S.repair_chunk (config_of chunk) w
        ≡ (ok (config_of output), w'))

module _ (S : ChunkStorage) where
  with_chunk-IsRepaired :
      (chunk output : Chunk) (w w' : S.World) (r : Result Types.Error ChunkConfig × S.World)
      → S.repair_chunk (config_of chunk) w ≡ r
      → with_chunk chunk.hash r ≡ (ok output, w')
      → IsRepaired S chunk output
  with_chunk-IsRepaired chunk output w w' (ok cfg, v) e f =
      rw (sym (ok-injective (ap (λ x. x.0) f))) (refl, w, v, e)
  with_chunk-IsRepaired chunk output w w' (err x, v) e f = absurd (err-ne-ok (ap (λ x. x.0) f))
  with_chunk-IsRepaired chunk output w w' (panic, v) e f = absurd (panic-ne-ok (ap (λ x. x.0) f))

  passed_on-ok :
      (w' : S.World) (r : Result Types.Error (Unit {0}) × S.World)
      → passed_on_from r ≡ (ok tt, w')
      → r ≡ (ok tt, w')
  passed_on-ok w' (ok tt, v) e = cc
  passed_on-ok w' (err x, v) e = absurd (err-ne-ok (ap (λ x. x.0) e))
  passed_on-ok w' (panic, v) e = absurd (panic-ne-ok (ap (λ x. x.0) e))

  with_chunks-IsRepaired :
      (chunk : Chunk) (output : List Chunk) (w w' : S.World)
      (r : Result Types.Error ChunkConfig × S.World)
      → S.repair_chunk (config_of chunk) w ≡ r
      → with_chunks chunk.hash r ≡ (ok output, w')
      → Related (IsRepaired S) (chunk ∷ []) output
  with_chunks-IsRepaired chunk output w w' (ok cfg, v) e f =
      rw (sym (ok-injective (ap (λ x. x.0) f))) ((refl, w, v, e), tt)
  with_chunks-IsRepaired chunk output w w' (err x, v) e f = absurd (err-ne-ok (ap (λ x. x.0) f))
  with_chunks-IsRepaired chunk output w w' (panic, v) e f = absurd (panic-ne-ok (ap (λ x. x.0) f))

some_job_of : (P : AsyncSplitter) (n : ℕ) → HasJobs P → 1 < n → 0 < job_count P n
some_job_of P n jobs l = ground (arith, jobs.0)

single-IsRepaired :
    (P : AsyncSplitter) (chunks output : List Chunk) (w w' : P.chunk_storage.World)
    → length chunks ≡ 1
    → SingleObject.repair (single P) chunks w ≡ (ok output, w')
    → Related (IsRepaired P.chunk_storage) chunks output
unfolding SingleObject.repair
single-IsRepaired P [] output w w' l e = absurd (omega (arith, l))
single-IsRepaired P (c ∷ d ∷ cs) output w w' l e = absurd (omega (arith, l))
single-IsRepaired P (c ∷ []) output w w' l e =
    with_chunks-IsRepaired P.chunk_storage c output w w'
      (P.chunk_storage.repair_chunk (config_of c) w) refl e

single_deleted :
    (P : AsyncSplitter) (chunks : List Chunk) (w w' : P.chunk_storage.World) (i : ℕ) (chunk : Chunk)
    → length chunks ≡ 1
    → SingleObject.delete (single P) chunks w ≡ (ok tt, w')
    → IsItem chunks (i, chunk)
    → P.chunk_storage.delete_chunk (config_of chunk) w ≡ (ok tt, w')
unfolding SingleObject.delete
single_deleted P [] w w' i chunk l e h = absurd (omega (arith, l))
single_deleted P (c ∷ d ∷ cs) w w' i chunk l e h = absurd (omega (arith, l))
single_deleted P (c ∷ []) w w' zero chunk l e h =
    rw (sym (some-injective h))
      (passed_on-ok P.chunk_storage w' (P.chunk_storage.delete_chunk (config_of c) w) e)
single_deleted P (c ∷ []) w w' (suc i) chunk l e h = absurd (none-ne-some h)

-- However the goroutines of Repair are scheduled, if it returns no error, it returns as many chunks as
-- it was given, each under its hash and with the configuration that the storage has returned for it, if
-- there are jobs.
pub splitter_repair_lem :
    (P : AsyncSplitter) (chunks output : List Chunk) (w w' : P.chunk_storage.World)
    → HasJobs P
    → Repairs P chunks w output none w'
    → Related (IsRepaired P.chunk_storage) chunks output
splitter_repair_lem P chunks output w w' jobs (nothing_to_repair a b e f) = absurd (none-ne-some e)
splitter_repair_lem P chunks output w w' jobs (one_repaired l e f) =
    single-IsRepaired P chunks output w w' l e
splitter_repair_lem P chunks output w w' jobs (one_not_repaired l a b e) = absurd (none-ne-some e)
splitter_repair_lem P chunks output w w' jobs (repaired {last = last} l run end e n f) =
    let S = P.chunk_storage in
    let (answered, len, once) =
      jobs_succeeded (repair_work S) chunks (job_count P (length chunks))
        (some_job_of P (length chunks) jobs l) w last run end (sym n) in
    rw e (
      Related-of_get (IsRepaired S) chunks (output_chunks last.received (length chunks))
        (sym (length-output_chunks last.received (length chunks)))
        (λ i lt.
          let below : i < length chunks =
            omega (arith, lt, length-output_chunks last.received (length chunks)) in
          let (d, g, (chunk, item, v, v', call)) =
            output_chunks-get (Answered (repair_work S) chunks) last.received (length chunks) i
              answered below (ground (arith, once i, below)) in
          (
            chunk,
            d,
            item,
            g,
            with_chunk-IsRepaired S chunk d v v' (S.repair_chunk (config_of chunk) v) refl call,
          )))

answered_of :
    {A : Type 0} (P : ℕ × A → Type 0) (i : ℕ) (rs : List (ℕ × A))
    → All P rs
    → 0 < count i rs
    → (a : A) × P (i, a)
answered_of P i [] h c = absurd (omega arith)
answered_of P i ((j, a) ∷ rs) h c = elim (Bool-cases (j == i)) [
  | inl t ↦ (a, rw ((==_iff j i).0 t) at h.0)
  | inr f ↦ answered_of P i rs h.1 (omega (arith, rw f at c))
]

-- However the goroutines of Delete are scheduled, if it returns no error, the storage has been asked to
-- delete each of the chunks, in some state of the cluster, and has returned no error for it, if there
-- are jobs.
pub splitter_delete_lem :
    (P : AsyncSplitter) (chunks : List Chunk) (w w' : P.chunk_storage.World) (i : ℕ) (chunk : Chunk)
    → HasJobs P
    → Deletes P chunks w none w'
    → IsItem chunks (i, chunk)
    → (v : P.chunk_storage.World) × (v' : P.chunk_storage.World) × (P.chunk_storage.delete_chunk
          (config_of chunk)
          v
        ≡ (ok tt, v'))
splitter_delete_lem P chunks w w' i chunk jobs (nothing_to_delete a e f) h = absurd (none-ne-some e)
splitter_delete_lem P chunks w w' i chunk jobs (one_deleted l e f) h =
    (w, w', single_deleted P chunks w w' i chunk l e h)
splitter_delete_lem P chunks w w' i chunk jobs (one_not_deleted l a e) h = absurd (none-ne-some e)
splitter_delete_lem P chunks w w' i chunk jobs (deleted {last = last} l run end e f) h =
    let S = P.chunk_storage in
    let (answered, len, once) =
      jobs_succeeded (delete_work S) chunks (job_count P (length chunks))
        (some_job_of P (length chunks) jobs l) w last run end (sym e) in
    let (u, (chunk', item, v, v', call)) =
      answered_of (Answered (delete_work S) chunks) i last.received answered
        (ground (arith, once i, get_elem?-lt chunks i chunk h)) in
    (
      v,
      v',
      rw (some-injective (sym item ∙ h)) at
          (passed_on-ok S v' (S.delete_chunk (config_of chunk') v) call),
    )
