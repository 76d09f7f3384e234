-- ===== src/Pipeline/Splitter/Jobs/Checked.antt =====
-- client/datastor/pipeline/async_splitter.go: the status that Check returns.
use stor.Base.{
  true-ne-false, err-injective, ℕ, ◌<◌, ◌≡◌, ◌⊎◌, inl, inr, refl, sym, ap, ◌∙◌, List, [], ◌∷◌, Bool,
  true, false, ◌&&◌, ltb, ◌==◌, ==_iff, if◌then◌else◌, Bool-cases, Option-cases, some,
  some-injective, length, get_elem?, Result, ok, err, ◌>>=◌, ok-injective, err-ne-ok, All, arith,
  Runs,
}
use stor.Cluster.Types.{Chunk}
use stor.Storage.Types.{CheckStatus, invalid, valid, optimal}
use stor.Pipeline.Types.{Error, invalid_status, ChunkStorage}
use stor.Pipeline.SingleObject
use stor.Pipeline.SingleObject.{from_storage, config_of}
use stor.Pipeline.Numbered.{Related, Related-get, length-Related, get_elem?-lt}
use stor.Pipeline.Workers.{IsDrained}
use stor.Pipeline.Workers.Counting.{count}
use stor.Pipeline.Flow.Items.{IsItem}
use stor.Pipeline.Splitter.{AsyncSplitter, single}
use stor.Pipeline.Splitter.Writing.{HasJobs}
use stor.Pipeline.Splitter.Jobs.{
  Jobs, JobStep, start_jobs, is_optimal, check_work, all_optimal, check_result, job_count, Checks,
  nothing_to_check, one_to_check, checked,
}
use stor.Pipeline.Splitter.Jobs.Outcome.{Answered, jobs-Failed, jobs_succeeded}
use stor.Pipeline.Splitter.Jobs.Statuses.{worst, worst_invalid, worst_optimal, worst_valid}

and_false : (b : Bool) → (b && false) ≡ false
and_false true = refl
and_false false = refl

and_true : (b : Bool) → (b && true) ≡ b
and_true true = refl
and_true false = refl

is_optimal-ok :
    (x : CheckStatus) (b : Bool)
    → is_optimal x ≡ ok b
    → ((x ≡ optimal) × (b ≡ true)) ⊎ ((x ≡ valid) × (b ≡ false))
is_optimal-ok invalid b e = absurd (err-ne-ok e)
is_optimal-ok valid b e = inr (refl, sym (ok-injective e))
is_optimal-ok optimal b e = inl (refl, sym (ok-injective e))

is_optimal-err :
    (x : CheckStatus) (e : Error) → is_optimal x ≡ err e → (x ≡ invalid) × (e ≡ invalid_status)
is_optimal-err invalid e h = (refl, sym (err-injective h))
is_optimal-err valid e h = absurd (err-ne-ok (sym h))
is_optimal-err optimal e h = absurd (err-ne-ok (sym h))

module _ (P : ℕ × Bool → Type 0) where
  -- A result for the number, which counts in the conjunction
  all_optimal-count :
      (i : ℕ) (rs : List (ℕ × Bool))
      → All P rs
      → 0 < count i rs
      → (b : Bool) × P (i, b) × (b ≡ false → all_optimal rs ≡ false)
  all_optimal-count i [] h c = absurd (omega arith)
  all_optimal-count i ((j, b) ∷ rs) h c = elim (Bool-cases (j == i)) [
    | inl t ↦ (b, rw ((==_iff j i).0 t) at h.0, λ e. rw e (and_false (all_optimal rs)))
    | inr f ↦
        let (b', p, k) = all_optimal-count i rs h.1 (omega (arith, rw f at c)) in
        (b', p, λ e. rw (k e) refl)
  ]

  all_optimal_false :
      (rs : List (ℕ × Bool)) → All P rs → all_optimal rs ≡ false → (i : ℕ) × P (i, false)
  all_optimal_false [] h e = absurd cc
  all_optimal_false ((i, false) ∷ rs) h e = (i, h.0)
  all_optimal_false ((i, true) ∷ rs) h e =
      all_optimal_false rs h.1 (sym (and_true (all_optimal rs)) ∙ e)

module _ (S : ChunkStorage) (chunks : List Chunk) (statuses : List CheckStatus) (fast : Bool)
    (w : S.World)
    (related : Related
      (λ chunk status. S.check_chunk (config_of chunk) fast w ≡ ok status)
      chunks
      statuses) where
  status_of :
      (i : ℕ) (chunk : Chunk) (r : Result Error Bool)
      → IsItem chunks (i, chunk)
      → (from_storage (S.check_chunk (config_of chunk) fast w) >>= is_optimal) ≡ r
      → (x : CheckStatus) × (get_elem? statuses i ≡ some x) × (is_optimal x ≡ r)
  status_of i chunk r item e =
      let (x, g, f) =
        Related-get (λ chunk status. S.check_chunk (config_of chunk) fast w ≡ ok status) chunks
          statuses i chunk related item in
      (x, g, rw f at e)

  module _ (received : List (ℕ × Bool))
      (answered : All (Answered (check_work S fast w) chunks) received)
      (once : (i : ℕ) → count i received ≡ (if ltb i (length chunks) then 1 else 0)) where
    each_status :
        (i : ℕ) (x : CheckStatus)
        → get_elem? statuses i ≡ some x
        → (x ≡ optimal) ⊎ ((x ≡ valid) × (all_optimal received ≡ false))
    each_status i x e =
        let len =
          length-Related (λ chunk status. S.check_chunk (config_of chunk) fast w ≡ ok status) chunks
            statuses related in
        let lt = get_elem?-lt statuses i x e in
        let here : 0 < count i received = ground (arith, once i, len, lt) in
        let (b, (chunk, item, u, u', f), g) =
          all_optimal-count (Answered (check_work S fast w) chunks) i received answered here in
        let (x', e', o) = status_of i chunk (ok b) item (ap (λ z. z.0) f) in
        let same : x' ≡ x = some-injective (sym e' ∙ e) in
        elim (is_optimal-ok x' b o) [
          | inl (p, q) ↦ inl (sym same ∙ p)
          | inr (p, q) ↦ inr (sym same ∙ p, g q)
        ]

    clean_status : worst statuses ≡ (if all_optimal received then optimal else valid)
    clean_status = elim (Bool-cases (all_optimal received)) [
      | inl t ↦ rw t (
          worst_optimal statuses (λ i x e. elim (each_status i x e) [
            | inl p ↦ p
            | inr (p, q) ↦ absurd (true-ne-false (all_optimal received) t q)
          ]))
      | inr f ↦
          let (i, (chunk, item, u, u', g)) =
            all_optimal_false (Answered (check_work S fast w) chunks) received answered f in
          let (x, e, o) = status_of i chunk (ok false) item (ap (λ z. z.0) g) in
          let x_valid : x ≡ valid = elim (is_optimal-ok x false o) [
            | inl (p, q) ↦ absurd cc
            | inr (p, q) ↦ p
          ] in
          rw f (
            worst_valid statuses i
              (λ j y h. elim (each_status j y h) [ inl p ↦ inl p | inr (p, q) ↦ inr p ])
              (e ∙ ap some x_valid))
    ]

  checked_status :
      (jobs : ℕ) (last : Jobs (check_work S fast w))
      → 0 < jobs
      → Runs (JobStep (check_work S fast w)) (start_jobs (check_work S fast w) tt chunks jobs) last
      → IsDrained last.stage
      → check_result last.stage.error (all_optimal last.received) ≡ ok (worst statuses)
  checked_status jobs last some_job run end = elim (Option-cases last.stage.error) [
    | inl n ↦
        let (answered, len, once) =
          jobs_succeeded (check_work S fast w) chunks jobs some_job tt last run end n in
        rw n (ap ok (sym (clean_status last.received answered once)))
    | inr (d, n) ↦
        let (i, chunk, item, u, u', f) =
          jobs-Failed (check_work S fast w) chunks jobs some_job tt last run d n in
        let (x, e, o) = status_of i chunk (err d) item (ap (λ z. z.0) f) in
        let (p, q) = is_optimal-err x d o in
        rw (n, q) (ap ok (sym (worst_invalid statuses i (e ∙ ap some p))))
  ]

checked_single :
    (P : AsyncSplitter) (chunks : List Chunk) (statuses : List CheckStatus) (fast : Bool)
    (w : P.chunk_storage.World)
    → Related
        (λ chunk status. P.chunk_storage.check_chunk (config_of chunk) fast w ≡ ok status)
        chunks
        statuses
    → length chunks ≡ 1
    → SingleObject.check (single P) chunks fast w ≡ ok (worst statuses)
unfolding SingleObject.check
checked_single P [] statuses fast w r e = absurd (omega (arith, e))
checked_single P (c ∷ d ∷ cs) statuses fast w r e = absurd (omega (arith, e))
checked_single P (c ∷ []) [] fast w r e = absurd r
checked_single P (c ∷ []) (x ∷ y ∷ ys) fast w r e = absurd r.1
checked_single P (c ∷ []) (invalid ∷ []) fast w r e = rw r.0 refl
checked_single P (c ∷ []) (valid ∷ []) fast w r e = rw r.0 refl
checked_single P (c ∷ []) (optimal ∷ []) fast w r e = rw r.0 refl

-- However the goroutines of Check are scheduled, it returns the worst of the statuses of its chunks, if
-- the storage has a status for each, there is a chunk and there are jobs.
pub splitter_check_lem :
    (P : AsyncSplitter) (chunks : List Chunk) (statuses : List CheckStatus) (fast : Bool)
    (w : P.chunk_storage.World) (answer : Result Error CheckStatus)
    → HasJobs P
    → Related
        (λ chunk status. P.chunk_storage.check_chunk (config_of chunk) fast w ≡ ok status)
        chunks
        statuses
    → 0 < length chunks
    → Checks P chunks fast w answer
    → answer ≡ ok (worst statuses)
splitter_check_lem P chunks statuses fast w answer jobs r some_chunk (nothing_to_check e f) =
    absurd (omega (arith, some_chunk, ap length e))
splitter_check_lem P chunks statuses fast w answer jobs r some_chunk (one_to_check e f) =
    f ∙ checked_single P chunks statuses fast w r e
splitter_check_lem P chunks statuses fast w answer jobs r some_chunk
      (checked {last = last} l run end f) =
    let some_job : 0 < job_count P (length chunks) = ground (arith, jobs.0, some_chunk) in
    f
    ∙ checked_status P.chunk_storage chunks statuses fast w r (job_count P (length chunks)) last
        some_job run end
