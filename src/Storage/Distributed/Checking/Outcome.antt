-- ===== src/Storage/Distributed/Checking/Outcome.antt =====
-- CheckChunk of client/datastor/pipeline/storage/distributed.go: what its workers find.
use stor.Base.{
  ==_iff, ◌==◌, ap, ok-injective, ℕ, zero, suc, ◌+◌, ◌<◌, ◌≤◌, ◌≡◌, ◌⊎◌, inl, inr, ◌↔◌, refl, List,
  [], ◌∷◌, Bool, true, min, arith, length, count_if, Runs, Runs-keep, ok,
}
use stor.Cluster.Types.{Cluster, ObjectRef}
use stor.Storage.Types.{ChunkConfig, invalid}
use stor.Storage.Distributed.{check_status, EncoderDecoder, is_valid_object, search_object_count}
use stor.Storage.Distributed.Checking.{
  Search, Step, request, no_request, hit, miss, no_object, start, IsFinished, check_chunk,
}

abbrev pub valid_count : (C : Cluster) → C.World → List ObjectRef → ℕ
valid_count C w = count_if (is_valid_object C w)

-- `quit` workers have left for want of a request, and `gone` for want of an object.
record Balance (C : Cluster) (w : C.World) (total valid_total jobs : ℕ) (s : Search) : Type 0 where
  quit : ℕ
  gone : ℕ
  requested : s.found + s.requests + s.searching + gone ≡ total
  checked : s.found + valid_count C w s.pending ≡ valid_total
  workers : s.idle + s.searching + gone + quit ≡ jobs
  quit_late : (quit ≡ 0) ⊎ (s.requests ≡ 0)
  gone_late : (gone ≡ 0) ⊎ (s.pending ≡ [])

nothing_gone :
    {gone : ℕ} {o : ObjectRef} {p : List ObjectRef} → (gone ≡ 0) ⊎ (o ∷ p ≡ []) → gone ≡ 0
nothing_gone (inl e) = e
nothing_gone (inr e) = absurd (cc)

nothing_quit : {quit r : ℕ} → (quit ≡ 0) ⊎ (suc r ≡ 0) → quit ≡ 0
nothing_quit (inl e) = e
nothing_quit (inr e) = absurd (omega arith)

Step-Balance :
    (C : Cluster) (w : C.World) (total valid_total jobs : ℕ) (a b : Search)
    → Step C w a b
    → Balance C w total valid_total jobs a
    → Balance C w total valid_total jobs b
Step-Balance C w total valid_total jobs a b (request {r = r}) x = record {
  quit = x.quit;
  gone = x.gone;
  requested = omega (arith, x.requested);
  checked = x.checked;
  workers = omega (arith, x.workers);
  quit_late = inl (nothing_quit x.quit_late);
  gone_late = x.gone_late;
}
Step-Balance C w total valid_total jobs a b no_request x = record {
  quit = suc x.quit;
  gone = x.gone;
  requested = x.requested;
  checked = x.checked;
  workers = omega (arith, x.workers);
  quit_late = inr refl;
  gone_late = x.gone_late;
}
Step-Balance C w total valid_total jobs a b (hit e) x = record {
  quit = x.quit;
  gone = x.gone;
  requested = omega (arith, x.requested);
  checked = omega (arith, rw e at x.checked);
  workers = omega (arith, x.workers);
  quit_late = x.quit_late;
  gone_late = inl (nothing_gone x.gone_late);
}
Step-Balance C w total valid_total jobs a b (miss e) x = record {
  quit = x.quit;
  gone = x.gone;
  requested = x.requested;
  checked = omega (arith, rw e at x.checked);
  workers = x.workers;
  quit_late = x.quit_late;
  gone_late = inl (nothing_gone x.gone_late);
}
Step-Balance C w total valid_total jobs a b no_object x = record {
  quit = x.quit;
  gone = suc x.gone;
  requested = omega (arith, x.requested);
  checked = x.checked;
  workers = omega (arith, x.workers);
  quit_late = x.quit_late;
  gone_late = inr refl;
}

start-Balance :
    (C : Cluster) (w : C.World) (dec : EncoderDecoder) (job_count : ℕ) (cfg : ChunkConfig)
    (fast : Bool)
    → Balance C w
        (search_object_count dec fast)
        (valid_count C w cfg.objects)
        (min job_count (search_object_count dec fast))
        (start dec job_count cfg fast)
unfolding start
start-Balance C w dec job_count cfg fast = record {
  quit = 0;
  gone = 0;
  requested = omega arith;
  checked = omega arith;
  workers = omega arith;
  quit_late = inl refl;
  gone_late = inl refl;
}

finished_lem :
    (C : Cluster) (w : C.World) (total valid_total jobs : ℕ) (s : Search)
    → 0 < jobs ⊎ (total ≡ 0)
    → IsFinished s
    → Balance C w total valid_total jobs s
    → s.found ≡ min total valid_total
finished_lem C w total valid_total jobs s many (idle, searching) x = elim x.gone_late [
  | inl g ↦ elim x.quit_late [
    | inl q ↦ elim many [
      | inl m ↦ absurd (omega (arith, x.workers))
      | inr t ↦ omega (arith, x.requested)
    ]
    | inr r ↦ omega (arith, x.requested, x.checked)
  ]
  | inr p ↦
      let none_left : valid_count C w s.pending ≡ 0 = rw p refl in
      omega (arith, x.requested, x.checked)
]

some_jobs : (a t : ℕ) → 0 < a → 0 < min a t ⊎ (t ≡ 0)
some_jobs a zero h = inr refl
some_jobs a (suc t) h = inl (omega arith)

minimum_searched :
    (dec : EncoderDecoder) (fast : Bool)
    → dec.minimum ≤ dec.required
    → dec.minimum ≤ search_object_count dec fast
minimum_searched dec true h = omega arith
minimum_searched dec mathlib.Core.Bool.false h = h

check_status-invalid_iff :
    (dec : EncoderDecoder) (found : ℕ)
    → dec.minimum ≤ dec.required
    → (check_status dec found ≡ invalid) ↔ (found < dec.minimum)
unfolding check_status
check_status-invalid_iff dec found h = ground arith

-- However the workers are scheduled: when none is left, they have found as many valid objects as
-- CheckChunk searches for, or all the valid objects of the chunk if these are less.
pub check_chunk_found :
    (C : Cluster) (w : C.World) (dec : EncoderDecoder) (job_count : ℕ) (cfg : ChunkConfig)
    (fast : Bool) (last : Search)
    → 0 < job_count
    → Runs (Step C w) (start dec job_count cfg fast) last
    → IsFinished last
    → last.found ≡ min (search_object_count dec fast) (valid_count C w cfg.objects)
check_chunk_found C w dec job_count cfg fast last h run fin =
    let total = search_object_count dec fast in
    let valid_total = valid_count C w cfg.objects in
    let jobs = min job_count total in
    finished_lem C w total valid_total jobs last (some_jobs job_count total h) fin (
      Runs-keep (Balance C w total valid_total jobs) (Step-Balance C w total valid_total jobs)
        (start dec job_count cfg fast) last run (start-Balance C w dec job_count cfg fast))

-- CheckChunk answers that a chunk with the right number of objects is invalid exactly when less of its
-- objects are valid than are needed to read it, fast or not, however its workers are scheduled.
pub check_chunk-invalid_iff :
    (C : Cluster) (w : C.World) (dec : EncoderDecoder) (job_count : ℕ) (cfg : ChunkConfig)
    (fast : Bool) (last : Search)
    → 0 < job_count
    → dec.minimum ≤ dec.required
    → dec.required ≡ length cfg.objects
    → Runs (Step C w) (start dec job_count cfg fast) last
    → IsFinished last
    → (check_chunk dec cfg last ≡ ok invalid) ↔ (valid_count C w cfg.objects < dec.minimum)
unfolding check_chunk
check_chunk-invalid_iff C w dec job_count cfg fast last h some_needed count run fin =
    let found = check_chunk_found C w dec job_count cfg fast last h run fin in
    let searched = minimum_searched dec fast some_needed in
    let decided = check_status-invalid_iff dec last.found some_needed in
    let same : (dec.required == length cfg.objects) ≡ true =
      (==_iff dec.required (length cfg.objects)).1 count in
    rw same (
      λ e. let less = decided.0 (ok-injective e) in omega (arith, found, searched),
      λ e. ap ok (decided.1 (omega (arith, found, searched))),
    )
