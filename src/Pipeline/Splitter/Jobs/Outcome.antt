-- ===== src/Pipeline/Splitter/Jobs/Outcome.antt =====
-- client/datastor/pipeline/async_splitter.go: what the goroutines of Check, Repair and Delete have done when
-- they have returned.
use stor.Base.{
  false_of_not, true-ne-false, some-injective, none-ne-some, Option-cases, ℕ, ◌+◌, ◌<◌, ◌≡◌, ◌⊎◌,
  inl, inr, refl, ap, ◌∙◌, List, Bool, false, not, ◌&&◌, ltb, if◌then◌else◌, none, some, length,
  drop, drop-cons, ok, err, All, All-Pick, Runs, Runs-keep, arith,
}
use stor.Cluster.Types.{Chunk}
use stor.Pipeline.Types.{Error}
use stor.Pipeline.Workers.{Stage, Move, take_item, leave, succeed, fail, give_up, IsDrained}
use stor.Pipeline.Workers.Counting.{
  Move-clean, count, held_as, held, workers, Move-Kept, Send-Gave, held_as-zero,
}
use stor.Pipeline.Workers.Items.{Holds, Move-Holds, Send-Holds}
use stor.Pipeline.Flow.Items.{IsItem}
use stor.Pipeline.Flow.Counts.{workers_step, drained-held}
use stor.Pipeline.Splitter.Jobs.{
  Work, Jobs, is_cancelled, JobStep, feed_index, end_indices, stop_indices, move_job, send_result,
  start_jobs,
}

-- The call on the chunk of the index has given the result.
abbrev pub Answered : (K : Work) → List Chunk → ℕ × K.Out → Type 0
Answered K chunks y =
    (chunk : Chunk) × IsItem chunks (y.0, chunk)
    × (w : K.World) × (w' : K.World) × (K.call chunk w ≡ (ok y.1, w'))

-- A call on one of the chunks has given the error.
abbrev pub Failed : (K : Work) → List Chunk → Error → Type 0
Failed K chunks e =
    (i : ℕ) × (chunk : Chunk) × IsItem chunks (i, chunk)
    × (w : K.World) × (w' : K.World) × (K.call chunk w ≡ (err e, w'))

not_cancelled : {K : Work} (s : Jobs K) → s.stage.error ≡ none → is_cancelled s ≡ false
not_cancelled s e = rw e refl

not_cancelled_and :
    {K : Work} (s : Jobs K) → s.stage.error ≡ none → (is_cancelled s && K.gives_up) ≡ false
not_cancelled_and s e = rw e refl

module _ (K : Work) (chunks : List Chunk) where
  record IsKnown (s : Jobs K) : Type 0 where
    left : drop s.next chunks ≡ s.source
    items : Holds (IsItem chunks) (Answered K chunks) s.stage
    results : All (Answered K chunks) s.received
    failed : (e : Error) → s.stage.error ≡ some e → Failed K chunks e

  Move-Failed :
      (closed cancelled : Bool) (w w' : K.World) (s t : Stage Chunk K.Out)
      → Move K.call closed cancelled w s w' t
      → Holds (IsItem chunks) (Answered K chunks) s
      → ((e : Error) → s.error ≡ some e → Failed K chunks e)
      → (e : Error) → t.error ≡ some e
      → Failed K chunks e
  Move-Failed closed cancelled w w' s t (take_item a c) h f = f
  Move-Failed closed cancelled w w' s t (leave a c p) h f = f
  Move-Failed closed cancelled w w' s t (succeed c a) h f = f
  Move-Failed closed cancelled w w' s t (fail {x = x} {busy = busy} {e = d} c a) h f =
      let found : Failed K chunks d =
        (x.0, x.1, (All-Pick (IsItem chunks) x s.busy busy c h.busy_items).0, w, w', a) in
      λ e n. elim (Option-cases s.error) [
        | inl no_error ↦ rw (some-injective (rw no_error at n)) at found
        | inr (d', first) ↦ f e (first ∙ rw first at n)
      ]
  Move-Failed closed cancelled w w' s t (give_up c p) h f = f

  Step-IsKnown : (a b : Jobs K) → JobStep K a b → IsKnown a → IsKnown b
  Step-IsKnown a b (feed_index {x = x} {source = source} e f) h =
      let cut = drop-cons a.next chunks x source (h.left ∙ f) in
      record {
        left = cut.1;
        items = record {
          pending_items = (cut.0, h.items.pending_items);
          busy_items = h.items.busy_items;
          made_items = h.items.made_items;
        };
        results = h.results;
        failed = h.failed;
      }
  Step-IsKnown a b (end_indices e f) h = record {
    left = h.left;
    items = h.items;
    results = h.results;
    failed = h.failed;
  }
  Step-IsKnown a b (stop_indices e f) h = record {
    left = h.left;
    items = h.items;
    results = h.results;
    failed = h.failed;
  }
  Step-IsKnown a b (move_job {w = w} {stage = t} m) h = record {
    left = h.left;
    items =
        Move-Holds K.call (not a.feeding) (is_cancelled a && K.gives_up) (λ _. IsItem chunks)
          (λ _. Answered K chunks) (λ x o v v' item e. (x.1, item, v, v', e))
          (λ x r v v' e. (λ z p. p, λ z p. p)) a.world w a.stage t m h.items;
    results = h.results;
    failed =
        Move-Failed (not a.feeding) (is_cancelled a && K.gives_up) a.world w a.stage t m h.items
          h.failed;
  }
  Step-IsKnown a b (send_result {y = y} {stage = t} m) h =
      let sent = Send-Holds (IsItem chunks) (Answered K chunks) a.stage t y m h.items in
      record {
        left = h.left;
        items = sent.1;
        results = (sent.0, h.results);
        failed = λ e f. h.failed e ((Send-Gave a.stage t y m).error_kept ∙ f);
      }

  record IsCounted (jobs : ℕ) (s : Jobs K) : Type 0 where
    numbered : s.next + length s.source ≡ length chunks
    fed : s.feeding ≡ false → length s.source ≡ 0
    counts : (i : ℕ) → count i s.received + held_as i s.stage ≡ (if ltb i s.next then 1 else 0)
    lengths : length s.received + held s.stage ≡ s.next
    goroutines : (workers s.stage ≡ jobs) ⊎ ((s.feeding ≡ false) × (length s.stage.pending ≡ 0))

  Step-IsClean : (a b : Jobs K) → JobStep K a b → b.stage.error ≡ none → a.stage.error ≡ none
  Step-IsClean a b (feed_index e f) c = c
  Step-IsClean a b (end_indices e f) c = c
  Step-IsClean a b (stop_indices e f) c = c
  Step-IsClean a b (move_job {w = w} {stage = t} m) c =
      Move-clean K.call (not a.feeding) (is_cancelled a && K.gives_up) a.world w a.stage t m c
  Step-IsClean a b (send_result {y = y} {stage = t} m) c = (Send-Gave a.stage t y m).error_kept ∙ c

  module _ (jobs : ℕ) (some_job : 0 < jobs) where
    Step-IsCounted :
        (a b : Jobs K) → JobStep K a b → b.stage.error ≡ none → IsCounted jobs a → IsCounted jobs b
    Step-IsCounted a b (feed_index {source = source} e f) c h = record {
      numbered = omega (arith, h.numbered, ap length f);
      fed = λ k. absurd (true-ne-false a.feeding e k);
      counts = λ i. ground (arith, h.counts i);
      lengths = omega (arith, h.lengths);
      goroutines = elim h.goroutines [
        | inl k ↦ inl k
        | inr (k, p) ↦ absurd (true-ne-false a.feeding e k)
      ];
    }
    Step-IsCounted a b (end_indices e f) c h = record {
      numbered = h.numbered;
      fed = λ k. ap length f;
      counts = h.counts;
      lengths = h.lengths;
      goroutines = elim h.goroutines [ inl k ↦ inl k | inr (k, p) ↦ inr (refl, p) ];
    }
    Step-IsCounted a b (stop_indices e f) c h =
        absurd (true-ne-false (is_cancelled a) f (not_cancelled a c))
    Step-IsCounted a b (move_job {w = w} {stage = t} m) c h =
        let clean = Step-IsClean a b (move_job m) c in
        let k =
          Move-Kept K.call (not a.feeding) (is_cancelled a && K.gives_up)
            (not_cancelled_and a clean) a.world w a.stage t m c in
        record {
          numbered = h.numbered;
          fed = h.fed;
          counts = λ i. omega (arith, h.counts i, k.held_as_kept i);
          lengths = omega (arith, h.lengths, k.held_kept);
          goroutines =
              workers_step k.workers_kept (false_of_not a.feeding) k.pending_kept h.goroutines;
        }
    Step-IsCounted a b (send_result {y = y} {stage = t} m) c h =
        let k = Send-Gave a.stage t y m in
        record {
          numbered = h.numbered;
          fed = h.fed;
          counts = λ i. omega (arith, h.counts i, k.held_as_kept i);
          lengths = omega (arith, h.lengths, k.held_kept);
          goroutines = elim h.goroutines [
            | inl e ↦ inl (k.workers_kept ∙ e)
            | inr (f, p) ↦ inr (f, ap length k.pending_kept ∙ p)
          ];
        }

    module _ (w : K.World) (last : Jobs K)
        (run : Runs (JobStep K) (start_jobs K w chunks jobs) last) where
      known : IsKnown last
      unfolding start_jobs
      known = Runs-keep IsKnown Step-IsKnown (start_jobs K w chunks jobs) last run (record {
        left = refl;
        items = record { pending_items = tt; busy_items = tt; made_items = tt };
        results = tt;
        failed = λ e f. absurd (none-ne-some f);
      })

      counted : last.stage.error ≡ none → IsCounted jobs last
      unfolding start_jobs
      counted c =
          Runs-keep (λ s. s.stage.error ≡ none → IsCounted jobs s)
            (λ a b s k d. Step-IsCounted a b s d (k (Step-IsClean a b s d)))
            (start_jobs K w chunks jobs) last run
            (λ _. record {
              numbered = omega arith;
              fed = λ k. absurd cc;
              counts = λ i. ground arith;
              lengths = refl;
              goroutines = inl (omega arith);
            })
            c

      -- An error is that of a call.
      pub jobs-Failed : (e : Error) → last.stage.error ≡ some e → Failed K chunks e
      jobs-Failed = known.failed

      -- Without an error, there is one result for each chunk, and it is that of a call on the chunk.
      pub jobs_succeeded :
          IsDrained last.stage
          → last.stage.error ≡ none
          → All (Answered K chunks) last.received
            × (length last.received ≡ length chunks)
            × ((i : ℕ) → count i last.received ≡ (if ltb i (length chunks) then 1 else 0))
      jobs_succeeded end c =
          let h = counted c in
          let (fed, empty) = drained-held jobs last.stage some_job end h.goroutines in
          let next : last.next ≡ length chunks = omega (arith, h.numbered, h.fed fed) in
          (
            known.results,
            omega (arith, h.lengths, empty, next),
            λ i.
                let now : count i last.received ≡ (if ltb i last.next then 1 else 0) =
                  omega (arith, h.counts i, held_as-zero i last.stage empty) in
                rw next at now,
          )
