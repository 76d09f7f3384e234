-- ===== src/Pipeline/Flow/Counts.antt =====
-- client/datastor/pipeline/async_splitter.go: where the items of Write and Read are.
use stor.Base.{
  false_of_not, true-ne-false, sym, ◌∙◌, ◌≤◌, ℕ, ◌+◌, ◌<◌, ◌≡◌, ◌⊎◌, inl, inr, refl, ap, List,
  false, not, Option, none, if◌then◌else◌, ltb, length, Runs, Runs-keep, arith,
}
use stor.Pipeline.Types.{Error}
use stor.Pipeline.Workers.{Stage, IsDrained}
use stor.Pipeline.Workers.Counting.{
  count, held_as, held, workers, first_of-none, Move-Kept, Send-Gave,
}
use stor.Pipeline.Flow.{
  close_two, send_two, move_two, close_one, send_one, move_one, feed_stop, feed_end, feed, Stages,
  Flow, is_some, Step, start,
}
use stor.Pipeline.Flow.Errors.{IsClean, Step-IsClean, not_some}

-- Every item has been numbered once and is in one place, while nothing has failed.
pub record IsBalanced {S : Stages} (total jobs_one jobs_two : ℕ) (s : Flow S) : Type 0 where
  pub numbered : s.next + length s.source ≡ total
  pub fed : s.feeding ≡ false → (length s.source ≡ 0) × (s.failure ≡ none)
  pub counts :
      (i : ℕ)
      → count i s.received + held_as i s.one + held_as i s.two ≡ (if ltb i s.next then 1 else 0)
  pub lengths : length s.received + held s.one + held s.two ≡ s.next
  pub workers_one : (workers s.one ≡ jobs_one) ⊎ ((s.feeding ≡ false) × (length s.one.pending ≡ 0))
  pub closed_one : s.one.is_open ≡ false → (s.feeding ≡ false) × (held s.one ≡ 0)
  pub workers_two :
      (workers s.two ≡ jobs_two) ⊎ ((s.one.is_open ≡ false) × (length s.two.pending ≡ 0))
  pub closed_two : s.two.is_open ≡ false → (s.one.is_open ≡ false) × (held s.two ≡ 0)

drained-workers : {I O : Type 0} (s : Stage I O) → IsDrained s → workers s ≡ 0
drained-workers s d = omega (arith, d.none_idle, ap length d.none_busy, ap length d.none_made)

-- The goroutines of a stage after a step: all of them, or no more items can come.
pub workers_step :
    {closed P : Type 0} {w w' jobs pending pending' : ℕ}
    → (w' ≡ w) ⊎ (closed × (pending' ≡ 0))
    → (closed → P)
    → pending' ≤ pending
    → (w ≡ jobs) ⊎ (P × (pending ≡ 0))
    → (w' ≡ jobs) ⊎ (P × (pending' ≡ 0))
workers_step (inr (c, p)) f le h = inr (f c, p)
workers_step (inl e) f le (inl k) = inl (e ∙ k)
workers_step (inl e) f le (inr (x, p)) = inr (x, omega arith)

pub drained-held :
    {I O : Type 0} {P : Type 0} (jobs : ℕ) (s : Stage I O)
    → 0 < jobs
    → IsDrained s
    → (workers s ≡ jobs) ⊎ (P × (length s.pending ≡ 0))
    → P × (held s ≡ 0)
drained-held jobs s some d (inl e) = absurd (omega (arith, drained-workers s d))
drained-held jobs s some d (inr (x, p)) = (x, omega (arith, drained-workers s d))

module _ (S : Stages) where
  module _ (total jobs_one jobs_two : ℕ) (some_one : 0 < jobs_one) (some_two : 0 < jobs_two) where
    Step-IsBalanced :
        (a b : Flow S)
        → Step S a b
        → IsClean b
        → IsBalanced total jobs_one jobs_two a
        → IsBalanced total jobs_one jobs_two b
    Step-IsBalanced a b (feed {source = source} e f room) c h = record {
      numbered = omega (arith, h.numbered, ap length f);
      fed = λ k. absurd (true-ne-false a.feeding e k);
      counts = λ i. ground (arith, h.counts i);
      lengths = omega (arith, h.lengths);
      workers_one = elim h.workers_one [
        | inl k ↦ inl k
        | inr (k, p) ↦ absurd (true-ne-false a.feeding e k)
      ];
      closed_one = λ k. absurd (true-ne-false a.feeding e (h.closed_one k).0);
      workers_two = h.workers_two;
      closed_two = h.closed_two;
    }
    Step-IsBalanced a b (feed_end e f) c h = record {
      numbered = h.numbered;
      fed = λ k. (ap length f, (first_of-none a.error a.failure c.flow_error).1);
      counts = h.counts;
      lengths = h.lengths;
      workers_one = elim h.workers_one [ inl k ↦ inl k | inr (k, p) ↦ inr (refl, p) ];
      closed_one = λ k. (refl, (h.closed_one k).1);
      workers_two = h.workers_two;
      closed_two = h.closed_two;
    }
    Step-IsBalanced a b (feed_stop e f) c h =
        absurd (true-ne-false (is_some a.error) f (not_some a.error c.flow_error))
    Step-IsBalanced a b (move_one {w = w} {one = t} m) c h =
        let k =
          Move-Kept S.first (not a.feeding) (is_some a.error) (not_some a.error c.flow_error)
            a.world w a.one t m c.one_error in
        record {
          numbered = h.numbered;
          fed = h.fed;
          counts = λ i. omega (arith, h.counts i, k.held_as_kept i);
          lengths = omega (arith, h.lengths, k.held_kept);
          workers_one =
              workers_step k.workers_kept (false_of_not a.feeding) k.pending_kept h.workers_one;
          closed_one = λ shut.
              let was = h.closed_one (sym k.is_open_kept ∙ shut) in (was.0, k.held_kept ∙ was.1);
          workers_two = elim h.workers_two [
            | inl e ↦ inl e
            | inr (shut, p) ↦ inr (k.is_open_kept ∙ shut, p)
          ];
          closed_two = λ shut. let was = h.closed_two shut in (k.is_open_kept ∙ was.0, was.1);
        }
    Step-IsBalanced a b (send_one {y = y} {one = t} m room) c h =
        let k = Send-Gave a.one t y m in
        record {
          numbered = h.numbered;
          fed = h.fed;
          counts = λ i. omega (arith, h.counts i, k.held_as_kept i);
          lengths = omega (arith, h.lengths, k.held_kept);
          workers_one = elim h.workers_one [
            | inl e ↦ inl (k.workers_kept ∙ e)
            | inr (f, p) ↦ inr (f, ap length k.pending_kept ∙ p)
          ];
          closed_one = λ shut.
              absurd (omega (arith, k.held_kept, (h.closed_one (sym k.is_open_kept ∙ shut)).1));
          workers_two = elim h.workers_two [
            | inl e ↦ inl e
            | inr (shut, p) ↦ absurd (omega (arith, k.held_kept, (h.closed_one shut).1))
          ];
          closed_two =
              λ shut. absurd (omega (arith, k.held_kept, (h.closed_one (h.closed_two shut).0).1));
        }
    Step-IsBalanced a b (close_one e d) c h =
        let all = drained-held jobs_one a.one some_one d h.workers_one in
        record {
          numbered = h.numbered;
          fed = h.fed;
          counts = h.counts;
          lengths = h.lengths;
          workers_one = h.workers_one;
          closed_one = λ _. all;
          workers_two = elim h.workers_two [ inl k ↦ inl k | inr (k, p) ↦ inr (refl, p) ];
          closed_two = λ shut. (refl, (h.closed_two shut).1);
        }
    Step-IsBalanced a b (move_two {w = w} {two = t} m) c h =
        let k =
          Move-Kept S.second (not a.one.is_open) (is_some a.error) (not_some a.error c.flow_error)
            a.world w a.two t m c.two_error in
        record {
          numbered = h.numbered;
          fed = h.fed;
          counts = λ i. omega (arith, h.counts i, k.held_as_kept i);
          lengths = omega (arith, h.lengths, k.held_kept);
          workers_one = h.workers_one;
          closed_one = h.closed_one;
          workers_two =
              workers_step k.workers_kept (false_of_not a.one.is_open) k.pending_kept h.workers_two;
          closed_two = λ shut.
              let was = h.closed_two (sym k.is_open_kept ∙ shut) in (was.0, k.held_kept ∙ was.1);
        }
    Step-IsBalanced a b (send_two {y = y} {two = t} m) c h =
        let k = Send-Gave a.two t y m in
        record {
          numbered = h.numbered;
          fed = h.fed;
          counts = λ i. omega (arith, h.counts i, k.held_as_kept i);
          lengths = omega (arith, h.lengths, k.held_kept);
          workers_one = h.workers_one;
          closed_one = h.closed_one;
          workers_two = elim h.workers_two [
            | inl e ↦ inl (k.workers_kept ∙ e)
            | inr (f, p) ↦ inr (f, ap length k.pending_kept ∙ p)
          ];
          closed_two = λ shut.
              absurd (omega (arith, k.held_kept, (h.closed_two (sym k.is_open_kept ∙ shut)).1));
        }
    Step-IsBalanced a b (close_two e d) c h = record {
      numbered = h.numbered;
      fed = h.fed;
      counts = h.counts;
      lengths = h.lengths;
      workers_one = h.workers_one;
      closed_one = h.closed_one;
      workers_two = h.workers_two;
      closed_two = λ _. drained-held jobs_two a.two some_two d h.workers_two;
    }

    pub start-IsBalanced :
        (w : S.World) (source : List S.In) (failure : Option Error)
        → length source ≡ total
        → IsBalanced total jobs_one jobs_two (start S w source failure jobs_one jobs_two)
    unfolding start
    start-IsBalanced w source failure e = record {
      numbered = omega arith;
      fed = λ k. absurd cc;
      counts = λ i. ground arith;
      lengths = refl;
      workers_one = inl (omega arith);
      closed_one = λ k. absurd cc;
      workers_two = inl (omega arith);
      closed_two = λ k. absurd cc;
    }

    pub Runs-IsBalanced :
        (a b : Flow S)
        → Runs (Step S) a b
        → IsBalanced total jobs_one jobs_two a
        → IsClean b
        → IsBalanced total jobs_one jobs_two b
    Runs-IsBalanced a b run h c =
        Runs-keep (λ s. IsClean s → IsBalanced total jobs_one jobs_two s)
          (λ x y s k d. Step-IsBalanced x y s d (k (Step-IsClean S x y s d))) a b run (λ _. h) c
