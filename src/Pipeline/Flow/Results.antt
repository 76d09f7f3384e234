-- ===== src/Pipeline/Flow/Results.antt =====
-- client/datastor/pipeline/async_splitter.go: what Write and Read have received when they return.
use stor.Base.{
  sym, ℕ, ◌<◌, ◌≡◌, refl, ◌∙◌, List, Option, none, if◌then◌else◌, ltb, length, All, Runs, Runs-keep,
  arith,
}
use stor.Pipeline.Types.{Error}
use stor.Pipeline.Workers.Counting.{count, held_as-zero}
use stor.Pipeline.Flow.{Stages, Flow, Step, start, IsFinished}
use stor.Pipeline.Flow.Counts.{start-IsBalanced, Runs-IsBalanced}
use stor.Pipeline.Flow.Items.{Contract, IsItem, Runs-IsSound, start-IsSound}
use stor.Pipeline.Flow.Clean.{Step-failure}
use stor.Pipeline.Flow.Closed.{finished-IsClean}

-- Every item has arrived once, and is what the stages make of it.
pub record Complete (S : Stages) (n : ℕ) (Done : S.World → ℕ × S.Out → Type 0)
    (failure : Option Error) (last : Flow S) : Type 0 where
  pub no_failure : failure ≡ none
  pub all_done : All (Done last.world) last.received
  pub all_received : length last.received ≡ n
  pub once : (i : ℕ) → count i last.received ≡ (if ltb i n then 1 else 0)

module _ (S : Stages) (items : List S.In) (Halfway : S.World → ℕ × S.Mid → Type 0)
    (Done : S.World → ℕ × S.Out → Type 0) (contract : Contract S (IsItem items) Halfway Done)
    (w : S.World) (failure : Option Error) (jobs_one jobs_two : ℕ) (some_one : 0 < jobs_one)
    (some_two : 0 < jobs_two) (last : Flow S)
    (run : Runs (Step S) (start S w items failure jobs_one jobs_two) last) (end : IsFinished last)
    (e : last.error ≡ none) where
  same_failure : last.failure ≡ failure
  unfolding start
  same_failure =
      Runs-keep (λ (s : Flow S). s.failure ≡ failure) (λ a b s h. Step-failure S a b s ∙ h)
        (start S w items failure jobs_one jobs_two) last run refl

  pub finished-Complete : Complete S (length items) Done failure last
  finished-Complete =
      let first_state = start S w items failure jobs_one jobs_two in
      let h =
        Runs-IsBalanced S (length items) jobs_one jobs_two some_one some_two first_state last run
          (start-IsBalanced S (length items) jobs_one jobs_two some_one some_two w items failure
            refl)
          (finished-IsClean S w items failure jobs_one jobs_two last run end e) in
      let (no_source, no_failure) = h.fed end.feeding in
      let (shut, none_two) = h.closed_two end.two in
      let (fed, none_one) = h.closed_one end.one in
      let next : last.next ≡ length items = omega (arith, h.numbered, no_source) in
      record {
        no_failure = sym same_failure ∙ no_failure;
        all_done =
            (Runs-IsSound S items Halfway Done contract first_state last run
              (start-IsSound S items Halfway Done w failure jobs_one jobs_two)).received_items;
        all_received = omega (arith, h.lengths, none_one, none_two, next);
        once = λ i.
            let zero_one = held_as-zero i last.one none_one in
            let zero_two = held_as-zero i last.two none_two in
            let now : count i last.received ≡ (if ltb i last.next then 1 else 0) =
              omega (arith, h.counts i, zero_one, zero_two) in
            rw next at now;
      }
