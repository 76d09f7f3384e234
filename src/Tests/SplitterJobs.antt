-- ===== src/Tests/SplitterJobs.antt =====
-- Check, Repair and Delete of the splitting pipeline of Tests.Splitter, and the steps of a small flow.
use stor.Base.{
  true, false, zero, suc, inl, inr, ℕ, ◌≡◌, refl, Bytes, List, [], ◌∷◌, none, Result, ok, err,
  arith, Runs, step, done, here, ◌+◌, ◌≤◌, step_count,
}
use stor.Cluster.Types.{Chunk}
use stor.Storage.Types.{CheckStatus, valid}
use stor.Pipeline.Types.{Error}
use stor.Pipeline.Workers.{put, new_stage, take_item, leave, succeed, send}
use stor.Pipeline.Flow.{start, feed, feed_end}
use stor.Pipeline.Flow.Progress.{flow_finishes}
use stor.Pipeline.Flow.Ending.{flow_work, flow_bounded}
use stor.Pipeline.Types.{incomplete}
use stor.Pipeline.SingleObject.{config_of}
use stor.Pipeline.Numbered.{Related}
use stor.Pipeline.Workers.Progress.{Answers}
use stor.Pipeline.Flow.{Stages, Flow, Step, IsFinished}
use stor.Pipeline.Splitter.Jobs.{
  Work, Jobs, JobStep, check_work, repair_work, delete_work, feed_index, move_job, end_indices,
  send_result, Checks, checked, start_jobs, Repairs, repaired, Deletes, deleted,
}
use stor.Pipeline.Splitter.Jobs.Checked.{splitter_check_lem}
use stor.Pipeline.Splitter.Jobs.Statuses.{worst}
use stor.Pipeline.Splitter.Jobs.Repaired.{IsRepaired, splitter_repair_lem, splitter_delete_lem}
use stor.Tests.Splitter.{list_storage, small_splitter, two_chunks, second_of}

-- What two goroutines have done with two chunks, the second of them first.
abbrev two_done : (K : Work) → K.World → K.Out → K.Out → Jobs K
two_done K w o o' = record (start_jobs K w [] 2) {
  stage = record (new_stage Chunk K.Out 2) { idle = 0 };
  next = 2;
  feeding = false;
  received = (0, o) ∷ (1, o') ∷ [];
}

two_jobs :
    (K : Work) (w w' w'' : K.World) (chunk chunk' : Chunk) (o o' : K.Out)
    → K.call chunk' w ≡ (ok o', w')
    → K.call chunk w' ≡ (ok o, w'')
    → Runs (JobStep K) (start_jobs K w (chunk ∷ chunk' ∷ []) 2) (two_done K w'' o o')
unfolding start_jobs
two_jobs K w w' w'' chunk chunk' o o' e f = step (feed_index refl refl) (
    step (feed_index refl refl) (
      step (move_job (take_item {idle = 1} refl here)) (
        step (move_job (succeed here e)) (
          step (end_indices refl refl) (
            step (send_result (send here)) (
              step (move_job (take_item {idle = 1} refl here)) (
                step (move_job (succeed here f)) (
                  step (send_result (send here)) (
                    step (move_job (leave {idle = 1} refl refl refl))
                      (step (move_job (leave {idle = 0} refl refl refl)) done))))))))))

abbrev first_of_two : List Chunk → Chunk
first_of_two (a ∷ chunks) = a
first_of_two [] = second_of []

small_check : Checks small_splitter two_chunks true [] (ok valid)
unfolding start_jobs
small_check =
    checked (omega arith)
      (two_jobs (check_work list_storage true []) tt tt tt (first_of_two two_chunks)
        (second_of two_chunks) false false refl refl)
      (record { none_idle = refl; none_busy = refl; none_made = refl }) refl

splitter_check_lem_example :
    ◌≡◌ {A = Result Error CheckStatus} (ok valid) (ok (worst (valid ∷ valid ∷ [])))
splitter_check_lem_example =
    splitter_check_lem small_splitter two_chunks (valid ∷ valid ∷ []) true [] (ok valid)
      (omega arith, omega arith) (refl, (refl, tt)) (omega arith) small_check

small_repair : Repairs small_splitter two_chunks [] two_chunks none []
unfolding start_jobs
small_repair =
    repaired (omega arith)
      (two_jobs (repair_work list_storage) [] [] [] (first_of_two two_chunks) (second_of two_chunks)
        (first_of_two two_chunks) (second_of two_chunks) refl refl)
      (record { none_idle = refl; none_busy = refl; none_made = refl }) refl refl refl

splitter_repair_lem_example : Related (IsRepaired list_storage) two_chunks two_chunks
splitter_repair_lem_example =
    splitter_repair_lem small_splitter two_chunks two_chunks [] [] (omega arith, omega arith)
      small_repair

small_delete : Deletes small_splitter two_chunks [] none []
unfolding start_jobs
small_delete =
    deleted (omega arith)
      (two_jobs (delete_work list_storage) [] [] [] (first_of_two two_chunks) (second_of two_chunks)
        tt tt refl refl)
      (record { none_idle = refl; none_busy = refl; none_made = refl }) refl refl

splitter_delete_lem_example :
    (v : List Bytes) × (v' : List Bytes) × (list_storage.delete_chunk
        (config_of (second_of two_chunks))
        v
      ≡ (ok tt, v'))
splitter_delete_lem_example =
    splitter_delete_lem small_splitter two_chunks [] [] 1 (second_of two_chunks)
      (omega arith, omega arith) small_delete refl

-- One stage doubles, the other refuses zero.
abbrev non_zero : ℕ → Result Error ℕ
non_zero zero = err incomplete
non_zero (suc n) = ok (suc n)

abbrev doubling : Stages
doubling = record {
  World = Unit {0};
  In = ℕ;
  Mid = ℕ;
  Out = ℕ;
  first = λ n u. (ok (n + n), u);
  second = λ n u. (non_zero n, u);
}

doubling_first-Answers : Answers doubling.first
doubling_first-Answers n u = inl (n + n, u, refl)

doubling_second-Answers : Answers doubling.second
doubling_second-Answers zero u = inr (incomplete, u, refl)
doubling_second-Answers (suc n) u = inl (suc n, u, refl)

abbrev small_flow : Flow doubling
small_flow = start doubling tt (0 ∷ 2 ∷ []) none 2 1

abbrev fed_flow : Flow doubling
fed_flow = record (start doubling tt [] none 2 1) {
  next = 2;
  feeding = false;
  one = put (1, 2) (put (0, 0) (new_stage ℕ ℕ 2));
}

small_run : Runs (Step doubling) small_flow fed_flow
unfolding start
small_run =
    step (feed refl refl (omega arith))
      (step (feed refl refl (omega arith)) (step (feed_end refl refl) done))

flow_bounded_example : step_count small_run + flow_work fed_flow ≤ flow_work small_flow
flow_bounded_example = flow_bounded doubling small_flow fed_flow small_run

flow_finishes_example :
    (last : Flow doubling) × Runs (Step doubling) fed_flow last × IsFinished last
flow_finishes_example =
    flow_finishes doubling tt (0 ∷ 2 ∷ []) none 2 1 fed_flow (omega arith) (omega arith)
      doubling_first-Answers doubling_second-Answers small_run
