-- ===== src/Pipeline/Flow/Ending.antt =====
-- client/datastor/pipeline/async_splitter.go: the goroutines of Write and Read return.
use stor.Base.{
  ℕ, ◌+◌, ◌*◌, ◌<◌, ◌≤◌, ◌≡◌, ap, Bool, true, false, not, if◌then◌else◌, length, arith, Runs,
  Runs-bounded, step_count,
}
use stor.Pipeline.Workers.Counting.{held}
use stor.Pipeline.Workers.Progress.{stage_work, Move-stage_work, Send-stage_work}
use stor.Pipeline.Flow.{
  Stages, Flow, is_some, Step, feed, feed_end, feed_stop, move_one, send_one, close_one, move_two,
  send_two, close_two,
}

abbrev pub bit : Bool → ℕ
bit b = if b then 1 else 0

-- A bound on the number of steps that are left.
unfoldable pub flow_work : {S : Stages} → Flow S → ℕ
flow_work s =
    7 * length s.source
    + 3 * held s.one
    + stage_work s.one
    + stage_work s.two
    + bit s.feeding
    + bit s.one.is_open
    + bit s.two.is_open

shut_bit : (b : Bool) → b ≡ true → 0 < bit b
shut_bit true h = omega arith
shut_bit false h = absurd cc

module _ (S : Stages) where
  pub Step-flow_work : (a b : Flow S) → Step S a b → flow_work b < flow_work a
  unfolding flow_work
  Step-flow_work a b (feed e f room) = omega (arith, ap length f)
  Step-flow_work a b (feed_end e f) = omega (arith, shut_bit a.feeding e)
  Step-flow_work a b (feed_stop e f) = omega (arith, shut_bit a.feeding e)
  Step-flow_work a b (move_one {w = w} {one = t} m) =
      let k = Move-stage_work S.first (not a.feeding) (is_some a.error) a.world w a.one t m in
      omega (arith, k.0, k.1, ap bit k.2)
  Step-flow_work a b (send_one {y = y} {one = t} m room) =
      let k = Send-stage_work a.one t y m in omega (arith, k.0, k.1, ap bit k.2)
  Step-flow_work a b (close_one e d) = omega (arith, shut_bit a.one.is_open e)
  Step-flow_work a b (move_two {w = w} {two = t} m) =
      let k = Move-stage_work S.second (not a.one.is_open) (is_some a.error) a.world w a.two t m in
      omega (arith, k.0, k.1, ap bit k.2)
  Step-flow_work a b (send_two {y = y} {two = t} m) =
      let k = Send-stage_work a.two t y m in omega (arith, k.0, k.1, ap bit k.2)
  Step-flow_work a b (close_two e d) = omega (arith, shut_bit a.two.is_open e)

  -- A run of the goroutines of Write or Read makes no more steps than flow_work of its first state, less
  -- flow_work of its last.
  pub flow_bounded :
      (a b : Flow S) (run : Runs (Step S) a b) → step_count run + flow_work b ≤ flow_work a
  flow_bounded a b run = Runs-bounded (Step S) flow_work Step-flow_work a b run
