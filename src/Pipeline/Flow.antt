-- ===== src/Pipeline/Flow.antt =====
-- client/datastor/pipeline/async_splitter.go: what Write and Read have in common. A goroutine numbers the
-- items of a source, two stages work on them one after another, and one goroutine receives the results.
-- Every stage has a channel that holds as many items as the stage has goroutines; the goroutine that receives
-- the results always takes what is sent.
-- An error of a stage reaches the group, which cancels the context, when Wait of the stage returns.
pub mod Errors
pub mod Counts
pub mod Items
pub mod Clean
pub mod Ending
pub mod Live
pub mod Progress
pub mod Closed
pub mod Results
use stor.Base.{
  ◌<◌, length, ℕ, zero, suc, ◌≡◌, List, [], ◌∷◌, Bool, true, false, not, Option, none, some, Result,
  Runs,
}
use stor.Pipeline.Types.{Error}
use stor.Pipeline.Workers.{Stage, first_of, Move, Send, IsDrained, put, new_stage}

-- The two stages: processing and storing for Write, loading and processing for Read.
pub record Stages : Type 1 where
  pub World : Type 0
  pub In : Type 0
  pub Mid : Type 0
  pub Out : Type 0
  pub first : In → World → Result Error Mid × World
  pub second : Mid → World → Result Error Out × World

-- `next` is the number of the next item, `feeding` says that the goroutine that numbers them has not
-- returned, and `failure` is what its source ends with. `error` is the first error of the group.
pub record Flow (S : Stages) : Type 0 where
  pub world : S.World
  pub source : List S.In
  pub failure : Option Error
  pub next : ℕ
  pub feeding : Bool
  pub one : Stage S.In S.Mid
  pub two : Stage S.Mid S.Out
  pub received : List (ℕ × S.Out)
  pub error : Option Error

abbrev pub is_some : {A : Type 0} → Option A → Bool
is_some none = false
is_some (some a) = true

pub data Step (S : Stages) (s : Flow S) : Flow S → Type 0 where
  -- `inputCh <- indexedDataChunk{index, data}`, which waits while the channel is full
  feed :
      {x : S.In} {source : List S.In}
      → s.feeding ≡ true
      → s.source ≡ x ∷ source
      → length s.one.pending < s.one.capacity
      → Step S s (record s { source = source; next = suc s.next; one = put (s.next, x) s.one })
  -- the end of the source, which may be an error
  feed_end :
      s.feeding ≡ true
      → s.source ≡ []
      → Step S s (record s { feeding = false; error = first_of s.error s.failure })
  -- `case <-ctx.Done()`
  feed_stop : s.feeding ≡ true → is_some s.error ≡ true → Step S s (record s { feeding = false })
  move_one :
      {w : S.World} {one : Stage S.In S.Mid}
      → Move S.first (not s.feeding) (is_some s.error) s.world s.one w one
      → Step S s (record s { world = w; one = one })
  send_one :
      {y : ℕ × S.Mid} {one : Stage S.In S.Mid}
      → Send s.one y one
      → length s.two.pending < s.two.capacity
      → Step S s (record s { one = one; two = put y s.two })
  -- `err := group.Wait(); close(channel); return err`
  close_one :
      s.one.is_open ≡ true
      → IsDrained s.one
      → Step S s (record s {
        one = record s.one { is_open = false };
        error = first_of s.error s.one.error;
      })
  move_two :
      {w : S.World} {two : Stage S.Mid S.Out}
      → Move S.second (not s.one.is_open) (is_some s.error) s.world s.two w two
      → Step S s (record s { world = w; two = two })
  send_two :
      {y : ℕ × S.Out} {two : Stage S.Mid S.Out}
      → Send s.two y two
      → Step S s (record s { two = two; received = y ∷ s.received })
  close_two :
      s.two.is_open ≡ true
      → IsDrained s.two
      → Step S s (record s {
        two = record s.two { is_open = false };
        error = first_of s.error s.two.error;
      })

unfoldable pub start : (S : Stages) → S.World → List S.In → Option Error → ℕ → ℕ → Flow S
start S w source failure jobs_one jobs_two = record {
  world = w;
  source = source;
  failure = failure;
  next = 0;
  feeding = true;
  one = new_stage S.In S.Mid jobs_one;
  two = new_stage S.Mid S.Out jobs_two;
  received = [];
  error = none;
}

-- `group.Wait()` returns
pub record IsFinished {S : Stages} (s : Flow S) : Type 0 where
  pub feeding : s.feeding ≡ false
  pub one : s.one.is_open ≡ false
  pub two : s.two.is_open ≡ false
