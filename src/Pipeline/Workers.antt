-- ===== src/Pipeline/Workers.antt =====
-- client/datastor/pipeline/async_splitter.go: the goroutines of one stage, which take numbered items from
-- one channel and send what they make of them to another. A channel is the list of what waits in it and
-- its capacity; a goroutine may take any of it, which covers the order of the channel and more.
pub mod Counting
pub mod Items
pub mod Progress
use stor.Base.{ℕ, suc, ◌≡◌, List, [], ◌∷◌, Bool, true, Option, none, some, Result, ok, err, Pick}
use stor.Pipeline.Types.{Error}

-- What waits on the channel of a stage, how much can, how many of its goroutines wait for an item, the items that
-- others work on, what those have made that wait to send it, the first error of its errgroup, and
-- whether the goroutine that waits for the group still does.
pub record Stage (I O : Type 0) : Type 0 where
  pub pending : List (ℕ × I)
  pub capacity : ℕ
  pub idle : ℕ
  pub busy : List (ℕ × I)
  pub made : List (ℕ × O)
  pub error : Option Error
  pub is_open : Bool

-- The error of an errgroup is the first.
abbrev pub first_of : Option Error → Option Error → Option Error
first_of none e = e
first_of (some d) e = some d

-- A step inside a stage whose goroutines call `work`. `closed` says that its channel is closed, and
-- `cancelled` that the context is.
pub data Move {I O W : Type 0} (work : I → W → Result Error O × W) (closed cancelled : Bool) (w : W)
    (s : Stage I O) : W → Stage I O → Type 0 where
  -- `for item := range channel`
  take_item :
      {x : ℕ × I} {pending : List (ℕ × I)} {idle : ℕ}
      → s.idle ≡ suc idle
      → Pick x s.pending pending
      → Move work closed cancelled w s w
          (record s { pending = pending; idle = idle; busy = x ∷ s.busy })
  -- the channel is closed and empty
  leave :
      {idle : ℕ}
      → s.idle ≡ suc idle
      → closed ≡ true
      → s.pending ≡ []
      → Move work closed cancelled w s w (record s { idle = idle })
  succeed :
      {x : ℕ × I} {busy : List (ℕ × I)} {o : O} {w' : W}
      → Pick x s.busy busy
      → work x.1 w ≡ (ok o, w')
      → Move work closed cancelled w s w' (record s { busy = busy; made = (x.0, o) ∷ s.made })
  -- `return err`
  fail :
      {x : ℕ × I} {busy : List (ℕ × I)} {e : Error} {w' : W}
      → Pick x s.busy busy
      → work x.1 w ≡ (err e, w')
      → Move work closed cancelled w s w'
          (record s { busy = busy; error = first_of s.error (some e) })
  -- `case <-ctx.Done()`
  give_up :
      {y : ℕ × O} {made : List (ℕ × O)}
      → cancelled ≡ true
      → Pick y s.made made
      → Move work closed cancelled w s w (record s { made = made })

-- A goroutine sends what it has made, and waits for another item.
pub data Send {I O : Type 0} (s : Stage I O) : ℕ × O → Stage I O → Type 0 where
  send :
      {y : ℕ × O} {made : List (ℕ × O)}
      → Pick y s.made made
      → Send s y (record s { made = made; idle = suc s.idle })

-- `Wait` returns when the last goroutine has.
pub record IsDrained {I O : Type 0} (s : Stage I O) : Type 0 where
  pub none_idle : s.idle ≡ 0
  pub none_busy : s.busy ≡ []
  pub none_made : s.made ≡ []

abbrev pub put : {I O : Type 0} → ℕ × I → Stage I O → Stage I O
put x s = record s { pending = x ∷ s.pending }

abbrev pub new_stage : (I O : Type 0) → ℕ → Stage I O
new_stage I O jobs = record {
  pending = [];
  capacity = jobs;
  idle = jobs;
  busy = [];
  made = [];
  error = none;
  is_open = true;
}
