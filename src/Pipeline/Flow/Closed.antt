-- ===== src/Pipeline/Flow/Closed.antt =====
-- client/datastor/pipeline/async_splitter.go: when Wait of a stage has returned.
use stor.Base.{
  ◌∙◌, ℕ, ◌≡◌, refl, sym, ap, List, Bool, false, not, Option, none, Result, length, length-Pick,
  Runs, Runs-keep, arith,
}
use stor.Pipeline.Types.{Error}
use stor.Pipeline.Workers.{
  first_of, put, put, Stage, Move, take_item, leave, succeed, fail, give_up, Send, send, IsDrained,
}
use stor.Pipeline.Workers.Counting.{first_of-none}
use stor.Pipeline.Flow.{
  put, Stages, Flow, is_some, Step, start, IsFinished, feed, feed_end, feed_stop, move_one,
  send_one, close_one, move_two, send_two, close_two,
}
use stor.Pipeline.Flow.Errors.{IsClean}

-- No goroutine of a drained stage does anything.
drained-Move :
    {I O W : Type 0} (work : I → W → Result Error O × W) (closed cancelled : Bool) (w w' : W)
    (s t : Stage I O)
    → IsDrained s
    → Move work closed cancelled w s w' t
    → ⊥
drained-Move work closed cancelled w w' s t d (take_item e c) = omega (arith, d.none_idle, e)
drained-Move work closed cancelled w w' s t d (leave e c p) = omega (arith, d.none_idle, e)
drained-Move work closed cancelled w w' s t d (succeed {x = x} {busy = busy} c e) =
    omega (arith, ap length d.none_busy, length-Pick x s.busy busy c)
drained-Move work closed cancelled w w' s t d (fail {x = x} {busy = busy} c e) =
    omega (arith, ap length d.none_busy, length-Pick x s.busy busy c)
drained-Move work closed cancelled w w' s t d (give_up {y = y} {made = made} c p) =
    omega (arith, ap length d.none_made, length-Pick y s.made made p)

drained-Send : {I O : Type 0} (s t : Stage I O) (y : ℕ × O) → IsDrained s → Send s y t → ⊥
drained-Send s t y d (send {made = made} c) =
    omega (arith, ap length d.none_made, length-Pick y s.made made c)

Move-is_open :
    {I O W : Type 0} (work : I → W → Result Error O × W) (closed cancelled : Bool) (w w' : W)
    (s t : Stage I O)
    → Move work closed cancelled w s w' t
    → t.is_open ≡ s.is_open
Move-is_open work closed cancelled w w' s t (take_item e c) = refl
Move-is_open work closed cancelled w w' s t (leave e c p) = refl
Move-is_open work closed cancelled w w' s t (succeed c e) = refl
Move-is_open work closed cancelled w w' s t (fail c e) = refl
Move-is_open work closed cancelled w w' s t (give_up c p) = refl

Send-is_open : {I O : Type 0} (s t : Stage I O) (y : ℕ × O) → Send s y t → t.is_open ≡ s.is_open
Send-is_open s t y (send c) = refl

-- A closed stage is drained, and has passed its error on.
abbrev IsSettled : {I O : Type 0} → Option Error → Stage I O → Type 0
IsSettled error s = s.is_open ≡ false → IsDrained s × (error ≡ none → s.error ≡ none)

record AreSettled {S : Stages} (s : Flow S) : Type 0 where
  one : IsSettled s.error s.one
  two : IsSettled s.error s.two

module _ {I O : Type 0} where
  -- The error of the group is never lost.
  later : (d e : Option Error) (s : Stage I O) → IsSettled d s → IsSettled (first_of d e) s
  later d e s h shut = let (x, f) = h shut in (x, λ n. f (first_of-none d e n).0)

  -- A drained stage gets another item on its channel, which it does not take.
  still : (d : Option Error) (x : ℕ × I) (s : Stage I O) → IsSettled d s → IsSettled d (put x s)
  still d x s h shut =
      let (k, f) = h shut in
      (record { none_idle = k.none_idle; none_busy = k.none_busy; none_made = k.none_made }, f)

  closing :
      (d : Option Error) (s : Stage I O)
      → IsDrained s
      → IsSettled (first_of d s.error) (record s { is_open = false })
  closing d s k shut = (
    record { none_idle = k.none_idle; none_busy = k.none_busy; none_made = k.none_made },
    λ n. (first_of-none d s.error n).1,
  )

module _ (S : Stages) where
  Step-AreSettled : (a b : Flow S) → Step S a b → AreSettled a → AreSettled b
  Step-AreSettled a b (feed {x = x} e f room) h = record {
    one = still a.error (a.next, x) a.one h.one;
    two = h.two;
  }
  Step-AreSettled a b (feed_end e f) h = record {
    one = later a.error a.failure a.one h.one;
    two = later a.error a.failure a.two h.two;
  }
  Step-AreSettled a b (feed_stop e f) h = record { one = h.one; two = h.two }
  Step-AreSettled a b (move_one {w = w} {one = t} m) h =
      let open' = Move-is_open S.first (not a.feeding) (is_some a.error) a.world w a.one t m in
      record {
        one = λ shut. absurd (
            drained-Move S.first (not a.feeding) (is_some a.error) a.world w a.one t
              (h.one (sym open' ∙ shut)).0 m);
        two = h.two;
      }
  Step-AreSettled a b (send_one {y = y} {one = t} m room) h = record {
    one =
        λ shut. absurd (drained-Send a.one t y (h.one (sym (Send-is_open a.one t y m) ∙ shut)).0 m);
    two = still a.error y a.two h.two;
  }
  Step-AreSettled a b (close_one e d) h = record {
    one = closing a.error a.one d;
    two = later a.error a.one.error a.two h.two;
  }
  Step-AreSettled a b (move_two {w = w} {two = t} m) h =
      let open' = Move-is_open S.second (not a.one.is_open) (is_some a.error) a.world w a.two t m in
      record {
        one = h.one;
        two = λ shut. absurd (
            drained-Move S.second (not a.one.is_open) (is_some a.error) a.world w a.two t
              (h.two (sym open' ∙ shut)).0 m);
      }
  Step-AreSettled a b (send_two {y = y} {two = t} m) h = record {
    one = h.one;
    two =
        λ shut. absurd (drained-Send a.two t y (h.two (sym (Send-is_open a.two t y m) ∙ shut)).0 m);
  }
  Step-AreSettled a b (close_two e d) h = record {
    one = later a.error a.two.error a.one h.one;
    two = closing a.error a.two d;
  }

  -- Once all have returned, the group knows of every error.
  pub finished-IsClean :
      (w : S.World) (source : List S.In) (failure : Option Error) (jobs_one jobs_two : ℕ)
      (last : Flow S)
      → Runs (Step S) (start S w source failure jobs_one jobs_two) last
      → IsFinished last
      → last.error ≡ none
      → IsClean last
  unfolding start
  finished-IsClean w source failure jobs_one jobs_two last run end e =
      let h =
        Runs-keep AreSettled Step-AreSettled (start S w source failure jobs_one jobs_two) last run
          (record { one = λ shut. absurd cc; two = λ shut. absurd cc }) in
      record { flow_error = e; one_error = (h.one end.one).1 e; two_error = (h.two end.two).1 e }
