-- ===== src/Pipeline/Flow/Clean.antt =====
-- client/datastor/pipeline/async_splitter.go: when Write and Read cannot fail.
use stor.Base.{All-Pick, ◌∙◌, Bool, ℕ, ◌≡◌, refl, List, not, none, Result, err, Runs, Runs-keep}
use stor.Pipeline.Types.{Error}
use stor.Pipeline.Workers.{Stage, Move, take_item, leave, succeed, fail, give_up, Send, send}
use stor.Pipeline.Workers.Items.{Holds}
use stor.Pipeline.Flow.{
  Stages, Flow, is_some, Step, start, feed, feed_end, feed_stop, move_one, send_one, close_one,
  move_two, send_two, close_two,
}
use stor.Pipeline.Flow.Errors.{IsClean}
use stor.Pipeline.Flow.Items.{Contract, IsItem, IsSound, Step-IsSound, start-IsSound}

Move-error :
    {I O W : Type 0} (work : I → W → Result Error O × W) (closed cancelled : Bool)
    (P : ℕ × I → Type 0) (Q : ℕ × O → Type 0) (w w' : W) (s t : Stage I O)
    → ((x : ℕ × I) (e : Error) (v : W) → P x → work x.1 w ≡ (err e, v) → ⊥)
    → Move work closed cancelled w s w' t
    → Holds P Q s
    → s.error ≡ none
    → t.error ≡ none
Move-error work closed cancelled P Q w w' s t safe (take_item e c) h n = n
Move-error work closed cancelled P Q w w' s t safe (leave e c p) h n = n
Move-error work closed cancelled P Q w w' s t safe (succeed c e) h n = n
Move-error work closed cancelled P Q w w' s t safe (fail {x = x} {busy = busy} {e = d} c e) h n =
    absurd (safe x d w' (All-Pick P x s.busy busy c h.busy_items).0 e)
Move-error work closed cancelled P Q w w' s t safe (give_up c p) h n = n

Send-error : {I O : Type 0} (s t : Stage I O) (y : ℕ × O) → Send s y t → t.error ≡ s.error
Send-error s t y (send c) = refl

pub Step-failure : (S : Stages) (a b : Flow S) → Step S a b → b.failure ≡ a.failure
Step-failure S a b (feed e f room) = refl
Step-failure S a b (feed_end e f) = refl
Step-failure S a b (feed_stop e f) = refl
Step-failure S a b (move_one m) = refl
Step-failure S a b (send_one m room) = refl
Step-failure S a b (close_one e d) = refl
Step-failure S a b (move_two m) = refl
Step-failure S a b (send_two m) = refl
Step-failure S a b (close_two e d) = refl

module _ (S : Stages) (items : List S.In) (Halfway : S.World → ℕ × S.Mid → Type 0)
    (Done : S.World → ℕ × S.Out → Type 0) (contract : Contract S (IsItem items) Halfway Done)
    (first_safe : (x : ℕ × S.In) (e : Error) (w w' : S.World)
      → IsItem items x
      → S.first x.1 w ≡ (err e, w')
      → ⊥)
    (second_safe : (y : ℕ × S.Mid) (e : Error) (w w' : S.World)
      → Halfway w y
      → S.second y.1 w ≡ (err e, w')
      → ⊥) where
  record IsSafe (s : Flow S) : Type 0 where
    sound : IsSound S items Halfway Done s
    clean : IsClean s
    no_failure : s.failure ≡ none

  Step-IsClean : (a b : Flow S) → Step S a b → IsSafe a → IsClean b
  Step-IsClean a b (feed e f room) h = record {
    flow_error = h.clean.flow_error;
    one_error = h.clean.one_error;
    two_error = h.clean.two_error;
  }
  Step-IsClean a b (feed_end e f) h = record {
    flow_error = rw (h.clean.flow_error, h.no_failure) refl;
    one_error = h.clean.one_error;
    two_error = h.clean.two_error;
  }
  Step-IsClean a b (feed_stop e f) h = record {
    flow_error = h.clean.flow_error;
    one_error = h.clean.one_error;
    two_error = h.clean.two_error;
  }
  Step-IsClean a b (move_one {w = w} {one = t} m) h = record {
    flow_error = h.clean.flow_error;
    one_error =
        Move-error S.first (not a.feeding) (is_some a.error) (IsItem items) (Halfway a.world)
          a.world w a.one t (λ x e v. first_safe x e a.world v) m h.sound.one_items
          h.clean.one_error;
    two_error = h.clean.two_error;
  }
  Step-IsClean a b (send_one {y = y} {one = t} m room) h = record {
    flow_error = h.clean.flow_error;
    one_error = Send-error a.one t y m ∙ h.clean.one_error;
    two_error = h.clean.two_error;
  }
  Step-IsClean a b (close_one e d) h = record {
    flow_error = rw (h.clean.flow_error, h.clean.one_error) refl;
    one_error = h.clean.one_error;
    two_error = h.clean.two_error;
  }
  Step-IsClean a b (move_two {w = w} {two = t} m) h = record {
    flow_error = h.clean.flow_error;
    one_error = h.clean.one_error;
    two_error =
        Move-error S.second (not a.one.is_open) (is_some a.error) (Halfway a.world) (Done a.world)
          a.world w a.two t (λ y e v. second_safe y e a.world v) m h.sound.two_items
          h.clean.two_error;
  }
  Step-IsClean a b (send_two {y = y} {two = t} m) h = record {
    flow_error = h.clean.flow_error;
    one_error = h.clean.one_error;
    two_error = Send-error a.two t y m ∙ h.clean.two_error;
  }
  Step-IsClean a b (close_two e d) h = record {
    flow_error = rw (h.clean.flow_error, h.clean.two_error) refl;
    one_error = h.clean.one_error;
    two_error = h.clean.two_error;
  }

  Step-IsSafe : (a b : Flow S) → Step S a b → IsSafe a → IsSafe b
  Step-IsSafe a b s h = record {
    sound = Step-IsSound S items Halfway Done contract a b s h.sound;
    clean = Step-IsClean a b s h;
    no_failure = Step-failure S a b s ∙ h.no_failure;
  }

  -- If no call fails on what is known of the items, no run fails.
  pub Runs-IsClean :
      (w : S.World) (jobs_one jobs_two : ℕ) (last : Flow S)
      → Runs (Step S) (start S w items none jobs_one jobs_two) last
      → IsClean last
  unfolding start
  Runs-IsClean w jobs_one jobs_two last run =
      (Runs-keep IsSafe Step-IsSafe (start S w items none jobs_one jobs_two) last run (record {
        sound = start-IsSound S items Halfway Done w none jobs_one jobs_two;
        clean = record { flow_error = refl; one_error = refl; two_error = refl };
        no_failure = refl;
      })).clean
