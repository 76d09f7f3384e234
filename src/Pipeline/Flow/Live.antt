-- ===== src/Pipeline/Flow/Live.antt =====
-- client/datastor/pipeline/async_splitter.go: what keeps the goroutines of Write and Read going.
use stor.Base.{
  List, ◌∙◌, length-Pick, ℕ, ◌+◌, ◌<◌, ◌≤◌, ◌≡◌, ◌⊎◌, inl, inr, refl, sym, ap, Bool, false, not,
  Option, none, some, length, Result, arith,
}
use stor.Pipeline.Types.{Error}
use stor.Pipeline.Workers.{
  Stage, first_of, Move, take_item, leave, succeed, fail, give_up, Send, send, IsDrained,
}
use stor.Pipeline.Workers.Counting.{workers}
use stor.Pipeline.Flow.{
  start, Stages, Flow, is_some, Step, feed, feed_end, feed_stop, move_one, send_one, close_one,
  move_two, send_two, close_two,
}
use stor.Pipeline.Flow.Ending.{bit}

abbrev failed : Option Error → ℕ
failed e = bit (is_some e)

failed-first_of :
    (d e : Option Error) → (failed d ≤ failed (first_of d e)) × (failed e ≤ failed (first_of d e))
failed-first_of none none = (omega arith, omega arith)
failed-first_of none (some e) = (omega arith, omega arith)
failed-first_of (some d) none = (omega arith, omega arith)
failed-first_of (some d) (some e) = (omega arith, omega arith)

-- The goroutines of a stage are gone only when the channel is closed, they have failed or are cancelled.
record Stays {I O : Type 0} (closed cancelled : Bool) (s t : Stage I O) : Type 0 where
  capacity_stays : t.capacity ≡ s.capacity
  is_open_stays : t.is_open ≡ s.is_open
  workers_stay : workers t ≤ workers s
  failed_stays : failed s.error ≤ failed t.error
  gone : (workers s ≤ workers t) ⊎ (0 < failed t.error + bit closed + bit cancelled)

module _ {I O W : Type 0} (work : I → W → Result Error O × W) (closed cancelled : Bool) where
  Move-Stays :
      (w w' : W) (s t : Stage I O)
      → Move work closed cancelled w s w' t
      → Stays closed cancelled s t
  Move-Stays w w' s t (take_item {x = x} {pending = pending} e c) = record {
    capacity_stays = refl;
    is_open_stays = refl;
    workers_stay = omega (arith, e);
    failed_stays = omega arith;
    gone = inl (omega (arith, e));
  }
  Move-Stays w w' s t (leave e c p) = record {
    capacity_stays = refl;
    is_open_stays = refl;
    workers_stay = omega (arith, e);
    failed_stays = omega arith;
    gone = inr (rw c (omega arith));
  }
  Move-Stays w w' s t (succeed {x = x} {busy = busy} c e) = record {
    capacity_stays = refl;
    is_open_stays = refl;
    workers_stay = omega (arith, length-Pick x s.busy busy c);
    failed_stays = omega arith;
    gone = inl (omega (arith, length-Pick x s.busy busy c));
  }
  Move-Stays w w' s t (fail {x = x} {busy = busy} {e = e} c f) =
      let (kept, new) = failed-first_of s.error (some e) in
      record {
        capacity_stays = refl;
        is_open_stays = refl;
        workers_stay = omega (arith, length-Pick x s.busy busy c);
        failed_stays = kept;
        gone = inr (omega (arith, new));
      }
  Move-Stays w w' s t (give_up {y = y} {made = made} h c) = record {
    capacity_stays = refl;
    is_open_stays = refl;
    workers_stay = omega (arith, length-Pick y s.made made c);
    failed_stays = omega arith;
    gone = inr (rw h (omega arith));
  }

Send-Stays :
    {I O : Type 0} (s t : Stage I O) (y : ℕ × O)
    → Send s y t
    → (t.capacity ≡ s.capacity)
      × (workers t ≡ workers s)
      × (t.is_open ≡ s.is_open)
      × (t.error ≡ s.error)
Send-Stays s t y (send {made = made} c) =
    (refl, omega (arith, length-Pick y s.made made c), refl, refl)

-- A stage whose goroutines are all gone has been closed by the stage before it, or has an error.
pub record IsLive {S : Stages} (s : Flow S) : Type 0 where
  pub room_one : 0 < s.one.capacity
  pub room_two : 0 < s.two.capacity
  pub live_one : 0 < workers s.one + bit (not s.feeding) + failed s.one.error + failed s.error
  pub live_two : 0 < workers s.two + bit (not s.one.is_open) + failed s.two.error + failed s.error
  pub open_one : 0 < bit s.one.is_open + bit (not s.feeding) + failed s.error
  pub open_two : 0 < bit s.two.is_open + bit (not s.one.is_open) + failed s.error
  pub closed_one : s.one.is_open ≡ false → workers s.one ≡ 0

drained_workers : {I O : Type 0} (s : Stage I O) → IsDrained s → workers s ≡ 0
drained_workers s d = omega (arith, d.none_idle, ap length d.none_busy, ap length d.none_made)

module _ (S : Stages) where
  pub Step-IsLive : (a b : Flow S) → Step S a b → IsLive a → IsLive b
  Step-IsLive a b (feed e f room) h = record {
    room_one = h.room_one;
    room_two = h.room_two;
    live_one = h.live_one;
    live_two = h.live_two;
    open_one = h.open_one;
    open_two = h.open_two;
    closed_one = h.closed_one;
  }
  Step-IsLive a b (feed_end e f) h =
      let kept = (failed-first_of a.error a.failure).0 in
      record {
        room_one = h.room_one;
        room_two = h.room_two;
        live_one = omega arith;
        live_two = omega (arith, h.live_two, kept);
        open_one = omega arith;
        open_two = omega (arith, h.open_two, kept);
        closed_one = h.closed_one;
      }
  Step-IsLive a b (feed_stop e f) h = record {
    room_one = h.room_one;
    room_two = h.room_two;
    live_one = omega arith;
    live_two = h.live_two;
    open_one = omega arith;
    open_two = h.open_two;
    closed_one = h.closed_one;
  }
  Step-IsLive a b (move_one {w = w} {one = t} m) h =
      let k = Move-Stays S.first (not a.feeding) (is_some a.error) a.world w a.one t m in
      record {
        room_one = omega (arith, h.room_one, k.capacity_stays);
        room_two = h.room_two;
        live_one = elim k.gone [
          | inl le ↦ omega (arith, h.live_one, le, k.failed_stays)
          | inr p ↦ omega (arith, p)
        ];
        live_two = rw k.is_open_stays h.live_two;
        open_one = rw k.is_open_stays h.open_one;
        open_two = rw k.is_open_stays h.open_two;
        closed_one =
            λ shut. omega (arith, h.closed_one (sym k.is_open_stays ∙ shut), k.workers_stay);
      }
  Step-IsLive a b (send_one {y = y} {one = t} m room) h =
      let (capacity, count, same, error) = Send-Stays a.one t y m in
      record {
        room_one = rw capacity h.room_one;
        room_two = h.room_two;
        live_one = rw error (omega (arith, h.live_one, count));
        live_two = rw same h.live_two;
        open_one = rw same h.open_one;
        open_two = rw same h.open_two;
        closed_one = λ shut. count ∙ h.closed_one (sym same ∙ shut);
      }
  Step-IsLive a b (close_one e d) h =
      let (kept, new) = failed-first_of a.error a.one.error in
      let none = drained_workers a.one d in
      record {
        room_one = h.room_one;
        room_two = h.room_two;
        live_one = omega (arith, h.live_one, kept);
        live_two = omega arith;
        open_one = omega (arith, h.live_one, none, kept, new);
        open_two = omega arith;
        closed_one = λ shut. none;
      }
  Step-IsLive a b (move_two {w = w} {two = t} m) h =
      let k = Move-Stays S.second (not a.one.is_open) (is_some a.error) a.world w a.two t m in
      record {
        room_one = h.room_one;
        room_two = omega (arith, h.room_two, k.capacity_stays);
        live_one = h.live_one;
        live_two = elim k.gone [
          | inl le ↦ omega (arith, h.live_two, le, k.failed_stays)
          | inr p ↦ omega (arith, p)
        ];
        open_one = h.open_one;
        open_two = rw k.is_open_stays h.open_two;
        closed_one = h.closed_one;
      }
  Step-IsLive a b (send_two {y = y} {two = t} m) h =
      let (capacity, count, same, error) = Send-Stays a.two t y m in
      record {
        room_one = h.room_one;
        room_two = rw capacity h.room_two;
        live_one = h.live_one;
        live_two = rw error (omega (arith, h.live_two, count));
        open_one = h.open_one;
        open_two = rw same h.open_two;
        closed_one = h.closed_one;
      }
  Step-IsLive a b (close_two e d) h =
      let (kept, new) = failed-first_of a.error a.two.error in
      let none = drained_workers a.two d in
      record {
        room_one = h.room_one;
        room_two = h.room_two;
        live_one = omega (arith, h.live_one, kept);
        live_two = omega (arith, h.live_two, kept);
        open_one = omega (arith, h.open_one, kept);
        open_two = omega (arith, h.live_two, none, kept, new);
        closed_one = h.closed_one;
      }

pub start-IsLive :
    (S : Stages) (w : S.World) (source : List S.In) (failure : Option Error) (jobs_one jobs_two : ℕ)
    → 0 < jobs_one
    → 0 < jobs_two
    → IsLive (start S w source failure jobs_one jobs_two)
unfolding start
start-IsLive S w source failure jobs_one jobs_two some_one some_two = record {
  room_one = some_one;
  room_two = some_two;
  live_one = omega (arith, some_one);
  live_two = omega (arith, some_two);
  open_one = omega arith;
  open_two = omega arith;
  closed_one = λ shut. absurd cc;
}
