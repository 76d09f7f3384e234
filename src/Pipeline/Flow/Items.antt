-- ===== src/Pipeline/Flow/Items.antt =====
-- client/datastor/pipeline/async_splitter.go: what is known of the results that Write and Read receive.
use stor.Base.{
  ◌∙◌, ℕ, ◌≡◌, refl, List, not, Option, some, drop, get_elem?, Result, ok, All, Runs, Runs-keep,
  All-weaken, drop-cons,
}
use stor.Pipeline.Types.{Error}
use stor.Pipeline.Workers.Items.{Holds, Holds-map, Move-keeps, Move-Holds, Send-Holds}
use stor.Pipeline.Flow.{
  Stages, Flow, is_some, Step, start, feed, feed_end, feed_stop, move_one, send_one, close_one,
  move_two, send_two, close_two,
}

-- What the two stages make of items of which `Given` is known. No call takes away what is known.
pub record Contract (S : Stages) (Given : ℕ × S.In → Type 0)
    (Halfway : S.World → ℕ × S.Mid → Type 0) (Done : S.World → ℕ × S.Out → Type 0) : Type 0 where
  pub first_makes :
      (x : ℕ × S.In) (m : S.Mid) (w w' : S.World)
      → Given x
      → S.first x.1 w ≡ (ok m, w')
      → Halfway w' (x.0, m)
  pub second_makes :
      (y : ℕ × S.Mid) (o : S.Out) (w w' : S.World)
      → Halfway w y
      → S.second y.1 w ≡ (ok o, w')
      → Done w' (y.0, o)
  pub first_keeps :
      (x : S.In) (r : Result Error S.Mid) (w w' : S.World)
      → S.first x w ≡ (r, w')
      → ((y : ℕ × S.Mid) → Halfway w y → Halfway w' y) × ((z : ℕ × S.Out) → Done w z → Done w' z)
  pub second_keeps :
      (y : S.Mid) (r : Result Error S.Out) (w w' : S.World)
      → S.second y w ≡ (r, w')
      → ((y : ℕ × S.Mid) → Halfway w y → Halfway w' y) × ((z : ℕ × S.Out) → Done w z → Done w' z)

abbrev pub IsItem : {A : Type 0} → List A → ℕ × A → Type 0
IsItem xs x = get_elem? xs x.0 ≡ some x.1

module _ (S : Stages) (items : List S.In) (Halfway : S.World → ℕ × S.Mid → Type 0)
    (Done : S.World → ℕ × S.Out → Type 0) where
  pub record IsSound (s : Flow S) : Type 0 where
    pub left : drop s.next items ≡ s.source
    pub one_items : Holds (IsItem items) (Halfway s.world) s.one
    pub two_items : Holds (Halfway s.world) (Done s.world) s.two
    pub received_items : All (Done s.world) s.received

  module _ (contract : Contract S (IsItem items) Halfway Done) where
    pub Step-IsSound : (a b : Flow S) → Step S a b → IsSound a → IsSound b
    Step-IsSound a b (feed {x = x} {source = source} e f room) h =
        let cut = drop-cons a.next items x source (h.left ∙ f) in
        record {
          left = cut.1;
          one_items = record {
            pending_items = (cut.0, h.one_items.pending_items);
            busy_items = h.one_items.busy_items;
            made_items = h.one_items.made_items;
          };
          two_items = h.two_items;
          received_items = h.received_items;
        }
    Step-IsSound a b (feed_end e f) h = record {
      left = h.left;
      one_items = h.one_items;
      two_items = h.two_items;
      received_items = h.received_items;
    }
    Step-IsSound a b (feed_stop e f) h = record {
      left = h.left;
      one_items = h.one_items;
      two_items = h.two_items;
      received_items = h.received_items;
    }
    Step-IsSound a b (move_one {w = w} {one = t} m) h = record {
      left = h.left;
      one_items =
          Move-Holds S.first (not a.feeding) (is_some a.error) (λ _. IsItem items) Halfway
            contract.first_makes (λ x r v v' e. (λ z p. p, (contract.first_keeps x r v v' e).0))
            a.world w a.one t m h.one_items;
      two_items =
          Move-keeps S.first (not a.feeding) (is_some a.error)
            (λ v. Holds (Halfway v) (Done v) a.two)
            (λ x r v v' e. let k = contract.first_keeps x r v v' e in Holds-map a.two k.0 k.1)
            a.world w a.one t m h.two_items;
      received_items =
          Move-keeps S.first (not a.feeding) (is_some a.error) (λ v. All (Done v) a.received)
            (λ x r v v' e. All-weaken a.received (contract.first_keeps x r v v' e).1) a.world w
            a.one t m h.received_items;
    }
    Step-IsSound a b (send_one {y = y} {one = t} m room) h =
        let sent = Send-Holds (IsItem items) (Halfway a.world) a.one t y m h.one_items in
        record {
          left = h.left;
          one_items = sent.1;
          two_items = record {
            pending_items = (sent.0, h.two_items.pending_items);
            busy_items = h.two_items.busy_items;
            made_items = h.two_items.made_items;
          };
          received_items = h.received_items;
        }
    Step-IsSound a b (close_one e d) h = record {
      left = h.left;
      one_items = record {
        pending_items = h.one_items.pending_items;
        busy_items = h.one_items.busy_items;
        made_items = h.one_items.made_items;
      };
      two_items = h.two_items;
      received_items = h.received_items;
    }
    Step-IsSound a b (move_two {w = w} {two = t} m) h = record {
      left = h.left;
      one_items =
          Move-keeps S.second (not a.one.is_open) (is_some a.error)
            (λ v. Holds (IsItem items) (Halfway v) a.one)
            (λ y r v v' e. Holds-map a.one (λ z p. p) (contract.second_keeps y r v v' e).0) a.world
            w a.two t m h.one_items;
      two_items =
          Move-Holds S.second (not a.one.is_open) (is_some a.error) Halfway Done
            contract.second_makes contract.second_keeps a.world w a.two t m h.two_items;
      received_items =
          Move-keeps S.second (not a.one.is_open) (is_some a.error) (λ v. All (Done v) a.received)
            (λ y r v v' e. All-weaken a.received (contract.second_keeps y r v v' e).1) a.world w
            a.two t m h.received_items;
    }
    Step-IsSound a b (send_two {y = y} {two = t} m) h =
        let sent = Send-Holds (Halfway a.world) (Done a.world) a.two t y m h.two_items in
        record {
          left = h.left;
          one_items = h.one_items;
          two_items = sent.1;
          received_items = (sent.0, h.received_items);
        }
    Step-IsSound a b (close_two e d) h = record {
      left = h.left;
      one_items = h.one_items;
      two_items = record {
        pending_items = h.two_items.pending_items;
        busy_items = h.two_items.busy_items;
        made_items = h.two_items.made_items;
      };
      received_items = h.received_items;
    }

    pub Runs-IsSound : (a b : Flow S) → Runs (Step S) a b → IsSound a → IsSound b
    Runs-IsSound a b run h = Runs-keep IsSound Step-IsSound a b run h

  pub start-IsSound :
      (w : S.World) (failure : Option Error) (jobs_one jobs_two : ℕ)
      → IsSound (start S w items failure jobs_one jobs_two)
  unfolding start
  start-IsSound w failure jobs_one jobs_two = record {
    left = refl;
    one_items = record { pending_items = tt; busy_items = tt; made_items = tt };
    two_items = record { pending_items = tt; busy_items = tt; made_items = tt };
    received_items = tt;
  }
