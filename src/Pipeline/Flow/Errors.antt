-- ===== src/Pipeline/Flow/Errors.antt =====
-- client/datastor/pipeline/async_splitter.go: no error is forgotten by Write or by Read.
use stor.Base.{◌∙◌, ◌≡◌, refl, false, not, Option, none}
use stor.Pipeline.Workers.Counting.{first_of-none, Move-Kept, Send-Gave}
use stor.Pipeline.Flow.{
  close_two, send_two, move_two, close_one, send_one, move_one, feed_stop, feed_end, feed, Stages,
  Flow, is_some, Step,
}

-- Nothing has failed.
pub record IsClean {S : Stages} (s : Flow S) : Type 0 where
  pub flow_error : s.error ≡ none
  pub one_error : s.one.error ≡ none
  pub two_error : s.two.error ≡ none

pub not_some : {A : Type 0} (o : Option A) → o ≡ none → is_some o ≡ false
not_some o h = rw h refl

module _ (S : Stages) where
  pub Step-IsClean : (a b : Flow S) → Step S a b → IsClean b → IsClean a
  Step-IsClean a b (feed e f room) c = record {
    flow_error = c.flow_error;
    one_error = c.one_error;
    two_error = c.two_error;
  }
  Step-IsClean a b (feed_end e f) c = record {
    flow_error = (first_of-none a.error a.failure c.flow_error).0;
    one_error = c.one_error;
    two_error = c.two_error;
  }
  Step-IsClean a b (feed_stop e f) c = record {
    flow_error = c.flow_error;
    one_error = c.one_error;
    two_error = c.two_error;
  }
  Step-IsClean a b (move_one {w = w} {one = t} m) c = record {
    flow_error = c.flow_error;
    one_error =
        (Move-Kept S.first (not a.feeding) (is_some a.error) (not_some a.error c.flow_error) a.world
          w a.one t m c.one_error).error_kept;
    two_error = c.two_error;
  }
  Step-IsClean a b (send_one {y = y} {one = t} m room) c = record {
    flow_error = c.flow_error;
    one_error = (Send-Gave a.one t y m).error_kept ∙ c.one_error;
    two_error = c.two_error;
  }
  Step-IsClean a b (close_one e d) c = record {
    flow_error = (first_of-none a.error a.one.error c.flow_error).0;
    one_error = c.one_error;
    two_error = c.two_error;
  }
  Step-IsClean a b (move_two {w = w} {two = t} m) c = record {
    flow_error = c.flow_error;
    one_error = c.one_error;
    two_error =
        (Move-Kept S.second (not a.one.is_open) (is_some a.error) (not_some a.error c.flow_error)
          a.world w a.two t m c.two_error).error_kept;
  }
  Step-IsClean a b (send_two {y = y} {two = t} m) c = record {
    flow_error = c.flow_error;
    one_error = c.one_error;
    two_error = (Send-Gave a.two t y m).error_kept ∙ c.two_error;
  }
  Step-IsClean a b (close_two e d) c = record {
    flow_error = (first_of-none a.error a.two.error c.flow_error).0;
    one_error = c.one_error;
    two_error = c.two_error;
  }
