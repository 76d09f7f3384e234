-- ===== src/Client/Traversal.antt =====
-- client/client_linked_data.go: the iterators over metadata that WriteLinked has chained. Both have the
-- same loop in Next; they differ in the link that they follow and in their two tests of the epoch. The
-- loop does not end on a chain that runs in a circle, so it takes fuel. Epochs are natural numbers.
pub mod Chains
pub mod Ranges
use stor.Base.{
  ℕ, zero, suc, Bytes, List, [], ◌∷◌, Option, none, some, Bool, true, false, ltb, ◌==◌, ◌&&◌,
  length, Result, ok, err, panic, ◌>>◌, fail_if,
}
use stor.Cluster.Types.{Chunk}

-- metatypes.Metadata; a nil key is none
pub record Metadata : Type 0 where
  pub key : Bytes
  pub size : ℕ
  pub creation_epoch : ℕ
  pub last_write_epoch : ℕ
  pub chunks : List Chunk
  pub previous_key : Option Bytes
  pub next_key : Option Bytes

pub data Error : Type 0 where
  nil_key invalid_epoch_range invalid_iterator : Error
  metastor : ℕ → Error

-- What both iterators consist of; `cursor` is nextKey or previousKey, and a limit of -1 is none.
pub record Iterator : Type 0 where
  pub md : Option Metadata
  pub cursor : Option Bytes
  pub from_epoch : Option ℕ
  pub to_epoch : Option ℕ

-- `if epoch <= 0 { epoch = -1 }`
abbrev pub limit : ℕ → Option ℕ
limit zero = none
limit (suc n) = some (suc n)

-- `a != -1 && a < b`, and `a != -1 && b < a`
abbrev pub below : Option ℕ → ℕ → Bool
below none b = false
below (some a) b = ltb a b

abbrev pub above : Option ℕ → ℕ → Bool
above none b = false
above (some a) b = ltb b a

-- `toEpoch != -1 && fromEpoch > toEpoch`
abbrev pub is_reversed : Option ℕ → Option ℕ → Bool
is_reversed (some later) (some earlier) = ltb later earlier
is_reversed later earlier = false

-- Traverse and TraversePostOrder, up to the iterator that they make
abbrev pub started : Bytes → Bool → ℕ → ℕ → Result Error Iterator
started start_key reversed from_epoch to_epoch =
    fail_if (length start_key == 0) nil_key
    >> (fail_if reversed invalid_epoch_range
        >> ok (record {
          md = none;
          cursor = some start_key;
          from_epoch = limit from_epoch;
          to_epoch = limit to_epoch;
        }))

unfoldable pub traverse : Bytes → ℕ → ℕ → Result Error Iterator
traverse start_key from_epoch to_epoch =
    started start_key (is_reversed (limit to_epoch) (limit from_epoch)) from_epoch to_epoch

unfoldable pub traverse_post_order : Bytes → ℕ → ℕ → Result Error Iterator
traverse_post_order start_key from_epoch to_epoch =
    started start_key (is_reversed (limit from_epoch) (limit to_epoch)) from_epoch to_epoch

-- Where the two iterators differ: the link, and the tests that end the iteration and pass over metadata.
pub record Direction : Type 0 where
  pub link : Metadata → Option Bytes
  pub ends : Option ℕ → Option ℕ → Metadata → Bool
  pub skips : Option ℕ → Option ℕ → Metadata → Bool

abbrev pub forward : Direction
forward = record {
  link = λ md. md.next_key;
  ends = λ from_epoch to_epoch md. below to_epoch md.creation_epoch;
  skips = λ from_epoch to_epoch md. above from_epoch md.creation_epoch;
}

abbrev pub backward : Direction
backward = record {
  link = λ md. md.previous_key;
  ends = λ from_epoch to_epoch md. above to_epoch md.creation_epoch;
  skips = λ from_epoch to_epoch md. below from_epoch md.creation_epoch;
}

-- One iteration of the loop of Next, once the metadata is there; `again` is the rest of the loop.
abbrev pub visited :
    Direction
    → Iterator
    → Metadata
    → Bool
    → Bool
    → (Iterator → Option (Bool × Iterator))
    → Option (Bool × Iterator)
visited d it md true skip again = some (false, record it { cursor = none })
visited d it md false true again = again (record it { cursor = d.link md })
visited d it md false false again = some (true, record it { cursor = d.link md; md = some md })

abbrev pub looked_up :
    Direction
    → Iterator
    → Result Error Metadata
    → (Iterator → Option (Bool × Iterator))
    → Option (Bool × Iterator)
looked_up d it (ok md) again =
    visited d it md (d.ends it.from_epoch it.to_epoch md) (d.skips it.from_epoch it.to_epoch md)
      again
looked_up d it answer again = some (false, it)

-- The loop of Next, where `get` is GetMetadata; without fuel there is no result.
unfoldable pub next_at :
    Direction
    → (Bytes → Result Error Metadata)
    → ℕ
    → Option Bytes
    → Iterator
    → Option (Bool × Iterator)
next_at d get fuel none it = some (false, it)
next_at d get zero (some key) it = none
next_at d get (suc fuel) (some key) it =
    looked_up d it (get key) (λ it'. next_at d get fuel it'.cursor it')

-- Next
unfoldable pub next :
    Direction → (Bytes → Result Error Metadata) → ℕ → Iterator → Option (Bool × Iterator)
next d get fuel it = next_at d get fuel it.cursor it

-- PeekNextKey
abbrev pub peek_next_key : Iterator → Option Bytes
peek_next_key it = it.cursor

-- GetMetadata
abbrev pub metadata_of : Option Metadata → Result Error Metadata
metadata_of (some md) = ok md
metadata_of none = err invalid_iterator

unfoldable pub get_metadata : Iterator → Result Error Metadata
get_metadata it = metadata_of it.md

abbrev pub consed : Option Metadata → Option (List Metadata) → Option (List Metadata)
consed (some md) (some mds) = some (md ∷ mds)
consed md mds = none

-- `for it.Next() { it.GetMetadata() … }`: what the iterator visits
abbrev pub then_visit :
    Option (Bool × Iterator) → (Iterator → Option (List Metadata)) → Option (List Metadata)
then_visit none more = none
then_visit (some (false, it)) more = some []
then_visit (some (true, it)) more = consed it.md (more it)

unfoldable pub visit_all :
    Direction → (Bytes → Result Error Metadata) → ℕ → ℕ → Iterator → Option (List Metadata)
visit_all d get fuel zero it = none
visit_all d get fuel (suc rounds) it =
    then_visit (next d get fuel it) (λ it'. visit_all d get fuel rounds it')
