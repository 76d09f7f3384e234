-- ===== src/Tests/Traversal.antt =====
-- Three linked metadata, traversed in both directions.
use stor.Base.{
  ◌==◌, if◌then◌else◌, ℕ, ◌≡◌, refl, Bytes, [], ◌∷◌, Option, none, some, arith, Result, ok, err,
}
use stor.Client.Traversal.{
  Metadata, Error, metastor, invalid_epoch_range, Iterator, forward, backward, traverse,
  traverse_post_order, visit_all,
}
use stor.Client.Traversal.Chains.{ended, linked}
use stor.Client.Traversal.Ranges.{traverse_both_lem}

abbrev metadata_at : ℕ → ℕ → Option Bytes → Option Bytes → Metadata
metadata_at k epoch previous later = record {
  key = k ∷ [];
  size = 1;
  creation_epoch = epoch;
  last_write_epoch = epoch;
  chunks = [];
  previous_key = previous;
  next_key = later;
}

abbrev first : Metadata
first = metadata_at 1 10 none (some (2 ∷ []))

abbrev second : Metadata
second = metadata_at 2 20 (some (1 ∷ [])) (some (3 ∷ []))

abbrev third : Metadata
third = metadata_at 3 30 (some (2 ∷ [])) none

abbrev get_stored : Bytes → Result Error Metadata
get_stored (k ∷ []) =
    if k == 1
    then ok first
    else (if k == 2 then ok second else (if k == 3 then ok third else err (metastor 0)))
get_stored key = err (metastor 0)

-- From epoch 15 on.
abbrev from_15 : Iterator
from_15 = record { md = none; cursor = some (1 ∷ []); from_epoch = some 15; to_epoch = none }

traverse_15 : traverse (1 ∷ []) 15 0 ≡ ok from_15
unfolding traverse
traverse_15 = refl

reversed_range : traverse_post_order (3 ∷ []) 15 16 ≡ err invalid_epoch_range
unfolding traverse_post_order
reversed_range = refl

-- Both ways down to epoch 15; backwards, the traversal stops there.
traverse_both_lem_example :
    (visit_all forward get_stored 3 4 from_15 ≡ some (second ∷ third ∷ []))
    × (visit_all backward get_stored 3 4
          (record { md = none; cursor = some (3 ∷ []); from_epoch = some 29; to_epoch = some 15 })
        ≡ some (second ∷ []))
unfolding traverse traverse_post_order
traverse_both_lem_example =
    traverse_both_lem get_stored 3 4 (1 ∷ []) (3 ∷ []) 15 0 15 29 from_15
      (record { md = none; cursor = some (3 ∷ []); from_epoch = some 29; to_epoch = some 15 })
      (first ∷ second ∷ third ∷ []) (third ∷ second ∷ first ∷ []) refl refl
      (linked refl (linked refl (linked refl ended)))
      (linked refl (linked refl (linked refl ended))) (omega arith, omega arith)
      (omega arith, omega arith)
