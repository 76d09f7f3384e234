-- ===== src/Client/Traversal/Ranges.antt =====
-- client/client_linked_data.go: what Traverse and TraversePostOrder visit between two epochs.
use stor.Base.{
  ℕ, zero, suc, ◌<◌, ◌≤◌, ◌≡◌, inl, inr, refl, sym, ap, ◌∙◌, Bytes, List, [], ◌∷◌, Option, none,
  some, Bool, true, not, ltb, leb, ◌==◌, Bool-cases, if◌then◌else◌, arith, length, Result, ok,
  ok-injective, err-ne-ok,
}
use stor.Client.Traversal.{
  Metadata, Error, Iterator, Direction, forward, backward, traverse, traverse_post_order, started,
  limit, below, above, is_reversed, visit_all,
}
use stor.Client.Traversal.Chains.{Chain, in_range, visit_all_lem}

-- The metadata before the first that is not accepted
abbrev pub taken : (Metadata → Bool) → List Metadata → List Metadata
taken accepted [] = []
taken accepted (md ∷ mds) = let rest = taken accepted mds in if accepted md then md ∷ rest else []

-- The metadata that are accepted
abbrev pub kept : (Metadata → Bool) → List Metadata → List Metadata
kept accepted [] = []
kept accepted (md ∷ mds) = let rest = kept accepted mds in if accepted md then md ∷ rest else rest

-- Created at the epoch or after it; epoch 0 accepts all.
abbrev pub created_from : ℕ → Metadata → Bool
created_from epoch md = leb epoch md.creation_epoch

-- Created at the epoch or before it; epoch 0 stands for no limit.
abbrev pub created_until : ℕ → Metadata → Bool
created_until zero md = true
created_until (suc epoch) md = leb md.creation_epoch (suc epoch)

ltb-leb : (m n : ℕ) → ltb m n ≡ not (leb n m)
ltb-leb m n = ground arith

above-created_from :
    (epoch : ℕ) (md : Metadata)
    → above (limit epoch) md.creation_epoch ≡ not (created_from epoch md)
above-created_from zero md = ground arith
above-created_from (suc epoch) md = ltb-leb md.creation_epoch (suc epoch)

below-created_until :
    (epoch : ℕ) (md : Metadata)
    → below (limit epoch) md.creation_epoch ≡ not (created_until epoch md)
below-created_until zero md = refl
below-created_until (suc epoch) md = ltb-leb (suc epoch) md.creation_epoch

module _ (d : Direction) (from_epoch to_epoch : Option ℕ) (before skipping : Metadata → Bool)
    (ends : (md : Metadata) → d.ends from_epoch to_epoch md ≡ not (before md))
    (skips : (md : Metadata) → d.skips from_epoch to_epoch md ≡ not (skipping md)) where
  in_range-kept :
      (mds : List Metadata) → in_range d from_epoch to_epoch mds ≡ kept skipping (taken before mds)
  in_range-kept [] = refl
  in_range-kept (md ∷ mds) = elim (Bool-cases (before md)) [
    | inr a ↦ rw (ends md, a) refl
    | inl a ↦ elim (Bool-cases (skipping md)) [
      | inl b ↦ rw (ends md, skips md, a, b) (rw (in_range-kept mds) refl)
      | inr b ↦ rw (ends md, skips md, a, b) (rw (in_range-kept mds) refl)
    ]
  ]

started_lem :
    (start_key : Bytes) (reversed : Bool) (from_epoch to_epoch : ℕ) (it : Iterator)
    → started start_key reversed from_epoch to_epoch ≡ ok it
    → it ≡ record {
      md = none;
      cursor = some start_key;
      from_epoch = limit from_epoch;
      to_epoch = limit to_epoch;
    }
started_lem start_key reversed from_epoch to_epoch it e =
    elim (Bool-cases (length start_key == 0)) [
      | inl t ↦ absurd (err-ne-ok (rw t at e))
      | inr f ↦ elim (Bool-cases reversed) [
        | inl t ↦ absurd (err-ne-ok (rw (f, t) at e))
        | inr g ↦ sym (ok-injective (rw (f, g) at e))
      ]
    ]

module _ (get : Bytes → Result Error Metadata) (start_key : Bytes) (from_epoch to_epoch : ℕ)
    (it : Iterator) (mds : List Metadata) (fuel rounds : ℕ) (enough : length mds ≤ fuel)
    (enough_rounds : length mds < rounds) where
  traverse_lem :
      traverse start_key from_epoch to_epoch ≡ ok it
      → Chain (λ md. md.next_key) get (some start_key) mds
      → visit_all forward get fuel rounds it
        ≡ some (kept (created_from from_epoch) (taken (created_until to_epoch) mds))
  unfolding traverse
  traverse_lem e c =
      let same =
        started_lem start_key (is_reversed (limit to_epoch) (limit from_epoch)) from_epoch to_epoch
          it e in
      rw same (
        visit_all_lem forward get _ mds fuel rounds c enough enough_rounds
        ∙ ap some (
            in_range-kept forward (limit from_epoch) (limit to_epoch) (created_until to_epoch)
              (created_from from_epoch) (below-created_until to_epoch)
              (above-created_from from_epoch) mds))

  traverse_post_order_lem :
      traverse_post_order start_key from_epoch to_epoch ≡ ok it
      → Chain (λ md. md.previous_key) get (some start_key) mds
      → visit_all backward get fuel rounds it
        ≡ some (kept (created_until from_epoch) (taken (created_from to_epoch) mds))
  unfolding traverse_post_order
  traverse_post_order_lem e c =
      let same =
        started_lem start_key (is_reversed (limit from_epoch) (limit to_epoch)) from_epoch to_epoch
          it e in
      rw same (
        visit_all_lem backward get _ mds fuel rounds c enough enough_rounds
        ∙ ap some (
            in_range-kept backward (limit from_epoch) (limit to_epoch) (created_from to_epoch)
              (created_until from_epoch) (above-created_from to_epoch)
              (below-created_until from_epoch) mds))

-- Both iterators end on a chain that ends, and visit its metadata in their order: the iterator of Traverse,
-- along the next keys, visits those before the first that was created after toEpoch, if that is not 0,
-- without those that were created before fromEpoch; the iterator of TraversePostOrder, along the previous
-- keys, those before the first that was created before toEpoch, without those that were created after
-- fromEpoch, if that is not 0.
pub traverse_both_lem :
    (get : Bytes → Result Error Metadata) (fuel rounds : ℕ) (first last : Bytes)
    (early late early' late' : ℕ) (it it' : Iterator) (mds mds' : List Metadata)
    → traverse first early late ≡ ok it
    → traverse_post_order last late' early' ≡ ok it'
    → Chain (λ md. md.next_key) get (some first) mds
    → Chain (λ md. md.previous_key) get (some last) mds'
    → (length mds ≤ fuel) × (length mds' ≤ fuel)
    → (length mds < rounds) × (length mds' < rounds)
    → (visit_all forward get fuel rounds it
        ≡ some (kept (created_from early) (taken (created_until late) mds)))
      × (visit_all backward get fuel rounds it'
          ≡ some (kept (created_until late') (taken (created_from early') mds')))
traverse_both_lem get fuel rounds first last early late early' late' it it' mds mds' e e' c c' f r =
    (
      traverse_lem get first early late it mds fuel rounds f.0 r.0 e c,
      traverse_post_order_lem get last late' early' it' mds' fuel rounds f.1 r.1 e' c',
    )
