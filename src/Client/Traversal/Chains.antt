-- ===== src/Client/Traversal/Chains.antt =====
-- client/client_linked_data.go: traversals of a chain of metadata that ends.
use stor.Base.{
  ℕ, zero, suc, ◌<◌, ◌≤◌, ◌≡◌, inl, inr, refl, ◌∙◌, Bytes, List, [], ◌∷◌, Option, none, some, Bool,
  true, false, Bool-cases, if◌then◌else◌, arith, length, Result, ok,
}
use stor.Client.Traversal.{
  Metadata, Error, Iterator, Direction, next_at, next, then_visit, visit_all,
}

-- The metadata that a link joins, from a key on, to the last one.
pub data Chain (link : Metadata → Option Bytes) (get : Bytes → Result Error Metadata)
    : Option Bytes → List Metadata → Type 0 where
  ended : Chain link get none []
  linked :
      {key : Bytes} {md : Metadata} {mds : List Metadata}
      → get key ≡ ok md
      → Chain link get (link md) mds
      → Chain link get (some key) (md ∷ mds)

-- Those before the first that ends the iteration, without those that are passed over.
abbrev pub in_range : Direction → Option ℕ → Option ℕ → List Metadata → List Metadata
in_range d from_epoch to_epoch [] = []
in_range d from_epoch to_epoch (md ∷ mds) =
    let rest = in_range d from_epoch to_epoch mds in
    if d.ends from_epoch to_epoch md
    then []
    else if d.skips from_epoch to_epoch md
    then rest
    else md ∷ rest

module _ (d : Direction) (get : Bytes → Result Error Metadata)
    (from_epoch to_epoch : Option ℕ) where
  abbrev at : Option Metadata → Option Bytes → Iterator
  at md cursor = record { md = md; cursor = cursor; from_epoch = from_epoch; to_epoch = to_epoch }

  -- What one call of Next does on a chain: it visits the first metadata in range, or there is none.
  data Moved (mds : List Metadata) : Option (Bool × Iterator) → Type 0 where
    exhausted :
        {it : Iterator} → in_range d from_epoch to_epoch mds ≡ [] → Moved mds (some (false, it))
    moved :
        {md : Metadata} {cursor : Option Bytes} {rest : List Metadata}
        → in_range d from_epoch to_epoch mds ≡ md ∷ in_range d from_epoch to_epoch rest
        → Chain d.link get cursor rest
        → length rest < length mds
        → Moved mds (some (true, at (some md) cursor))

  skip-Moved :
      (md : Metadata) (mds : List Metadata) (r : Option (Bool × Iterator))
      → in_range d from_epoch to_epoch (md ∷ mds) ≡ in_range d from_epoch to_epoch mds
      → Moved mds r
      → Moved (md ∷ mds) r
  skip-Moved md mds r e (exhausted f) = exhausted (e ∙ f)
  skip-Moved md mds r e (moved f c l) = moved (e ∙ f) c (omega arith)

  next_at-Moved :
      (fuel : ℕ) (cursor : Option Bytes) (mds : List Metadata) (current : Option Metadata)
      → Chain d.link get cursor mds
      → length mds ≤ fuel
      → Moved mds (next_at d get fuel cursor (at current cursor))
  unfolding next_at
  next_at-Moved fuel cursor mds current ended h = exhausted refl
  next_at-Moved zero cursor mds current (linked e c) h = absurd (omega arith)
  next_at-Moved (suc fuel) (some key) (md ∷ mds) current (linked e c) h =
      elim (Bool-cases (d.ends from_epoch to_epoch md)) [
        | inl a ↦ rw (e, a) (exhausted (rw a refl))
        | inr a ↦ elim (Bool-cases (d.skips from_epoch to_epoch md)) [
          | inl b ↦
              rw (e, a, b)
                (skip-Moved md mds (next_at d get fuel (d.link md) (at current (d.link md)))
                  (rw (a, b) refl) (next_at-Moved fuel (d.link md) mds current c (omega arith)))
          | inr b ↦ rw (e, a, b) (moved (rw (a, b) refl) c (omega arith))
        ]
      ]

  then_visit-Moved :
      (mds : List Metadata) (r : Option (Bool × Iterator))
      (more : Iterator → Option (List Metadata))
      → Moved mds r
      → ((md : Metadata) (cursor : Option Bytes) (rest : List Metadata)
          → Chain d.link get cursor rest
          → length rest < length mds
          → more (at (some md) cursor) ≡ some (in_range d from_epoch to_epoch rest))
      → then_visit r more ≡ some (in_range d from_epoch to_epoch mds)
  then_visit-Moved mds r more (exhausted e) k = rw e refl
  then_visit-Moved mds r more (moved {md = md} {cursor = cursor} {rest = rest} e c l) k =
      rw (k md cursor rest c l, e) refl

  visit_all-at :
      (rounds fuel : ℕ) (mds : List Metadata) (current : Option Metadata) (cursor : Option Bytes)
      → Chain d.link get cursor mds
      → length mds ≤ fuel
      → length mds < rounds
      → visit_all d get fuel rounds (at current cursor) ≡ some (in_range d from_epoch to_epoch mds)
  unfolding visit_all next
  visit_all-at zero fuel mds current cursor c h k = absurd (omega arith)
  visit_all-at (suc rounds) fuel mds current cursor c h k =
      then_visit-Moved mds (next_at d get fuel cursor (at current cursor))
        (λ it'. visit_all d get fuel rounds it') (next_at-Moved fuel cursor mds current c h)
        (λ md cursor' rest c' l.
          visit_all-at rounds fuel rest (some md) cursor' c' (omega arith) (omega arith))

-- Either iterator ends on a chain that ends, and visits what is in the range of its tests.
pub visit_all_lem :
    (d : Direction) (get : Bytes → Result Error Metadata) (it : Iterator) (mds : List Metadata)
    (fuel rounds : ℕ)
    → Chain d.link get it.cursor mds
    → length mds ≤ fuel
    → length mds < rounds
    → visit_all d get fuel rounds it ≡ some (in_range d it.from_epoch it.to_epoch mds)
visit_all_lem d get it mds fuel rounds c h k =
    visit_all-at d get it.from_epoch it.to_epoch rounds fuel mds it.md it.cursor c h k
