-- ===== src/Client/Metastor/Once.antt =====
-- client/metastor: UpdateMetadata with a callback that does its work once, however often it is called, as
-- those of Repair and WriteLinked.
use stor.Base.{
  [], ◌∷◌, arith, ◌⊎◌, inr, inl, length, ◌<◌, ◌≤◌, List, ◌≡◌, refl, ◌∙◌, Bytes, Result, ok,
}
use stor.Client.Traversal.{Metadata}
use stor.Client.Metastor.{MetaError, MetaClient, new_metadata, update_metadata}
use stor.Client.Metastor.Updating.{IsFetched, IsStoredFrom, update_metadata-stored}

-- The world after the changes of others, in their order
abbrev pub after_changes : {W : Type 0} → List (W → W) → W → W
after_changes [] w = w
after_changes (change ∷ changes) w = after_changes changes (change w)

-- The world that the last attempt begins in, if the first begins in `w` and its callback ends in `v`
abbrev pub last_seen : {W : Type 0} → List (W → W) → W → W → W
last_seen [] w v = w
last_seen (change ∷ changes) w v = after_changes (change ∷ changes) v

-- What the metadata are decoded into is new, or what the callback returned at an earlier attempt, whose
-- edit is given.
abbrev pub IsVariable : (Metadata → Metadata) → Metadata → Type 0
IsVariable edited variable =
    (variable ≡ new_metadata) ⊎ ((earlier : Metadata) × (variable ≡ edited earlier))

last_seen-some :
    {W : Type 0} (changes : List (W → W)) (w v : W)
    → 0 < length changes
    → after_changes changes v ≡ last_seen changes w v
last_seen-some [] w v h = absurd (omega arith)
last_seen-some (change ∷ changes) w v h = refl

-- The callback does its work in the first attempt, which leaves the state `fresh`, and only edits the
-- metadata in the later ones.
module _ {W S E : Type 0} (C : MetaClient W) (lift : MetaError → E) (key : Bytes)
    (callback : Metadata → S × W → Result E Metadata × (S × W)) (fresh : S) (changes : List (W → W))
    (w : W) (Did : S → W → Type 0) (edit : Metadata → S → Metadata)
    (first : (md md' : Metadata) (s : S) (v : W)
      → IsFetched C key new_metadata md w
      → callback md (fresh, w) ≡ (ok md', (s, v))
      → Did s v × (md' ≡ edit md s))
    (later : (md md' : Metadata) (s s' : S) (v u u' : W)
      → Did s v
      → callback md (s, u) ≡ (ok md', (s', u'))
      → (s' ≡ s) × (u' ≡ u) × (md' ≡ edit md s)) where
  abbrev Before : List (W → W) → Metadata → S → W → Type 0
  Before rest variable s u =
      ((rest ≡ changes) × (variable ≡ new_metadata) × (s ≡ fresh) × (u ≡ w))
      ⊎ ((v : W) × Did s v
          × (after_changes rest u ≡ after_changes changes v)
          × (length rest < length changes)
          × IsVariable (λ earlier. edit earlier s) variable)

  -- The metadata that the callback has edited
  abbrev IsEdited : List (W → W) → W → Metadata → S → Type 0
  IsEdited rest v md s =
      (latest : Metadata) × (variable : Metadata) × IsVariable (λ earlier. edit earlier s) variable
      × (u : W) × IsFetched C key variable latest u
      × (md ≡ edit latest s)
      × (rest ≡ [] → u ≡ last_seen changes w v)

  abbrev After : List (W → W) → Metadata → S → W → Type 0
  After rest md s u' =
      (v : W) × Did s v
      × (after_changes rest u' ≡ after_changes changes v)
      × (length rest ≤ length changes)
      × IsEdited rest v md s

  first_seen : (v : W) → changes ≡ [] → w ≡ last_seen changes w v
  first_seen v e = rw e refl

  later_seen :
      (rest : List (W → W)) (u v : W)
      → after_changes rest u ≡ after_changes changes v
      → length rest < length changes
      → rest ≡ []
      → u ≡ last_seen changes w v
  later_seen rest u v same lt e = (rw e at same) ∙ last_seen-some changes w v (omega arith)

  call-After :
      (rest : List (W → W)) (variable md md' : Metadata) (s s' : S) (u u' : W)
      → Before rest variable s u
      → IsFetched C key variable md u
      → callback md (s, u) ≡ (ok md', (s', u'))
      → After rest md' s' u'
  call-After rest variable md md' s s' u u' (inl (all, new, unused, start)) fetched e =
      let (did, edited) =
        first md md' s' u' (rw (new, start) at fetched) (rw (unused, start) at e) in
      rw all (
        u',
        did,
        refl,
        omega arith,
        (md, new_metadata, inl refl, w, (rw (new, start) at fetched), edited, first_seen u'),
      )
  call-After rest variable md md' s s' u u' (inr (v, did, same, lt, var)) fetched e =
      let (same_s, same_u, edited) = later md md' s s' v u u' did e in
      rw (same_s, same_u)
        (
          v,
          did,
          same,
          omega (arith, lt),
          (md, variable, var, u, fetched, edited, later_seen rest u v same lt),
        )

  again-Before :
      (change : W → W) (rest : List (W → W)) (md : Metadata) (s : S) (u : W)
      → After (change ∷ rest) md s u
      → Before rest md s (change u)
  again-Before change rest md s u
        (v, did, same, le, (latest, variable, var, u', fetched, edited, seen)) =
      inr (v, did, same, omega (arith, le), inr (latest, edited))

  -- The callback has done its work in the world of the first attempt, and the metadata that are stored, after
  -- all the changes of others, are those under the key at the last attempt, edited.
  pub update_metadata-once :
      (md : Metadata) (s : S) (w' : W)
      → update_metadata C lift callback key changes (fresh, w) ≡ (ok md, (s, w'))
      → (v : W) × Did s v
        × (latest : Metadata) × (variable : Metadata) × IsVariable
            (λ earlier. edit earlier s)
            variable
        × IsFetched C key variable latest (last_seen changes w v)
        × (md ≡ edit latest s)
        × IsStoredFrom C key md (after_changes changes v) w'
  update_metadata-once md s w' e =
      let (u', (v, did, same, le, (latest, variable, var, u, fetched, edited, seen)), stored) =
        update_metadata-stored C lift key callback Before After call-After again-Before changes md
          fresh s w w' (inl (refl, refl, refl, refl)) e in
      (v, did, latest, variable, var, (rw (seen refl) at fetched), edited, (rw same at stored))
