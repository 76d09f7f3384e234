-- ===== src/ObjectApi/Lifecycle.antt =====
-- What a client of the object service sees of its objects, over any database that keeps the laws.
use stor.Base.{
  err-ne-ok, ◌≡◌, ◌≢◌, refl, sym, ap, ◌∙◌, inl, inr, Bytes, [], ◌∷◌, ◌++◌, some, Result, ok, err,
  panic, arith, length, drop, ok-injective, bytes_eq, bytes_eq_refl, bytes_eq_iff, drop-append_left,
  List, false, Bool-cases, length-pos, ◌==◌,
}
use mathlib.Core.List.{append_assoc}
use stor.Encoding.{encode_object, decode_object}
use stor.Encoding.RoundTrip.{decode_object-encode_object}
use stor.Db.Types.{Error, Database}
use stor.Db.Keys.{data_key}
use stor.Db.Keys.Scopes.{HasNoColon, label-injective}
use stor.Db.Laws.{StoreLaws}
use stor.ObjectApi.{
  extract_label, or_database, get_at, delete_at, RpcError, key_not_found, create_object, get_object,
  delete_object, request_key, fetched, decoded, Metadata,
}
use stor.ObjectApi.Creation.{scope_of, IsCreated, create_object-IsCreated}

abbrev full_key : Bytes → Bytes → Bytes
full_key label key = b'd' ∷ b':' ∷ (label ++ (b':' ∷ key))

full_key_lem : (label key : Bytes) → scope_of label ++ key ≡ full_key label key
full_key_lem label key = ap (λ (t : Bytes). b'd' ∷ b':' ∷ t) (append_assoc label (b':' ∷ []) key)

-- A request that names a label and a key gets the full key.
request_key_lem :
    (label key : Bytes) (rest : List Bytes)
    → key ≢ []
    → request_key (some (label ∷ rest)) key ≡ ok (ok (full_key label key))
unfolding request_key extract_label data_key
request_key_lem label key rest h = ground (arith, length-pos key h)

module _ (D : Database) where
  get_object_lem :
      (md : Metadata) (key full : Bytes) (s : D.State)
      → request_key md key ≡ ok (ok full)
      → get_object D md key s ≡ fetched (D.get (some full) s)
  unfolding get_object get_at
  get_object_lem md key full s h = rw (h, get_object)

  -- A request reads the same in two states that agree on its full key.
  get_at_same :
      (r : Result RpcError (Result Error Bytes)) (s s' : D.State)
      → ((full : Bytes) → r ≡ ok (ok full) → D.get (some full) s' ≡ D.get (some full) s)
      → get_at D r s' ≡ get_at D r s
  unfolding get_at
  get_at_same (ok (ok full)) s s' h = ap fetched (h full refl)
  get_at_same (ok (err d)) s s' h = refl
  get_at_same (ok panic) s s' h = refl
  get_at_same (err d) s s' h = refl
  get_at_same panic s s' h = refl

  -- A deletion that succeeds has deleted the value under the full key.
  delete_at-ok :
      (r : Result RpcError (Result Error Bytes)) (s s' : D.State)
      → delete_at D r s ≡ (ok tt, s')
      → (full : Bytes) × (r ≡ ok (ok full))
        × (or_database (D.delete (some full) s).0 ≡ ok tt)
        × (s' ≡ (D.delete (some full) s).1)
  unfolding delete_at
  delete_at-ok (ok (ok full)) s s' h = (full, refl, ap (λ p. p.0) h, ap (λ p. p.1) (sym h))
  delete_at-ok (ok (err d)) s s' h = absurd (cc)
  delete_at-ok (ok panic) s s' h = absurd (cc)
  delete_at-ok (err d) s s' h = absurd (cc)
  delete_at-ok panic s s' h = absurd (cc)

or_database-ok : (r : Result Error (Unit {0})) → or_database r ≡ ok tt → r ≡ ok tt
unfolding or_database
or_database-ok (ok a) h = refl
or_database-ok (err e) h = cc
or_database-ok panic h = cc

decode_stored :
    (content encoded : Bytes)
    → content ≢ []
    → encode_object (record { content = content }) ≡ ok encoded
    → decode_object encoded ≡ ok (record { content = content })
decode_stored content encoded h e =
    rw e at (decode_object-encode_object (record { content = content }) h)

-- The full keys of two namespaces differ.
other_key :
    (label other key j : Bytes) (more : List Bytes) (full f : Bytes)
    → HasNoColon label
    → HasNoColon other
    → label ≢ other
    → full ≡ full_key label key
    → request_key (some (other ∷ more)) j ≡ ok (ok f)
    → bytes_eq full f ≡ false
unfolding request_key extract_label data_key
other_key label other key j more full f h k ne e r = elim (Bool-cases (length j == 0)) [
  | inl empty ↦ absurd (err-ne-ok (rw empty at r))
  | inr named ↦ elim (Bool-cases (bytes_eq full f)) [
    | inr other_keys ↦ other_keys
    | inl same ↦
        let f_key : full_key other j ≡ f = ok-injective (ok-injective (rw named at r)) in
        let keys = sym e ∙ ((bytes_eq_iff full f).0 same ∙ sym f_key) in
        absurd (ne ((label-injective label other key j h k (ap (λ (t : Bytes). drop 2 t) keys)).0))
  ]
]

module _ (D : Database) (laws : StoreLaws D) where
  created_key :
      (label content key : Bytes) (s s' : D.State)
      → (c : IsCreated D label content key s s') → (c.full ≡ full_key label key) × (key ≢ [])
  created_key label content key s s' c =
      let (gen, split, ne) = laws.stored_key (scope_of label) c.full c.encoded s c.is_stored in
      let same : key ≡ gen =
        c.is_key
        ∙ (ap (drop (length (scope_of label))) split
            ∙ drop-append_left _ (scope_of label) gen refl) in
      (
        split ∙ (ap (◌++◌ (scope_of label)) (sym same) ∙ full_key_lem label key),
        λ e. ne (sym same ∙ e),
      )

  -- An object that CreateObject has stored is what GetObject answers for the key that was returned.
  pub get_object-create_object :
      (label content key : Bytes) (rest : List Bytes) (s s' : D.State)
      → create_object D (some (label ∷ rest)) content s ≡ (ok key, s')
      → get_object D (some (label ∷ rest)) key s' ≡ ok content
  unfolding fetched decoded
  get_object-create_object label content key rest s s' h =
      let c = create_object-IsCreated D label content key rest s s' h in
      let (full, ne) = created_key label content key s s' c in
      let stored : D.get (some (full_key label key)) s' ≡ ok c.encoded =
        rw (c.is_state, ← full)
          (laws.get_stored (scope_of label) c.full c.full c.encoded s c.is_stored
            ∙ rw bytes_eq_refl) in
      rw (get_object_lem D _ key _ s' (request_key_lem label key rest ne))
        (rw stored (rw (decode_stored content c.encoded c.has_data c.is_encoded)))

  -- What an object of another namespace reads as does not change, if neither label has a colon.
  pub get_object-create_object_other :
      (label other content key j : Bytes) (rest more : List Bytes) (s s' : D.State)
      → HasNoColon label
      → HasNoColon other
      → label ≢ other
      → create_object D (some (label ∷ rest)) content s ≡ (ok key, s')
      → get_object D (some (other ∷ more)) j s' ≡ get_object D (some (other ∷ more)) j s
  unfolding get_object
  get_object-create_object_other label other content key j rest more s s' h k ne e =
      let c = create_object-IsCreated D label content key rest s s' e in
      let (full, _) = created_key label content key s s' c in
      get_at_same D _ s s' λ f r. rw c.is_state (
        laws.get_stored (scope_of label) c.full f c.encoded s c.is_stored
        ∙ rw (other_key label other key j more c.full f h k ne full r))

  -- After a DeleteObject that succeeds, GetObject does not find the object.
  pub get_object-delete_object :
      (md : Metadata) (key : Bytes) (s s' : D.State)
      → delete_object D md key s ≡ (ok tt, s')
      → get_object D md key s' ≡ err key_not_found
  unfolding delete_object fetched
  get_object-delete_object md key s s' h =
      let (full, named, done, state) = delete_at-ok D (request_key md key) s s' h in
      get_object_lem D md key full s' named
      ∙ rw (state, laws.get_deleted full full s (or_database-ok _ done)) (rw bytes_eq_refl)
