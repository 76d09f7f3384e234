-- ===== src/Client/Metastor/Updating.antt =====
-- client/metastor: what UpdateMetadata has stored when it returns no error, and what set_metadata stores.
use stor.Base.{
  [], ◌∷◌, arith, inr, inl, ◌==◌, pos→==_false, ◌∷◌, length, Bool-cases, ◌<◌, List, ◌≡◌, ◌≢◌, refl,
  sym, ap, ◌∙◌, Bytes, Result, ok, err, panic, ok-injective, err-ne-ok, panic-ne-ok,
}
use stor.Client.Traversal.{Metadata}
use stor.Client.Metastor.{
  updated, set_encoded, retried, update_metadata, update, set_metadata, get_metadata, committed,
  MetaError, MetaClient, new_metadata, lifted, with_stored, encoded, decoded, metadata_callback,
}

-- What the clients of a database rely on, and that decoding undoes encoding, into new metadata.
pub record IsMetastore {W : Type 0} (C : MetaClient W) : Type 0 where
  pub get-set :
      (key bytes : Bytes) (w w' : W)
      → C.database.set key bytes w ≡ (ok tt, w')
      → C.database.get key w' ≡ ok bytes
  pub get-set_other :
      (key key' bytes : Bytes) (w : W)
      → key ≢ key'
      → C.database.get key' (C.database.set key bytes w).1 ≡ C.database.get key' w
  pub decode-encode :
      (md : Metadata) (bytes : Bytes) → C.encode md ≡ ok bytes → C.decode bytes new_metadata ≡ ok md

pub lifted-ok :
    {E A : Type 0} (lift : MetaError → E) (r : Result MetaError A) (a : A)
    → lifted lift r ≡ ok a
    → r ≡ ok a
lifted-ok lift (ok b) a e = ap ok (ok-injective e)
lifted-ok lift (err x) a e = absurd (err-ne-ok e)
lifted-ok lift panic a e = absurd (panic-ne-ok e)

-- The metadata are encoded, and were stored last.
abbrev pub IsStoredLast : {W : Type 0} → MetaClient W → Bytes → Metadata → W → Type 0
IsStoredLast {W} C key md w' =
    (bytes : Bytes) × (C.encode md ≡ ok bytes)
    × (v : W) × (C.database.set key bytes v ≡ (ok tt, w'))

-- The metadata are encoded, and stored in the world `v`.
abbrev pub IsStoredFrom : {W : Type 0} → MetaClient W → Bytes → Metadata → W → W → Type 0
IsStoredFrom C key md v w' =
    (bytes : Bytes) × (C.encode md ≡ ok bytes) × (C.database.set key bytes v ≡ (ok tt, w'))

-- The metadata are what is decoded into the variable, from what is under the key.
abbrev pub IsFetched : {W : Type 0} → MetaClient W → Bytes → Metadata → Metadata → W → Type 0
IsFetched C key variable md w =
    (bytes : Bytes) × (C.database.get key w ≡ ok bytes) × (C.decode bytes variable ≡ ok md)

-- Before an attempt and after its callback, with the changes that others will make
module _ {W S E : Type 0} (C : MetaClient W) (lift : MetaError → E) (key : Bytes)
    (callback : Metadata → S × W → Result E Metadata × (S × W))
    (Before After : List (W → W) → Metadata → S → W → Type 0)
    (call : (changes : List (W → W)) (variable md md' : Metadata) (s s' : S) (w w' : W)
      → Before changes variable s w
      → IsFetched C key variable md w
      → callback md (s, w) ≡ (ok md', (s', w'))
      → After changes md' s' w')
    (again : (change : W → W) (changes : List (W → W)) (md : Metadata) (s : S) (w : W)
      → After (change ∷ changes) md s w
      → Before changes md s (change w)) where
  abbrev Outcome : Type 0
  Outcome = Result E (Unit {0}) × ((Metadata × S) × W)

  abbrev IsDone : Metadata → S → W → Type 0
  IsDone md s w = (v : W) × After [] md s v × IsStoredFrom C key md v w

  -- What an attempt does that ends in `end`
  module _ (changes : List (W → W)) (end : Result E Bytes × ((Metadata × S) × W) → Outcome)
      (end-err : (e : E) (x : (Metadata × S) × W) → (end (err e, x)).0 ≡ err e)
      (end-panic : (x : (Metadata × S) × W) → (end (panic, x)).0 ≡ panic) (md : Metadata) (s : S)
      (w : W)
      (end-ok : (bytes : Bytes) (md' : Metadata) (s' : S) (w' : W)
        → After changes md' s' w'
        → C.encode md' ≡ ok bytes
        → end (ok bytes, ((md', s'), w')) ≡ (ok tt, ((md, s), w))
        → IsDone md s w) where
    Goal : Type 0
    Goal = IsDone md s w

    encoded_end :
        (md' : Metadata) (s' : S) (w' : W) (r : Result MetaError Bytes)
        → After changes md' s' w'
        → C.encode md' ≡ r
        → end (lifted lift r, ((md', s'), w')) ≡ (ok tt, ((md, s), w))
        → Goal
    unfolding Goal
    encoded_end md' s' w' (ok bytes) a e f = end-ok bytes md' s' w' a e f
    encoded_end md' s' w' (err x) a e f =
        absurd (err-ne-ok (sym (end-err (lift x) ((md', s'), w')) ∙ ap (λ z. z.0) f))
    encoded_end md' s' w' panic a e f =
        absurd (panic-ne-ok (sym (end-panic ((md', s'), w')) ∙ ap (λ z. z.0) f))

    called_end :
        (old variable m : Metadata) (s₀ : S) (w₀ : W) (r : Result E Metadata × (S × W))
        → Before changes variable s₀ w₀
        → IsFetched C key variable m w₀
        → callback m (s₀, w₀) ≡ r
        → end (encoded C lift callback old r) ≡ (ok tt, ((md, s), w))
        → Goal
    called_end old variable m s₀ w₀ (ok md', (s', w')) b g e f =
        encoded_end md' s' w' (C.encode md') (call changes variable m md' s₀ s' w₀ w' b g e) refl f
    called_end old variable m s₀ w₀ (err x, (s', w')) b g e f =
        absurd (err-ne-ok (sym (end-err x ((old, s'), w')) ∙ ap (λ z. z.0) f))
    called_end old variable m s₀ w₀ (panic, (s', w')) b g e f =
        absurd (panic-ne-ok (sym (end-panic ((old, s'), w')) ∙ ap (λ z. z.0) f))

    decoded_end :
        (old : Metadata) (s₀ : S) (w₀ : W) (bytes : Bytes) (r : Result MetaError Metadata)
        → Before changes old s₀ w₀
        → C.database.get key w₀ ≡ ok bytes
        → C.decode bytes old ≡ r
        → end (decoded C lift callback r ((old, s₀), w₀)) ≡ (ok tt, ((md, s), w))
        → Goal
    decoded_end old s₀ w₀ bytes (ok m) b g d f =
        called_end m old m s₀ w₀ (callback m (s₀, w₀)) b (bytes, g, d) refl f
    decoded_end old s₀ w₀ bytes (err x) b g d f =
        absurd (err-ne-ok (sym (end-err (lift x) ((old, s₀), w₀)) ∙ ap (λ z. z.0) f))
    decoded_end old s₀ w₀ bytes panic b g d f =
        absurd (panic-ne-ok (sym (end-panic ((old, s₀), w₀)) ∙ ap (λ z. z.0) f))

    stored_end :
        (old : Metadata) (s₀ : S) (w₀ : W) (r : Result MetaError Bytes)
        → Before changes old s₀ w₀
        → C.database.get key w₀ ≡ r
        → with_stored C.database lift key
            (metadata_callback C lift callback)
            (λ bytes. end (metadata_callback C lift callback bytes ((old, s₀), w₀)))
            r
            ((old, s₀), w₀)
          ≡ (ok tt, ((md, s), w))
        → Goal
    stored_end old s₀ w₀ (ok bytes) b g f =
        decoded_end old s₀ w₀ bytes (C.decode bytes old) b g refl f
    stored_end old s₀ w₀ (err x) b g f = absurd (err-ne-ok (ap (λ z. z.0) f))
    stored_end old s₀ w₀ panic b g f = absurd (panic-ne-ok (ap (λ z. z.0) f))

  commit-ok :
      (md s' : Metadata × S) (bytes : Bytes) (w' w : W)
      → After [] s'.0 s'.1 w'
      → C.encode s'.0 ≡ ok bytes
      → committed C.database lift key (metadata_callback C lift callback) (ok bytes, (s', w'))
        ≡ (ok tt, (md, w))
      → IsDone md.0 md.1 w
  commit-ok md s' bytes w' w a e f =
      let same : s' ≡ md = ap (λ z. z.1.0) f in
      let set_ok = lifted-ok lift (C.database.set key bytes w').0 tt (ap (λ z. z.0) f) in
      let both : C.database.set key bytes w' ≡ (ok tt, w) = λ i. (set_ok i, ap (λ z. z.1.1) f i) in
      rw (sym same) (w', a, (bytes, e, both))

  update-stored :
      (changes : List (W → W)) (old md : Metadata) (s₀ s : S) (w₀ w : W)
      → Before changes old s₀ w₀
      → update C.database lift key (metadata_callback C lift callback) changes ((old, s₀), w₀)
        ≡ (ok tt, ((md, s), w))
      → IsDone md s w
  unfolding update Goal
  update-stored [] old md s₀ s w₀ w b e =
      stored_end [] (committed C.database lift key (metadata_callback C lift callback))
        (λ d x. refl) (λ x. refl) md s w
        (λ bytes md' s' w' a f g. commit-ok (md, s) (md', s') bytes w' w a f g) old s₀ w₀
        (C.database.get key w₀) b refl e
  update-stored (change ∷ changes) old md s₀ s w₀ w b e =
      let again_from = λ (sw : (Metadata × S) × W).
        update C.database lift key (metadata_callback C lift callback) changes sw in
      stored_end (change ∷ changes)
        (retried C.database lift key (metadata_callback C lift callback) change again_from)
        (λ d x. refl) (λ x. refl) md s w
        (λ bytes md' s' w' a f g.
          update-stored changes md' md s' s (change w') w (again change changes md' s' w' a) g)
        old s₀ w₀ (C.database.get key w₀) b refl e

  returned_update :
      (changes : List (W → W)) (md : Metadata) (s₀ s : S) (w₀ w : W) (r : Outcome)
      → Before changes new_metadata s₀ w₀
      → update C.database lift key
          (metadata_callback C lift callback)
          changes
          ((new_metadata, s₀), w₀)
        ≡ r
      → updated C lift callback r ≡ (ok md, (s, w))
      → IsDone md s w
  returned_update changes md s₀ s w₀ w (ok u, ((md', s'), w')) b e f =
      let same_md : md' ≡ md = ok-injective (ap (λ z. z.0) f) in
      let same_s : s' ≡ s = ap (λ z. z.1.0) f in
      let same_w : w' ≡ w = ap (λ z. z.1.1) f in
      rw (sym same_md, sym same_s, sym same_w)
        (update-stored changes new_metadata md' s₀ s' w₀ w' b e)
  returned_update changes md s₀ s w₀ w (err x, y) b e f = absurd (err-ne-ok (ap (λ z. z.0) f))
  returned_update changes md s₀ s w₀ w (panic, y) b e f = absurd (panic-ne-ok (ap (λ z. z.0) f))

  -- However often the update is tried again, what UpdateMetadata returns has come from the callback in a
  -- state that the attempts before have left, and is what is stored.
  pub update_metadata-stored :
      (changes : List (W → W)) (md : Metadata) (s₀ s : S) (w₀ w : W)
      → Before changes new_metadata s₀ w₀
      → update_metadata C lift callback key changes (s₀, w₀) ≡ (ok md, (s, w))
      → IsDone md s w
  unfolding update_metadata
  update_metadata-stored changes md s₀ s w₀ w b e = elim (Bool-cases (length key == 0)) [
    | inl t ↦ absurd (err-ne-ok (ap (λ z. z.0) (rw t at e)))
    | inr f ↦
        returned_update changes md s₀ s w₀ w
          (update C.database lift key (metadata_callback C lift callback) changes
            ((new_metadata, s₀), w₀))
          b refl (rw f at e)
  ]

-- What is stored last is what GetMetadata gives.
pub get_metadata-stored :
    {W : Type 0} (C : MetaClient W) (key : Bytes) (md : Metadata) (w : W)
    → IsMetastore C
    → 0 < length key
    → IsStoredLast C key md w
    → get_metadata C key w ≡ ok md
unfolding get_metadata
get_metadata-stored C key md w store some_key (bytes, e, v, f) =
    rw (pos→==_false (length key) some_key)
      (rw (store.get-set key bytes v w f) (store.decode-encode md bytes e))

encoded_set :
    {W : Type 0} (C : MetaClient W) (md : Metadata) (w w' : W) (r : Result MetaError Bytes)
    → C.encode md ≡ r
    → set_encoded C.database md.key r w ≡ (ok tt, w')
    → IsStoredFrom C md.key md w w'
encoded_set C md w w' (ok bytes) e f = (bytes, e, f)
encoded_set C md w w' (err x) e f = absurd (err-ne-ok (ap (λ z. z.0) f))
encoded_set C md w w' panic e f = absurd (panic-ne-ok (ap (λ z. z.0) f))

-- SetMetadata stores what it is given.
pub set_metadata-stored :
    {W : Type 0} (C : MetaClient W) (md : Metadata) (w w' : W)
    → set_metadata C md w ≡ (ok tt, w')
    → (0 < length md.key) × IsStoredFrom C md.key md w w'
unfolding set_metadata
set_metadata-stored C md w w' e = elim (Bool-cases (length md.key == 0)) [
  | inl t ↦ absurd (err-ne-ok (ap (λ z. z.0) (rw t at e)))
  | inr f ↦ (ground (arith, f), encoded_set C md w w' (C.encode md) refl (rw f at e))
]
