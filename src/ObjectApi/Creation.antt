-- ===== src/ObjectApi/Creation.antt =====
-- What a successful CreateObject has done.
use stor.Base.{
  ◌≡◌, ◌≢◌, refl, Bytes, [], ◌∷◌, ◌++◌, some, Result, ok, err, panic, arith, length, drop, inl, inr,
  Bool-cases, ◌==◌, List, ne_nil_of_length-pos,
}
use stor.Encoding
use stor.Encoding.{encode_object}
use stor.Db.Types.{Error, Database}
use stor.Db.Keys.{data_scope_key}
use stor.ObjectApi.{RpcError, create_object, store_encoded, created, nil_data, extract_label}

abbrev pub scope_of : Bytes → Bytes
scope_of label = b'd' ∷ b':' ∷ (label ++ (b':' ∷ []))

pub scope_of_lem : (label : Bytes) → data_scope_key (some label) ≡ ok (scope_of label)
unfolding data_scope_key
scope_of_lem label = refl

module _ (D : Database) where
  -- The full key and the encoded value of an object that has been created.
  pub record IsCreated (label content key : Bytes) (s s' : D.State) : Type 0 where
    pub encoded : Bytes
    pub full : Bytes
    pub has_data : content ≢ []
    pub is_encoded : encode_object (record { content = content }) ≡ ok encoded
    pub is_stored : (D.set_scoped (some (scope_of label)) encoded s).0 ≡ ok full
    pub is_key : key ≡ drop (length (scope_of label)) full
    pub is_state : s' ≡ (D.set_scoped (some (scope_of label)) encoded s).1

  created-ok :
      (scope key : Bytes) (s' : D.State) (p : Result Error Bytes × D.State)
      → created D scope p ≡ (ok key, s')
      → (full : Bytes) × (p.0 ≡ ok full) × (key ≡ drop (length scope) full) × (s' ≡ p.1)
  unfolding created
  created-ok scope key s' (ok full, s) e = (full, refl, cc, cc)
  created-ok scope key s' (err d, s) e = absurd (cc)
  created-ok scope key s' (panic, s) e = absurd (cc)

  store_encoded-ok :
      (label content key : Bytes) (s s' : D.State) (e : Result Encoding.Error Bytes)
      → content ≢ []
      → encode_object (record { content = content }) ≡ e
      → store_encoded D (data_scope_key (some label)) e s ≡ (ok key, s')
      → IsCreated label content key s s'
  unfolding store_encoded data_scope_key
  store_encoded-ok label content key s s' (ok encoded) n q h =
      let (full, stored, keyed, state) = created-ok (scope_of label) key s' _ h in
      record {
        encoded = encoded;
        full = full;
        has_data = n;
        is_encoded = q;
        is_stored = stored;
        is_key = keyed;
        is_state = state;
      }
  store_encoded-ok label content key s s' (err d) n q h = absurd (cc)
  store_encoded-ok label content key s s' panic n q h = absurd (cc)

  pub create_object-IsCreated :
      (label content key : Bytes) (rest : List Bytes) (s s' : D.State)
      → create_object D (some (label ∷ rest)) content s ≡ (ok key, s')
      → IsCreated label content key s s'
  unfolding create_object extract_label
  create_object-IsCreated label content key rest s s' h = elim (Bool-cases (length content == 0)) [
    | inl empty ↦ absurd (ne_of_err (rw empty at h))
    | inr full ↦
        store_encoded-ok label content key s s' _ (ne_nil_of_length-pos content (ground arith)) refl
          (rw full at h)
  ]
    where
      ne_of_err : ◌≡◌ {A = Result RpcError Bytes × D.State} (err nil_data, s) (ok key, s') → ⊥
      ne_of_err e = cc
