-- ===== src/Processing/Registries/Laws.antt =====
-- client/processing and client/datastor/pipeline/crypto: the names that types are registered under.
use stor.Base.{
  true-ne-false, pos→==_false, ℕ, ◌<◌, ◌≡◌, refl, sym, ap, ◌∙◌, Bytes, bytes_eq, bytes_eq_refl,
  bytes_eq→eq, [], ◌∷◌, Bool-cases, inl, inr, ◌==◌, ==_iff, length, Option, none, some,
  some-injective, ok, ok-injective, panic-ne-ok, arith,
}
use stor.Processing.Registries.{
  Registry, lower_byte, to_lower, entered, entered_as, register_compressor_decompressor,
  marshal_type_text, unmarshal_type_text,
}

lower_byte_idempotent : (b : ℕ) → lower_byte (lower_byte b) ≡ lower_byte b
lower_byte_idempotent b = ground arith

to_lower_idempotent : (s : Bytes) → to_lower (to_lower s) ≡ to_lower s
to_lower_idempotent [] = refl
to_lower_idempotent (b ∷ s) =
    rw (lower_byte_idempotent b) (ap (◌∷◌ (lower_byte b)) (to_lower_idempotent s))

-- Every type that has a name is found under it, in lower case.
abbrev pub IsConsistent : {C : Type 0} → Registry C → Type 0
IsConsistent r =
    (t : ℕ) (name : Bytes)
    → r.names t ≡ some name
    → (r.values name ≡ some t) × (to_lower name ≡ name) × (0 < length name)

module _ {C : Type 0} (r : Registry C) (consistent : IsConsistent r) (t : ℕ) (c : C) where
  entered-IsConsistent :
      (name : Bytes)
      → to_lower name ≡ name
      → 0 < length name
      → ((u : ℕ) → r.values name ≡ some u → u ≡ t)
      → IsConsistent (entered r t name c)
  entered-IsConsistent name low some_name own u s e = elim (Bool-cases (u == t)) [
    | inl b ↦
        let same : name ≡ s = some-injective (rw b at e) in
        rw (sym same) (rw (bytes_eq_refl name) (ap some (sym ((==_iff u t).0 b))), low, some_name)
    | inr b ↦
        let (found, low', some_name') = consistent u s (rw b at e) in
        (
          elim (Bool-cases (bytes_eq s name)) [
            | inl q ↦
                let same = bytes_eq→eq s name q in
                absurd (true-ne-false (u == t) ((==_iff u t).1 (own u (rw same at found))) b)
            | inr q ↦ rw q found
          ],
          low',
          some_name',
        )
  ]

  entered_as-IsConsistent :
      (str : Bytes) (r' : Registry C) (o : Option Bytes)
      → ((u : ℕ) → r.values (to_lower str) ≡ some u → u ≡ t)
      → r.names t ≡ o
      → entered_as r t str c o ≡ ok r'
      → IsConsistent r'
  entered_as-IsConsistent str r' (some name) own e f =
      let (found, low, some_name) = consistent t name e in
      rw (sym (ok-injective f))
        (entered-IsConsistent name low some_name (λ u g. some-injective (sym g ∙ found)))
  entered_as-IsConsistent [] r' none own e f = absurd (panic-ne-ok f)
  entered_as-IsConsistent (b ∷ str) r' none own e f =
      rw (sym (ok-injective f)) (
        entered-IsConsistent (to_lower (b ∷ str)) (to_lower_idempotent (b ∷ str)) (omega arith) own)

-- RegisterCompressorDecompressor keeps every name of a type in lower case, not empty and found as that
-- type, if the name is not that of another type.
pub register-IsConsistent :
    {C : Type 0} (r r' : Registry C) (t : ℕ) (str : Bytes) (c : C)
    → IsConsistent r
    → ((u : ℕ) → r.values (to_lower str) ≡ some u → u ≡ t)
    → register_compressor_decompressor r t str c ≡ ok r'
    → IsConsistent r'
unfolding register_compressor_decompressor
register-IsConsistent r r' t str c consistent own e =
    entered_as-IsConsistent r consistent t c str r' (r.names t) own refl e

-- The text of a type that is registered is that of no other type: it is read as the type.
pub unmarshal-marshal_type_text :
    {C : Type 0} (r : Registry C) (t : ℕ) (name text : Bytes)
    → IsConsistent r
    → r.names t ≡ some name
    → marshal_type_text r t ≡ ok text
    → unmarshal_type_text r text ≡ ok t
unfolding marshal_type_text unmarshal_type_text
unmarshal-marshal_type_text r t name text consistent e f =
    let (found, low, some_name) = consistent t name e in
    let same : name ≡ text = ok-injective (rw (e, pos→==_false (length name) some_name) at f) in
    rw (sym same) (rw (pos→==_false (length name) some_name) (rw (low, found) refl))
