-- ===== src/Db/Keys/Scopes.antt =====
-- Which keys of server/db/keys.go fall under which scope.
use stor.Base.{
  ok-injective, append-injective_right, ℕ, ◌<◌, ◌^◌, ◌≡◌, ◌≢◌, ◌↔◌, refl, sym, ap, ◌∙◌, Bytes, [],
  ◌∷◌, ◌++◌, arith, some, ok, ◌>>=◌, put_le, get_le, get_le-put_le, has_prefix, true, All,
  length-put_le,
}
use mathlib.Core.List.{append_assoc, tail}
use stor.Db.Keys.{scoped_sequence_key, data_key, data_scope_key}

abbrev head_or : ℕ → Bytes → ℕ
head_or d [] = d
head_or d (x ∷ xs) = x

-- A label without the separator of the keys.
abbrev pub HasNoColon : Bytes → Type 0
HasNoColon = All (λ b. b ≢ b':')

pub has_prefix-append : (p s : Bytes) → has_prefix (p ++ s) p ≡ true
has_prefix-append [] [] = refl
has_prefix-append [] (y ∷ s) = refl
has_prefix-append (x ∷ p) s = ground (arith, has_prefix-append p s)

-- The scope of a label and what the store generates behind it make the object's key: the keys
-- that SetScoped returns are those that DataKey makes of their generated part.
pub data_key-data_scope_key :
    (label : Bytes) (gen_key : Bytes)
    → data_key (some label) (some gen_key)
      ≡ (data_scope_key (some label) >>= λ scope. ok (scope ++ gen_key))
unfolding data_key data_scope_key
data_key-data_scope_key label gen_key =
    ap (λ (t : Bytes). ok (b'd' ∷ b':' ∷ t)) (sym (append_assoc label (b':' ∷ []) gen_key))

separated :
    (a b x y : Bytes)
    → HasNoColon a
    → HasNoColon b
    → has_prefix (b ++ (b':' ∷ y)) (a ++ (b':' ∷ [])) ≡ true
    → a ≡ b
separated [] [] x y h k e = refl
separated [] (d ∷ b) x y h k e = absurd (ground (arith, k.0))
separated (c ∷ a) [] x y h k e = absurd (ground (arith, h.0))
separated (c ∷ a) (d ∷ b) x y h k e = ground (arith, separated a b x y h.1 k.1)

-- Of two labels without a colon, the objects of one are listed in the scope of the other only if
-- the labels are the same.
pub data_key-has_scope_iff :
    (a b gen_key : Bytes)
    → HasNoColon a
    → HasNoColon b
    → (scope key : Bytes) → data_scope_key (some a) ≡ ok scope
    → data_key (some b) (some gen_key) ≡ ok key
    → (has_prefix key scope ≡ true) ↔ (a ≡ b)
unfolding data_scope_key data_key
data_key-has_scope_iff a b gen_key h k scope key p q =
    rw (← ok-injective p, ← ok-injective q)
      (
        separated a b [] gen_key h k,
        λ same.
            rw (same, ← append_assoc b (b':' ∷ []) gen_key)
              (has_prefix-append (b ++ (b':' ∷ [])) gen_key),
      )

-- Two sequences of uint64 and two scopes give the same key only if they are the same.
pub scoped_sequence_key-injective :
    (s t : Bytes) (m n : ℕ)
    → m < 2 ^ 64
    → n < 2 ^ 64
    → scoped_sequence_key (some s) m ≡ scoped_sequence_key (some t) n
    → (s ≡ t) × (m ≡ n)
unfolding scoped_sequence_key
scoped_sequence_key-injective s t m n h k e =
    let (scopes, sequences) =
      append-injective_right s t (put_le 8 m) (put_le 8 n)
        (length-put_le 8 m ∙ sym (length-put_le 8 n)) (ok-injective e) in
    (scopes, sym (get_le-put_le 8 m h) ∙ (ap get_le sequences ∙ get_le-put_le 8 n k))

-- A label without a colon and what stands behind its colon can be read off the text.
pub label-injective :
    (a b x y : Bytes)
    → HasNoColon a
    → HasNoColon b
    → a ++ (b':' ∷ x) ≡ b ++ (b':' ∷ y)
    → (a ≡ b) × (x ≡ y)
label-injective [] [] x y h k e = (refl, cc)
label-injective [] (d ∷ b) x y h k e = absurd (k.0 (sym (ap (head_or 0) e)))
label-injective (c ∷ a) [] x y h k e = absurd (h.0 (ap (head_or 0) e))
label-injective (c ∷ a) (d ∷ b) x y h k e =
    let (labels, keys) = label-injective a b x y h.1 k.1 (ap tail e) in (cc, keys)
