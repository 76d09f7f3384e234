-- ===== src/Tests/Tokens.antt =====
-- A cache of tokens with one bucket, whose LRU cache holds one entry, at concrete values.
use stor.Base.{
  ℕ, ◌+◌, ◌≤◌, ◌≡◌, inl, inr, refl, sym, Bytes, bytes_eq, bytes_eq→eq, [], ◌∷◌, Bool-cases, Option,
  some, none, none-ne-some, some-injective, if◌then◌else◌, ok, All, arith, ◌*◌,
}
use stor.Client.Tokens.{
  JwtTokenGetter, CachedJwtToken, Lru, min_ttl, second, bucket_jwt_token, cached_jwt_token,
}
use stor.Client.Tokens.Expiry.{IsLru, IsToken, IsSound, cached_jwt_token_lem}

-- The token of a namespace is its name; it expires after a hundred seconds.
abbrev small_getter : JwtTokenGetter (Unit {0})
small_getter = record {
  jwt_token = λ namespace w. (ok namespace, w);
  label = λ namespace. ok namespace;
  claims_from_jwt_token = λ token w. ok (some 100);
}

abbrev Entry : Type 0
Entry = Option (Bytes × CachedJwtToken)

abbrev entry_at : Bytes → Entry → Option CachedJwtToken
entry_at key none = none
entry_at key (some (key', t)) = if bytes_eq key key' then some t else none

abbrev entry_without : Bytes → Entry → Entry
entry_without key none = none
entry_without key (some (key', t)) = if bytes_eq key key' then none else some (key', t)

abbrev one_entry_lru : Lru
one_entry_lru = record {
  Cache = Entry;
  new_lru = λ size. none;
  get = λ key c. (entry_at key c, c);
  add = λ key t c. some (key, t);
  remove = entry_without;
}

entry_added :
    (key key' : Bytes) (t t' : CachedJwtToken)
    → entry_at key (some (key', t')) ≡ some t
    → (key ≡ key') × (t' ≡ t)
entry_added key key' t t' e = elim (Bool-cases (bytes_eq key key')) [
  | inl b ↦ (bytes_eq→eq key key' b, some-injective (rw b at e))
  | inr b ↦ absurd (none-ne-some (rw b at e))
]

entry_removed :
    (key key' : Bytes) (c : Entry) (t : CachedJwtToken)
    → entry_at key (entry_without key' c) ≡ some t
    → entry_at key c ≡ some t
entry_removed key key' none t e = e
entry_removed key key' (some (k, u)) t e = elim (Bool-cases (bytes_eq key' k)) [
  | inl b ↦ absurd (none-ne-some (rw b at e))
  | inr b ↦ rw b at e
]

one_entry_lru-IsLru : IsLru one_entry_lru
one_entry_lru-IsLru = record {
  get-get = λ key key' c t e. e;
  get-add = λ key key' c t t' e. inl (entry_added key key' t t' e);
  get-remove = entry_removed;
}

-- The token of another namespace is evicted.
abbrev cached_before : Entry
cached_before = some (5 ∷ [], record { token = 5 ∷ []; expiration_time = 100 * second })

cached_before-IsSound : IsSound small_getter one_entry_lru cached_before
cached_before-IsSound namespace t e =
    let (same, same_t) =
      entry_added namespace (5 ∷ []) t (record { token = 5 ∷ []; expiration_time = 100 * second })
        e in
    rw (sym same_t) (rw same (tt, tt, refl, refl))

cached_jwt_token_lem_example :
    All
      (IsSound small_getter one_entry_lru)
      (some (6 ∷ [], record { token = 6 ∷ []; expiration_time = 100 * second }) ∷ [])
    × ((exp : ℕ) × IsToken small_getter (6 ∷ []) (6 ∷ []) exp × (0 + min_ttl ≤ exp))
unfolding cached_jwt_token bucket_jwt_token
cached_jwt_token_lem_example =
    cached_jwt_token_lem small_getter one_entry_lru 0 1 (6 ∷ []) (λ namespace. 7)
      (cached_before ∷ [])
      (some (6 ∷ [], record { token = 6 ∷ []; expiration_time = 100 * second }) ∷ []) tt tt (6 ∷ [])
      one_entry_lru-IsLru (omega arith) (cached_before-IsSound, tt) refl
