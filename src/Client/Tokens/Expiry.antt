-- ===== src/Client/Tokens/Expiry.antt =====
-- client/datastor/jwt.go: the tokens that the cache gives.
use stor.Base.{
  All-set, ap, length, All-get_elem?, ◌%◌, get_elem?, All, List, ℕ, ◌+◌, ◌≤◌, ◌≡◌, ◌⊎◌, inl, inr,
  refl, sym, Bytes, leb, leb→le, ltb, ltb_false→le, Bool-cases, Option, none, some, Result, ok, err,
  panic, ok-injective, err-ne-ok, panic-ne-ok, arith,
}
use stor.Client.Tokens.{
  at_bucket, cached_jwt_token, TokenError, JwtTokenGetter, CachedJwtToken, Lru, min_ttl,
  expiration_of, Answer, accepted, fetched, looked_up, bucket_jwt_token,
}

-- What a cache gives has been added under the key, and is given until it is evicted or removed.
pub record IsLru (L : Lru) : Type 0 where
  pub get-get :
      (key key' : Bytes) (c : L.Cache) (t : CachedJwtToken)
      → (L.get key (L.get key' c).1).0 ≡ some t
      → (L.get key c).0 ≡ some t
  pub get-add :
      (key key' : Bytes) (c : L.Cache) (t t' : CachedJwtToken)
      → (L.get key (L.add key' t' c)).0 ≡ some t
      → ((key ≡ key') × (t' ≡ t)) ⊎ ((L.get key c).0 ≡ some t)
  pub get-remove :
      (key key' : Bytes) (c : L.Cache) (t : CachedJwtToken)
      → (L.get key (L.remove key' c)).0 ≡ some t
      → (L.get key c).0 ≡ some t

module _ {W : Type 0} (G : JwtTokenGetter W) where
  -- The getter has given the token for the namespace, and its claims said when it expires.
  abbrev pub IsToken : Bytes → Bytes → ℕ → Type 0
  IsToken namespace token exp =
      (w : W) × (w' : W) × (G.jwt_token namespace w ≡ (ok token, w'))
      × (expiration_of (G.claims_from_jwt_token token w') ≡ ok exp)

  -- All that the cache gives are tokens of their namespaces.
  abbrev pub IsSound : (L : Lru) → L.Cache → Type 0
  IsSound L c =
      (namespace : Bytes) (t : CachedJwtToken)
      → (L.get namespace c).0 ≡ some t
      → IsToken namespace t.token t.expiration_time

  module _ (L : Lru) (lru : IsLru L) (now later : ℕ) (order : now ≤ later) (namespace : Bytes) where
    -- What a call that has the answer `a` promises
    abbrev Promise : Answer G L now later namespace → Type 0
    Promise a =
        IsSound L a.1.0
        × ((token : Bytes)
            → a.0 ≡ ok token
            → (exp : ℕ) × IsToken namespace token exp × (now + min_ttl ≤ exp))

    broken_off :
        (r : Result TokenError Bytes) (c : L.Cache) (w : W)
        → ((token : Bytes) → r ≡ ok token → ⊥)
        → IsSound L c
        → Promise (r, (c, w))
    broken_off r c w no_token sound = (sound, λ token e. absurd (no_token token e))

    added :
        (token : Bytes) (exp : ℕ) (c : L.Cache)
        → IsToken namespace token exp
        → IsSound L c
        → IsSound L (L.add namespace (record { token = token; expiration_time = exp }) c)
    added token exp c is_token sound other t e =
        elim (lru.get-add other namespace c t (record { token = token; expiration_time = exp }) e) [
          | inl (same, same_t) ↦ rw (sym same_t) (rw same is_token)
          | inr f ↦ sound other t f
        ]

    accepted-Promise :
        (token : Bytes) (r : Result TokenError ℕ) (c : L.Cache) (v w : W)
        → G.jwt_token namespace v ≡ (ok token, w)
        → expiration_of (G.claims_from_jwt_token token w) ≡ r
        → IsSound L c
        → Promise (accepted G L now later namespace token r c w)
    accepted-Promise token (ok exp) c v w e f sound =
        elim (Bool-cases (ltb exp (later + min_ttl))) [
          | inl t ↦ rw t (sound, λ token e. absurd (err-ne-ok e))
          | inr t ↦ rw t (
            added token exp c (v, w, e, f) sound,
            λ token' g.
                let known : IsToken namespace token exp = (v, w, e, f) in
                (
                  exp,
                  rw (ok-injective g) at known,
                  omega (arith, order, ltb_false→le exp (later + min_ttl) t),
                ),
          )
        ]
    accepted-Promise token (err x) c v w e f sound =
        broken_off (err x) c w (λ token. err-ne-ok) sound
    accepted-Promise token panic c v w e f sound = broken_off panic c w (λ token. panic-ne-ok) sound

    fetched-Promise :
        (v : W) (r : Result TokenError Bytes × W) (c : L.Cache)
        → G.jwt_token namespace v ≡ r
        → IsSound L c
        → Promise (fetched G L now later namespace r c)
    fetched-Promise v (ok token, w) c e sound =
        accepted-Promise token (expiration_of (G.claims_from_jwt_token token w)) c v w e refl sound
    fetched-Promise v (err x, w) c e sound = broken_off (err x) c w (λ token. err-ne-ok) sound
    fetched-Promise v (panic, w) c e sound = broken_off panic c w (λ token. panic-ne-ok) sound

    looked_up-Promise :
        (c : L.Cache) (o : Option CachedJwtToken) (w : W)
        → ((t : CachedJwtToken) → o ≡ some t → IsToken namespace t.token t.expiration_time)
        → IsSound L c
        → Promise (looked_up G L now later namespace (o, c) w)
    looked_up-Promise c none w known sound =
        fetched-Promise w (G.jwt_token namespace w) c refl sound
    looked_up-Promise c (some t) w known sound =
        elim (Bool-cases (leb (now + min_ttl) t.expiration_time)) [
          | inl b ↦ rw b (
            sound,
            λ token e. (
              t.expiration_time,
              rw (ok-injective e) at (known t refl),
              leb→le (now + min_ttl) t.expiration_time b,
            ),
          )
          | inr b ↦ rw b (
              fetched-Promise w (G.jwt_token namespace w) (L.remove namespace c) refl
                (λ other u f. sound other u (lru.get-remove other namespace c u f)))
        ]

    bucket-Promise :
        (c : L.Cache) (w : W) → IsSound L c → Promise (bucket_jwt_token G L now later namespace c w)
    unfolding bucket_jwt_token
    bucket-Promise c w sound =
        looked_up-Promise (L.get namespace c).1 (L.get namespace c).0 w (λ t. sound namespace t)
          (λ other t e. sound other t (lru.get-get other namespace c t e))

    at_bucket-Promise :
        (buckets buckets' : List L.Cache) (index : ℕ) (o : Option L.Cache) (w w' : W)
        (token : Bytes)
        → get_elem? buckets index ≡ o
        → All (IsSound L) buckets
        → at_bucket G L now later namespace buckets index o w ≡ (ok token, (buckets', w'))
        → All (IsSound L) buckets'
          × ((exp : ℕ) × IsToken namespace token exp × (now + min_ttl ≤ exp))
    at_bucket-Promise buckets buckets' index (some c) w w' token e sound f =
        let (kept, gives) =
          bucket-Promise c w (All-get_elem? (IsSound L) buckets index c sound e) in
        (
          rw (ap (λ z. z.1.0) f) at (
              All-set (IsSound L) buckets index (bucket_jwt_token G L now later namespace c w).1.0
                kept sound),
          gives token (ap (λ z. z.0) f),
        )
    at_bucket-Promise buckets buckets' index none w w' token e sound f =
        absurd (panic-ne-ok (ap (λ z. z.0) f))

-- When the cache of tokens returns a token for a namespace, the getter has given the token for that
-- namespace, now or before, and its claims said that it expires no less than half a minute after the call;
-- the cache then still holds such tokens only, if it did before the call, over an LRU cache that gives
-- only what has been added under the key.
pub cached_jwt_token_lem :
    {W : Type 0} (G : JwtTokenGetter W) (L : Lru) (now later : ℕ) (namespace : Bytes)
    (checksum : Bytes → ℕ) (buckets buckets' : List L.Cache) (w w' : W) (token : Bytes)
    → IsLru L
    → now ≤ later
    → All (IsSound G L) buckets
    → cached_jwt_token G L now later namespace checksum buckets w ≡ (ok token, (buckets', w'))
    → All (IsSound G L) buckets'
      × ((exp : ℕ) × IsToken G namespace token exp × (now + min_ttl ≤ exp))
unfolding cached_jwt_token
cached_jwt_token_lem G L now later namespace checksum buckets buckets' w w' token lru order sound
      e =
    let index = checksum namespace % length buckets in
    at_bucket-Promise G L lru now later order namespace buckets buckets' index
      (get_elem? buckets index) w w' token refl sound e
