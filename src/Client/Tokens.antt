-- ===== src/Client/Tokens.antt =====
-- client/datastor/jwt.go: the cache of JWT tokens, over a getter of tokens and the LRU cache of
-- github.com/hashicorp/golang-lru/simplelru. Times are nanoseconds; a call looks at the clock twice, at `now`
-- and at `later`. The checksum that chooses a bucket, crc32.ChecksumIEEE, is an argument. A call holds the
-- lock of its bucket, and is one step.
pub mod Expiry
use stor.Base.{
  ℕ, ◌+◌, ◌*◌, ◌%◌, Bytes, codes, List, [], ◌∷◌, ◌++◌, Bool, leb, ltb, ◌==◌, if◌then◌else◌, length,
  replicate, set, get_elem?, Option, none, some, Result, ok, err, panic, ◌>>=◌, ◌>>◌, fail_if,
}

pub data TokenError : Type 0 where
  no_organization no_namespace invalid_expiration about_to_expire invalid_bucket_count : TokenError
  getter_error : ℕ → TokenError

-- JWTTokenGetter; of the claims of a token only "exp" is looked at, which is `none` if it is no number.
pub record JwtTokenGetter (W : Type 0) : Type 0 where
  pub jwt_token : Bytes → W → Result TokenError Bytes × W
  pub label : Bytes → Result TokenError Bytes
  pub claims_from_jwt_token : Bytes → W → Result TokenError (Option ℕ)

-- JWTTokenGetterUsingIYOClient, for CreateJWT with all permissions and the parser of tokens
unfoldable pub jwt_token_getter_using_iyo_client :
    {W : Type 0}
    → Bytes
    → (Bytes → W → Result TokenError Bytes × W)
    → (Bytes → W → Result TokenError (Option ℕ))
    → Result TokenError (JwtTokenGetter W)
jwt_token_getter_using_iyo_client organization create_jwt parse =
    fail_if (length organization == 0) no_organization
    >> ok (record {
      jwt_token = create_jwt;
      label = λ namespace.
          fail_if (length namespace == 0) no_namespace
          >> ok (organization ++ codes "_0stor_" ++ namespace);
      claims_from_jwt_token = parse;
    })

pub record CachedJwtToken : Type 0 where
  pub token : Bytes
  pub expiration_time : ℕ

-- simplelru.LRU: Get may change the order of the entries, and Add may evict one.
pub record Lru : Type 1 where
  pub Cache : Type 0
  pub new_lru : ℕ → Cache
  pub get : Bytes → Cache → Option CachedJwtToken × Cache
  pub add : Bytes → CachedJwtToken → Cache → Cache
  pub remove : Bytes → Cache → Cache

abbrev pub second : ℕ
second = 1000000000

-- jwtTokenCacheMinTTLInSeconds
abbrev pub min_ttl : ℕ
min_ttl = 30 * second

-- `exp, ok := claims["exp"].(float64)`
abbrev pub expiration_of : Result TokenError (Option ℕ) → Result TokenError ℕ
expiration_of (ok (some exp)) = ok (exp * second)
expiration_of (ok none) = err invalid_expiration
expiration_of (err e) = err e
expiration_of panic = panic

module _ {W : Type 0} (G : JwtTokenGetter W) (L : Lru) (now later : ℕ) (namespace : Bytes) where
  abbrev pub Answer : Type 0
  Answer = Result TokenError Bytes × (L.Cache × W)

  -- `if time.Until(exp).Seconds() < jwtTokenCacheMinTTLInSeconds { … }`
  abbrev pub accepted : Bytes → Result TokenError ℕ → L.Cache → W → Answer
  accepted token (ok exp) c w =
      if ltb exp (later + min_ttl)
      then (err about_to_expire, (c, w))
      else (ok token, (L.add namespace (record { token = token; expiration_time = exp }) c, w))
  accepted token (err e) c w = (err e, (c, w))
  accepted token panic c w = (panic, (c, w))

  abbrev pub fetched : Result TokenError Bytes × W → L.Cache → Answer
  fetched (ok token, w) c = accepted token (expiration_of (G.claims_from_jwt_token token w)) c w
  fetched (err e, w) c = (err e, (c, w))
  fetched (panic, w) c = (panic, (c, w))

  -- `if v, ok := b.cache.Get(namespace); ok { … }`
  abbrev pub looked_up : Option CachedJwtToken × L.Cache → W → Answer
  looked_up (none, c) w = fetched (G.jwt_token namespace w) c
  looked_up (some t, c) w =
      if leb (now + min_ttl) t.expiration_time
      then (ok t.token, (c, w))
      else fetched (G.jwt_token namespace w) (L.remove namespace c)

  -- GetJWTToken of a bucket
  unfoldable pub bucket_jwt_token : L.Cache → W → Answer
  bucket_jwt_token c w = looked_up (L.get namespace c) w

  abbrev pub in_buckets : List L.Cache → ℕ → Answer → Result TokenError Bytes × (List L.Cache × W)
  in_buckets buckets index (r, (c, w)) = (r, (set buckets index c, w))

  -- An index out of bounds is a panic.
  abbrev pub at_bucket :
      List L.Cache → ℕ → Option L.Cache → W → Result TokenError Bytes × (List L.Cache × W)
  at_bucket buckets index (some c) w = in_buckets buckets index (bucket_jwt_token c w)
  at_bucket buckets index none w = (panic, (buckets, w))

  -- GetJWTToken of the cache
  unfoldable pub cached_jwt_token :
      (Bytes → ℕ) → List L.Cache → W → Result TokenError Bytes × (List L.Cache × W)
  cached_jwt_token checksum buckets w =
      let index = checksum namespace % length buckets in
      at_bucket buckets index (get_elem? buckets index) w

-- CachedJWTTokenGetter: the buckets. A count or a size that is 0 or less is 0.
unfoldable pub new_buckets : (L : Lru) → ℕ → ℕ → Result TokenError (List L.Cache)
new_buckets L bucket_count bucket_size =
    let count = if bucket_count == 0 then 16 else bucket_count in
    let size = if bucket_size == 0 then 256 else bucket_size in
    fail_if (ltb 4294967295 bucket_count) invalid_bucket_count
    >> ok (replicate count (L.new_lru size))
