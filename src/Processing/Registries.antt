-- ===== src/Processing/Registries.antt =====
-- client/processing (compression_type.go, encryption_type.go), client/datastor/pipeline/crypto/hash.go and
-- client/metastor/encoding/encode.go: the tables of constructors by type and by name. A name is in lower
-- case by the rules of ASCII. Constructors are never nil.
pub mod Laws
use stor.Base.{
  ℕ, ◌+◌, ◌/◌, ◌%◌, Bytes, bytes_eq, codes, List, [], ◌∷◌, Bool, ◌&&◌, ltb, leb, ◌==◌,
  if◌then◌else◌, map, length, Option, none, some, Result, ok, err, panic, ◌>>=◌, ◌>>◌, fail_if,
}

pub data Error : Type 0 where
  not_registered invalid_value invalid_string : Error

-- The three maps of a registry; `C` is the type of its constructors.
pub record Registry (C : Type 0) : Type 0 where
  pub names : ℕ → Option Bytes
  pub values : Bytes → Option ℕ
  pub constructors : ℕ → Option C

-- strings.ToLower
abbrev pub lower_byte : ℕ → ℕ
lower_byte b = if leb 65 b && leb b 90 then b + 32 else b

abbrev pub to_lower : Bytes → Bytes
to_lower [] = []
to_lower (b ∷ bytes) = lower_byte b ∷ to_lower bytes

-- fmt.Sprint of a uint8
abbrev pub decimal : ℕ → Bytes
decimal n =
    if ltb n 10
    then (48 + n) ∷ []
    else if ltb n 100
    then (48 + n / 10) ∷ (48 + n % 10) ∷ []
    else (48 + n / 100) ∷ (48 + n / 10 % 10) ∷ (48 + n % 10) ∷ []

-- String of the types of compression, encryption and hashing
abbrev pub string_or_number : ℕ → Option Bytes → Bytes
string_or_number t (some name) = name
string_or_number t none = decimal t

abbrev pub found_or : {A : Type 0} → Error → Option A → Result Error A
found_or e (some a) = ok a
found_or e none = err e

-- String of MarshalType
abbrev pub string_or_empty : Option Bytes → Bytes
string_or_empty (some name) = name
string_or_empty none = []

module _ {C : Type 0} where
  abbrev pub entered : Registry C → ℕ → Bytes → C → Registry C
  entered r t name c = record {
    names = λ u. if u == t then some name else r.names u;
    values = λ s. if bytes_eq s name then some t else r.values s;
    constructors = λ u. if u == t then some c else r.constructors u;
  }

  abbrev pub entered_as : Registry C → ℕ → Bytes → C → Option Bytes → Result Error (Registry C)
  entered_as r t str c (some name) = ok (entered r t name c)
  entered_as r t [] c none = panic
  entered_as r t (b ∷ str) c none = ok (entered r t (to_lower (b ∷ str)) c)

  -- RegisterCompressorDecompressor
  unfoldable pub register_compressor_decompressor :
      Registry C → ℕ → Bytes → C → Result Error (Registry C)
  register_compressor_decompressor r t str c = entered_as r t str c (r.names t)

  -- RegisterEncrypterDecrypter
  unfoldable pub register_encrypter_decrypter :
      Registry C → ℕ → Bytes → C → Result Error (Registry C)
  register_encrypter_decrypter r t str c = entered_as r t str c (r.names t)

  -- RegisterHasher
  unfoldable pub register_hasher : Registry C → ℕ → Bytes → C → Result Error (Registry C)
  register_hasher r t str c = entered_as r t str c (r.names t)

  -- RegisterMarshalFuncPair, which leaves the name as it is
  abbrev pub entered_unchanged :
      Registry C → ℕ → Bytes → C → Option Bytes → Result Error (Registry C)
  entered_unchanged r t str c (some name) = ok (entered r t name c)
  entered_unchanged r t [] c none = panic
  entered_unchanged r t (b ∷ str) c none = ok (entered r t (b ∷ str) c)

  unfoldable pub register_marshal_func_pair : Registry C → ℕ → Bytes → C → Result Error (Registry C)
  register_marshal_func_pair r t str c = entered_unchanged r t str c (r.names t)

  -- MarshalText of those types
  unfoldable pub marshal_type_text : Registry C → ℕ → Result Error Bytes
  marshal_type_text r t =
      let str = string_or_number t (r.names t) in fail_if (length str == 0) invalid_value >> ok str

  -- UnmarshalText of those types, whose default is 0
  unfoldable pub unmarshal_type_text : Registry C → Bytes → Result Error ℕ
  unmarshal_type_text r text =
      if length text == 0 then ok 0 else found_or invalid_string (r.values (to_lower text))

  -- MarshalText of MarshalType
  unfoldable pub marshal_type_marshal_text : Registry C → ℕ → Result Error Bytes
  marshal_type_marshal_text r t =
      let str = string_or_empty (r.names t) in fail_if (length str == 0) invalid_value >> ok str

  -- UnmarshalText of MarshalType
  unfoldable pub marshal_type_unmarshal_text : Registry C → Bytes → Result Error ℕ
  marshal_type_unmarshal_text r text = found_or invalid_string (r.values (to_lower text))

  -- NewMarshalFuncPair
  unfoldable pub new_marshal_func_pair : Registry C → ℕ → Result Error C
  new_marshal_func_pair r t = found_or not_registered (r.constructors t)

abbrev pub empty_registry : {C : Type 0} → Registry C
empty_registry = record { names = λ t. none; values = λ s. none; constructors = λ t. none }

-- The registrations of init, for the constructors of the standard types
unfoldable pub standard_compressions : {C : Type 0} → C → C → C → Result Error (Registry C)
standard_compressions snappy lz4 gzip =
    register_compressor_decompressor empty_registry 0 (codes "Snappy") snappy >>= λ r.
    register_compressor_decompressor r 1 (codes "LZ4") lz4 >>= λ r'.
    register_compressor_decompressor r' 2 (codes "GZip") gzip

unfoldable pub standard_encryptions : {C : Type 0} → C → Result Error (Registry C)
standard_encryptions aes = register_encrypter_decrypter empty_registry 0 (codes "aes") aes

unfoldable pub standard_hashes : {C : Type 0} → C → C → C → C → Result Error (Registry C)
standard_hashes blake2b_256 blake2b_512 sha_256 sha_512 =
    register_hasher empty_registry 0 (codes "blake2b_256") blake2b_256 >>= λ r.
    register_hasher r 1 (codes "blake2b_512") blake2b_512 >>= λ r'.
    register_hasher r' 2 (codes "sha_256") sha_256 >>= λ r''.
    register_hasher r'' 3 (codes "sha_512") sha_512

-- NewCompressorDecompressor, NewEncrypterDecrypter and NewHasher, up to the call of the constructor
unfoldable pub new_compressor_decompressor : {C : Type 0} → Registry C → ℕ → Result Error C
new_compressor_decompressor r t = found_or not_registered (r.constructors t)

unfoldable pub new_encrypter_decrypter : {C : Type 0} → Registry C → ℕ → Result Error C
new_encrypter_decrypter r t = found_or not_registered (r.constructors t)

unfoldable pub new_hasher : {C : Type 0} → Registry C → ℕ → Result Error C
new_hasher r t = found_or not_registered (r.constructors t)
