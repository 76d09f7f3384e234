-- ===== src/Tests/Encoding.antt =====
-- The codec of server/encoding at concrete values.
use stor.Encoding.RoundTrip.{
  decode_store_stat-encode_store_stat, decode_object-encode_object,
  decode_namespace-encode_namespace,
}
use stor.Encoding.Canonical.{validate_data-decode_object, decode_object_total, decode_object-ok_iff}
use mathlib.Core.Path.{◌≡◌, refl}
use stor.Base.{arith, drop, ◌⊎◌, [], err, ◌↔◌, ◌^◌, ◌<◌, ◌≢◌, length, ◌>>=◌, Bytes, ◌∷◌, ok, codes}
use stor.ServerTypes.{Namespace, StoreStat, Object}
use stor.Encoding.{
  invalid_data, invalid_checksum, decode_namespace, decode_store_stat, decode_object,
  encode_store_stat, validate_data, encode_namespace, encode_object, codec,
}

abbrev hello : Object
hello = record { content = codes "hello" }

abbrev encoded_hello : Bytes
encoded_hello = 190 ∷ 215 ∷ 228 ∷ 196 ∷ codes "hello"

encoded : encode_object hello ≡ ok encoded_hello
unfolding codec
encoded = refl

-- One byte of the data has changed.
flipped : decode_object (190 ∷ 215 ∷ 228 ∷ 196 ∷ codes "hallo") ≡ err invalid_checksum
unfolding codec
flipped = refl

too_short : validate_data (190 ∷ 215 ∷ 228 ∷ 196 ∷ []) ≡ err invalid_data
unfolding codec
too_short = refl

hello_ne_nil : codes "hello" ≢ []
hello_ne_nil e = cc

decode_object-encode_object_example : (encode_object hello >>= decode_object) ≡ ok hello
decode_object-encode_object_example = decode_object-encode_object hello hello_ne_nil

abbrev namespace : Namespace
namespace = record { reserved = 1024; label = codes "hello" }

decode_namespace-encode_namespace_test :
    (encode_namespace namespace >>= decode_namespace) ≡ ok namespace
decode_namespace-encode_namespace_test =
    decode_namespace-encode_namespace namespace hello_ne_nil (omega arith)

abbrev stat : StoreStat
stat = record { size_available = 2 ^ 40; size_used = 77 }

decode_store_stat-encode_store_stat_test : (encode_store_stat stat >>= decode_store_stat) ≡ ok stat
decode_store_stat-encode_store_stat_test =
    decode_store_stat-encode_store_stat stat (omega arith) (omega arith)

decode_object-ok_iff_example :
    (decode_object encoded_hello ≡ ok hello) ↔ (encode_object hello ≡ ok encoded_hello)
decode_object-ok_iff_example = decode_object-ok_iff encoded_hello hello (omega arith)

decode_object_total_test :
    ((length encoded_hello < 5) × (decode_object encoded_hello ≡ err invalid_data))
    ⊎ ((4 < length encoded_hello)
        × ((decode_object encoded_hello ≡ ok (record { content = drop 4 encoded_hello }))
            ⊎ (decode_object encoded_hello ≡ err invalid_checksum)))
decode_object_total_test = decode_object_total encoded_hello

validate_data-decode_object_example :
    validate_data encoded_hello ≡ (decode_object encoded_hello >>= λ obj. ok tt)
validate_data-decode_object_example = validate_data-decode_object encoded_hello
