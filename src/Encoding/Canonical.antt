-- ===== src/Encoding/Canonical.antt =====
-- server/encoding/encoding.go: which slices of bytes the decoders accept.
use stor.Base.{
  ok-injective, err-ne-ok, ◌≤◌, ◌<◌, ◌≡◌, ◌↔◌, ◌⊎◌, inl, inr, sym, ap, ◌∙◌, Bytes, AreBytes, IsByte,
  ◌++◌, arith, ok, err, ◌>>=◌, put_le, get_le, put_le-get_le, length, take, drop, length-take,
  length-drop, take-append-drop, All-take, Bool-cases, ltb, ==_iff, ne_nil_of_length-pos, ◌==◌,
  lt→ltb, tests,
}
use stor.ServerTypes.{Object}
use stor.Encoding.Checksum.{checksum}
use stor.Encoding.Forms.{packaged, checked, encode_object_lem, decode_object_lem, validate_data_lem}
use stor.Encoding.RoundTrip.{decode_object-encode_object}
use stor.Encoding.{
  invalid_data, invalid_checksum, no_data, encode_object, decode_object, validate_data,
}

decode_object_short : (slice : Bytes) → length slice < 5 → decode_object slice ≡ err invalid_data
unfolding decode_object
decode_object_short slice h = rw (lt→ltb (length slice) 5 h)

validate_data_short : (slice : Bytes) → length slice < 5 → validate_data slice ≡ err invalid_data
unfolding validate_data
validate_data_short slice h = rw (lt→ltb (length slice) 5 h)

length-take_4 : (slice : Bytes) → 5 ≤ length slice → length (take 4 slice) ≡ 4
length-take_4 slice h = omega (arith, length-take 4 slice)

-- A slice that is long enough, cut into the checksum and the blob.
decode_object_long :
    (slice : Bytes)
    → 5 ≤ length slice
    → decode_object slice
      ≡ checked (take 4 slice) (drop 4 slice) (record { content = drop 4 slice })
decode_object_long slice h = rw take-append-drop at (
    decode_object_lem (take 4 slice) (drop 4 slice) (length-take_4 slice h)
      (omega (arith, length-drop 4 slice)))

validate_data_long :
    (slice : Bytes)
    → 5 ≤ length slice
    → validate_data slice ≡ checked (take 4 slice) (drop 4 slice) tt
validate_data_long slice h = rw take-append-drop at (
    validate_data_lem (take 4 slice) (drop 4 slice) (length-take_4 slice h)
      (omega (arith, length-drop 4 slice)))

-- ValidateData answers as DecodeObject does, on every slice and with the same error.
pub validate_data-decode_object :
    (slice : Bytes) → validate_data slice ≡ (decode_object slice >>= λ obj. ok tt)
validate_data-decode_object slice = elim (Bool-cases (ltb (length slice) 5)) [
  | inl short ↦
      rw (validate_data_short slice (omega tests), decode_object_short slice (omega tests))
  | inr long ↦
      rw (validate_data_long slice (omega tests), decode_object_long slice (omega tests))
        (ground arith)
]

crc_bytes : (crc : Bytes) → length crc ≡ 4 → AreBytes crc → put_le 4 (get_le crc) ≡ crc
crc_bytes crc h k = rw h at (put_le-get_le crc k)

checked-ok {ℓ} :
    {A : Type ℓ} (crc blob : Bytes) (a b : A)
    → length crc ≡ 4
    → AreBytes crc
    → checked crc blob a ≡ ok b
    → (crc ++ blob ≡ packaged blob) × (a ≡ b)
checked-ok crc blob a b h k e = elim (Bool-cases (checksum blob == get_le crc)) [
  | inl same ↦ (
    ap (λ (c : Bytes). c ++ blob)
        (sym (crc_bytes crc h k)
          ∙ ap (put_le 4) (sym ((==_iff (checksum blob) (get_le crc)).0 same))),
    ok-injective (rw same at e),
  )
  | inr other ↦ absurd (err-ne-ok (rw other at e))
]

encode_object_empty : (obj : Object) → length obj.content ≡ 0 → encode_object obj ≡ err no_data
unfolding encode_object
encode_object_empty obj h = rw h

decoded→encoded_long :
    (slice : Bytes) (obj : Object)
    → AreBytes slice
    → 5 ≤ length slice
    → checked (take 4 slice) (drop 4 slice) (record { content = drop 4 slice }) ≡ ok obj
    → encode_object obj ≡ ok slice
decoded→encoded_long slice obj h l e =
    let (image, same) =
      checked-ok (take 4 slice) (drop 4 slice) _ obj (length-take_4 slice l)
        (All-take IsByte 4 slice h) e in
    rw (← same) (
      encode_object_lem _ (ne_nil_of_length-pos _ (omega (arith, length-drop 4 slice)))
      ∙ ap ok (sym image ∙ take-append-drop 4 slice))

decoded→encoded :
    (slice : Bytes) (obj : Object)
    → AreBytes slice
    → decode_object slice ≡ ok obj
    → encode_object obj ≡ ok slice
decoded→encoded slice obj h e = elim (Bool-cases (ltb (length slice) 5)) [
  | inl short ↦ absurd (err-ne-ok (rw (decode_object_short slice (omega tests)) at e))
  | inr long ↦
      decoded→encoded_long slice obj h (omega tests)
        (rw (decode_object_long slice (omega tests)) at e)
]

encoded→decoded :
    (slice : Bytes) (obj : Object) → encode_object obj ≡ ok slice → decode_object slice ≡ ok obj
encoded→decoded slice obj e = elim (Bool-cases (length obj.content == 0)) [
  | inl empty ↦
      absurd
        (err-ne-ok (rw (encode_object_empty obj ((==_iff (length obj.content) 0).0 empty)) at e))
  | inr full ↦
      rw e at (decode_object-encode_object obj (ne_nil_of_length-pos obj.content (ground arith)))
]

-- A slice of bytes is decoded to an object exactly when encoding the object gives the slice.
pub decode_object-ok_iff :
    (slice : Bytes) (obj : Object)
    → AreBytes slice
    → (decode_object slice ≡ ok obj) ↔ (encode_object obj ≡ ok slice)
decode_object-ok_iff slice obj h = (decoded→encoded slice obj h, encoded→decoded slice obj)

-- DecodeObject refuses a slice of less than five bytes as invalid; it decodes any other or reports
-- the checksum.
pub decode_object_total :
    (slice : Bytes)
    → ((length slice < 5) × (decode_object slice ≡ err invalid_data))
      ⊎ ((4 < length slice)
          × ((decode_object slice ≡ ok (record { content = drop 4 slice }))
              ⊎ (decode_object slice ≡ err invalid_checksum)))
decode_object_total slice = elim (Bool-cases (ltb (length slice) 5)) [
  | inl short ↦ inl (omega tests, decode_object_short slice (omega tests))
  | inr long ↦ inr (omega tests, rw (decode_object_long slice (omega tests)) (ground arith))
]
