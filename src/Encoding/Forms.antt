-- ===== src/Encoding/Forms.antt =====
-- The closed form of each encoder and decoder of server/encoding/encoding.go.
use stor.Base.{
  ℕ, ◌<◌, ◌≡◌, ◌≢◌, refl, Bytes, [], ◌++◌, arith, ◌==◌, length, replicate, Result, if◌then◌else◌,
  ok, err, ◌>>=◌, put_le, get_le, take-append_left, drop-append_left, length-append, Bool-cases,
  ==_iff, length-pos, inl, inr,
}
use mathlib.Core.List.{append-nil}
use stor.ServerTypes.{Object, Namespace, StoreStat}
use stor.Encoding.Checksum.{checksum}
use stor.Encoding.Buffer.{WriteBuffer, new_write_buffer, binary_write}
use stor.Encoding.Numbers.{
  write_number_lem, read_number_exact, read_number_lem, open_view_lem, binary_write_lem,
}
use stor.Encoding.{
  package_data, unpackage_data, encode_object, decode_object, encode_namespace, decode_namespace,
  encode_store_stat, decode_store_stat, validate_data, invalid_checksum, Error, write_number,
  written,
}

-- A blob behind its checksum.
abbrev pub packaged : Bytes → Bytes
packaged blob = put_le 4 (checksum blob) ++ blob

-- The outcome of a decoder: the value, if the stored bytes are the blob's checksum.
abbrev pub checked {ℓ} : {A : Type ℓ} → Bytes → Bytes → A → Result Error A
checked crc blob a = if checksum blob == get_le crc then ok a else err invalid_checksum

-- What packageData makes: the checksum, and the blob as it is.
pub package_data_lem :
    (crc blob : Bytes) → length crc ≡ 4 → package_data (crc ++ blob) ≡ ok (packaged blob)
unfolding package_data
package_data_lem crc blob h =
    rw (drop-append_left 4 crc blob h, take-append_left 4 crc blob h)
      (rw (write_number_lem 4 (checksum blob) crc (omega arith) h))

-- Of the four bytes and the blob behind them: the blob, if the bytes are its checksum.
pub unpackage_data_lem :
    (crc blob : Bytes) → length crc ≡ 4 → unpackage_data (crc ++ blob) ≡ checked crc blob blob
unfolding unpackage_data
unpackage_data_lem crc blob h =
    rw (drop-append_left 4 crc blob h, take-append_left 4 crc blob h)
      (rw (open_view_lem crc (omega arith))
        (rw (read_number_exact 4 crc (omega arith) h) (ground arith)))

pub encode_object_lem :
    (obj : Object) → obj.content ≢ [] → encode_object obj ≡ ok (packaged obj.content)
unfolding encode_object
encode_object_lem obj h =
    ground (arith, length-pos obj.content h, package_data_lem (replicate 4 0) obj.content refl)

pub decode_object_lem :
    (crc blob : Bytes)
    → length crc ≡ 4
    → 0 < length blob
    → decode_object (crc ++ blob) ≡ checked crc blob (record { content = blob })
unfolding decode_object
decode_object_lem crc blob h k =
    rw (unpackage_data_lem crc blob h) (ground (arith, length-append crc blob))

pub validate_data_lem :
    (crc blob : Bytes)
    → length crc ≡ 4
    → 0 < length blob
    → validate_data (crc ++ blob) ≡ checked crc blob tt
unfolding validate_data
validate_data_lem crc blob h k =
    rw (drop-append_left 4 crc blob h, take-append_left 4 crc blob h)
      (rw (open_view_lem crc (omega arith))
        (rw (read_number_exact 4 crc (omega arith) h) (ground (arith, length-append crc blob))))

reserved_field_lem :
    (r : ℕ)
    → ◌≡◌ {A = Result Error Bytes}
        (if r == 0 then ok (replicate 8 0) else write_number 8 r (replicate 8 0))
        (ok (put_le 8 r))
unfolding put_le
reserved_field_lem r = elim (Bool-cases (r == 0)) [
  | inl z ↦ rw ((==_iff r 0).0 z)
  | inr nz ↦ rw nz (write_number_lem 8 r (replicate 8 0) (omega arith) refl)
]

pub encode_namespace_lem :
    (ns : Namespace)
    → ns.label ≢ []
    → encode_namespace ns ≡ ok (packaged (put_le 8 ns.reserved ++ ns.label))
unfolding encode_namespace
encode_namespace_lem ns h = rw (reserved_field_lem ns.reserved) (
    rw (package_data_lem (replicate 4 0) (put_le 8 ns.reserved ++ ns.label) refl)
      (ground (arith, length-pos ns.label h)))

pub decode_namespace_lem :
    (crc reserved label : Bytes)
    → length crc ≡ 4
    → length reserved ≡ 8
    → 0 < length label
    → decode_namespace (crc ++ (reserved ++ label))
      ≡ checked crc (reserved ++ label) (record { reserved = get_le reserved; label = label })
unfolding decode_namespace
decode_namespace_lem crc reserved label h k l = rw (unpackage_data_lem crc (reserved ++ label) h) (
    ground (
      arith,
      length-append crc (reserved ++ label),
      length-append reserved label,
      take-append_left 8 reserved label k,
      drop-append_left 8 reserved label k,
      open_view_lem reserved (omega arith),
      read_number_exact 8 reserved (omega arith) k,
    ))

both_fields_lem :
    (a u : ℕ)
    → written (do
      buf ← new_write_buffer (replicate 16 0)
      buf' ← binary_write 8 a buf
      binary_write 8 u buf')
      ≡ ok (put_le 8 a ++ put_le 8 u)
unfolding new_write_buffer
both_fields_lem a u =
    rw (binary_write_lem 8 a fresh (omega arith) (omega arith))
      (rw (binary_write_lem 8 u half (omega arith) (omega arith)) (rw append-nil))
  where
    fresh : WriteBuffer
    fresh = record { done = []; buf = replicate 16 0; len = 16; offset = 0 }

    half : WriteBuffer
    half = record { done = put_le 8 a; buf = replicate 8 0; len = 16; offset = 8 }

pub encode_store_stat_lem :
    (stats : StoreStat)
    → encode_store_stat stats
      ≡ ok (packaged (put_le 8 stats.size_available ++ put_le 8 stats.size_used))
unfolding encode_store_stat
encode_store_stat_lem stats =
    rw (both_fields_lem stats.size_available stats.size_used)
      (package_data_lem (replicate 4 0) _ refl)

pub decode_store_stat_lem :
    (crc available used : Bytes)
    → length crc ≡ 4
    → length available ≡ 8
    → length used ≡ 8
    → decode_store_stat (crc ++ (available ++ used))
      ≡ checked crc
          (available ++ used)
          (record { size_available = get_le available; size_used = get_le used })
unfolding decode_store_stat
decode_store_stat_lem crc available used h k l = rw (unpackage_data_lem crc (available ++ used) h) (
    ground (
      arith,
      length-append crc (available ++ used),
      length-append available used,
      open_view_lem (available ++ used) (omega (arith, length-append available used)),
      read_number_lem 8 16 available used (omega arith) k (omega arith),
      read_number_exact 8 used (omega arith) l,
    ))
