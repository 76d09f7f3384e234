-- ===== src/Encoding.antt =====
-- server/encoding/encoding.go: objects, namespaces and store statistics as raw bytes behind a
-- CRC32 checksum.
pub mod Checksum
pub mod Buffer
mod Numbers
pub mod Forms
pub mod RoundTrip
pub mod Canonical
use stor.Base.{
  ℕ, ◌+◌, Bytes, [], ◌++◌, ltb, ◌==◌, not, if◌then◌else◌, length, take, drop, replicate, Result, ok,
  err, panic, fail_if, ◌>>=◌, ◌>>◌, Option, none, some,
}
use stor.ServerTypes.{Object, Namespace, StoreStat}
use Checksum.{checksum}
use Buffer.{
  IoError, WriteBuffer, ReadBuffer, new_write_buffer, new_read_buffer, binary_write, binary_read,
  memory,
}

pub data Error : Type 0 where
  invalid_checksum invalid_data no_data no_label : Error

abbrev pub checksum_size : ℕ
checksum_size = 4

-- A writer whose error the source does not look at. It can only panic.
abbrev pub written : Result IoError WriteBuffer → Result Error Bytes
written (ok zab) = ok (memory zab)
written (err e) = panic
written panic = panic

-- `buf := newZeroAllocWriteBuffer(view); binary.Write(buf, LittleEndian, v)`: the memory of the
-- view after it
unfoldable pub write_number : ℕ → ℕ → Bytes → Result Error Bytes
unfolding new_write_buffer binary_write
write_number k v view = written (new_write_buffer view >>= binary_write k v)

-- A number read with the error ignored keeps its zero value when the read fails.
abbrev pub number_read :
    Result IoError (ℕ × ReadBuffer) → ReadBuffer → Result Error (ℕ × ReadBuffer)
number_read (ok r) before = ok r
number_read (err e) before = ok (0, before)
number_read panic before = panic

abbrev pub opened : Result IoError ReadBuffer → Result Error ReadBuffer
opened (ok zab) = ok zab
opened (err e) = panic
opened panic = panic

unfoldable pub read_number : ℕ → ReadBuffer → Result Error (ℕ × ReadBuffer)
unfolding binary_read
read_number k zab = number_read (binary_read k zab) zab

unfoldable pub open_view : Bytes → Result Error ReadBuffer
unfolding new_read_buffer
open_view view = opened (new_read_buffer view)

-- packageData: the slice after its first four bytes have been overwritten
unfoldable pub package_data : Bytes → Result Error Bytes
package_data data' = do
  let blob = drop checksum_size data'
  crc ← write_number 4 (checksum blob) (take checksum_size data')
  ok (crc ++ blob)

-- unpackageData
unfoldable pub unpackage_data : Bytes → Result Error Bytes
unpackage_data data' = do
  let blob = drop checksum_size data'
  buf ← open_view (take checksum_size data')
  (packaged_crc, buf') ← read_number 4 buf
  fail_if (not (checksum blob == packaged_crc)) invalid_checksum
  ok blob

unfoldable pub encode_object : Object → Result Error Bytes
encode_object obj = do
  fail_if (length obj.content == 0) no_data
  package_data (replicate checksum_size 0 ++ obj.content)

unfoldable pub decode_object : Bytes → Result Error Object
decode_object data' = do
  fail_if (ltb (length data') (checksum_size + 1)) invalid_data
  blob ← unpackage_data data'
  ok (record { content = blob })

-- The reserved size is written only if it is not zero: the slice is fresh, so it holds zeros.
unfoldable pub encode_namespace : Namespace → Result Error Bytes
encode_namespace ns = do
  fail_if (length ns.label == 0) no_label
  reserved ←
      (if ns.reserved == 0 then ok (replicate 8 0) else write_number 8 ns.reserved (replicate 8 0))
  package_data (replicate checksum_size 0 ++ (reserved ++ ns.label))

unfoldable pub decode_namespace : Bytes → Result Error Namespace
decode_namespace data' = do
  fail_if (ltb (length data') (checksum_size + 8 + 1)) invalid_data
  blob ← unpackage_data data'
  buf ← open_view (take 8 blob)
  (reserved, buf') ← read_number 8 buf
  ok (record { reserved = reserved; label = drop 8 blob })

unfoldable pub encode_store_stat : StoreStat → Result Error Bytes
encode_store_stat stats = do
  props ← written (do
    buf ← new_write_buffer (replicate 16 0)
    buf' ← binary_write 8 stats.size_available buf
    binary_write 8 stats.size_used buf')
  package_data (replicate checksum_size 0 ++ props)

unfoldable pub decode_store_stat : Bytes → Result Error StoreStat
decode_store_stat data' = do
  fail_if (not (length data' == checksum_size + 16)) invalid_data
  blob ← unpackage_data data'
  buf ← open_view blob
  (available, buf') ← read_number 8 buf
  (used, buf'') ← read_number 8 buf'
  ok (record { size_available = available; size_used = used })

-- ValidateData
unfoldable pub validate_data : Bytes → Result Error (Unit {0})
validate_data data' = do
  fail_if (ltb (length data') (checksum_size + 1)) invalid_data
  buf ← open_view (take checksum_size data')
  (packaged_crc, buf') ← read_number 4 buf
  fail_if (not (checksum (drop checksum_size data') == packaged_crc)) invalid_checksum

-- All that a run of the codec computes with.
unfoldable pub codec : Unit {0}
unfolding write_number read_number open_view package_data unpackage_data encode_object decode_object
    encode_namespace decode_namespace encode_store_stat decode_store_stat validate_data checksum
    new_write_buffer binary_write
codec = tt
