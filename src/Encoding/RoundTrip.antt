-- ===== src/Encoding/RoundTrip.antt =====
-- server/encoding/encoding.go: the decoders on what the encoders make.
use stor.Base.{
  ◌≡◌, ◌≢◌, Bytes, [], ok, ◌>>=◌, put_le, length-put_le, get_le-put_le, length-pos, ==_refl,
}
use stor.ServerTypes.{Object, Namespace, StoreStat, IsUint64}
use stor.Encoding.Checksum.{checksum, checksum-lt}
use stor.Encoding.Forms.{
  checked, encode_object_lem, decode_object_lem, encode_namespace_lem, decode_namespace_lem,
  encode_store_stat_lem, decode_store_stat_lem,
}
use stor.Encoding.{
  encode_object, decode_object, encode_namespace, decode_namespace, encode_store_stat,
  decode_store_stat,
}

checked-put_le {ℓ} :
    {A : Type ℓ} (blob : Bytes) (a : A) → checked (put_le 4 (checksum blob)) blob a ≡ ok a
checked-put_le blob a = rw (get_le-put_le 4 (checksum blob) (checksum-lt blob)) (rw ==_refl)

-- An object that has data is decoded to itself.
pub decode_object-encode_object :
    (obj : Object) → obj.content ≢ [] → (encode_object obj >>= decode_object) ≡ ok obj
decode_object-encode_object obj h = rw (encode_object_lem obj h) (
    rw (decode_object_lem _ obj.content (length-put_le 4 _) (length-pos obj.content h))
      (checked-put_le obj.content obj))

-- A namespace that has a label is decoded to itself, if its reserved size is a uint64.
pub decode_namespace-encode_namespace :
    (ns : Namespace)
    → ns.label ≢ []
    → IsUint64 ns.reserved
    → (encode_namespace ns >>= decode_namespace) ≡ ok ns
decode_namespace-encode_namespace ns h r = rw (encode_namespace_lem ns h) (
    rw
      (decode_namespace_lem _ (put_le 8 ns.reserved) ns.label (length-put_le 4 _)
        (length-put_le 8 _) (length-pos ns.label h))
      (rw (get_le-put_le 8 ns.reserved r) (checked-put_le _ ns)))

-- Store statistics are decoded to themselves, if both fields are a uint64.
pub decode_store_stat-encode_store_stat :
    (stats : StoreStat)
    → IsUint64 stats.size_available
    → IsUint64 stats.size_used
    → (encode_store_stat stats >>= decode_store_stat) ≡ ok stats
decode_store_stat-encode_store_stat stats h r = rw (encode_store_stat_lem stats) (
    rw
      (decode_store_stat_lem _ (put_le 8 stats.size_available) (put_le 8 stats.size_used)
        (length-put_le 4 _) (length-put_le 8 _) (length-put_le 8 _))
      (rw (get_le-put_le 8 stats.size_available h, get_le-put_le 8 stats.size_used r)
        (checked-put_le _ stats)))
