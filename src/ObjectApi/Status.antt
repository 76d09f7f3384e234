-- ===== src/ObjectApi/Status.antt =====
-- server/api/grpc/object_api.go: GetObjectStatus beside GetObject.
use stor.Base.{
  ◌≡◌, refl, Bytes, [], ◌∷◌, none, some, Result, ok, err, panic, Bool-cases, inl, inr, length, ◌==◌,
  ◌>>=◌,
}
use stor.ServerTypes.{ObjectStatus, missing, status_ok, corrupted}
use stor.Encoding.{decode_object}
use stor.Encoding.Canonical.{validate_data-decode_object}
use stor.Encoding
use stor.Db.Types.{Error, not_found, nil_key, closed_item, conflict, other, Database}
use stor.Db.Keys.{data_key}
use stor.ObjectApi.{
  RpcError, key_not_found, data_corrupted, Metadata, get_object, get_at, get_object_status,
  status_at, object_status_for_object, request_key, extract_label, fetched, decoded, status_of,
  validated, or_database,
}

-- The status that an answer of GetObject stands for.
abbrev pub status_seen : Result RpcError Bytes → Result RpcError ObjectStatus
status_seen (ok content) = ok status_ok
status_seen (err key_not_found) = ok missing
status_seen (err data_corrupted) = ok corrupted
status_seen (err e) = err e
status_seen panic = panic

decoded_status :
    (raw : Result Encoding.Error _)
    → or_database (validated (raw >>= λ obj. ok tt)) ≡ status_seen (decoded raw)
unfolding or_database validated decoded
decoded_status (ok obj) = refl
decoded_status (err e) = refl
decoded_status panic = refl

fetched_status : (r : Result Error Bytes) → or_database (status_of r) ≡ status_seen (fetched r)
unfolding status_of fetched
fetched_status (ok raw) = rw (validate_data-decode_object raw) (decoded_status (decode_object raw))
fetched_status (err not_found) = unfold or_database in refl
fetched_status (err nil_key) = unfold or_database in refl
fetched_status (err closed_item) = unfold or_database in refl
fetched_status (err conflict) = unfold or_database in refl
fetched_status (err (other n)) = unfold or_database in refl
fetched_status panic = unfold or_database in refl

-- The status of an object is ok, missing or corrupted exactly as GetObject answers with the data,
-- that there is no such key, or that the data is corrupted; any other error is the same.
pub get_object_status-get_object :
    (D : Database) (md : Metadata) (key : Bytes) (s : D.State)
    → get_object_status D md key s ≡ status_seen (get_object D md key s)
unfolding get_object_status get_object request_key extract_label
get_object_status-get_object D none key s = unfold get_at status_at in refl
get_object_status-get_object D (some []) key s = unfold get_at status_at in refl
get_object_status-get_object D (some (label ∷ rest)) key s = elim (Bool-cases (length key == 0)) [
  | inl empty ↦ rw empty (unfold get_at status_at in refl)
  | inr named ↦
      rw named (unfold get_at status_at data_key object_status_for_object in fetched_status _)
]
