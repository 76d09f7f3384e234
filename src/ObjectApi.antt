-- ===== src/ObjectApi.antt =====
-- server/api/grpc/object_api.go, and server/api/object.go: the handlers of the object service over
-- a database. The label of a request is what the context's metadata holds under its key, if any.
pub mod Creation
pub mod Lifecycle
pub mod Status
pub mod Listing
use stor.Base.{
  ℕ, Bytes, List, [], ◌∷◌, Option, none, some, Result, ok, err, panic, length, drop, ltb, ◌==◌,
  if◌then◌else◌,
}
use stor.ServerTypes.{Object, ObjectStatus, missing, status_ok, corrupted}
use stor.Encoding
use stor.Encoding.{encode_object, decode_object, validate_data}
use stor.Db.Types.{Error, not_found, Slice, Item, Callback, Database}
use stor.Db.Keys.{data_key, data_scope_key}

-- server/api/grpc/rpctypes/error.go; a listing passes on errors of the database and the stream.
pub data RpcError : Type 0 where
  nil_key nil_data key_not_found database data_corrupted nil_label : RpcError
  plain : Error → RpcError

-- extractStringFromContext: the first value, of the values that the metadata has under the key
abbrev pub Metadata : Type 0
Metadata = Option (List Bytes)

unfoldable pub extract_label : Metadata → Result RpcError Bytes
extract_label none = err nil_label
extract_label (some []) = err nil_label
extract_label (some (label ∷ rest)) = ok label

-- The full key of a request: its label and the key that it names.
unfoldable pub request_key : Metadata → Bytes → Result RpcError (Result Error Bytes)
request_key md key = elim (extract_label md) [
  | ok label ↦ if length key == 0 then err nil_key else ok (data_key (some label) (some key))
  | err e ↦ err e
  | panic ↦ panic
]

unfoldable pub decoded : Result Encoding.Error Object → Result RpcError Bytes
decoded (ok obj) = ok obj.content
decoded (err e) = err data_corrupted
decoded panic = panic

unfoldable pub fetched : Result Error Bytes → Result RpcError Bytes
fetched (ok raw) = decoded (decode_object raw)
fetched (err not_found) = err key_not_found
fetched (err e) = err database
fetched panic = panic

unfoldable pub validated : Result Encoding.Error (Unit {0}) → Result Error ObjectStatus
validated (ok _) = ok status_ok
validated (err e) = ok corrupted
validated panic = panic

-- The body of ObjectStatusForObject, once the database has answered.
unfoldable pub status_of : Result Error Bytes → Result Error ObjectStatus
status_of (ok raw) = validated (validate_data raw)
status_of (err not_found) = ok missing
status_of (err e) = err e
status_of panic = panic

unfoldable pub or_database {ℓ} : {A : Type ℓ} → Result Error A → Result RpcError A
or_database (ok a) = ok a
or_database (err e) = err database
or_database panic = panic

unfoldable pub or_plain : Result Error (Unit {0}) → Result RpcError (Unit {0})
or_plain (ok a) = ok a
or_plain (err e) = err (plain e)
or_plain panic = panic

-- What ListObjectKeys does with one item, on a stream whose Send is `send`.
unfoldable pub send_key :
    {S : Type 0} → (Bytes → S → Result Error (Unit {0}) × S) → Bytes → Callback S
send_key send scope_key item s =
    let n = length item.key in
    if ltb n (length scope_key)
    then (panic, s)
    else if n == length scope_key
    then (ok tt, s)
    else send (drop (length scope_key) item.key) s

module _ (D : Database) where
  open D use {State, set_scoped, get, delete, list_items}

  -- The key that is sent back is what the store has put behind the scope.
  unfoldable pub created : Bytes → Result Error Bytes × State → Result RpcError Bytes × State
  created scope_key (ok key, s) = (ok (drop (length scope_key) key), s)
  created scope_key (err e, s) = (err database, s)
  created scope_key (panic, s) = (panic, s)

  unfoldable pub store_encoded :
      Result Error Bytes → Result Encoding.Error Bytes → State → Result RpcError Bytes × State
  store_encoded (ok scope_key) (ok encoded) s =
      created scope_key (set_scoped (some scope_key) encoded s)
  store_encoded scope_key encoded s = (panic, s)

  unfoldable pub create_object : Metadata → Bytes → State → Result RpcError Bytes × State
  create_object md content s = elim (extract_label md) [
    | ok label ↦
        if length content == 0
        then (err nil_data, s)
        else store_encoded (data_scope_key (some label))
            (encode_object (record { content = content })) s
    | err e ↦ (err e, s)
    | panic ↦ (panic, s)
  ]

  -- Each handler below runs once the full key is known.
  unfoldable pub get_at : Result RpcError (Result Error Bytes) → State → Result RpcError Bytes
  get_at (ok (ok full)) s = fetched (get (some full) s)
  get_at (err e) s = err e
  get_at _ s = panic

  unfoldable pub get_object : Metadata → Bytes → State → Result RpcError Bytes
  get_object md key s = get_at (request_key md key) s

  unfoldable pub delete_at :
      Result RpcError (Result Error Bytes) → State → Result RpcError (Unit {0}) × State
  delete_at (ok (ok full)) s = let (r, s') = delete (some full) s in (or_database r, s')
  delete_at (err e) s = (err e, s)
  delete_at _ s = (panic, s)

  unfoldable pub delete_object : Metadata → Bytes → State → Result RpcError (Unit {0}) × State
  delete_object md key s = delete_at (request_key md key) s

  -- ObjectStatusForObject
  unfoldable pub object_status_for_object : Slice → State → Result Error ObjectStatus
  object_status_for_object key s = status_of (get key s)

  unfoldable pub status_at :
      Result RpcError (Result Error Bytes) → State → Result RpcError ObjectStatus
  status_at (ok (ok full)) s = or_database (object_status_for_object (some full) s)
  status_at (err e) s = err e
  status_at _ s = panic

  -- The status is sent as the constant of the same name of the protocol.
  unfoldable pub get_object_status : Metadata → Bytes → State → Result RpcError ObjectStatus
  get_object_status md key s = status_at (request_key md key) s

  unfoldable pub list_object_keys :
      {S : Type 0}
      → (Bytes → S → Result Error (Unit {0}) × S)
      → Metadata
      → State
      → S
      → Result RpcError (Unit {0}) × S
  list_object_keys send md s out = elim (extract_label md) [
    | ok label ↦ elim (data_scope_key (some label)) [
      | ok scope_key ↦
          let (r, out') = list_items (send_key send scope_key) (some scope_key) s out in
          (or_plain r, out')
      | _ ↦ (panic, out)
    ]
    | err e ↦ (err e, out)
    | panic ↦ (panic, out)
  ]

-- All that a run of the handlers computes with.
unfoldable pub handlers : Unit {0}
unfolding extract_label request_key decoded fetched validated status_of or_database or_plain
    send_key created store_encoded create_object get_at get_object delete_at delete_object status_at
    object_status_for_object get_object_status list_object_keys data_key data_scope_key
    Encoding.codec
handlers = tt
