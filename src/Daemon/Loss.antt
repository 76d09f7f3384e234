-- ===== src/Daemon/Loss.antt =====
-- daemon/api/grpc/file_api.go and metadata_api.go: what the services store.
use stor.Base.{
  ℕ, ◌<◌, ◌≡◌, refl, ap, Bytes, List, [], ◌∷◌, Bool, Option, none, some, length, Result, ok, err,
  panic, err-ne-ok, panic-ne-ok, ok-injective, pos→==_false, All,
}
use stor.Client.Traversal.{Metadata}
use stor.Client.Metastor.{
  other, nil_key, MetaError, MetaClient, not_found, set_metadata, get_metadata,
}
use stor.Client.Metastor.Updating.{IsMetastore, get_metadata-stored, set_metadata-stored}
use stor.Client.Objects.{Client, write_object}
use stor.Pipeline.Composing.Order.{joined}
use stor.Daemon.Types.{
  DaemonError, stream_error, ProtoMetadata, convert_proto_to_in_memory_metadata,
  convert_in_memory_to_proto_metadata, FileSystem,
}
use stor.Daemon.Streams.{streamed}
use stor.Daemon.FileService.{
  proto_answer, stream_answer, file_write_stream, map_metastor, service_set_metadata,
}

abbrev stream_failure : Option ℕ → Option DaemonError
stream_failure none = none
stream_failure (some e) = some (stream_error e)

streamed_lem :
    (messages : List Bytes) (failure : Option ℕ)
    → All (λ message. 0 < length message) messages
    → streamed messages failure ≡ (joined messages, stream_failure failure)
unfolding streamed
streamed_lem [] none h = refl
streamed_lem [] (some e) h = refl
streamed_lem (message ∷ messages) failure h =
    rw (pos→==_false (length message) h.0) (rw (streamed_lem messages failure h.1) refl)

-- WriteStream of the file service gives the client all the data of the messages and leaves the world as the
-- write of the client does, whether the stream then ends or breaks; the handler answers with the client's
-- answer in the first case, and with the error of the stream in the second, even where the client has
-- stored the data.
pub file_write_stream_lem :
    {W : Type 0} (C : Client W) (disable_local_fs_access : Bool) (F : FileSystem) (key : Bytes)
    (messages : List Bytes) (failure : Option ℕ) (now : ℕ) (w : W)
    → 0 < length key
    → All (λ message. 0 < length message) messages
    → file_write_stream C disable_local_fs_access F key
        (record { messages = messages; failure = failure })
        now
        w
      ≡ stream_answer
          (stream_failure failure)
          (proto_answer (write_object C key (joined messages) now w))
unfolding file_write_stream
file_write_stream_lem C disabled F key messages failure now w some_key h =
    rw (pos→==_false (length key) some_key) (rw (streamed_lem messages failure h) refl)

map_metastor-ok : {A : Type 0} (r : Result MetaError A) (a : A) → map_metastor r ≡ ok a → r ≡ ok a
map_metastor-ok (ok b) a e = ap ok (ok-injective e)
map_metastor-ok (err not_found) a e = absurd (err-ne-ok e)
map_metastor-ok (err nil_key) a e = absurd (err-ne-ok e)
map_metastor-ok (err (other n)) a e = absurd (err-ne-ok e)
map_metastor-ok panic a e = absurd (panic-ne-ok e)

-- When SetMetadata of the metadata service returns no error, the client has the metadata of the request
-- under their key, and they have neither a previous nor a next key, whatever links the metadata had
-- that were stored before, over a database that finds what it has stored and an encoding that can be
-- decoded.
pub service_set_metadata_lem :
    {W : Type 0} (C : MetaClient W) (md : ProtoMetadata) (w w' : W)
    → IsMetastore C
    → service_set_metadata C (some md) w ≡ (ok tt, w')
    → (stored : Metadata) × (get_metadata C md.key w' ≡ ok stored)
      × (convert_in_memory_to_proto_metadata stored ≡ md)
      × (stored.previous_key ≡ none)
      × (stored.next_key ≡ none)
unfolding service_set_metadata
service_set_metadata_lem C md w w' store e =
    let new = convert_proto_to_in_memory_metadata md in
    let r = set_metadata C new w in
    let set_ok = map_metastor-ok r.0 tt (ap (λ z. z.0) e) in
    let both : r ≡ (ok tt, w') = λ i. (set_ok i, ap (λ z. z.1) e i) in
    let (some_key, (bytes, f, g)) = set_metadata-stored C new w w' both in
    (new, get_metadata-stored C md.key new w' store some_key (bytes, f, w, g), refl, refl, refl)
