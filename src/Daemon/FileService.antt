-- ===== src/Daemon/FileService.antt =====
-- daemon/api/grpc/file_api.go and metadata_api.go: the handlers of the file service, over the client of
-- 0-stor, and of the metadata service, over the client of the metadata.
use stor.Base.{
  ℕ, Bytes, List, Bool, Option, none, some, ◌==◌, if◌then◌else◌, length, Result, ok, err, panic,
  ◌>>=◌, ◌>>◌, fail_if,
}
use stor.Storage.Types.{CheckStatus}
use stor.Client.Traversal.{Metadata}
use stor.Client.Metastor.{
  MetaError, MetaClient, not_found, set_metadata, get_metadata, delete_metadata,
}
use stor.Client.Objects.{
  ClientError, of_metastor, Client, Repair, write_object, read_object, read_with_meta,
  delete_object, delete_with_meta, check_object, check_with_meta, repair_object,
}
use stor.Daemon.Types.{
  passed_on, daemon_key_not_found, DaemonError, nil_key, nil_data, nil_file_path, nil_metadata,
  no_local_fs, data_not_read, invalid_chunk_size, map_zstor, ProtoMetadata,
  convert_proto_to_in_memory_metadata, convert_in_memory_to_proto_metadata, FileMode, FileSystem,
  open_file_to_write,
}
use stor.Daemon.Streams.{Received, streamed, sent_messages}

-- The input of a request: a key, metadata, which may be missing, or neither
pub data Input : Type 0 where
  key_input : Bytes → Input
  metadata_input : Option ProtoMetadata → Input
  no_input : Input

-- `switch v := req.GetInput().(type)` of the handlers that only read
abbrev pub for_input :
    {A : Type 0}
    → Input
    → (Bytes → Result ClientError A)
    → (Metadata → Result ClientError A)
    → Result DaemonError A
for_input (key_input key) by_key by_metadata =
    fail_if (length key == 0) nil_key >> map_zstor (by_key key)
for_input (metadata_input (some md)) by_key by_metadata =
    map_zstor (by_metadata (convert_proto_to_in_memory_metadata md))
for_input (metadata_input none) by_key by_metadata = err nil_metadata
for_input no_input by_key by_metadata = err nil_key

-- The same for a handler that changes the world
abbrev pub for_input_in :
    {A W : Type 0}
    → Input
    → (Bytes → W → Result ClientError A × W)
    → (Metadata → W → Result ClientError A × W)
    → W
    → Result DaemonError A × W
for_input_in (key_input key) by_key by_metadata w =
    if length key == 0 then (err nil_key, w) else (map_zstor (by_key key w).0, (by_key key w).1)
for_input_in (metadata_input (some md)) by_key by_metadata w =
    let r = by_metadata (convert_proto_to_in_memory_metadata md) w in (map_zstor r.0, r.1)
for_input_in (metadata_input none) by_key by_metadata w = (err nil_metadata, w)
for_input_in no_input by_key by_metadata w = (err nil_key, w)

abbrev pub proto_answer :
    {W : Type 0} → Result ClientError Metadata × W → Result DaemonError ProtoMetadata × W
proto_answer (r, w) = (map_zstor r >>= λ md. ok (convert_in_memory_to_proto_metadata md), w)

-- The error of a file that is closed after all went well
abbrev pub closed_with :
    {A W : Type 0}
    → Result DaemonError (Unit {0})
    → Result DaemonError A × W
    → Result DaemonError A × W
closed_with close (ok a, w) = (close >> ok a, w)
closed_with close (err e, w) = (err e, w)
closed_with close (panic, w) = (panic, w)

-- The error of the group of WriteStream: that of the stream, or else that of the client.
abbrev pub stream_answer :
    {A W : Type 0} → Option DaemonError → Result DaemonError A × W → Result DaemonError A × W
stream_answer none r = r
stream_answer (some e) r = (err e, r.1)

module _ {W : Type 0} (C : Client W) (disable_local_fs_access : Bool) (F : FileSystem) where
  -- Write
  unfoldable pub file_write : Bytes → Bytes → ℕ → W → Result DaemonError ProtoMetadata × W
  file_write key bytes now w =
      if length key == 0
      then (err nil_key, w)
      else if length bytes == 0
      then (err nil_data, w)
      else proto_answer (write_object C key bytes now w)

  abbrev pub file_written :
      Bytes → Bytes → ℕ → W → Result DaemonError Bytes → Result DaemonError ProtoMetadata × W
  file_written key path now w (ok bytes) =
      closed_with (F.close path) (proto_answer (write_object C key bytes now w))
  file_written key path now w (err e) = (err e, w)
  file_written key path now w panic = (panic, w)

  -- WriteFile
  unfoldable pub file_write_file : Bytes → Bytes → ℕ → W → Result DaemonError ProtoMetadata × W
  file_write_file key path now w =
      if disable_local_fs_access
      then (err no_local_fs, w)
      else if length key == 0
      then (err nil_key, w)
      else if length path == 0
      then (err nil_file_path, w)
      else file_written key path now w (F.open_file_to_read path)

  -- WriteStream, after the first message, for a client that reads all that it is given: the pipe is
  -- closed at the end of the stream and after an error alike.
  unfoldable pub file_write_stream : Bytes → Received → ℕ → W → Result DaemonError ProtoMetadata × W
  file_write_stream key stream now w =
      let input = streamed stream.messages stream.failure in
      if length key == 0
      then (err nil_key, w)
      else stream_answer input.1 (proto_answer (write_object C key input.0 now w))

  -- Read
  unfoldable pub file_read : Input → W → Result DaemonError Bytes
  file_read input w =
      for_input input (λ key. read_object C key w) (λ md. read_with_meta C md w) >>= λ bytes.
      fail_if (length bytes == 0) data_not_read >> ok bytes

  -- ReadFile: what it writes to the file, or its error; the error of closing the file is lost.
  unfoldable pub file_read_file : Input → Bytes → FileMode → Bool → W → Result DaemonError Bytes
  file_read_file input path mode sync w =
      fail_if disable_local_fs_access no_local_fs
      >> (open_file_to_write F path mode sync
          >> for_input input (λ key. read_object C key w) (λ md. read_with_meta C md w))

  -- ReadStream: the messages that it sends of the data, which the client writes in pieces
  unfoldable pub file_read_stream :
      Input → ℕ → (Bytes → List Bytes) → W → Result DaemonError (List Bytes)
  file_read_stream input chunk_size pieces w =
      fail_if (chunk_size == 0) invalid_chunk_size
      >> (for_input input (λ key. read_object C key w) (λ md. read_with_meta C md w) >>= λ bytes.
          ok (sent_messages chunk_size (pieces bytes)))

  -- Delete
  unfoldable pub file_delete : Input → W → Result DaemonError (Unit {0}) × W
  file_delete input w =
      for_input_in input (λ key v. delete_object C key v) (λ md v. delete_with_meta C md v) w

  -- Check
  unfoldable pub file_check : Input → Bool → W → Result DaemonError CheckStatus
  file_check input fast w =
      for_input input (λ key. check_object C key fast w) (λ md. check_with_meta C md fast w)

  abbrev pub without_repair :
      Result ClientError Metadata × (Repair × W) → Result ClientError Metadata × W
  without_repair (r, (repair, w)) = (r, w)

  -- Repair
  unfoldable pub file_repair : Bytes → ℕ → List (W → W) → W → Result DaemonError ProtoMetadata × W
  file_repair key now changes w =
      if length key == 0
      then (err nil_key, w)
      else proto_answer (without_repair (repair_object C key now changes w))

-- mapMetaStorError
abbrev pub map_metastor : {A : Type 0} → Result MetaError A → Result DaemonError A
map_metastor (ok a) = ok a
map_metastor (err not_found) = err daemon_key_not_found
map_metastor (err e) = err (passed_on (of_metastor e))
map_metastor panic = panic

module _ {W : Type 0} (C : MetaClient W) where
  -- SetMetadata
  unfoldable pub service_set_metadata : Option ProtoMetadata → W → Result DaemonError (Unit {0}) × W
  service_set_metadata none w = (err nil_metadata, w)
  service_set_metadata (some md) w =
      let r = set_metadata C (convert_proto_to_in_memory_metadata md) w in (map_metastor r.0, r.1)

  -- GetMetadata
  unfoldable pub service_get_metadata : Bytes → W → Result DaemonError ProtoMetadata
  service_get_metadata key w =
      fail_if (length key == 0) nil_key
      >> (map_metastor (get_metadata C key w) >>= λ md. ok (convert_in_memory_to_proto_metadata md))

  -- DeleteMetadata
  unfoldable pub service_delete_metadata : Bytes → W → Result DaemonError (Unit {0}) × W
  service_delete_metadata key w =
      if length key == 0
      then (err nil_key, w)
      else (map_metastor (delete_metadata C key w).0, (delete_metadata C key w).1)
