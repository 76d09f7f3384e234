-- ===== src/Daemon/DataService.antt =====
-- daemon/api/grpc/data_api.go: the handlers of the data service, over a pipeline. The chunks of a message
-- are those of the metadata.
use stor.Base.{
  ℕ, Bytes, List, Bool, ◌==◌, if◌then◌else◌, length, Result, ok, err, panic, ◌>>=◌, ◌>>◌, fail_if,
}
use stor.Cluster.Types.{Chunk}
use stor.Storage.Types.{CheckStatus}
use stor.Pipeline.Types
use stor.Client.Objects.{Pipeline, from_pipeline}
use stor.Daemon.Types.{
  DaemonError, nil_data, nil_file_path, nil_chunks, no_local_fs, data_not_read, invalid_chunk_size,
  map_zstor, FileMode, FileSystem, open_file_to_write,
}
use stor.Daemon.Streams.{Received, streamed, sent_messages}
use stor.Daemon.FileService.{closed_with, stream_answer}

-- mapDataStorError, whose table is a part of that of mapZstorError
abbrev pub map_datastor : {A : Type 0} → Result Types.Error A → Result DaemonError A
map_datastor r = map_zstor (from_pipeline r)

abbrev pub mapped : {A W : Type 0} → Result Types.Error A × W → Result DaemonError A × W
mapped (r, w) = (map_datastor r, w)

module _ {W : Type 0} (P : Pipeline W) (disable_local_fs_access : Bool) (F : FileSystem) where
  -- Write
  unfoldable pub data_write : Bytes → W → Result DaemonError (List Chunk) × W
  data_write bytes w = if length bytes == 0 then (err nil_data, w) else mapped (P.write bytes w)

  abbrev pub data_written :
      Bytes → W → Result DaemonError Bytes → Result DaemonError (List Chunk) × W
  data_written path w (ok bytes) = closed_with (F.close path) (mapped (P.write bytes w))
  data_written path w (err e) = (err e, w)
  data_written path w panic = (panic, w)

  -- WriteFile
  unfoldable pub data_write_file : Bytes → W → Result DaemonError (List Chunk) × W
  data_write_file path w =
      if disable_local_fs_access
      then (err no_local_fs, w)
      else if length path == 0
      then (err nil_file_path, w)
      else data_written path w (F.open_file_to_read path)

  -- WriteStream, for a pipeline that reads all that it is given
  unfoldable pub data_write_stream : Received → W → Result DaemonError (List Chunk) × W
  data_write_stream stream w =
      let input = streamed stream.messages stream.failure in
      stream_answer input.1 (mapped (P.write input.0 w))

  -- Read
  unfoldable pub data_read : List Chunk → W → Result DaemonError Bytes
  data_read chunks w =
      fail_if (length chunks == 0) nil_chunks
      >> (map_datastor (P.read chunks w) >>= λ bytes.
          fail_if (length bytes == 0) data_not_read >> ok bytes)

  -- ReadFile
  unfoldable pub data_read_file :
      List Chunk → Bytes → FileMode → Bool → W → Result DaemonError Bytes
  data_read_file chunks path mode sync w =
      fail_if disable_local_fs_access no_local_fs
      >> (fail_if (length chunks == 0) nil_chunks
          >> (open_file_to_write F path mode sync >> map_datastor (P.read chunks w)))

  -- ReadStream
  unfoldable pub data_read_stream :
      List Chunk → ℕ → (Bytes → List Bytes) → W → Result DaemonError (List Bytes)
  data_read_stream chunks chunk_size pieces w =
      fail_if (chunk_size == 0) invalid_chunk_size
      >> (fail_if (length chunks == 0) nil_chunks
          >> (map_datastor (P.read chunks w) >>= λ bytes.
              ok (sent_messages chunk_size (pieces bytes))))

  -- Delete
  unfoldable pub data_delete : List Chunk → W → Result DaemonError (Unit {0}) × W
  data_delete chunks w =
      if length chunks == 0 then (err nil_chunks, w) else mapped (P.delete chunks w)

  -- Check
  unfoldable pub data_check : List Chunk → Bool → W → Result DaemonError CheckStatus
  data_check chunks fast w =
      fail_if (length chunks == 0) nil_chunks >> map_datastor (P.check chunks fast w)

  -- Repair
  unfoldable pub data_repair : List Chunk → W → Result DaemonError (List Chunk) × W
  data_repair chunks w =
      if length chunks == 0 then (err nil_chunks, w) else mapped (P.repair chunks w)
