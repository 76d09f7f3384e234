-- ===== src/Daemon/Types.antt =====
-- daemon/api/grpc/utils.go and rpctypes: the errors of the services, the metadata of their messages and the
-- files that they read and write. A message has the chunks of the client's metadata with other names.
use stor.Base.{
  ℕ, Bytes, List, Bool, none, ◌==◌, length, Result, ok, err, panic, ◌>>=◌, ◌>>◌, fail_if,
}
use stor.Cluster.Types.{Chunk, key_not_found, object_corrupted, permission_denied}
use stor.Storage.Types.{datastor}
use stor.Pipeline.Types.{storage}
use stor.Client.Traversal.{Metadata}
use stor.Client.Metastor.{not_found}
use stor.Client.Objects.{ClientError, of_metastor, of_pipeline}

-- Those of rpctypes that the services use, those of files and streams, and those that are passed on
pub data DaemonError : Type 0 where
  nil_key nil_data nil_file_path nil_chunks nil_metadata no_local_fs data_not_read : DaemonError
  invalid_chunk_size invalid_file_mode : DaemonError
  daemon_key_not_found data_corrupted daemon_permission_denied : DaemonError
  file_error stream_error : ℕ → DaemonError
  passed_on : ClientError → DaemonError

-- mapZstorError; no error is in both of its tables.
abbrev pub map_zstor_error : ClientError → DaemonError
map_zstor_error (of_metastor not_found) = daemon_key_not_found
map_zstor_error (of_pipeline (storage (datastor key_not_found))) = daemon_key_not_found
map_zstor_error (of_pipeline (storage (datastor object_corrupted))) = data_corrupted
map_zstor_error (of_pipeline (storage (datastor permission_denied))) = daemon_permission_denied
map_zstor_error e = passed_on e

abbrev pub map_zstor : {A : Type 0} → Result ClientError A → Result DaemonError A
map_zstor (ok a) = ok a
map_zstor (err e) = err (map_zstor_error e)
map_zstor panic = panic

-- pb.Metadata
pub record ProtoMetadata : Type 0 where
  pub key : Bytes
  pub total_size : ℕ
  pub creation_epoch : ℕ
  pub last_write_epoch : ℕ
  pub chunks : List Chunk

-- convertProtoToInMemoryMetadata
abbrev pub convert_proto_to_in_memory_metadata : ProtoMetadata → Metadata
convert_proto_to_in_memory_metadata md = record {
  key = md.key;
  size = md.total_size;
  creation_epoch = md.creation_epoch;
  last_write_epoch = md.last_write_epoch;
  chunks = md.chunks;
  previous_key = none;
  next_key = none;
}

-- convertInMemoryToProtoMetadata
abbrev pub convert_in_memory_to_proto_metadata : Metadata → ProtoMetadata
convert_in_memory_to_proto_metadata md = record {
  key = md.key;
  total_size = md.size;
  creation_epoch = md.creation_epoch;
  last_write_epoch = md.last_write_epoch;
  chunks = md.chunks;
}

-- pb.FileMode: one of the three, or another number
pub data FileMode : Type 0 where
  file_mode_truncate file_mode_append file_mode_exclusive : FileMode
  file_mode_other : ℕ → FileMode

-- The flags beside O_RDWR and O_CREATE
pub data OpenFlag : Type 0 where
  o_trunc o_append o_excl : OpenFlag

-- convertFileModeToSyscallFlags
abbrev pub convert_file_mode_to_syscall_flags : FileMode → Result DaemonError OpenFlag
convert_file_mode_to_syscall_flags file_mode_truncate = ok o_trunc
convert_file_mode_to_syscall_flags file_mode_append = ok o_append
convert_file_mode_to_syscall_flags file_mode_exclusive = ok o_excl
convert_file_mode_to_syscall_flags (file_mode_other n) = err invalid_file_mode

-- What the services call of the file system: the contents of a file, and whether one can be opened to be
-- written, with O_SYNC or without, and what closing a file answers.
pub record FileSystem : Type 0 where
  pub open_file_to_read : Bytes → Result DaemonError Bytes
  pub open_file : Bytes → OpenFlag → Bool → Result DaemonError (Unit {0})
  pub close : Bytes → Result DaemonError (Unit {0})

-- openFileToWrite
abbrev pub open_file_to_write : FileSystem → Bytes → FileMode → Bool → Result DaemonError (Unit {0})
open_file_to_write F path mode sync =
    fail_if (length path == 0) nil_file_path
    >> (convert_file_mode_to_syscall_flags mode >>= λ flag. F.open_file path flag sync)
