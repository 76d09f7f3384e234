-- ===== src/Tests/Daemon.antt =====
-- The daemon over the client of Tests.Objects, at concrete values.
use stor.Base.{
  ◌≡◌, refl, ◌≤◌, Bytes, [], ◌∷◌, length, some, none, ok, err, Dictionary, insert, All, arith, true,
}
use stor.Client.Traversal.{Metadata}
use stor.Client.Metastor.{get_metadata, set_metadata}
use stor.Client.Objects.{write_object}
use stor.Pipeline.Composing.Order.{joined}
use stor.Daemon.Types.{ProtoMetadata, convert_in_memory_to_proto_metadata, FileSystem, stream_error}
use stor.Daemon.Streams.{sent_messages}
use stor.Daemon.Streams.Pieces.{sent_messages_lem}
use stor.Daemon.FileService.{service_set_metadata, file_write_stream, stream_answer, proto_answer}
use stor.Daemon.Loss.{file_write_stream_lem, service_set_metadata_lem}
use stor.Tests.Objects.{small_metastor, small_metastor-IsMetastore, small_client}

sent_messages_lem_example :
    (joined (sent_messages 2 ((1 ∷ 2 ∷ 3 ∷ []) ∷ (4 ∷ []) ∷ [])) ≡ 1 ∷ 2 ∷ 3 ∷ 4 ∷ [])
    × All
        (λ (message : Bytes). length message ≤ 2)
        (sent_messages 2 ((1 ∷ 2 ∷ 3 ∷ []) ∷ (4 ∷ []) ∷ []))
sent_messages_lem_example = sent_messages_lem 2 ((1 ∷ 2 ∷ 3 ∷ []) ∷ (4 ∷ []) ∷ []) (omega arith)

abbrev no_files : FileSystem
no_files = record {
  open_file_to_read = λ path. err (stream_error 0);
  open_file = λ path flag sync. err (stream_error 0);
  close = λ path. ok tt;
}

-- The stream breaks after the first message.
file_write_stream_lem_test :
    file_write_stream small_client true no_files
      (5 ∷ [])
      (record { messages = (7 ∷ 8 ∷ []) ∷ []; failure = some 1 })
      3
      []
    ≡ stream_answer
        (some (stream_error 1))
        (proto_answer (write_object small_client (5 ∷ []) (7 ∷ 8 ∷ []) 3 []))
file_write_stream_lem_test =
    file_write_stream_lem small_client true no_files (5 ∷ []) ((7 ∷ 8 ∷ []) ∷ []) (some 1) 3 []
      (omega arith) (omega arith, tt)

abbrev sent_metadata : ProtoMetadata
sent_metadata = record {
  key = 5 ∷ [];
  total_size = 2;
  creation_epoch = 3;
  last_write_epoch = 3;
  chunks = record { size = 2; objects = []; hash = 7 ∷ [] } ∷ [];
}

-- Before, the metadata had a next key.
abbrev linked_before : Dictionary Bytes
linked_before = (5 ∷ [], 5 ∷ 0 ∷ 7 ∷ 2 ∷ 3 ∷ 3 ∷ 2 ∷ 7 ∷ []) ∷ []

abbrev unlinked_after : Dictionary Bytes
unlinked_after = (5 ∷ [], 5 ∷ 0 ∷ 0 ∷ 2 ∷ 3 ∷ 3 ∷ 2 ∷ 7 ∷ []) ∷ []

service_set_metadata_lem_example :
    (stored : Metadata) × (get_metadata small_metastor (5 ∷ []) unlinked_after ≡ ok stored)
    × (convert_in_memory_to_proto_metadata stored ≡ sent_metadata)
    × (stored.previous_key ≡ none)
    × (stored.next_key ≡ none)
unfolding service_set_metadata set_metadata insert
service_set_metadata_lem_example =
    service_set_metadata_lem small_metastor sent_metadata linked_before unlinked_after
      small_metastor-IsMetastore refl
