-- ===== src/Daemon/Streams.antt =====
-- daemon/api/grpc/file_api.go and data_api.go: what WriteStream takes from its stream, and what ReadStream
-- puts on its stream. The pipe hands each piece that is written to its reader, in parts if the reader's
-- buffer is smaller.
pub mod Pieces
use stor.Base.{
  ℕ, zero, suc, ◌+◌, Bytes, List, [], ◌∷◌, ◌++◌, Bool, leb, ◌==◌, if◌then◌else◌, length, take, drop,
  Option, none, some,
}
use stor.Daemon.Types.{DaemonError, nil_data, stream_error}

-- The messages that Recv gives before it returns io.EOF or an error
pub record Received : Type 0 where
  pub messages : List Bytes
  pub failure : Option ℕ

-- The loop of the goroutine that reads the stream: what it writes to the pipe, and its error.
unfoldable pub streamed : List Bytes → Option ℕ → Bytes × Option DaemonError
streamed [] none = ([], none)
streamed [] (some e) = ([], some (stream_error e))
streamed (bytes ∷ messages) failure =
    let rest = streamed messages failure in
    if length bytes == 0 then ([], some nil_data) else (bytes ++ rest.0, rest.1)

-- The messages for one piece that is written to the pipe; the fuel is the length of the piece.
unfoldable pub parts_of : ℕ → ℕ → Bytes → List Bytes
parts_of size zero bytes = bytes ∷ []
parts_of size (suc fuel) bytes =
    let rest = parts_of size fuel (drop size bytes) in
    if leb (length bytes) size then bytes ∷ [] else take size bytes ∷ rest

-- All the messages that ReadStream sends for the pieces
unfoldable pub sent_messages : ℕ → List Bytes → List Bytes
sent_messages size [] = []
sent_messages size (piece ∷ pieces) =
    parts_of size (length piece) piece ++ sent_messages size pieces
