-- ===== src/Pipeline/Collecting.antt =====
-- client/datastor/pipeline/async_splitter.go: the goroutine of Write that brings the chunks into order.
pub mod Order
use stor.Base.{
  ℕ, suc, ◌+◌, ◌*◌, ◌-◌, List, [], ◌∷◌, ◌++◌, not, leb, ◌==◌, if◌then◌else◌, length, replicate, set,
  take, Result, ok, ◌>>=◌, ◌>>◌, panic_if, fail_if,
}
use stor.Cluster.Types.{Chunk}
use stor.Pipeline.Types.{Error, incomplete}

-- `chunks`, `receivedChunkCount` and `chunkSize`
pub record Collector : Type 0 where
  pub buffer : List Chunk
  pub received_count : ℕ
  pub size : ℕ

-- What make fills the slice with
abbrev pub empty_chunk : Chunk
empty_chunk = record { size = 0; objects = []; hash = [] }

-- `if chunk.Index >= bufferSize { … }`
abbrev pub grown : List Chunk → ℕ → List Chunk
grown buffer index =
    let size = index + length buffer * 2 in
    if leb (length buffer) index
    then buffer ++ replicate (size - length buffer) empty_chunk
    else buffer

-- The body of the loop; a write out of bounds is a panic.
abbrev pub collect_chunk : Collector → ℕ → Chunk → Result Error Collector
collect_chunk s index chunk =
    let buffer = grown s.buffer index in
    panic_if (leb (length buffer) index)
    >> ok (record {
      buffer = set buffer index chunk;
      received_count = suc s.received_count;
      size = if leb s.size index then suc index else s.size;
    })

-- The loop, for the chunks in the order that is the reverse of their arrival.
unfoldable pub collect_chunks : ℕ → List (ℕ × Chunk) → Result Error Collector
collect_chunks jobs [] =
    ok (record { buffer = replicate jobs empty_chunk; received_count = 0; size = 0 })
collect_chunks jobs ((index, chunk) ∷ earlier) =
    collect_chunks jobs earlier >>= λ s. collect_chunk s index chunk

-- What is left of the buffer after the loop
unfoldable pub collected : ℕ → List (ℕ × Chunk) → Result Error (List Chunk)
collected jobs arrivals = collect_chunks jobs arrivals >>= λ s.
    fail_if (not (s.received_count == s.size)) incomplete >> ok (take s.size s.buffer)
