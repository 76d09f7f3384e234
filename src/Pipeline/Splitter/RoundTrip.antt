-- ===== src/Pipeline/Splitter/RoundTrip.antt =====
-- client/datastor/pipeline/async_splitter.go: what Read gives of the chunks that Write has returned.
use mathlib.Core.List.{append-nil, append_assoc}
use stor.Base.{refl, sym, ◌∙◌, ap, [], ◌∷◌, ◌++◌, ◌<◌, ◌≡◌, Bytes, List, length, Result, ok, arith}
use stor.Cluster.Types.{Chunk}
use stor.Pipeline.Types.{Error, Processor, Hasher, IsStorage, KeepsChunks, IsReversible}
use stor.Pipeline.Numbered.{length-Related}
use stor.Pipeline.Composing.Order.{joined}
use stor.Pipeline.Splitter.{AsyncSplitter, Reader, Writes, Reads}
use stor.Pipeline.Splitter.Writing.{HasJobs, WellStored, splitter_write_lem}
use stor.Pipeline.Splitter.Reading.{splitter_read_lem}

-- All the bytes that the calls of the reader gave to Write, those of the last call, which came with
-- io.EOF, too
abbrev pub all_data : Reader → Bytes
all_data r = joined (r.reads ++ (r.last ∷ []))

joined-snoc :
    (reads : List Bytes) (last : Bytes) → joined (reads ++ (last ∷ [])) ≡ joined reads ++ last
joined-snoc [] last = append-nil last
joined-snoc (piece ∷ reads) last =
    ap (λ rest. piece ++ rest) (joined-snoc reads last)
    ∙ sym (append_assoc piece (joined reads) last)

-- However the goroutines of Write and of Read are scheduled, Read gives the data of all the calls of the
-- reader that returned no error, and of these only the bytes of the last call, which came with io.EOF,
-- are lost: what Read gives and those bytes after it are all the data of the reader. This is so if Write
-- returns no error and some call of the reader returned none, over a storage that reads what it has
-- written and keeps it when more is written, with a reversible processor, a hasher and jobs of both
-- kinds.
pub splitter_read-write :
    (P : AsyncSplitter) (hash : Hasher) (p : Processor) (r : Reader) (chunks : List Chunk)
    (w w' : P.chunk_storage.World) (answer : Result Error Bytes)
    → IsStorage P.chunk_storage
    → KeepsChunks P.chunk_storage
    → IsReversible p
    → HasJobs P
    → P.hasher ≡ ok hash
    → P.processor ≡ ok p
    → Writes P r w (ok chunks) w'
    → 0 < length r.reads
    → Reads P chunks w' answer
    → (given : Bytes) × (answer ≡ ok given)
      × (given ≡ joined r.reads)
      × (all_data r ≡ given ++ r.last)
splitter_read-write P hash p r chunks w w' answer storage keeps reversible jobs h k writes some
      reads =
    let (clean, stored) = splitter_write_lem P hash p r chunks w w' storage keeps jobs h k writes in
    let len = length-Related (WellStored P.chunk_storage hash p w') r.reads chunks stored in
    (
      joined r.reads,
      splitter_read_lem P hash p r.reads chunks w' answer reversible jobs h k stored
          (omega (arith, len)) reads,
      refl,
      joined-snoc r.reads r.last,
    )
