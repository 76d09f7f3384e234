-- ===== src/Tests/Splitter.antt =====
-- A splitting pipeline over a list of chunks, with one goroutine that processes and two that store.
use stor.Pipeline.Composing.Order.{joined}
use stor.Tests.Pipeline.{turned, turned-IsReversible, first_byte}
use stor.Base.{
  panic, ◌≢◌, ℕ, ◌≡◌, refl, sym, ap, Bytes, List, [], ◌∷◌, ◌++◌, length, get_elem?, Option, some,
  none, Result, ok, err, ok-injective, arith, if◌then◌else◌, step, done, here,
}
use stor.Cluster.Types.{Chunk, ObjectRef}
use stor.Storage.Types
use stor.Storage.Types.{ChunkConfig, CheckStatus, invalid, valid, optimal}
use stor.Pipeline.Types.{Error, ChunkStorage, IsStorage, KeepsChunks}
use stor.Pipeline.Numbered.{get_elem?-append, get_elem?-lt}
use stor.Pipeline.Workers.{take_item, leave, succeed, send}
use stor.Pipeline.Flow.{
  start, feed, feed_end, move_one, send_one, close_one, move_two, send_two, close_two,
}
use stor.Pipeline.Collecting.{collected, collect_chunks}
use stor.Pipeline.Composing.{composed, write_buffered}
use stor.Pipeline.Splitter.{AsyncSplitter, Reader, Writes, written, Reads, composed_from}
use stor.Pipeline.Numbered.{Related}
use stor.Pipeline.Collecting.Order.{collected-ne-panic}
use stor.Pipeline.Splitter.Writing.{WellStored, splitter_write_lem, splitter_write_total}
use stor.Pipeline.Splitter.RoundTrip.{all_data, splitter_read-write}

abbrev listed : ℕ → Bytes → ChunkConfig
listed n bytes = record {
  size = length bytes;
  objects = record { key = n ∷ []; shard_id = [] } ∷ [];
}

abbrev pub found : Option Bytes → Result Types.Error Bytes
found none = err (Types.library 0)
found (some bytes) = ok bytes

abbrev first_key : Bytes → ℕ
first_key [] = 0
first_key (n ∷ key) = n

abbrev key_of : List ObjectRef → ℕ
key_of [] = 0
key_of (object ∷ objects) = first_key object.key

abbrev pub list_storage : ChunkStorage
list_storage = record {
  World = List Bytes;
  write_chunk = λ bytes w. (ok (listed (length w) bytes), w ++ (bytes ∷ []));
  read_chunk = λ cfg w. found (get_elem? w (key_of cfg.objects));
  check_chunk = λ cfg fast w. ok (if fast then valid else optimal);
  repair_chunk = λ cfg w. (ok cfg, w);
  delete_chunk = λ cfg w. (ok tt, w);
}

pub get_elem?-last : (w : List Bytes) (b : Bytes) → get_elem? (w ++ (b ∷ [])) (length w) ≡ some b
get_elem?-last [] b = refl
get_elem?-last (x ∷ w) b = get_elem?-last w b

pub list_storage-IsStorage : IsStorage list_storage
list_storage-IsStorage bytes w w' cfg e =
    rw (sym (ok-injective (ap (λ z. z.0) e)), sym (ap (λ z. z.1) e), get_elem?-last w bytes) refl

pub found-ok : (o : Option Bytes) (b : Bytes) → found o ≡ ok b → o ≡ some b
found-ok none b e = absurd cc
found-ok (some a) b e = ap some (ok-injective e)

pub list_storage-KeepsChunks : KeepsChunks list_storage
list_storage-KeepsChunks cfg bytes bytes' w e =
    let n = key_of cfg.objects in
    let there = found-ok (get_elem? w n) bytes e in
    rw (get_elem?-append w (bytes' ∷ []) n (get_elem?-lt w n bytes there)) e

abbrev pub small_splitter : AsyncSplitter
small_splitter = record {
  hasher = ok first_byte;
  processor = ok turned;
  chunk_storage = list_storage;
  storage_job_count = 2;
  processor_job_count = 1;
  chunk_size = 2;
}

abbrev small_reader : Reader
small_reader = record { reads = (7 ∷ 8 ∷ []) ∷ (9 ∷ []) ∷ []; last = []; failure = none }

abbrev pub two_chunks : List Chunk
two_chunks =
    record { size = 2; objects = record { key = 0 ∷ []; shard_id = [] } ∷ []; hash = 7 ∷ [] }
    ∷ record { size = 1; objects = record { key = 1 ∷ []; shard_id = [] } ∷ []; hash = 9 ∷ [] }
    ∷ []

abbrev pub second_of : List Chunk → Chunk
second_of (a ∷ b ∷ chunks) = b
second_of chunks = record { size = 0; objects = []; hash = [] }

-- The second piece is processed while the first has not been stored.
small_write : Writes small_splitter small_reader [] (ok two_chunks) ((8 ∷ 7 ∷ []) ∷ (9 ∷ []) ∷ [])
unfolding start collected collect_chunks
small_write =
    written refl refl
      (step (feed refl refl (omega arith)) (
        step (move_one (take_item {idle = 0} refl here)) (
          step (move_one (succeed here refl)) (
            step (send_one (send here) (omega arith)) (
              step (feed refl refl (omega arith)) (
                step (move_one (take_item {idle = 0} refl here)) (
                  step (move_two (take_item {idle = 1} refl here)) (
                    step (move_one (succeed here refl)) (
                      step (feed_end refl refl) (
                        step (move_two (succeed here refl)) (
                          step (send_one (send here) (omega arith)) (
                            step (move_one (leave {idle = 0} refl refl refl)) (
                              step
                                (close_one refl
                                  (record { none_idle = refl; none_busy = refl; none_made = refl }))
                                (step (send_two (send here)) (
                                  step (move_two (take_item {idle = 1} refl here)) (
                                    step (move_two (succeed here refl)) (
                                      step (send_two (send here)) (
                                        step (move_two (leave {idle = 1} refl refl refl)) (
                                          step (move_two (leave {idle = 0} refl refl refl)) (
                                            step
                                              (close_two refl (record {
                                                none_idle = refl;
                                                none_busy = refl;
                                                none_made = refl;
                                              }))
                                              done))))))))))))))))))))
      (record { feeding = refl; one = refl; two = refl }) refl refl

small_read : Reads small_splitter two_chunks ((8 ∷ 7 ∷ []) ∷ (9 ∷ []) ∷ []) (ok (7 ∷ 8 ∷ 9 ∷ []))
unfolding start composed write_buffered
small_read =
    composed_from (omega arith) refl refl
      (step (feed refl refl (omega arith)) (
        step (feed refl refl (omega arith)) (
          step (move_one (take_item {idle = 1} refl here)) (
            step (move_one (succeed here refl)) (
              step (send_one (send here) (omega arith)) (
                step (feed_end refl refl) (
                  step (move_two (take_item {idle = 0} refl here)) (
                    step (move_two (succeed here refl)) (
                      step (send_two (send here)) (
                        step (move_one (take_item {idle = 1} refl here)) (
                          step (move_one (succeed here refl)) (
                            step (send_one (send here) (omega arith)) (
                              step (move_one (leave {idle = 1} refl refl refl)) (
                                step (move_one (leave {idle = 0} refl refl refl)) (
                                  step
                                    (close_one refl (record {
                                      none_idle = refl;
                                      none_busy = refl;
                                      none_made = refl;
                                    }))
                                    (step (move_two (take_item {idle = 0} refl here)) (
                                      step (move_two (succeed here refl)) (
                                        step (send_two (send here)) (
                                          step (move_two (leave {idle = 0} refl refl refl)) (
                                            step
                                              (close_two refl (record {
                                                none_idle = refl;
                                                none_busy = refl;
                                                none_made = refl;
                                              }))
                                              done))))))))))))))))))))
      (record { feeding = refl; one = refl; two = refl }) refl

splitter_read-write_example :
    (given : Bytes) × (◌≡◌ {A = Result Error Bytes} (ok (7 ∷ 8 ∷ 9 ∷ [])) (ok given))
    × (given ≡ joined small_reader.reads)
    × (all_data small_reader ≡ given ++ small_reader.last)
splitter_read-write_example =
    splitter_read-write small_splitter first_byte turned small_reader two_chunks []
      ((8 ∷ 7 ∷ []) ∷ (9 ∷ []) ∷ []) (ok (7 ∷ 8 ∷ 9 ∷ [])) list_storage-IsStorage
      list_storage-KeepsChunks turned-IsReversible (omega arith, omega arith) refl refl small_write
      (omega arith) small_read

splitter_write_lem_example :
    (small_reader.failure ≡ none)
    × Related
        (WellStored list_storage first_byte turned ((8 ∷ 7 ∷ []) ∷ (9 ∷ []) ∷ []))
        ((7 ∷ 8 ∷ []) ∷ (9 ∷ []) ∷ [])
        two_chunks
splitter_write_lem_example =
    splitter_write_lem small_splitter first_byte turned small_reader two_chunks []
      ((8 ∷ 7 ∷ []) ∷ (9 ∷ []) ∷ []) list_storage-IsStorage list_storage-KeepsChunks
      (omega arith, omega arith) refl refl small_write

splitter_write_total_example : ¬ Writes small_splitter small_reader [] panic []
splitter_write_total_example =
    splitter_write_total small_splitter small_reader [] [] (omega arith, omega arith)

collected-ne-panic_test : collected 1 ((5, second_of two_chunks) ∷ []) ≢ panic
collected-ne-panic_test = collected-ne-panic 1 ((5, second_of two_chunks) ∷ []) (omega arith)
