-- ===== src/Tests/Assembled.antt =====
-- A client of a single-object pipeline over a list of chunks, and of the metadata of Tests.Objects.
use stor.Client.Metastor.{set_metadata}
use stor.Client.Traversal.{Metadata}
use stor.Pipeline.Types.{ChunkStorage, IsStorage, KeepsChunks}
use stor.Client.Objects.{metadata_for, read_object, write_object, Client}
use stor.Storage.Types.{optimal, valid}
use stor.Pipeline.Numbered.{get_elem?-append, get_elem?-lt}
use stor.Base.{
  ◌++◌, length, ℕ, if◌then◌else◌, none, sym, ap, ok-injective, get_elem?, ◌≡◌, [], ◌∷◌, Dictionary,
  insert, Bytes, List, refl, ok,
}
use stor.Pipeline.SingleObject.{write, SingleObject}
use stor.Client.Assembled.{none_written, and_written, read_object-Written, new_client}
use stor.Tests.Pipeline.{turned, turned-IsReversible, first_byte}
use stor.Tests.Splitter.{found, get_elem?-last, found-ok}
use stor.Tests.Objects.{small_metastor, small_metastor-IsMetastore}

-- A chunk storage that knows a chunk by its size, since the metadata of Tests.Objects have no room for
-- objects.
abbrev sized_storage : ChunkStorage
sized_storage = record {
  World = List Bytes;
  write_chunk = λ bytes w. (ok (record { size = length w; objects = [] }), w ++ (bytes ∷ []));
  read_chunk = λ cfg w. found (get_elem? w cfg.size);
  check_chunk = λ cfg fast w. ok (if fast then valid else optimal);
  repair_chunk = λ cfg w. (ok cfg, w);
  delete_chunk = λ cfg w. (ok tt, w);
}

sized_storage-IsStorage : IsStorage sized_storage
sized_storage-IsStorage bytes w w' cfg e =
    rw (sym (ok-injective (ap (λ z. z.0) e)), sym (ap (λ z. z.1) e), get_elem?-last w bytes) refl

sized_storage-KeepsChunks : KeepsChunks sized_storage
sized_storage-KeepsChunks cfg bytes bytes' w e =
    let n = cfg.size in
    let there = found-ok (get_elem? w n) bytes e in
    rw (get_elem?-append w (bytes' ∷ []) n (get_elem?-lt w n bytes there)) e

abbrev sized_pipeline : SingleObject
sized_pipeline = record {
  hasher = ok first_byte;
  processor = ok turned;
  chunk_storage = sized_storage;
}

abbrev small_assembled : Client (List Bytes × Dictionary Bytes)
small_assembled = new_client sized_pipeline small_metastor

abbrev metadata_in : ℕ → ℕ → Bytes → Metadata
metadata_in n now hash =
    metadata_for (5 ∷ []) none now (record { size = n; objects = []; hash = hash } ∷ [])

abbrev first_world : List Bytes × Dictionary Bytes
first_world = (write_object small_assembled (5 ∷ []) (9 ∷ []) 3 ([], [])).1

abbrev second_world : List Bytes × Dictionary Bytes
second_world = (write_object small_assembled (5 ∷ []) (7 ∷ 8 ∷ []) 4 first_world).1

-- The same key is written twice.
read_object-Written_example : read_object small_assembled (5 ∷ []) second_world ≡ ok (7 ∷ 8 ∷ [])
unfolding write_object set_metadata insert write
read_object-Written_example =
    read_object-Written sized_pipeline first_byte turned small_metastor ([], [])
      ((5 ∷ [], 7 ∷ 8 ∷ []) ∷ (5 ∷ [], 9 ∷ []) ∷ []) second_world sized_storage-IsStorage
      sized_storage-KeepsChunks turned-IsReversible refl refl small_metastor-IsMetastore
      (and_written {v = first_world} {md = metadata_in 1 4 (7 ∷ [])} (5 ∷ []) (7 ∷ 8 ∷ []) 4
        (and_written {v = ([], [])} {md = metadata_in 0 3 (9 ∷ [])} (5 ∷ []) (9 ∷ []) 3 none_written
          refl)
        refl)
      (5 ∷ []) (7 ∷ 8 ∷ []) refl
