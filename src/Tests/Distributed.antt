-- ===== src/Tests/Distributed.antt =====
-- Distributed storage with one data and one parity shard, at concrete values.
use stor.Storage.Distributed.Checking
use stor.Storage.Distributed.Writing
use stor.Cluster.Types.{ObjectRef}
use stor.Storage.Distributed.{
  reed_solomon_coder, fetch_at, fetch_part, results, read_chunk, is_valid_object,
}
use stor.Storage.Distributed.Reading.{Answers, read_chunk_lem}
use stor.Storage.Distributed.Checking.{Search, request, no_request, hit, check_chunk}
use stor.Storage.Distributed.Checking.Outcome.{
  valid_count, check_chunk_found, check_chunk-invalid_iff,
}
use stor.Storage.Distributed.Writing.{
  Writer, take_part, no_part, take_shard, stored, return_object, write_start, write_result, place,
}
use stor.Storage.Distributed.Writing.Shards.{objects_on, times_listed, objects_on_le}
use stor.Storage.Distributed.Writing.Ending.{work, step_count-work}
use stor.Storage.Distributed.RoundTrip.{read_chunk-write_chunk}
use stor.Tests.Client.{small_cluster, small_cluster-IsDurable, three_shards}
use stor.Storage.Distributed.Deleting
use stor.Storage.Distributed.Deleting.{
  Deleter, take_object, delete_succeeds, no_object, deleted_all,
}
use stor.Storage.Distributed.Writing.Progress.{write_finishes}
use stor.Base.{
  none, step_count, count_if, bytes_eq, zero, ◌+◌, suc, Runs, step, done, here, inl, ◌↔◌, ◌≤◌, min,
  false, ◌≤◌, replicate, ℕ, ◌≡◌, ◌<◌, refl, Bytes, List, [], ◌∷◌, ◌++◌, arith, Result, ok, err,
  length,
}
use stor.Storage.Types.{ChunkConfig, invalid, Error, library}
use stor.Storage.Erasure.{coding, EncodeReconster, ReedSolomon, encode, decode}
use stor.Storage.Erasure.Splitting.{HaveSize}
use stor.Storage.Erasure.RoundTrip.{IsErasureCode, Survives, none_left, lost, kept, decode-encode}

-- A mirror is an erasure code for one data shard.
abbrev mirrored : List Bytes → Result Error (List Bytes)
mirrored (x ∷ y ∷ []) = ok (x ∷ x ∷ [])
mirrored parts = err (library 0)

abbrev restored : List Bytes → Result Error (List Bytes)
restored ([] ∷ y ∷ []) = ok (y ∷ y ∷ [])
restored parts = ok parts

abbrev mirror : EncodeReconster
mirror = record { encode_matrix = mirrored; reconstruct_data = restored }

restored_lem :
    (size : ℕ) (x : Bytes) (left : List Bytes) (n : ℕ)
    → length x ≡ size
    → 0 < size
    → Survives (x ∷ x ∷ []) left n
    → 1 ≤ n
    → (rest : List Bytes) × (restored left ≡ ok (x ∷ rest))
restored_lem size x left n h k (lost (lost none_left)) enough = absurd (omega arith)
restored_lem size x left n h k (lost (kept none_left)) enough = (x ∷ [], refl)
restored_lem size [] left n h k (kept s) enough = absurd (omega arith)
restored_lem size (b ∷ x) left n h k (kept (lost none_left)) enough = ([] ∷ [], refl)
restored_lem size (b ∷ x) left n h k (kept (kept none_left)) enough = ((b ∷ x) ∷ [], refl)

mirror_size :
    (size : ℕ) (shards : List Bytes)
    → length shards ≡ 1
    → HaveSize size shards
    → 0 < size
    → (length shards ≡ 1) × HaveSize size shards
mirror_size size shards h k p = (h, k)

mirror_encodes :
    (size : ℕ) (shards : List Bytes)
    → length shards ≡ 1
    → HaveSize size shards
    → 0 < size
    → mirrored (shards ++ replicate 1 (replicate size 0)) ≡ ok (shards ++ shards)
mirror_encodes size [] h k p = absurd (omega arith)
mirror_encodes size (x ∷ []) h k p = refl
mirror_encodes size (x ∷ y ∷ shards) h k p = absurd (omega arith)

mirror_reconstructs :
    (size : ℕ) (shards left : List Bytes) (n : ℕ)
    → length shards ≡ 1
    → HaveSize size shards
    → 0 < size
    → Survives (shards ++ shards) left n
    → 1 ≤ n
    → (rest : List Bytes) × (restored left ≡ ok (shards ++ rest))
mirror_reconstructs size [] left n h k p s enough = absurd (omega arith)
mirror_reconstructs size (x ∷ []) left n h k p s enough = restored_lem size x left n k.0 p s enough
mirror_reconstructs size (x ∷ y ∷ shards) left n h k p s enough = absurd (omega arith)

mirror-IsErasureCode : IsErasureCode mirror 1 1
mirror-IsErasureCode = record {
  parities = λ shards. shards;
  parities_size = mirror_size;
  encodes = mirror_encodes;
  reconstructs = mirror_reconstructs;
}

abbrev one_and_one : ReedSolomon
one_and_one = record { data_shard_count = 1; parity_shard_count = 1; shard_count = 2; er = mirror }

abbrev some_bytes : Bytes
some_bytes = 7 ∷ 8 ∷ []

-- The padded part that both shards get.
abbrev part : Bytes
part = some_bytes ++ replicate 254 0

-- The first part is lost.
decode-encode_example :
    (encode one_and_one some_bytes ≡ ok (part ∷ part ∷ []))
    × (decode one_and_one ([] ∷ part ∷ []) 2 ≡ ok some_bytes)
unfolding coding mirror-IsErasureCode
decode-encode_example =
    decode-encode one_and_one some_bytes mirror-IsErasureCode ([] ∷ part ∷ []) 1 refl (omega arith)
      (omega arith) (lost (kept none_left)) (omega arith)

abbrev two_parts : List Bytes
two_parts = part ∷ part ∷ []

abbrev two_objects : List ObjectRef
two_objects =
    record { key = 0 ∷ []; shard_id = 1 ∷ [] } ∷ record { key = 1 ∷ []; shard_id = 2 ∷ [] } ∷ []

abbrev two_object_cfg : ChunkConfig
two_object_cfg = record { size = 2; objects = two_objects }

two_objects-Answers : Answers small_cluster two_parts two_objects two_parts
unfolding fetch_at fetch_part
two_objects-Answers zero p e = e
two_objects-Answers (suc zero) p e = e
two_objects-Answers (suc (suc i)) p e = e

-- The second object arrives first.
read_chunk_lem_example :
    read_chunk small_cluster (reed_solomon_coder one_and_one) two_parts (1 ∷ 0 ∷ []) two_object_cfg
    ≡ ok some_bytes
unfolding coding mirror-IsErasureCode results fetch_at fetch_part
read_chunk_lem_example =
    read_chunk_lem small_cluster two_parts one_and_one some_bytes mirror-IsErasureCode (1 ∷ 0 ∷ [])
      two_object_cfg refl (omega arith) (omega arith) refl refl ((λ e. omega arith, tt), (tt, tt))
      two_objects-Answers (omega arith)

abbrev two_found : Search
two_found = record { requests = 0; pending = []; idle = 0; searching = 0; found = 2 }

two_found-Runs :
    Runs
      (Checking.Step small_cluster two_parts)
      (Checking.start (reed_solomon_coder one_and_one) 1 two_object_cfg false)
      two_found
unfolding Checking.start is_valid_object
two_found-Runs =
    step request (step (hit refl) (step request (step (hit refl) (step no_request done))))

check_chunk_found_test : 2 ≡ min 2 (valid_count small_cluster two_parts two_objects)
check_chunk_found_test =
    check_chunk_found small_cluster two_parts (reed_solomon_coder one_and_one) 1 two_object_cfg
      false two_found (omega arith) two_found-Runs (refl, refl)

check_chunk-invalid_iff_example :
    (check_chunk (reed_solomon_coder one_and_one) two_object_cfg two_found ≡ ok invalid)
    ↔ (valid_count small_cluster two_parts two_objects < 1)
check_chunk-invalid_iff_example =
    check_chunk-invalid_iff small_cluster two_parts (reed_solomon_coder one_and_one) 1
      two_object_cfg false two_found (omega arith) (omega arith) refl two_found-Runs (refl, refl)

abbrev before_write : Writer small_cluster
before_write = record {
  world = [];
  pending = (0, part) ∷ (1, part) ∷ [];
  shards = three_shards;
  idle = 1;
  waiting = [];
  writing = [];
  holding = [];
  returned = [];
  cancelled = false;
}

abbrev after_write : Writer small_cluster
after_write = record {
  world = two_parts;
  pending = [];
  shards = (3 ∷ []) ∷ [];
  idle = 0;
  waiting = [];
  writing = [];
  holding = [];
  returned =
      (1, record { key = 1 ∷ []; shard_id = 2 ∷ [] })
      ∷ (0, record { key = 0 ∷ []; shard_id = 1 ∷ [] })
      ∷ [];
  cancelled = false;
}

after_write-Runs : Runs (Writing.Step small_cluster) before_write after_write
after_write-Runs = step (take_part refl refl) (
    step (take_shard refl here) (
      step (stored here refl) (
        step (return_object here) (
          step (take_part refl refl) (
            step (take_shard refl here) (
              step (stored here refl)
                (step (return_object here) (step (no_part (inl refl) refl) done))))))))

objects_on_le_example :
    objects_on (2 ∷ []) after_write.returned ≤ times_listed (2 ∷ []) three_shards
unfolding Writing.start
objects_on_le_example =
    objects_on_le small_cluster [] three_shards 1 two_parts after_write (2 ∷ []) after_write-Runs

step_count-work_example : step_count after_write-Runs + work after_write ≤ work before_write
step_count-work_example = step_count-work small_cluster before_write after_write after_write-Runs

read_chunk-write_chunk_example :
    read_chunk small_cluster (reed_solomon_coder one_and_one) two_parts (1 ∷ []) two_object_cfg
    ≡ ok some_bytes
unfolding coding write_start write_result place Writing.start
read_chunk-write_chunk_example =
    read_chunk-write_chunk small_cluster [] one_and_one some_bytes mirror-IsErasureCode three_shards
      1 before_write after_write two_object_cfg (1 ∷ []) refl (omega arith) (omega arith)
      small_cluster-IsDurable refl after_write-Runs refl (λ id. refl) (tt, tt) (omega arith, tt)
      (omega arith)

abbrev before_delete : Deleter small_cluster
before_delete = record {
  world = two_parts;
  pending = two_objects;
  idle = 1;
  deleting = [];
  deleted = [];
  first_error = none;
}

abbrev after_delete : Deleter small_cluster
after_delete = record {
  world = two_parts;
  pending = [];
  idle = 0;
  deleting = [];
  deleted =
      record { key = 1 ∷ []; shard_id = 2 ∷ [] } ∷ record { key = 0 ∷ []; shard_id = 1 ∷ [] } ∷ [];
  first_error = none;
}

after_delete-Runs : Runs (Deleting.Step small_cluster) before_delete after_delete
after_delete-Runs = step (take_object refl refl) (
    step (delete_succeeds here refl refl) (
      step (take_object refl refl)
        (step (delete_succeeds here refl refl) (step (no_object (inl refl) refl) done))))

deleted_all_test :
    count_if (λ (o : ObjectRef). bytes_eq o.key (1 ∷ [])) after_delete.deleted
    ≡ count_if (λ (o : ObjectRef). bytes_eq o.key (1 ∷ [])) two_objects
unfolding Deleting.start
deleted_all_test =
    deleted_all small_cluster two_parts 1 two_objects (λ (o : ObjectRef). bytes_eq o.key (1 ∷ []))
      after_delete (omega arith) (omega arith) after_delete-Runs refl refl refl

write_finishes_example :
    (last : Writer small_cluster) × Runs (Writing.Step small_cluster) before_write last
    × Writing.IsFinished last
write_finishes_example = write_finishes small_cluster before_write (λ id bytes w. inl (_, _, refl))
