-- ===== src/Tests/Replicated.antt =====
-- Replicated storage at concrete values.
use stor.Base.{
  ◌≡◌, ◌≤◌, ◌↔◌, refl, inl, inr, Bytes, List, [], ◌∷◌, true, false, arith, All, length, count_if,
  ok, Runs, step, done, here,
}
use stor.Cluster.Types.{ObjectRef}
use stor.Storage.Types.{ChunkConfig, invalid, optimal}
use stor.Storage.Distributed.{is_valid_object, fetch_part}
use stor.Storage.Replicated.{check_chunk, read_chunk}
use stor.Storage.Replicated.Checking.{replicated_check_lem}
use stor.Storage.Replicated.Writing.{
  Writer, Step, take_request, no_request, take_shard, stored, return_object, replicating,
}
use stor.Storage.Replicated.Writing.Replicas.{
  IsReplica, replicas_on, times_in, replicated_write_lem, replicated_read_lem,
}
use stor.Tests.Client.{small_cluster, small_cluster-IsDurable}

abbrev payload : Bytes
payload = 7 ∷ 8 ∷ []

-- Two objects, of which the second is lost.
abbrev half_lost : ChunkConfig
half_lost = record {
  size = 2;
  objects =
      record { key = 0 ∷ []; shard_id = 1 ∷ [] } ∷ record { key = 9 ∷ []; shard_id = 4 ∷ [] } ∷ [];
}

replicated_check_lem_example :
    ((check_chunk small_cluster 2 half_lost true (payload ∷ []) ≡ ok invalid)
      ↔ (count_if (is_valid_object small_cluster (payload ∷ [])) half_lost.objects ≡ 0))
    × ((check_chunk small_cluster 2 half_lost false (payload ∷ []) ≡ ok optimal)
        ↔ (2 ≤ count_if (is_valid_object small_cluster (payload ∷ [])) half_lost.objects))
replicated_check_lem_example =
    replicated_check_lem small_cluster 2 half_lost true (payload ∷ []) (omega arith) (omega arith)

replicated_read_lem_test : read_chunk small_cluster half_lost (payload ∷ []) ≡ ok payload
unfolding fetch_part
replicated_read_lem_test =
    replicated_read_lem small_cluster payload (payload ∷ []) half_lost refl
      (inr refl, (inl refl, tt)) (omega arith)

abbrev two_shards : List Bytes
two_shards = (2 ∷ []) ∷ (3 ∷ []) ∷ []

abbrev before_write : Writer small_cluster
before_write = record {
  world = payload ∷ [];
  requests = 2;
  shards = two_shards;
  idle = 1;
  waiting = 0;
  writing = [];
  holding = [];
  returned = [];
  cancelled = false;
}

abbrev written_objects : List ObjectRef
written_objects =
    record { key = 2 ∷ []; shard_id = 3 ∷ [] } ∷ record { key = 1 ∷ []; shard_id = 2 ∷ [] } ∷ []

abbrev after_write : Writer small_cluster
after_write = record {
  world = payload ∷ payload ∷ payload ∷ [];
  requests = 0;
  shards = [];
  idle = 0;
  waiting = 0;
  writing = [];
  holding = [];
  returned = written_objects;
  cancelled = false;
}

abbrev written_cfg : ChunkConfig
written_cfg = record { size = 2; objects = written_objects }

after_write-Runs : Runs (Step small_cluster payload) before_write after_write
after_write-Runs = step (take_request refl refl) (
    step (take_shard refl refl) (
      step (stored here refl) (
        step (return_object here) (
          step (take_request refl refl) (
            step (take_shard refl refl) (
              step (stored here refl)
                (step (return_object here) (step (no_request (inl refl) refl) done))))))))

replicated_write_lem_example :
    (length written_objects ≡ 2)
    × (written_cfg.size ≡ length payload)
    × (replicas_on (3 ∷ []) written_objects ≤ times_in (3 ∷ []) two_shards)
    × All (IsReplica small_cluster payload after_write.world) written_objects
unfolding replicating
replicated_write_lem_example =
    replicated_write_lem small_cluster payload (payload ∷ []) two_shards 1 2 after_write written_cfg
      (3 ∷ []) small_cluster-IsDurable after_write-Runs refl
