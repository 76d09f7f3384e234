-- ===== src/Storage/Distributed/Writing/Shards.antt =====
-- WriteChunk of client/datastor/pipeline/storage/distributed.go: which shards it uses.
use stor.Base.{
  ℕ, ◌+◌, ◌≤◌, ◌≡◌, refl, Bytes, bytes_eq, List, if◌then◌else◌, arith, count_if, count_if-Pick,
  Runs, Runs-keep,
}
use stor.Cluster.Types.{Cluster}
use stor.Storage.Distributed.Writing.{
  Stored, Attempt, Writer, Step, take_part, no_part, take_shard, no_shard, stored, refused,
  return_object, give_up, start,
}

-- The number of objects that are stored on a shard.
abbrev pub objects_on : Bytes → List Stored → ℕ
objects_on id = count_if (λ x. bytes_eq x.1.shard_id id)

abbrev attempts_on : Bytes → List Attempt → ℕ
attempts_on id = count_if (λ x. bytes_eq x.1 id)

abbrev pub times_listed : Bytes → List Bytes → ℕ
times_listed id = count_if (λ x. bytes_eq x id)

abbrev uses : {C : Cluster} → Bytes → Writer C → ℕ
uses id s =
    objects_on id s.returned
    + objects_on id s.holding
    + attempts_on id s.writing
    + times_listed id s.shards

abbrev IsWithin : (C : Cluster) → Bytes → ℕ → Writer C → Type 0
IsWithin C id n s = uses id s ≤ n

Step-IsWithin :
    (C : Cluster) (id : Bytes) (n : ℕ) (a b : Writer C)
    → Step C a b
    → IsWithin C id n a
    → IsWithin C id n b
Step-IsWithin C id n a b (take_part e f) x = x
Step-IsWithin C id n a b (no_part e f) x = x
Step-IsWithin C id n a b (take_shard {id = s} {shards = shards} e c) x =
    let p : times_listed id a.shards ≡ (if bytes_eq s id then 1 else 0) + times_listed id shards =
      rw e refl in
    omega (arith, x)
Step-IsWithin C id n a b (no_shard e c) x = x
Step-IsWithin C id n a b (stored {part = part} {id = s} {writing = writing} c e) x =
    omega (arith, x, count_if-Pick (λ (y : Attempt). bytes_eq y.1 id) (part, s) a.writing writing c)
Step-IsWithin C id n a b (refused {part = part} {id = s} {writing = writing} c e) x =
    omega (arith, x, count_if-Pick (λ (y : Attempt). bytes_eq y.1 id) (part, s) a.writing writing c)
Step-IsWithin C id n a b (return_object {object = object} {holding = holding} c) x =
    omega (
      arith,
      x,
      count_if-Pick (λ (y : Stored). bytes_eq y.1.shard_id id) object a.holding holding c,
    )
Step-IsWithin C id n a b (give_up {object = object} {holding = holding} e c) x =
    omega (
      arith,
      x,
      count_if-Pick (λ (y : Stored). bytes_eq y.1.shard_id id) object a.holding holding c,
    )

-- However the workers are scheduled and whatever the shards answer, WriteChunk returns no more objects
-- on a shard than the number of times that the iterator hands the shard out.
pub objects_on_le :
    (C : Cluster) (w : C.World) (shards : List Bytes) (job_count : ℕ) (parts : List Bytes)
    (last : Writer C) (id : Bytes)
    → Runs (Step C) (start C w shards job_count parts) last
    → objects_on id last.returned ≤ times_listed id shards
unfolding start
objects_on_le C w shards job_count parts last id run =
    let x =
      Runs-keep (IsWithin C id (times_listed id shards))
        (Step-IsWithin C id (times_listed id shards)) (start C w shards job_count parts) last run
        (omega arith) in
    omega (arith, x)
