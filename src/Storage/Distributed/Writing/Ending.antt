-- ===== src/Storage/Distributed/Writing/Ending.antt =====
-- WriteChunk of client/datastor/pipeline/storage/distributed.go: the number of its workers' steps.
use stor.Base.{
  step_count, Runs-bounded, ℕ, suc, ◌+◌, ◌*◌, ◌<◌, ◌≤◌, ◌≡◌, refl, arith, length, length-Pick, Runs,
}
use stor.Cluster.Types.{Cluster}
use stor.Storage.Distributed.Writing.{
  Writer, Step, take_part, no_part, take_shard, no_shard, stored, refused, return_object, give_up,
}

-- A bound on the number of steps that are left.
unfoldable pub work : {C : Cluster} → Writer C → ℕ
work s =
    3 * length s.pending
    + 2 * length s.shards
    + s.idle
    + 3 * length s.waiting
    + 4 * length s.writing
    + 2 * length s.holding

pub Step-work : (C : Cluster) (a b : Writer C) → Step C a b → work b < work a
unfolding work
Step-work C a b (take_part {pending = pending} e f) =
    let p : length a.pending ≡ suc (length pending) = rw e refl in omega (arith, f)
Step-work C a b (no_part e f) = omega (arith, f)
Step-work C a b (take_shard {part = part} {waiting = waiting} {shards = shards} e c) =
    let p : length a.shards ≡ suc (length shards) = rw e refl in
    omega (arith, length-Pick part a.waiting waiting c)
Step-work C a b (no_shard {part = part} {waiting = waiting} e c) =
    omega (arith, length-Pick part a.waiting waiting c)
Step-work C a b (stored {part = part} {id = id} {writing = writing} c e) =
    omega (arith, length-Pick (part, id) a.writing writing c)
Step-work C a b (refused {part = part} {id = id} {writing = writing} c r) =
    omega (arith, length-Pick (part, id) a.writing writing c)
Step-work C a b (return_object {object = object} {holding = holding} c) =
    omega (arith, length-Pick object a.holding holding c)
Step-work C a b (give_up {object = object} {holding = holding} e c) =
    omega (arith, length-Pick object a.holding holding c)

-- Every run of the workers of WriteChunk is finite: it has at most as many steps as there is work when
-- it begins, three for each part, two for each shard and one for each idle worker among them.
pub step_count-work :
    (C : Cluster) (a b : Writer C) (run : Runs (Step C) a b) → step_count run + work b ≤ work a
step_count-work C a b run = Runs-bounded (Step C) work (Step-work C) a b run
