-- ===== src/Storage/Replicated/Writing/Replicas.antt =====
-- client/datastor/pipeline/storage/replicated.go: what write returns, and ReadChunk.
use stor.Base.{
  All-weaken, ℕ, ◌+◌, ◌<◌, ◌≤◌, ◌≡◌, ◌⊎◌, inl, inr, refl, sym, ap, Bytes, bytes_eq, List, [], ◌∷◌,
  Option, none, some, Bool, true, false, if◌then◌else◌, ltb, Result, ok, err, ==_refl, pos→==_false,
  All, All-Pick, count_if, count_if-Pick, length-Pick, arith, length, Runs, Runs-keep,
}
use stor.Cluster.Types
use stor.Cluster.Types.{Cluster, ObjectRef}
use stor.Storage.Types.{ChunkConfig, shards_unavailable}
use stor.Storage.Distributed.{fetch_part}
use stor.Storage.Distributed.Writing.Storing.{IsDurable}
use stor.Storage.Replicated.{read_objects, read_chunk}
use stor.Storage.Replicated.Writing.{
  Writer, Step, take_request, no_request, take_shard, no_shard, stored, refused, return_object,
  give_up, start, write_result,
}

-- The object has the data.
abbrev pub IsReplica : (C : Cluster) → Bytes → C.World → ObjectRef → Type 0
IsReplica C bytes w o = C.get_object o.shard_id o.key w ≡ ok bytes

abbrev pub replicas_on : Bytes → List ObjectRef → ℕ
replicas_on id = count_if (λ o. bytes_eq o.shard_id id)

abbrev pub times_in : Bytes → List Bytes → ℕ
times_in id = count_if (λ x. bytes_eq x id)

record Sound (C : Cluster) (bytes : Bytes) (n : ℕ) (shards : List Bytes) (s : Writer C)
    : Type 0 where
  total : s.requests + s.waiting + length s.writing + length s.holding + length s.returned ≤ n
  apart :
      (id : Bytes)
      → replicas_on id s.returned
          + replicas_on id s.holding
          + times_in id s.writing
          + times_in id s.shards
        ≤ times_in id shards
  held : All (IsReplica C bytes s.world) s.holding
  given : All (IsReplica C bytes s.world) s.returned

IsReplica-kept :
    (C : Cluster) (bytes : Bytes) (d : IsDurable C) (id : Bytes) (w w' : C.World)
    (r : Result Types.Error Bytes)
    → C.create_object id bytes w ≡ (r, w')
    → (o : ObjectRef) → IsReplica C bytes w o
    → IsReplica C bytes w' o
IsReplica-kept C bytes d id w w' r e o q =
    let world : (C.create_object id bytes w).1 ≡ w' = ap (λ x. x.1) e in
    rw world at (d.kept id bytes o.shard_id o.key bytes w q)

module _ (C : Cluster) (bytes : Bytes) (n : ℕ) (shards : List Bytes) (d : IsDurable C) where
  Step-Sound :
      (a b : Writer C) → Step C bytes a b → Sound C bytes n shards a → Sound C bytes n shards b
  Step-Sound a b (take_request e f) x = record {
    total = omega (arith, x.total, e);
    apart = x.apart;
    held = x.held;
    given = x.given;
  }
  Step-Sound a b (no_request e f) x = record {
    total = x.total;
    apart = x.apart;
    held = x.held;
    given = x.given;
  }
  Step-Sound a b (take_shard {id = s} {shards = ids} e f) x = record {
    total = omega (arith, x.total, f);
    apart = λ id.
        let p : times_in id a.shards ≡ (if bytes_eq s id then 1 else 0) + times_in id ids =
          rw e refl in
        omega (arith, x.apart id);
    held = x.held;
    given = x.given;
  }
  Step-Sound a b (no_shard e f) x = record {
    total = omega (arith, x.total, f);
    apart = x.apart;
    held = x.held;
    given = x.given;
  }
  Step-Sound a b (stored {id = s} {key = key} {writing = writing} {world = w'} c e) x =
      let keep = IsReplica-kept C bytes d s a.world w' (ok key) e in
      record {
        total = omega (arith, x.total, length-Pick s a.writing writing c);
        apart = λ id.
            omega (arith, x.apart id, count_if-Pick (λ y. bytes_eq y id) s a.writing writing c);
        held = (d.created s bytes key a.world w' e, All-weaken a.holding keep x.held);
        given = All-weaken a.returned keep x.given;
      }
  Step-Sound a b (refused {id = s} {writing = writing} {world = w'} {e = e} c r) x =
      let keep = IsReplica-kept C bytes d s a.world w' (err e) r in
      record {
        total = omega (arith, x.total, length-Pick s a.writing writing c);
        apart = λ id.
            omega (arith, x.apart id, count_if-Pick (λ y. bytes_eq y id) s a.writing writing c);
        held = All-weaken a.holding keep x.held;
        given = All-weaken a.returned keep x.given;
      }
  Step-Sound a b (return_object {object = o} {holding = holding} c) x =
      let split = All-Pick (IsReplica C bytes a.world) o a.holding holding c x.held in
      record {
        total = omega (arith, x.total, length-Pick o a.holding holding c);
        apart = λ id. omega (
          arith,
          x.apart id,
          count_if-Pick (λ (y : ObjectRef). bytes_eq y.shard_id id) o a.holding holding c,
        );
        held = split.1;
        given = (split.0, x.given);
      }
  Step-Sound a b (give_up {object = o} {holding = holding} e c) x =
      let split = All-Pick (IsReplica C bytes a.world) o a.holding holding c x.held in
      record {
        total = omega (arith, x.total, length-Pick o a.holding holding c);
        apart = λ id. omega (
          arith,
          x.apart id,
          count_if-Pick (λ (y : ObjectRef). bytes_eq y.shard_id id) o a.holding holding c,
        );
        held = split.1;
        given = x.given;
      }

run-Sound :
    (C : Cluster) (bytes : Bytes) (w : C.World) (shards : List Bytes) (job_count n : ℕ)
    (last : Writer C)
    → IsDurable C
    → Runs (Step C bytes) (start C w shards job_count n) last
    → Sound C bytes n shards last
unfolding start
run-Sound C bytes w shards job_count n last d run =
    Runs-keep (Sound C bytes n shards) (Step-Sound C bytes n shards d)
      (start C w shards job_count n) last run
      (record { total = omega arith; apart = λ id. omega arith; held = tt; given = tt })

enough_returned : (m n : ℕ) → (if ltb m n then some shards_unavailable else none) ≡ none → n ≤ m
enough_returned m n e = ground arith

-- However the workers are scheduled and whatever the shards answer, if write returns no error, it
-- returns as many objects as are requested, no more on a shard than the number of times that the
-- iterator hands the shard out, and each has the data, if a shard gives what it has acknowledged and
-- keeps it when more is written.
pub replicated_write_lem :
    (C : Cluster) (bytes : Bytes) (w : C.World) (shards : List Bytes) (job_count n : ℕ)
    (last : Writer C) (cfg : ChunkConfig) (id : Bytes)
    → IsDurable C
    → Runs (Step C bytes) (start C w shards job_count n) last
    → write_result bytes n last ≡ (cfg, none)
    → (length cfg.objects ≡ n)
      × (cfg.size ≡ length bytes)
      × (replicas_on id cfg.objects ≤ times_in id shards)
      × All (IsReplica C bytes last.world) cfg.objects
unfolding write_result
replicated_write_lem C bytes w shards job_count n last cfg id d run e =
    let x = run-Sound C bytes w shards job_count n last d run in
    let m = enough_returned (length last.returned) n (ap (λ y. y.1) e) in
    rw (sym (ap (λ y. y.0) e)) (omega (arith, x.total), refl, omega (arith, x.apart id), x.given)

abbrev pub is_some : Option Bytes → Bool
is_some (some bytes) = true
is_some none = false

read_objects_lem :
    (C : Cluster) (bytes : Bytes) (w : C.World) (objects : List ObjectRef)
    → All (λ o. (fetch_part C w o ≡ none) ⊎ (fetch_part C w o ≡ some bytes)) objects
    → 0 < count_if (λ o. is_some (fetch_part C w o)) objects
    → read_objects C w (length bytes) objects ≡ ok bytes
unfolding read_objects
read_objects_lem C bytes w [] h k = absurd (omega arith)
read_objects_lem C bytes w (o ∷ objects) (inl e, h) k =
    rw e (read_objects_lem C bytes w objects h (omega (arith, rw e at k)))
read_objects_lem C bytes w (o ∷ objects) (inr e, h) k = rw (e, ==_refl (length bytes)) refl

some_listed :
    (P : ObjectRef → Bool) (objects : List ObjectRef) → 0 < count_if P objects → 0 < length objects
some_listed P [] k = absurd (omega arith)
some_listed P (o ∷ objects) k = omega arith

-- ReadChunk of the replicated storage gives the data, whichever objects are lost, if every object that
-- can be read has it and at least one can be read.
pub replicated_read_lem :
    (C : Cluster) (bytes : Bytes) (w : C.World) (cfg : ChunkConfig)
    → cfg.size ≡ length bytes
    → All (λ o. (fetch_part C w o ≡ none) ⊎ (fetch_part C w o ≡ some bytes)) cfg.objects
    → 0 < count_if (λ o. is_some (fetch_part C w o)) cfg.objects
    → read_chunk C cfg w ≡ ok bytes
unfolding read_chunk
replicated_read_lem C bytes w cfg e h k =
    rw
      (
        pos→==_false (length cfg.objects)
            (some_listed (λ o. is_some (fetch_part C w o)) cfg.objects k),
        e,
      )
      (read_objects_lem C bytes w cfg.objects h k)
