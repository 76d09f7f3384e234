-- ===== src/Storage/Distributed/Writing/Storing.antt =====
-- WriteChunk of client/datastor/pipeline/storage/distributed.go: what its objects hold.
use mathlib.Core.List.{append_assoc}
use stor.Base.{
  length-append, sym, ap, ◌++◌, ℕ, suc, ◌≡◌, refl, Bytes, List, [], ◌∷◌, Result, ok, err, some, All,
  All-Pick, All-weaken, arith, length, get_elem?, Runs, Runs-keep,
}
use stor.Cluster.Types.{Error, Cluster}
use stor.Storage.Distributed.Writing.{
  Part, Stored, Attempt, Writer, Step, take_part, no_part, take_shard, no_shard, stored, refused,
  return_object, give_up, start, indexed,
}

-- What the client relies on: a shard that acknowledges an object has it, and another write, refused or
-- not, takes nothing away from what could be read.
pub record IsDurable (C : Cluster) : Type 0 where
  pub created :
      (id bytes key : Bytes) (w w' : C.World)
      → C.create_object id bytes w ≡ (ok key, w')
      → C.get_object id key w' ≡ ok bytes
  pub kept :
      (id bytes id' key' bytes' : Bytes) (w : C.World)
      → C.get_object id' key' w ≡ ok bytes'
      → C.get_object id' key' (C.create_object id bytes w).1 ≡ ok bytes'

abbrev IsPart : List Bytes → Part → Type 0
IsPart parts part = get_elem? parts part.0 ≡ some part.1

-- An object holds the part of its index.
abbrev pub HoldsPart : (C : Cluster) → List Bytes → C.World → Stored → Type 0
HoldsPart C parts w object =
    (part : Bytes) × (get_elem? parts object.0 ≡ some part)
    × (C.get_object object.1.shard_id object.1.key w ≡ ok part)

record Sound (C : Cluster) (parts : List Bytes) (s : Writer C) : Type 0 where
  pending_parts : All (IsPart parts) s.pending
  waiting_parts : All (IsPart parts) s.waiting
  writing_parts : All (λ attempt. IsPart parts attempt.0) s.writing
  holding_objects : All (HoldsPart C parts s.world) s.holding
  returned_objects : All (HoldsPart C parts s.world) s.returned

HoldsPart-kept :
    (C : Cluster) (parts : List Bytes) (d : IsDurable C) (id bytes : Bytes) (w w' : C.World)
    (r : Result Error Bytes)
    → C.create_object id bytes w ≡ (r, w')
    → (object : Stored) → HoldsPart C parts w object
    → HoldsPart C parts w' object
HoldsPart-kept C parts d id bytes w w' r e object (part, p, q) =
    let world : (C.create_object id bytes w).1 ≡ w' = ap (λ x. x.1) e in
    (part, p, rw world at (d.kept id bytes object.1.shard_id object.1.key part w q))

module _ (C : Cluster) (parts : List Bytes) (d : IsDurable C) where
  Step-Sound : (a b : Writer C) → Step C a b → Sound C parts a → Sound C parts b
  Step-Sound a b (take_part {part = part} {pending = pending} e f) x =
      let split : All (IsPart parts) (part ∷ pending) = rw e at x.pending_parts in
      record {
        pending_parts = split.1;
        waiting_parts = (split.0, x.waiting_parts);
        writing_parts = x.writing_parts;
        holding_objects = x.holding_objects;
        returned_objects = x.returned_objects;
      }
  Step-Sound a b (no_part e f) x = record {
    pending_parts = x.pending_parts;
    waiting_parts = x.waiting_parts;
    writing_parts = x.writing_parts;
    holding_objects = x.holding_objects;
    returned_objects = x.returned_objects;
  }
  Step-Sound a b (take_shard {part = part} {waiting = waiting} e c) x =
      let split = All-Pick (IsPart parts) part a.waiting waiting c x.waiting_parts in
      record {
        pending_parts = x.pending_parts;
        waiting_parts = split.1;
        writing_parts = (split.0, x.writing_parts);
        holding_objects = x.holding_objects;
        returned_objects = x.returned_objects;
      }
  Step-Sound a b (no_shard {part = part} {waiting = waiting} e c) x = record {
    pending_parts = x.pending_parts;
    waiting_parts = (All-Pick (IsPart parts) part a.waiting waiting c x.waiting_parts).1;
    writing_parts = x.writing_parts;
    holding_objects = x.holding_objects;
    returned_objects = x.returned_objects;
  }
  Step-Sound a b (stored {part = part} {id = id} {key = key} {writing = writing} {world = w'} c e)
        x =
      let split =
        All-Pick (λ (y : Attempt). IsPart parts y.0) (part, id) a.writing writing c
          x.writing_parts in
      let keep = HoldsPart-kept C parts d id part.1 a.world w' (ok key) e in
      record {
        pending_parts = x.pending_parts;
        waiting_parts = x.waiting_parts;
        writing_parts = split.1;
        holding_objects = (
          (part.1, split.0, d.created id part.1 key a.world w' e),
          All-weaken a.holding keep x.holding_objects,
        );
        returned_objects = All-weaken a.returned keep x.returned_objects;
      }
  Step-Sound a b (refused {part = part} {id = id} {writing = writing} {world = w'} {e = e} c r) x =
      let split =
        All-Pick (λ (y : Attempt). IsPart parts y.0) (part, id) a.writing writing c
          x.writing_parts in
      let keep = HoldsPart-kept C parts d id part.1 a.world w' (err e) r in
      record {
        pending_parts = x.pending_parts;
        waiting_parts = (split.0, x.waiting_parts);
        writing_parts = split.1;
        holding_objects = All-weaken a.holding keep x.holding_objects;
        returned_objects = All-weaken a.returned keep x.returned_objects;
      }
  Step-Sound a b (return_object {object = object} {holding = holding} c) x =
      let split =
        All-Pick (HoldsPart C parts a.world) object a.holding holding c x.holding_objects in
      record {
        pending_parts = x.pending_parts;
        waiting_parts = x.waiting_parts;
        writing_parts = x.writing_parts;
        holding_objects = split.1;
        returned_objects = (split.0, x.returned_objects);
      }
  Step-Sound a b (give_up {object = object} {holding = holding} e c) x = record {
    pending_parts = x.pending_parts;
    waiting_parts = x.waiting_parts;
    writing_parts = x.writing_parts;
    holding_objects =
        (All-Pick (HoldsPart C parts a.world) object a.holding holding c x.holding_objects).1;
    returned_objects = x.returned_objects;
  }

get_elem?-skip :
    (before : List Bytes) (part : Bytes) (parts : List Bytes)
    → get_elem? (before ++ part ∷ parts) (length before) ≡ some part
get_elem?-skip [] part parts = refl
get_elem?-skip (b ∷ before) part parts = get_elem?-skip before part parts

indexed-IsPart :
    (before parts : List Bytes) (i : ℕ)
    → length before ≡ i
    → All (IsPart (before ++ parts)) (indexed i parts)
indexed-IsPart before [] i h = tt
indexed-IsPart before (part ∷ parts) i h = (
  rw (sym h) (get_elem?-skip before part parts),
  rw (append_assoc before (part ∷ []) parts) at (
      indexed-IsPart (before ++ part ∷ []) parts (suc i)
        (omega (arith, length-append before (part ∷ [])))),
)

start-Sound :
    (C : Cluster) (w : C.World) (shards : List Bytes) (job_count : ℕ) (parts : List Bytes)
    → Sound C parts (start C w shards job_count parts)
unfolding start
start-Sound C w shards job_count parts = record {
  pending_parts = indexed-IsPart [] parts 0 refl;
  waiting_parts = tt;
  writing_parts = tt;
  holding_objects = tt;
  returned_objects = tt;
}

-- What is returned can be read, and is the part of its index.
pub returned-HoldsPart :
    (C : Cluster) (w : C.World) (shards : List Bytes) (job_count : ℕ) (parts : List Bytes)
    (last : Writer C)
    → IsDurable C
    → Runs (Step C) (start C w shards job_count parts) last
    → All (HoldsPart C parts last.world) last.returned
returned-HoldsPart C w shards job_count parts last d run =
    (Runs-keep (Sound C parts) (Step-Sound C parts d) (start C w shards job_count parts) last run
      (start-Sound C w shards job_count parts)).returned_objects
