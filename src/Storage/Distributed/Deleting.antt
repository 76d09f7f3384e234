-- ===== src/Storage/Distributed/Deleting.antt =====
-- DeleteChunk of client/datastor/pipeline/storage/distributed.go: its workers, for several objects, and
-- the case of one.
use stor.Base.{
  ℕ, suc, ◌+◌, ◌<◌, ◌≡◌, ◌⊎◌, inl, inr, refl, List, [], ◌∷◌, Bool, if◌then◌else◌, Option, none,
  some, arith, min, length, count_if, count_if-Pick, Result, ok, err, panic, Pick, Runs, Runs-keep,
}
use stor.Cluster.Types
use stor.Cluster.Types.{Cluster, ObjectRef}

-- What is left on indexCh, the idle workers, the objects that the others delete, those that are
-- deleted, and the first error, which cancels the context.
pub record Deleter (C : Cluster) : Type 0 where
  pub world : C.World
  pub pending : List ObjectRef
  pub idle : ℕ
  pub deleting : List ObjectRef
  pub deleted : List ObjectRef
  pub first_error : Option Types.Error

-- errgroup keeps the first error.
abbrev pub failed_with : Types.Error → Option Types.Error → Option Types.Error
failed_with e (some first) = some first
failed_with e none = some e

abbrev pub IsStopped : Option Types.Error → Type 0
IsStopped (some e) = Unit
IsStopped none = ⊥

pub data Step (C : Cluster) : Deleter C → Deleter C → Type 0 where
  take_object :
      {s : Deleter C} {object : ObjectRef} {pending : List ObjectRef} {idle : ℕ}
      → s.pending ≡ object ∷ pending
      → s.idle ≡ suc idle
      → Step C s (record s { pending = pending; idle = idle; deleting = object ∷ s.deleting })
  -- indexCh is closed
  no_object :
      {s : Deleter C} {idle : ℕ}
      → (s.pending ≡ []) ⊎ IsStopped s.first_error
      → s.idle ≡ suc idle
      → Step C s (record s { idle = idle })
  no_shard :
      {s : Deleter C} {object : ObjectRef} {deleting : List ObjectRef} {e : Types.Error}
      → Pick object s.deleting deleting
      → C.get_shard object.shard_id s.world ≡ err e
      → Step C s (record s { deleting = deleting; first_error = failed_with e s.first_error })
  delete_fails :
      {s : Deleter C} {object : ObjectRef} {deleting : List ObjectRef} {e : Types.Error}
      {world : C.World}
      → Pick object s.deleting deleting
      → C.get_shard object.shard_id s.world ≡ ok tt
      → C.delete_object object.shard_id object.key s.world ≡ (err e, world)
      → Step C s (record s {
        world = world;
        deleting = deleting;
        first_error = failed_with e s.first_error;
      })
  delete_succeeds :
      {s : Deleter C} {object : ObjectRef} {deleting : List ObjectRef} {world : C.World}
      → Pick object s.deleting deleting
      → C.get_shard object.shard_id s.world ≡ ok tt
      → C.delete_object object.shard_id object.key s.world ≡ (ok tt, world)
      → Step C s (record s {
        world = world;
        deleting = deleting;
        idle = suc s.idle;
        deleted = object ∷ s.deleted;
      })

-- The state in which DeleteChunk starts its workers.
unfoldable pub start : (C : Cluster) → C.World → ℕ → List ObjectRef → Deleter C
start C w job_count objects = record {
  world = w;
  pending = objects;
  idle = min job_count (length objects);
  deleting = [];
  deleted = [];
  first_error = none;
}

-- DeleteChunk of one object
unfoldable pub delete_one :
    (C : Cluster) → C.World → ObjectRef → Result Types.Error (Unit {0}) × C.World
delete_one C w object = elim (C.get_shard object.shard_id w) [
  | ok _ ↦ C.delete_object object.shard_id object.key w
  | err e ↦ (err e, w)
  | panic ↦ (panic, w)
]

-- As long as there is no error, every object is somewhere, and somebody is there to delete it.
record Progress (C : Cluster) (p : ObjectRef → Bool) (n : ℕ) (s : Deleter C) : Type 0 where
  balance :
      s.first_error ≡ none → count_if p s.deleted + count_if p s.deleting + count_if p s.pending ≡ n
  attended : s.first_error ≡ none → (0 < s.idle + length s.deleting) ⊎ (s.pending ≡ [])

failed_with-ne : (e : Types.Error) (o : Option Types.Error) → failed_with e o ≡ none → ⊥
failed_with-ne e (some d) h = cc
failed_with-ne e none h = cc

module _ (C : Cluster) (p : ObjectRef → Bool) (n : ℕ) where
  Step-Progress : (a b : Deleter C) → Step C a b → Progress C p n a → Progress C p n b
  Step-Progress a b (take_object {object = object} {pending = pending} e f) x = record {
    balance = λ h.
        let q : count_if p a.pending ≡ (if p object then 1 else 0) + count_if p pending =
          rw e refl in
        omega (arith, x.balance h);
    attended = λ h. inl (omega arith);
  }
  Step-Progress a b (no_object {idle = idle} (inl e) f) x = record {
    balance = x.balance;
    attended = λ h. inr e;
  }
  Step-Progress a b (no_object {idle = idle} (inr e) f) x = record {
    balance = x.balance;
    attended = λ h. absurd (rw h at e);
  }
  Step-Progress a b (no_shard {e = e} c g) x = record {
    balance = λ h. absurd (failed_with-ne e a.first_error h);
    attended = λ h. absurd (failed_with-ne e a.first_error h);
  }
  Step-Progress a b (delete_fails {e = e} c g d) x = record {
    balance = λ h. absurd (failed_with-ne e a.first_error h);
    attended = λ h. absurd (failed_with-ne e a.first_error h);
  }
  Step-Progress a b (delete_succeeds {object = object} {deleting = deleting} c g d) x = record {
    balance = λ h. omega (arith, x.balance h, count_if-Pick p object a.deleting deleting c);
    attended = λ h. inl (omega arith);
  }

-- When DeleteChunk has stopped without an error, each object of the chunk was deleted, as often as the
-- chunk lists it: no test tells the objects that were deleted from those of the chunk by their number.
pub deleted_all :
    (C : Cluster) (w : C.World) (job_count : ℕ) (objects : List ObjectRef) (p : ObjectRef → Bool)
    (last : Deleter C)
    → 0 < job_count
    → 0 < length objects
    → Runs (Step C) (start C w job_count objects) last
    → last.idle ≡ 0
    → last.deleting ≡ []
    → last.first_error ≡ none
    → count_if p last.deleted ≡ count_if p objects
unfolding start
deleted_all C w job_count objects p last h k run idle deleting e =
    let x =
      Runs-keep (Progress C p (count_if p objects)) (Step-Progress C p (count_if p objects))
        (start C w job_count objects) last run
        (record { balance = λ _. omega arith; attended = λ _. inl (omega arith) }) in
    let none_deleting : count_if p last.deleting ≡ 0 = rw deleting refl in
    elim (x.attended e) [
      | inl busy ↦
          let z : length last.deleting ≡ 0 = rw deleting refl in absurd (omega (arith, busy))
      | inr rest ↦
          let none_pending : count_if p last.pending ≡ 0 = rw rest refl in
          omega (arith, x.balance e)
    ]
