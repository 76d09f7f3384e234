-- ===== src/Storage/Distributed/Writing/Parts.antt =====
-- WriteChunk of client/datastor/pipeline/storage/distributed.go: where its parts are.
use stor.Base.{
  ℕ, suc, ◌+◌, ◌≤◌, ◌≡◌, refl, ap, Bytes, List, [], ◌∷◌, ◌==◌, if◌then◌else◌, arith, length,
  count_if, count_if-Pick, length-Pick, Runs, Runs-keep,
}
use stor.Cluster.Types.{Cluster}
use stor.Storage.Distributed.Writing.{
  Part, Stored, Attempt, Writer, Step, take_part, no_part, take_shard, no_shard, stored, refused,
  return_object, give_up, indexed, start,
}

-- The number of items of an index.
abbrev pub at_index : {X : Type 0} → ℕ → List (ℕ × X) → ℕ
at_index i = count_if (λ x. x.0 == i)

abbrev pub attempts_at : ℕ → List Attempt → ℕ
attempts_at i = count_if (λ x. x.0.0 == i)

-- Where the parts are; `lost` has those that a failure has kept from being returned.
pub record Account (C : Cluster) (parts : List Bytes) (s : Writer C) : Type 0 where
  pub lost : List (ℕ × Unit {0})
  pub balance :
      (i : ℕ)
      → at_index i s.returned
          + at_index i s.holding
          + attempts_at i s.writing
          + at_index i s.waiting
          + at_index i s.pending
          + at_index i lost
        ≡ at_index i (indexed 0 parts)
  pub total :
      length s.returned
        + length s.holding
        + length s.writing
        + length s.waiting
        + length s.pending
        + length lost
      ≡ length parts

module _ (C : Cluster) (parts : List Bytes) where
  Step-Account : (a b : Writer C) → Step C a b → Account C parts a → Account C parts b
  Step-Account a b (take_part {part = part} {pending = pending} e f) x = record {
    lost = x.lost;
    balance = λ i.
        let p : at_index i a.pending ≡ (if part.0 == i then 1 else 0) + at_index i pending =
          rw e refl in
        omega (arith, x.balance i);
    total = let p : length a.pending ≡ suc (length pending) = rw e refl in omega (arith, x.total);
  }
  Step-Account a b (no_part e f) x = record { lost = x.lost; balance = x.balance; total = x.total }
  Step-Account a b (take_shard {part = part} {waiting = waiting} e c) x = record {
    lost = x.lost;
    balance = λ i.
        omega (arith, x.balance i, count_if-Pick (λ (y : Part). y.0 == i) part a.waiting waiting c);
    total = omega (arith, x.total, length-Pick part a.waiting waiting c);
  }
  Step-Account a b (no_shard {part = part} {waiting = waiting} e c) x = record {
    lost = (part.0, tt) ∷ x.lost;
    balance = λ i.
        omega (arith, x.balance i, count_if-Pick (λ (y : Part). y.0 == i) part a.waiting waiting c);
    total = omega (arith, x.total, length-Pick part a.waiting waiting c);
  }
  Step-Account a b (stored {part = part} {id = id} {writing = writing} c e) x = record {
    lost = x.lost;
    balance = λ i. omega (
      arith,
      x.balance i,
      count_if-Pick (λ (y : Attempt). y.0.0 == i) (part, id) a.writing writing c,
    );
    total = omega (arith, x.total, length-Pick (part, id) a.writing writing c);
  }
  Step-Account a b (refused {part = part} {id = id} {writing = writing} c e) x = record {
    lost = x.lost;
    balance = λ i. omega (
      arith,
      x.balance i,
      count_if-Pick (λ (y : Attempt). y.0.0 == i) (part, id) a.writing writing c,
    );
    total = omega (arith, x.total, length-Pick (part, id) a.writing writing c);
  }
  Step-Account a b (return_object {object = object} {holding = holding} c) x = record {
    lost = x.lost;
    balance = λ i.
        omega
          (arith, x.balance i, count_if-Pick (λ (y : Stored). y.0 == i) object a.holding holding c);
    total = omega (arith, x.total, length-Pick object a.holding holding c);
  }
  Step-Account a b (give_up {object = object} {holding = holding} e c) x = record {
    lost = (object.0, tt) ∷ x.lost;
    balance = λ i.
        omega
          (arith, x.balance i, count_if-Pick (λ (y : Stored). y.0 == i) object a.holding holding c);
    total = omega (arith, x.total, length-Pick object a.holding holding c);
  }

length-indexed : (i : ℕ) (parts : List Bytes) → length (indexed i parts) ≡ length parts
length-indexed i [] = refl
length-indexed i (part ∷ parts) = ap suc (length-indexed (suc i) parts)

start-Account :
    (C : Cluster) (w : C.World) (shards : List Bytes) (job_count : ℕ) (parts : List Bytes)
    → Account C parts (start C w shards job_count parts)
unfolding start
start-Account C w shards job_count parts = record {
  lost = [];
  balance = λ i. omega arith;
  total = omega (arith, length-indexed 0 parts);
}

pub run-Account :
    (C : Cluster) (w : C.World) (shards : List Bytes) (job_count : ℕ) (parts : List Bytes)
    (last : Writer C)
    → Runs (Step C) (start C w shards job_count parts) last
    → Account C parts last
run-Account C w shards job_count parts last run =
    Runs-keep (Account C parts) (Step-Account C parts) (start C w shards job_count parts) last run
      (start-Account C w shards job_count parts)

no_items : {X : Type 0} (i : ℕ) (xs : List (ℕ × X)) → length xs ≡ 0 → at_index i xs ≡ 0
no_items i [] h = refl
no_items i (x ∷ xs) h = absurd (omega arith)

no_attempts : (i : ℕ) (xs : List Attempt) → length xs ≡ 0 → attempts_at i xs ≡ 0
no_attempts i [] h = refl
no_attempts i (x ∷ xs) h = absurd (omega arith)

-- Once as many objects are returned as there are parts, each part is returned exactly once.
pub all_returned :
    (C : Cluster) (w : C.World) (shards : List Bytes) (job_count : ℕ) (parts : List Bytes)
    (last : Writer C) (i : ℕ)
    → Runs (Step C) (start C w shards job_count parts) last
    → length parts ≤ length last.returned
    → at_index i last.returned ≡ at_index i (indexed 0 parts)
all_returned C w shards job_count parts last i run e =
    let x = run-Account C w shards job_count parts last run in
    omega (
      arith,
      x.balance i,
      no_items i last.holding (omega (arith, x.total)),
      no_attempts i last.writing (omega (arith, x.total)),
      no_items i last.waiting (omega (arith, x.total)),
      no_items i last.pending (omega (arith, x.total)),
      no_items i x.lost (omega (arith, x.total)),
    )
