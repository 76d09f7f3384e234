-- ===== src/Storage/Distributed/RoundTrip.antt =====
-- WriteChunk and ReadChunk of client/datastor/pipeline/storage/distributed.go, one after the other.
use mathlib.Core.Path.{subst}
use stor.Base.{
  All-weaken, ok-injective, if◌then◌else◌, inr, ==_iff, inl, length-replicate, Bool-cases, ℕ, zero,
  suc, ◌+◌, ◌<◌, ◌≤◌, ◌≡◌, refl, sym, ap, ◌∙◌, Bytes, List, [], ◌∷◌, ◌++◌, Option, none, some,
  false, ◌==◌, ltb, arith, All, replicate, length, length-set, get_elem?, set, ok, Runs,
}
use stor.Cluster.Types.{Cluster, ObjectRef}
use stor.Storage.Types.{ChunkConfig, shards_unavailable}
use stor.Storage.Erasure.{ReedSolomon, split_data}
use stor.Storage.Erasure.RoundTrip.{encode_ok, IsErasureCode}
use stor.Storage.Distributed.{reed_solomon_coder, fetch_part, fetch_at, results, read_chunk}
use native.Mathlib.Decide.{dec_lt}
use stor.Storage.Distributed.Reading.{Answers, AreDistinct, read_chunk_lem}
use stor.Storage.Distributed.Writing.{
  Stored, Writer, Step, start, write_start, indexed, place, write_result,
}
use stor.Storage.Distributed.Writing.Parts.{at_index, all_returned}
use stor.Storage.Distributed.Writing.Storing.{IsDurable, HoldsPart, returned-HoldsPart}

length-place :
    (returned : List Stored) (objects : List ObjectRef)
    → length (place returned objects) ≡ length objects
unfolding place
length-place [] objects = refl
length-place ((i, o) ∷ later) objects =
    length-set (place later objects) i o ∙ length-place later objects

get_set_same :
    (xs : List ObjectRef) (i : ℕ) (v : ObjectRef)
    → i < length xs
    → get_elem? (set xs i v) i ≡ some v
get_set_same [] i v h = absurd (omega arith)
get_set_same (x ∷ xs) zero v h = refl
get_set_same (x ∷ xs) (suc i) v h = get_set_same xs i v (omega arith)

get_set_other :
    (xs : List ObjectRef) (i j : ℕ) (v : ObjectRef)
    → (i == j) ≡ false
    → get_elem? (set xs i v) j ≡ get_elem? xs j
get_set_other [] i j v h = refl
get_set_other (x ∷ xs) zero zero v h = absurd (cc)
get_set_other (x ∷ xs) zero (suc j) v h = refl
get_set_other (x ∷ xs) (suc i) zero v h = refl
get_set_other (x ∷ xs) (suc i) (suc j) v h = get_set_other xs i j v (ground arith)

-- An object of each index that was returned is placed, and one that was returned.
place_lem :
    (P : Stored → Type 0) (returned : List Stored) (objects : List ObjectRef) (i : ℕ)
    → i < length objects
    → All P returned
    → 0 < at_index i returned
    → (o : ObjectRef) × (get_elem? (place returned objects) i ≡ some o) × P (i, o)
unfolding place
place_lem P [] objects i h a k = absurd (omega arith)
place_lem P ((j, o) ∷ later) objects i h a k = elim (Bool-cases (j == i)) [
  | inl e ↦
      let same : j ≡ i = (==_iff j i).0 e in
      (
        o,
        rw same
            (get_set_same (place later objects) i o (omega (arith, length-place later objects))),
        subst (λ (n : ℕ). P (n, o)) same a.0,
      )
  | inr f ↦
      let (o', e, p) = place_lem P later objects i h a.1 (omega (arith, rw f at k)) in
      (o', get_set_other (place later objects) j i o f ∙ e, p)
]

further : (n i : ℕ) → n ≤ i → (n == i) ≡ false → suc n ≤ i
further n i h f = ground arith

at_index-indexed :
    (parts : List Bytes) (n i : ℕ) → n ≤ i → i < n + length parts → 0 < at_index i (indexed n parts)
at_index-indexed [] n i h k = absurd (omega arith)
at_index-indexed (part ∷ parts) n i h k = elim (Bool-cases (n == i)) [
  | inl e ↦ rw e (omega arith)
  | inr f ↦
      let ne : suc n ≤ i = further n i h f in
      let r = at_index-indexed parts (suc n) i ne (omega arith) in omega (arith, r)
]

no_error : (m n : ℕ) → (if ltb m n then some shards_unavailable else none) ≡ none → n ≤ m
no_error m n e = ground arith

-- Every part is placed, when the write reports no error.
pub write_result_lem :
    (C : Cluster) (w : C.World) (shards : List Bytes) (job_count : ℕ) (bytes : Bytes)
    (parts : List Bytes) (last : Writer C) (i : ℕ)
    → IsDurable C
    → Runs (Step C) (start C w shards job_count parts) last
    → (write_result bytes (length parts) last).1 ≡ none
    → i < length parts
    → (o : ObjectRef) × (get_elem? (write_result bytes (length parts) last).0.objects i ≡ some o)
      × HoldsPart C parts last.world (i, o)
unfolding write_result
write_result_lem C w shards job_count bytes parts last i d run e h =
    let enough : length parts ≤ length last.returned =
      no_error (length last.returned) (length parts) e in
    let blank : List ObjectRef = replicate (length parts) (record { key = []; shard_id = [] }) in
    let count : length blank ≡ length parts = length-replicate (length parts) _ in
    place_lem (HoldsPart C parts last.world) last.returned blank i (omega arith)
      (returned-HoldsPart C w shards job_count parts last d run)
      (omega (
        arith,
        all_returned C w shards job_count parts last i run enough,
        at_index-indexed parts 0 i (omega arith) (omega arith),
      ))

get_elem?-ge : (xs : List ObjectRef) (i : ℕ) → length xs ≤ i → get_elem? xs i ≡ none
get_elem?-ge [] i h = refl
get_elem?-ge (x ∷ xs) zero h = absurd (omega arith)
get_elem?-ge (x ∷ xs) (suc i) h = get_elem?-ge xs i (omega arith)

fetch_part_lem :
    (C : Cluster) (w : C.World) (o : ObjectRef) (part : Bytes)
    → C.get_shard o.shard_id w ≡ ok tt
    → C.get_object o.shard_id o.key w ≡ ok part
    → fetch_part C w o ≡ some part
unfolding fetch_part
fetch_part_lem C w o part f g = rw (f, g) refl

fetch_at_lem :
    (C : Cluster) (w : C.World) (objects : List ObjectRef) (i : ℕ) (o : ObjectRef) (part : Bytes)
    → get_elem? objects i ≡ some o
    → C.get_shard o.shard_id w ≡ ok tt
    → C.get_object o.shard_id o.key w ≡ ok part
    → fetch_at C w objects i ≡ some part
unfolding fetch_at
fetch_at_lem C w objects i o part e f g = rw e (fetch_part_lem C w o part f g)

fetch_at-none :
    (C : Cluster) (w : C.World) (objects : List ObjectRef) (i : ℕ)
    → length objects ≤ i
    → fetch_at C w objects i ≡ none
unfolding fetch_at
fetch_at-none C w objects i h = rw (get_elem?-ge objects i h) refl

length-results :
    (C : Cluster) (w : C.World) (objects : List ObjectRef) (arrival : List ℕ)
    → All (λ i. (part : Bytes) × (fetch_at C w objects i ≡ some part)) arrival
    → length (results C w objects arrival) ≡ length arrival
unfolding results
length-results C w objects [] h = refl
length-results C w objects (i ∷ arrival) h =
    rw (h.0.1) (ap suc (length-results C w objects arrival h.1))

none_ne : {a : Bytes} → ◌≡◌ {A = Option Bytes} none (some a) → ⊥
none_ne e = cc

module _ (C : Cluster) (w : C.World) (shards : List Bytes) (job_count : ℕ) (bytes : Bytes)
    (parts : List Bytes) (last : Writer C) (cfg : ChunkConfig) (durable : IsDurable C)
    (run : Runs (Step C) (start C w shards job_count parts) last)
    (written : write_result bytes (length parts) last ≡ (cfg, none))
    (reachable : (id : Bytes) → C.get_shard id last.world ≡ ok tt) where
  written_cfg : (cfg.size ≡ length bytes) × (length cfg.objects ≡ length parts)
  unfolding write_result
  written_cfg =
      let e : (write_result bytes (length parts) last).0 ≡ cfg = ap (λ x. x.0) written in
      let blank : List ObjectRef = replicate (length parts) (record { key = []; shard_id = [] }) in
      let placed : length (place last.returned blank) ≡ length parts =
        length-place last.returned blank ∙ length-replicate (length parts) _ in
      (
        ap (λ (x : ChunkConfig). x.size) (sym e),
        ap (λ (x : ChunkConfig). length x.objects) (sym e) ∙ placed,
      )

  readable :
      (i : ℕ)
      → i < length parts
      → (part : Bytes) × (fetch_at C last.world cfg.objects i ≡ some part)
        × (get_elem? parts i ≡ some part)
  readable i h =
      let e : (write_result bytes (length parts) last).0 ≡ cfg = ap (λ x. x.0) written in
      let (o, p, (part, q, r)) =
        write_result_lem C w shards job_count bytes parts last i durable run (ap (λ x. x.1) written)
          h in
      (
        part,
        fetch_at_lem C last.world cfg.objects i o part
            (ap (λ (x : ChunkConfig). get_elem? x.objects i) (sym e) ∙ p) (reachable o.shard_id) r,
        q,
      )

  written-Answers : Answers C last.world cfg.objects parts
  written-Answers i part e = elim (dec_lt i (length parts)) [
    | yes h ↦ let (part', f, q) = readable i h in q ∙ (sym f ∙ e)
    | no h ↦ absurd (
        none_ne (sym (fetch_at-none C last.world cfg.objects i (omega (arith, written_cfg.1))) ∙ e))
  ]

  arrival_readable :
      (arrival : List ℕ)
      → All (λ i. i < length parts) arrival
      → length (results C last.world cfg.objects arrival) ≡ length arrival
  arrival_readable arrival inside =
      length-results C last.world cfg.objects arrival
        (All-weaken arrival (λ i h. let (part, f, q) = readable i h in (part, f)) inside)

-- After a WriteChunk without an error, by whatever schedule and whichever shards refused a part, ReadChunk
-- gives the data back from any of the objects that are as many as the data shards, if the shards keep
-- what they acknowledge and can be reached.
pub read_chunk-write_chunk :
    (C : Cluster) (w : C.World) (rs : ReedSolomon) (bytes : Bytes)
    (code : IsErasureCode rs.er rs.data_shard_count rs.parity_shard_count) (shards : List Bytes)
    (job_count : ℕ) (first last : Writer C) (cfg : ChunkConfig) (arrival : List ℕ)
    → rs.shard_count ≡ rs.data_shard_count + rs.parity_shard_count
    → 0 < rs.data_shard_count
    → 0 < length bytes
    → IsDurable C
    → write_start C (reed_solomon_coder rs) w shards job_count bytes ≡ ok first
    → Runs (Step C) first last
    → write_result bytes rs.shard_count last ≡ (cfg, none)
    → ((id : Bytes) → C.get_shard id last.world ≡ ok tt)
    → AreDistinct arrival
    → All (λ i. i < rs.shard_count) arrival
    → rs.data_shard_count ≤ length arrival
    → read_chunk C (reed_solomon_coder rs) last.world arrival cfg ≡ ok bytes
unfolding write_start
read_chunk-write_chunk C w rs bytes code shards job_count first last cfg arrival total h k durable
      started run written reachable distinct inside enough =
    let parts : List Bytes = split_data rs bytes ++ code.parities (split_data rs bytes) in
    let (encoded, count) = encode_ok rs bytes code total h k in
    let begun : start C w shards job_count parts ≡ first = ok-injective (rw encoded at started) in
    let run' : Runs (Step C) (start C w shards job_count parts) last = rw begun run in
    let written' : write_result bytes (length parts) last ≡ (cfg, none) = rw count written in
    let cfg_eq =
      written_cfg C w shards job_count bytes parts last cfg durable run' written' reachable in
    let inside' : All (λ i. i < length parts) arrival = rw count inside in
    let all =
      arrival_readable C w shards job_count bytes parts last cfg durable run' written' reachable
        arrival inside' in
    read_chunk_lem C last.world rs bytes code arrival cfg total h k cfg_eq.0 (cfg_eq.1 ∙ count)
      distinct
      (written-Answers C w shards job_count bytes parts last cfg durable run' written' reachable)
      (omega (arith, all, enough))
