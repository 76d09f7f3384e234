-- ===== src/Storage/Distributed/Reading.antt =====
-- ReadChunk of client/datastor/pipeline/storage/distributed.go, over the coder of Storage.Erasure.
use stor.Base.{
  le→ltb_false, length-append, false, ==_refl, inr, ==_iff, ◌==◌, inl, Option-cases, Bool-cases, ℕ,
  zero, suc, ◌+◌, ◌<◌, ◌≤◌, ◌≡◌, ◌≢◌, refl, sym, ap, ◌∙◌, Bytes, List, [], ◌∷◌, ◌++◌, arith, Option,
  some, All, replicate, length, get_elem?, set, ok,
}
use native.Mathlib.Nat.{le_refl}
use stor.Cluster.Types.{Cluster, ObjectRef}
use stor.Storage.Types.{ChunkConfig}
use stor.Storage.Erasure.{ReedSolomon, split_data}
use stor.Storage.Erasure.Splitting.{split_data_lem, HaveSize}
use stor.Storage.Erasure.RoundTrip.{Survives, none_left, lost, kept, IsErasureCode, decode-encode}
use stor.Storage.Distributed.{
  EncoderDecoder, reed_solomon_coder, fetch_at, results, collect, read_chunk,
}

-- No index arrives twice.
abbrev pub AreDistinct : List ℕ → Type 0
AreDistinct [] = Unit
AreDistinct (i ∷ arrival) = All (λ j. j ≢ i) arrival × AreDistinct arrival

-- What the shards answer for an object is its part, if they answer at all.
abbrev pub Answers : (C : Cluster) → C.World → List ObjectRef → List Bytes → Type 0
Answers C w objects parts =
    (i : ℕ) (part : Bytes) → fetch_at C w objects i ≡ some part → get_elem? parts i ≡ some part

abbrev NonEmpty : List Bytes → Type 0
NonEmpty = All (λ part. 0 < length part)

some_eq : {a b : Bytes} → ◌≡◌ {A = Option Bytes} (some a) (some b) → a ≡ b
some_eq e = cc

Survives-set :
    (parts left : List Bytes) (n i : ℕ) (part : Bytes)
    → Survives parts left n
    → NonEmpty parts
    → get_elem? parts i ≡ some part
    → get_elem? left i ≡ some []
    → Survives parts (set left i part) (suc n)
Survives-set parts left n i part none_left h e f = absurd (cc)
Survives-set parts left n zero part (lost s) h e f = rw (some_eq e) (kept s)
Survives-set parts left n (suc i) part (lost s) h e f = lost (Survives-set _ _ _ i part s h.1 e f)
Survives-set (p ∷ parts) left n zero part (kept s) h e f =
    absurd (let z : p ≡ [] = some_eq f in omega (arith, h.0, ap length z))
Survives-set parts left n (suc i) part (kept s) h e f = kept (Survives-set _ _ _ i part s h.1 e f)

-- Each result goes to a slot of its own that is still empty.
abbrev Placeable : List Bytes → List Bytes → List (ℕ × Bytes) → Type 0
Placeable parts left [] = Unit
Placeable parts left (result ∷ later) =
    (get_elem? parts result.0 ≡ some result.1)
    × (get_elem? left result.0 ≡ some [])
    × Placeable parts (set left result.0 result.1) later

not_last : (n minimum : ℕ) → n < minimum → (n + 1 == minimum) ≡ false → n + 1 < minimum
not_last n minimum h f = ground arith

collect_lem :
    (minimum : ℕ) (parts : List Bytes) (later : List (ℕ × Bytes)) (n : ℕ) (left : List Bytes)
    → NonEmpty parts
    → Survives parts left n
    → Placeable parts left later
    → n < minimum
    → minimum ≤ n + length later
    → (left' : List Bytes) × (collect minimum later n left ≡ (minimum, left'))
      × Survives parts left' minimum
unfolding collect
collect_lem minimum parts [] n left ne s p h k = absurd (omega arith)
collect_lem minimum parts ((i, part) ∷ later) n left ne s p h k =
    let s' = Survives-set parts left n i part s ne p.0 p.1 in
    let one : n + 1 ≡ suc n = omega arith in
    elim (Bool-cases (n + 1 == minimum)) [
      | inl e ↦
          let last : n + 1 ≡ minimum = (==_iff (n + 1) minimum).0 e in
          let enough : minimum ≡ suc n = omega arith in
          (set left i part, rw e (ap (λ m. (m, set left i part)) last), rw enough s')
      | inr f ↦
          let below : n + 1 < minimum = not_last n minimum h f in
          rw f (
            collect_lem minimum parts later (n + 1) (set left i part) ne (rw one s') p.2 below
              (omega arith))
    ]

set_other :
    (xs : List Bytes) (i j : ℕ) (v : Bytes) → j ≢ i → get_elem? (set xs i v) j ≡ get_elem? xs j
set_other [] i j v h = refl
set_other (x ∷ xs) zero zero v h = absurd (h refl)
set_other (x ∷ xs) zero (suc j) v h = refl
set_other (x ∷ xs) (suc i) zero v h = refl
set_other (x ∷ xs) (suc i) (suc j) v h = set_other xs i j v (λ e. h (ap suc e))

All-with :
    {P Q R : ℕ → Type 0} (xs : List ℕ)
    → ((x : ℕ) → P x → Q x → R x)
    → All P xs
    → All Q xs
    → All R xs
All-with [] f h k = tt
All-with (x ∷ xs) f h k = (f x h.0 k.0, All-with xs f h.1 k.1)

All-of : (P : ℕ → Type 0) (xs : List ℕ) → ((x : ℕ) → P x) → All P xs
All-of P [] f = tt
All-of P (x ∷ xs) f = (f x, All-of P xs f)

abbrev IsVacant : List Bytes → List Bytes → ℕ → Type 0
IsVacant parts left i = (part : Bytes) → get_elem? parts i ≡ some part → get_elem? left i ≡ some []

results-Placeable :
    (C : Cluster) (w : C.World) (objects : List ObjectRef) (parts : List Bytes) (arrival : List ℕ)
    (left : List Bytes)
    → Answers C w objects parts
    → AreDistinct arrival
    → All (IsVacant parts left) arrival
    → Placeable parts left (results C w objects arrival)
unfolding results
results-Placeable C w objects parts [] left h d v = tt
results-Placeable C w objects parts (i ∷ arrival) left h d v =
    elim (Option-cases (fetch_at C w objects i)) [
      | inl e ↦ rw e (results-Placeable C w objects parts arrival left h d.1 v.1)
      | inr (part, e) ↦ rw e (
        h i part e,
        v.0 part (h i part e),
        results-Placeable C w objects parts arrival (set left i part) h d.1 (
            All-with arrival (λ j other vacant q f. set_other left i j part other ∙ vacant q f) d.0
              v.1),
      )
    ]

blank-IsVacant :
    (parts : List Bytes) (n i : ℕ) → length parts ≡ n → IsVacant parts (replicate n []) i
blank-IsVacant [] n i h part e = absurd (cc)
blank-IsVacant (p ∷ parts) zero i h part e = absurd (omega arith)
blank-IsVacant (p ∷ parts) (suc n) zero h part e = refl
blank-IsVacant (p ∷ parts) (suc n) (suc i) h part e = blank-IsVacant parts n i (omega arith) part e

blank-Survives : (parts : List Bytes) (n : ℕ) → length parts ≡ n → Survives parts (replicate n []) 0
blank-Survives [] zero h = none_left
blank-Survives [] (suc n) h = absurd (omega arith)
blank-Survives (p ∷ parts) zero h = absurd (omega arith)
blank-Survives (p ∷ parts) (suc n) h = lost (blank-Survives parts n (omega arith))

HaveSize-NonEmpty :
    (size : ℕ) (parts : List Bytes) → 0 < size → HaveSize size parts → NonEmpty parts
HaveSize-NonEmpty size [] h k = tt
HaveSize-NonEmpty size (part ∷ parts) h k = (omega (arith, k.0), HaveSize-NonEmpty size parts h k.1)

HaveSize-append :
    (size : ℕ) (xs ys : List Bytes) → HaveSize size xs → HaveSize size ys → HaveSize size (xs ++ ys)
HaveSize-append size [] ys h k = k
HaveSize-append size (x ∷ xs) ys h k = (h.0, HaveSize-append size xs ys h.1 k)

parts_read_lem :
    (C : Cluster) (dec : EncoderDecoder) (w : C.World) (arrival : List ℕ) (cfg : ChunkConfig)
    (left : List Bytes) (bytes : Bytes)
    → dec.required ≡ length cfg.objects
    → collect dec.minimum (results C w cfg.objects arrival) 0 (replicate dec.required [])
      ≡ (dec.minimum, left)
    → dec.decode_parts left cfg.size ≡ ok bytes
    → length bytes ≡ cfg.size
    → read_chunk C dec w arrival cfg ≡ ok bytes
unfolding read_chunk
parts_read_lem C dec w arrival cfg left bytes n e d size =
    rw
      (
        e,
        n,
        ==_refl (length cfg.objects),
        le→ltb_false dec.minimum dec.minimum (le_refl _),
        d,
        size,
        ==_refl cfg.size,
      )
      refl

-- ReadChunk gives back the data that was encoded, in whatever order the workers finish, if the objects
-- that can be read are at least as many as the data shards, and each of them holds its part.
pub read_chunk_lem :
    (C : Cluster) (w : C.World) (rs : ReedSolomon) (bytes : Bytes)
    (code : IsErasureCode rs.er rs.data_shard_count rs.parity_shard_count) (arrival : List ℕ)
    (cfg : ChunkConfig)
    → rs.shard_count ≡ rs.data_shard_count + rs.parity_shard_count
    → 0 < rs.data_shard_count
    → 0 < length bytes
    → cfg.size ≡ length bytes
    → length cfg.objects ≡ rs.shard_count
    → AreDistinct arrival
    → Answers C w cfg.objects (split_data rs bytes ++ code.parities (split_data rs bytes))
    → rs.data_shard_count ≤ length (results C w cfg.objects arrival)
    → read_chunk C (reed_solomon_coder rs) w arrival cfg ≡ ok bytes
read_chunk_lem C w rs bytes code arrival cfg total h k size count distinct answers enough =
    let split = split_data_lem rs bytes h k in
    let shards = split_data rs bytes in
    let others = code.parities_size split.size shards split.count split.sized split.size_pos in
    let parts : List Bytes = shards ++ code.parities shards in
    let full : length parts ≡ rs.shard_count =
      omega (arith, length-append shards (code.parities shards), split.count, others.0) in
    let sized =
      HaveSize-NonEmpty split.size parts split.size_pos
        (HaveSize-append split.size shards (code.parities shards) split.sized others.1) in
    let (left, e, s) =
      collect_lem rs.data_shard_count parts (results C w cfg.objects arrival) 0
        (replicate rs.shard_count []) sized (blank-Survives parts rs.shard_count full)
        (results-Placeable C w cfg.objects parts arrival (replicate rs.shard_count []) answers
          distinct
          (All-of (IsVacant parts (replicate rs.shard_count [])) arrival
            (λ i. blank-IsVacant parts rs.shard_count i full)))
        h (omega arith) in
    parts_read_lem C (reed_solomon_coder rs) w arrival cfg left bytes (sym count) e
      (rw size ((decode-encode rs bytes code left rs.data_shard_count total h k s (le_refl _)).1))
      (sym size)
