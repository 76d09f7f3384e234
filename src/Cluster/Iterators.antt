-- ===== src/Cluster/Iterators.antt =====
-- client/datastor/cluster.go: the iterators over the shards of a cluster.
pub mod Random
use stor.Base.{
  ℕ, zero, suc, ◌-◌, ◌+◌, Bytes, List, [], ◌∷◌, Option, none, some, Bool, true, false, ltb,
  if◌then◌else◌, get_elem?, set, length, Result, ok, err, panic,
}
use stor.Cluster.Types.{Cluster}

-- RandomShardIterator over values of any type.
pub record RandomIterator (A : Type 0) : Type 0 where
  pub slice : List A
  pub len : ℕ
  pub current : Option A

-- NewRandomShardIterator
unfoldable pub new_random_iterator : {A : Type 0} → List A → RandomIterator A
new_random_iterator slice = record { slice = slice; len = length slice; current = none }

-- `it.slice[i], it.slice[j] = it.slice[j], it.slice[i]`
abbrev pub swapped : {A : Type 0} → List A → ℕ → ℕ → Option A → Option A → List A
swapped xs i j (some a) (some b) = set (set xs i b) j a
swapped xs i j a b = xs

unfoldable pub swap : {A : Type 0} → ℕ → ℕ → List A → List A
swap i j xs = swapped xs i j (get_elem? xs i) (get_elem? xs j)

-- Next, where `index` is the random number that is drawn
unfoldable pub next : {A : Type 0} → ℕ → RandomIterator A → Bool × RandomIterator A
unfolding swap
next index it =
    if ltb it.len 1
    then (false, it)
    else (let slice = swap index (it.len - 1) it.slice in
        (true, record { slice = slice; len = it.len - 1; current = get_elem? slice (it.len - 1) }))

-- Shard, where none stands for the panic before the first successful Next
unfoldable pub shard : {A : Type 0} → RandomIterator A → Option A
shard it = it.current

-- `for it.Next() { … it.Shard() … }`: what the iterator hands out, for the numbers that are drawn
unfoldable pub drain : {A : Type 0} → List ℕ → RandomIterator A → List (Option A)
drain [] it = []
drain (index ∷ draws) it =
    let (more, it') = next index it in elim more [ true ↦ shard it' ∷ drain draws it' | false ↦ [] ]

-- (LazyShardIterator).Next: the shard that it moves to, and those that it has not visited yet.
-- A shard that cannot be reached is passed over.
unfoldable pub lazy_next : (C : Cluster) → C.World → List Bytes → Option Bytes × List Bytes
lazy_next C w [] = (none, [])
lazy_next C w (id ∷ ids) = elim (C.get_shard id w) [ ok _ ↦ (some id, ids) | _ ↦ lazy_next C w ids ]
