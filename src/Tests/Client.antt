-- ===== src/Tests/Client.antt =====
-- The iterator over shards, and a small cluster: one store behind every shard, whose keys count up.
use mathlib.Core.List.{Perm}
use stor.Storage.Random
use stor.Storage.Random.{write_chunk, random_read-write}
use stor.Base.{
  sym, ok-injective, ℕ, zero, suc, ◌≡◌, refl, ap, Bytes, List, [], ◌∷◌, ◌++◌, Option, none, some,
  map, arith, length, get_elem?, Result, ok, err,
}
use stor.ServerTypes.{ObjectStatus, missing, status_ok}
use stor.Cluster.Types.{Cluster, Error, key_not_found}
use stor.Cluster.Iterators.{new_random_iterator, drain}
use stor.Cluster.Iterators.Random.{drain_all}
use stor.Storage.Distributed.Writing.Storing.{IsDurable}

abbrev pub three_shards : List Bytes
three_shards = (1 ∷ []) ∷ (2 ∷ []) ∷ (3 ∷ []) ∷ []

drain_all_test :
    (ys : List Bytes) × (drain (1 ∷ 0 ∷ 0 ∷ []) (new_random_iterator three_shards) ≡ map some ys)
    × Perm ys three_shards
drain_all_test =
    drain_all three_shards (1 ∷ 0 ∷ 0 ∷ []) (omega arith, (omega arith, (omega arith, tt)))

abbrev found : Option Bytes → Result Error Bytes
found (some bytes) = ok bytes
found none = err key_not_found

abbrev stored_at : Bytes → List Bytes → Option Bytes
stored_at (k ∷ []) w = get_elem? w k
stored_at key w = none

abbrev status_found : Option Bytes → ObjectStatus
status_found (some bytes) = status_ok
status_found none = missing

abbrev pub small_cluster : Cluster
small_cluster = record {
  World = List Bytes;
  get_shard = λ id w. ok tt;
  create_object = λ id bytes w. (ok (length w ∷ []), w ++ bytes ∷ []);
  get_object = λ id key w. found (stored_at key w);
  get_object_status = λ id key w. ok (status_found (stored_at key w));
  delete_object = λ id key w. (ok tt, w);
}

last-append : (w : List Bytes) (bytes : Bytes) → get_elem? (w ++ bytes ∷ []) (length w) ≡ some bytes
last-append [] bytes = refl
last-append (x ∷ w) bytes = last-append w bytes

found-append :
    (w : List Bytes) (k : ℕ) (bytes bytes' : Bytes)
    → found (get_elem? w k) ≡ ok bytes'
    → found (get_elem? (w ++ bytes ∷ []) k) ≡ ok bytes'
found-append [] k bytes bytes' h = absurd (cc)
found-append (x ∷ w) zero bytes bytes' h = h
found-append (x ∷ w) (suc k) bytes bytes' h = found-append w k bytes bytes' h

kept_lem :
    (key w : _) (bytes bytes' : Bytes)
    → found (stored_at key w) ≡ ok bytes'
    → found (stored_at key (w ++ bytes ∷ [])) ≡ ok bytes'
kept_lem [] w bytes bytes' h = h
kept_lem (k ∷ []) w bytes bytes' h = found-append w k bytes bytes' h
kept_lem (k ∷ l ∷ key) w bytes bytes' h = h

created_lem :
    (bytes key : Bytes) (w w' : List Bytes)
    → ◌≡◌ {A = Result Error Bytes × List Bytes} (ok (length w ∷ []), w ++ bytes ∷ []) (ok key, w')
    → found (stored_at key w') ≡ ok bytes
created_lem bytes key w w' e =
    let k : length w ∷ [] ≡ key = ok-injective (ap (λ x. x.0) e) in
    let v : w ++ bytes ∷ [] ≡ w' = ap (λ x. x.1) e in
    rw (sym k, sym v) (ap found (last-append w bytes))

pub small_cluster-IsDurable : IsDurable small_cluster
small_cluster-IsDurable = record {
  created = λ id bytes key w w' e. created_lem bytes key w w' e;
  kept = λ id bytes id' key' bytes' w e. kept_lem key' w bytes bytes' e;
}

random_read-write_test :
    Random.read_chunk small_cluster
      (record { size = 2; objects = record { key = 0 ∷ []; shard_id = 1 ∷ [] } ∷ [] })
      ((7 ∷ 8 ∷ []) ∷ [])
    ≡ ok (7 ∷ 8 ∷ [])
unfolding write_chunk
random_read-write_test =
    random_read-write small_cluster (7 ∷ 8 ∷ []) three_shards [] ((7 ∷ 8 ∷ []) ∷ [])
      (record { size = 2; objects = record { key = 0 ∷ []; shard_id = 1 ∷ [] } ∷ [] })
      small_cluster-IsDurable refl (λ id. refl)
