-- ===== src/NamespaceApi/Counting.antt =====
-- What GetNamespace counts over the in-memory store.
use mathlib.Core.List.{Perm}
use stor.Base.{
  ℕ, ◌≡◌, ◌≢◌, refl, ap, ◌∙◌, arith, Bytes, List, [], ◌∷◌, some, ok, All, Dictionary, has_prefix,
  true,
}
use stor.Db.Memory.{Memory, memory_db}
use stor.Db.Memory.Listing.{listed_count, count_keys_lem}
use stor.ObjectApi.{extract_label}
use stor.NamespaceApi.{get_namespace, response_of}

-- Every entry of the store is the value of an object.
abbrev pub HoldsObjects : Dictionary Bytes → Type 0
HoldsObjects = All (λ e. has_prefix e.0 (b'd' ∷ b':' ∷ []) ≡ true)

no_object_listed :
    (c : ℕ) (label : Bytes) (m : Dictionary Bytes)
    → c ≢ b'd'
    → HoldsObjects m
    → listed_count (some (c ∷ label)) m ≡ 0
unfolding listed_count
no_object_listed c label [] h v = refl
no_object_listed c label (([], x) ∷ m) h v = ground (arith, no_object_listed c label m h v.1)
no_object_listed c label ((d ∷ k, x) ∷ m) h v = ground (arith, no_object_listed c label m h v.1)

-- In a store of objects GetNamespace reports no object at all for a label that does not begin with
-- the letter d, however many objects the namespace has: the keys begin with the letter d and not
-- with the label that it counts by.
pub get_namespace_counts_none :
    (order : Dictionary Bytes → Dictionary Bytes) (rate : Bytes → ℕ × ℕ) (c : ℕ) (label : Bytes)
    (rest : List Bytes) (mdb : Memory)
    → Perm (order mdb.m) mdb.m
    → c ≢ b'd'
    → HoldsObjects mdb.m
    → get_namespace (memory_db order) rate (some ((c ∷ label) ∷ rest)) mdb
      ≡ ok (record {
        label = c ∷ label;
        read_requests = (rate (c ∷ label)).0;
        write_requests = (rate (c ∷ label)).1;
        nr_objects = 0;
      })
unfolding get_namespace extract_label response_of
get_namespace_counts_none order rate c label rest mdb p h v = ap (response_of rate (c ∷ label)) (
    count_keys_lem order (some (c ∷ label)) mdb p
    ∙ ap (λ (n : ℕ). (ok tt, n)) (no_object_listed c label mdb.m h v))
