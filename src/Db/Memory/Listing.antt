-- ===== src/Db/Memory/Listing.antt =====
-- ListItems of server/db/memory/memory.go, and CountKeys over it.
use mathlib.Core.List.{Perm, Permᴰ}
use mathlib.Core.Logic.{∥∥₁_elim}
use native.Mathlib.Nat.{ℕ_set, zero-add}
use stor.Base.{
  ℕ, ◌+◌, ◌≡◌, refl, ap, ◌∙◌, Bytes, [], ◌∷◌, arith, ok, Dictionary, map, if◌then◌else◌,
}
use stor.Db.Types.{Slice, Callback, visit, count_keys}
use stor.Db.Memory.{Memory, is_listed, item_of, listed, list_items, memory_db}

-- How many of the entries a listing shows.
unfoldable pub listed_count : Slice → Dictionary Bytes → ℕ
listed_count prefix [] = 0
listed_count prefix ((k, v) ∷ m) = listed_count prefix m + (if is_listed prefix k then 1 else 0)

-- The entries that a listing shows, in the order of the map.
unfoldable pub listed_entries : Slice → Dictionary Bytes → Dictionary Bytes
listed_entries prefix [] = []
listed_entries prefix ((k, v) ∷ m) =
    let rest = listed_entries prefix m in if is_listed prefix k then (k, v) ∷ rest else rest

visit-listed :
    {S : Type 0} (prefix : Slice) (cb : Callback S) (m : Dictionary Bytes) (s : S)
    → visit (listed prefix cb) (map item_of m) s
      ≡ visit cb (map item_of (listed_entries prefix m)) s
unfolding visit listed listed_entries
visit-listed prefix cb [] s = refl
visit-listed prefix cb ((k, v) ∷ m) s =
    ground (arith, visit-listed prefix cb m s, visit-listed prefix cb m (cb (item_of (k, v)) s).1)

-- ListItems gives its callback the entries whose key has the prefix, in the order of the run, and
-- ends with the first error that the callback returns.
pub list_items_lem :
    {S : Type 0} (order : Dictionary Bytes → Dictionary Bytes) (cb : Callback S) (prefix : Slice)
    (mdb : Memory) (s : S)
    → list_items order cb prefix mdb s
      ≡ visit cb (map item_of (listed_entries prefix (order mdb.m))) s
unfolding list_items
list_items_lem order cb prefix mdb s = visit-listed prefix cb (order mdb.m) s

counting_from :
    (prefix : Slice) (m : Dictionary Bytes) (n : ℕ)
    → visit (listed prefix (λ item count. (ok tt, count + 1))) (map item_of m) n
      ≡ (ok tt, n + listed_count prefix m)
unfolding visit listed listed_count
counting_from prefix [] n = ground arith
counting_from prefix ((k, v) ∷ m) n =
    ground (arith, counting_from prefix m n, counting_from prefix m (n + 1))

listed_count-permᴰ :
    (prefix : Slice) {l m : Dictionary Bytes}
    → Permᴰ l m
    → listed_count prefix l ≡ listed_count prefix m
unfolding listed_count
listed_count-permᴰ prefix Permᴰ.nil = refl
listed_count-permᴰ prefix (Permᴰ.cons e p) = ground (arith, listed_count-permᴰ prefix p)
listed_count-permᴰ prefix (Permᴰ.swap e f) = ground arith
listed_count-permᴰ prefix (Permᴰ.trans p q) =
    listed_count-permᴰ prefix p ∙ listed_count-permᴰ prefix q

-- CountKeys succeeds on the in-memory store, and whatever the order in which Go visits the map it
-- counts the entries whose key has the prefix.
pub count_keys_lem :
    (order : Dictionary Bytes → Dictionary Bytes) (prefix : Slice) (mdb : Memory)
    → Perm (order mdb.m) mdb.m
    → count_keys (memory_db order) prefix mdb ≡ (ok tt, listed_count prefix mdb.m)
unfolding count_keys list_items
count_keys_lem order prefix mdb p =
    counting_from prefix (order mdb.m) 0
    ∙ ap (λ (n : ℕ). (ok tt, n))
        (zero-add _ ∙ ∥∥₁_elim p (ℕ_set _ _) (λ q. listed_count-permᴰ prefix q))
