-- ===== src/Tests/Server.antt =====
-- The store and the services of the server at concrete values.
use stor.ObjectApi.Listing.{list_object_keys-exists, occurs, collect}
use stor.Db.Laws.{memory-StoreLaws}
use stor.ObjectApi.Status.{get_object_status-get_object, status_seen}
use stor.ObjectApi.Lifecycle.{
  get_object-delete_object, get_object-create_object_other, get_object-create_object,
}
use stor.NamespaceApi.Counting.{get_namespace_counts_none}
use stor.Db.Memory.Listing.{list_items_lem, listed_entries, count_keys_lem, listed_count}
use stor.NamespaceApi.{get_namespace}
use stor.Db.Memory.Sequences.{
  made, has_set, empty-IsFresh, set_scoped_fresh, set_scoped-IsFresh, IsFresh,
}
use stor.Db.Types.{visit, conflict, count_keys, Callback, not_found}
use stor.ObjectApi.{
  key_not_found, list_object_keys, delete_object, get_object_status, get_object, create_object,
  handlers,
}
use stor.Db.Memory.Laws.{get-set_scoped, get-delete, get-set}
use stor.Db.Memory.{
  item_of, list_items, empty, memory_db, store_scoped, set_scoped, counter, Memory,
}
use mathlib.Core.Path.{◌≡◌, refl}
use native.Mathlib.Omega.{arith}
use stor.Db.Memory
use mathlib.Core.List.{reverse_perm, map, Perm, List, reverse}
use stor.Base.{
  ◌+◌, remove, Dictionary, put_le, ◌++◌, insert, lookup, err, ℕ, ◌↔◌, Bytes, [], ◌∷◌, ok, some,
  codes, true, has_prefix,
}
use stor.Db.Keys.{data_key, data_scope_key}
use stor.Db.Keys.Scopes.{data_key-has_scope_iff, scoped_sequence_key-injective}

abbrev first_key : Bytes
first_key = 0 ∷ 0 ∷ 0 ∷ 0 ∷ 0 ∷ 0 ∷ 0 ∷ 0 ∷ []

-- The key of "a" and that of "b" in the scope of "a".
data_key-has_scope_iff_test :
    (has_prefix (codes "d:b:x") (codes "d:a:") ≡ true) ↔ (codes "a" ≡ codes "b")
unfolding data_key data_scope_key
data_key-has_scope_iff_test =
    data_key-has_scope_iff (codes "a") (codes "b") (codes "x") (omega arith) (omega arith)
      (codes "d:a:") (codes "d:b:x") refl refl

-- A label with a colon: its objects are listed in the namespace of the part before the colon.
colon_in_label :
    (data_key (some (codes "a:b")) (some (codes "x")) ≡ ok (codes "d:a:b:x"))
    × (has_prefix (codes "d:a:b:x") (codes "d:a:") ≡ true)
unfolding data_key
colon_in_label = (refl, refl)

scoped_sequence_key-injective_test : (codes "d:a:" ≡ codes "d:a:") × (◌≡◌ {A = ℕ} 7 7)
scoped_sequence_key-injective_test =
    scoped_sequence_key-injective (codes "d:a:") (codes "d:a:") 7 7 (omega arith) (omega arith) refl

abbrev label : Bytes
label = codes "a"

abbrev stored : Memory
stored = (create_object (memory_db reverse) (some (label ∷ [])) (codes "hi") empty).1

-- The first object of a namespace.
first_created :
    (create_object (memory_db reverse) (some (label ∷ [])) (codes "hi") empty).0 ≡ ok first_key
unfolding handlers set_scoped store_scoped counter lookup insert
first_created = refl

read_after_set : Memory.get (some label) (Memory.set (some label) first_key stored).1 ≡ ok first_key
read_after_set = get-set label label first_key stored

gone_after_delete : Memory.get (some label) (Memory.delete (some label) stored).1 ≡ err not_found
gone_after_delete = get-delete label label stored

get-set_scoped_test :
    Memory.get (some (label ++ first_key)) (set_scoped (some label) (codes "hi") empty).1
    ≡ ok (codes "hi")
unfolding set_scoped counter lookup put_le
get-set_scoped_test =
    get-set_scoped label (label ++ first_key) (label ++ first_key) (codes "hi") empty refl

set_scoped-IsFresh_example : IsFresh (set_scoped (some label) (codes "hi") empty).1
unfolding counter lookup
set_scoped-IsFresh_example = set_scoped-IsFresh label (codes "hi") empty (omega arith) empty-IsFresh

-- The second object of the namespace, after the first has been stored.
abbrev second_key : Bytes
second_key = 1 ∷ 0 ∷ 0 ∷ 0 ∷ 0 ∷ 0 ∷ 0 ∷ 0 ∷ []

set_scoped_fresh_example :
    Memory.get (some (label ++ second_key)) (set_scoped (some label) (codes "hi") empty).1
    ≡ err not_found
unfolding set_scoped counter lookup insert put_le
set_scoped_fresh_example =
    set_scoped_fresh label (label ++ second_key) (codes "ho")
      (set_scoped (some label) (codes "hi") empty).1 (has_set label (codes "hi") made (omega arith))
      (omega arith) refl

abbrev unordered : Dictionary Bytes → Dictionary Bytes
unordered = reverse

abbrev two : Memory
two = record { m = (codes "d:a:" ++ first_key, codes "hi") ∷ (codes "@:a", codes "") ∷ []; c = [] }

reverse_order : (m : Dictionary Bytes) → Perm (unordered m) m
reverse_order m = reverse_perm m

count_keys_lem_test :
    count_keys (memory_db unordered) (some (codes "d:")) two
    ≡ (ok tt, listed_count (some (codes "d:")) two.m)
count_keys_lem_test = count_keys_lem unordered (some (codes "d:")) two (reverse_order two.m)

-- A callback that stops at the first item.
abbrev stop : Callback ℕ
stop item n = (err conflict, n + 1)

items_listed :
    list_items unordered stop (some (codes "d:")) two 0
    ≡ visit stop (map item_of (listed_entries (some (codes "d:")) (unordered two.m))) 0
items_listed = list_items_lem unordered stop (some (codes "d:")) two 0

get_object-create_object_example :
    get_object
      (memory_db unordered)
      (some (label ∷ []))
      first_key
      (create_object (memory_db unordered) (some (label ∷ [])) (codes "hi") empty).1
    ≡ ok (codes "hi")
unfolding handlers set_scoped store_scoped counter lookup insert put_le
get_object-create_object_example =
    get_object-create_object (memory_db unordered) (memory-StoreLaws unordered) label (codes "hi")
      first_key [] empty _ refl

get_object-create_object_other_example :
    get_object
      (memory_db unordered)
      (some (codes "b" ∷ []))
      first_key
      (create_object (memory_db unordered) (some (label ∷ [])) (codes "hi") empty).1
    ≡ get_object (memory_db unordered) (some (codes "b" ∷ [])) first_key empty
unfolding handlers set_scoped store_scoped counter lookup insert put_le
get_object-create_object_other_example =
    get_object-create_object_other (memory_db unordered) (memory-StoreLaws unordered) label
      (codes "b") (codes "hi") first_key first_key [] [] empty _ (omega arith) (omega arith)
      (ground arith) refl

get_object-delete_object_example :
    get_object
      (memory_db unordered)
      (some (label ∷ []))
      first_key
      (delete_object (memory_db unordered) (some (label ∷ [])) first_key two).1
    ≡ err key_not_found
unfolding handlers Memory.delete remove
get_object-delete_object_example =
    get_object-delete_object (memory_db unordered) (memory-StoreLaws unordered) (some (label ∷ []))
      first_key two _ refl

get_object_status-get_object_example :
    get_object_status (memory_db unordered) (some (label ∷ [])) first_key two
    ≡ status_seen (get_object (memory_db unordered) (some (label ∷ [])) first_key two)
get_object_status-get_object_example =
    get_object_status-get_object (memory_db unordered) (some (label ∷ [])) first_key two

list_object_keys-exists_example :
    (out : List Bytes) × (list_object_keys (memory_db unordered) collect (some (label ∷ [])) two []
      ≡ (ok tt, out))
    × (Memory.exists (some (codes "d:a:" ++ first_key)) two ≡ ok (occurs first_key out))
list_object_keys-exists_example =
    list_object_keys-exists unordered label first_key [] two (reverse_order two.m) (λ e. cc)

get_namespace_counts_none_test :
    get_namespace (memory_db unordered) (λ l. (3, 4)) (some (label ∷ [])) stored
    ≡ ok (record { label = label; read_requests = 3; write_requests = 4; nr_objects = 0 })
unfolding handlers set_scoped store_scoped counter lookup insert put_le
get_namespace_counts_none_test =
    get_namespace_counts_none unordered (λ l. (3, 4)) b'a' [] [] stored (reverse_order stored.m)
      (omega arith) (refl, tt)
