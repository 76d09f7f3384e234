-- ===== src/ObjectApi/Listing.antt =====
-- ListObjectKeys over the in-memory store, on a stream that collects what is sent.
use mathlib.Core.List.{Perm, Permᴰ}
use mathlib.Core.Logic.{∥∥₁_elim}
use mathlib.Core.Bool.{Bool-set}
use mathlib.Core.List.{append-nil, append_assoc}
use stor.Base.{
  Bool-cases, inl, inr, ◌≡◌, ◌≢◌, refl, sym, ap, ◌∙◌, Bytes, List, [], ◌∷◌, ◌++◌, some, Bool, true,
  false, ◌&&◌, ◌||◌, not, Result, ok, arith, length, drop, has_prefix, bytes_eq, Dictionary, lookup,
  map, if◌then◌else◌, ◌==◌, ltb, length-append,
}
use stor.Db.Types.{Error, visit}
use stor.Db.Memory.{Memory, memory_db, exists, item_of, is_there}
use stor.Db.Memory.Listing.{listed_entries, list_items_lem}
use stor.Db.Keys.{data_scope_key}
use stor.ObjectApi.{list_object_keys, send_key, or_plain, extract_label}
use stor.ObjectApi.Creation.{scope_of}

abbrev pub collect : Bytes → List Bytes → Result Error (Unit {0}) × List Bytes
collect key out = (ok tt, out ++ (key ∷ []))

-- Whether a key is among those sent.
abbrev pub occurs : Bytes → List Bytes → Bool
occurs key [] = false
occurs key (k ∷ ks) = bytes_eq k key || occurs key ks

-- What is sent of the entries of a map.
sent : Bytes → Dictionary Bytes → List Bytes
sent scope [] = []
sent scope ((k, v) ∷ m) =
    let rest = sent scope m in
    if has_prefix k scope && not (length k == length scope)
    then drop (length scope) k ∷ rest
    else rest

prefix_split : (k scope : Bytes) → has_prefix k scope ≡ true → k ≡ scope ++ drop (length scope) k
prefix_split k [] h = refl
prefix_split [] (y ∷ scope) h = cc
prefix_split (x ∷ k) (y ∷ scope) h = ground (arith, prefix_split k scope)

length-has_prefix :
    (k scope : Bytes) → has_prefix k scope ≡ true → ltb (length k) (length scope) ≡ false
length-has_prefix k scope h =
    ground (arith, ap length (prefix_split k scope h), length-append scope (drop (length scope) k))

visit-sent :
    (scope : Bytes) (m : Dictionary Bytes) (out : List Bytes)
    → visit (send_key collect scope) (map item_of (listed_entries (some scope) m)) out
      ≡ (ok tt, out ++ sent scope m)
unfolding visit send_key listed_entries sent
visit-sent scope [] out = rw append-nil
visit-sent scope ((k, v) ∷ m) out = elim (Bool-cases (has_prefix k scope)) [
  | inr skipped ↦ rw (skipped, visit-sent scope m out)
  | inl shown ↦ rw shown (
      ground (
        arith,
        length-has_prefix k scope shown,
        visit-sent scope m out,
        visit-sent scope m (out ++ (drop (length scope) k ∷ [])),
        append_assoc out (drop (length scope) k ∷ []) (sent scope m),
      ))
]

-- One entry is sent as a key exactly if it stands under that key behind the scope.
entry_key :
    (k scope key : Bytes)
    → key ≢ []
    → bytes_eq k (scope ++ key) ≡ (
        (has_prefix k scope && not (length k == length scope))
        && bytes_eq (drop (length scope) k) key)
entry_key [] [] [] h = absurd (h refl)
entry_key [] [] (c ∷ key) h = refl
entry_key (x ∷ k) [] key h = ground arith
entry_key [] (y ∷ scope) key h = refl
entry_key (x ∷ k) (y ∷ scope) key h = ground (arith, entry_key k scope key h)

-- A key that is not empty is sent exactly if the map holds it behind the scope.
occurs-sent :
    (scope key : Bytes) (m : Dictionary Bytes)
    → key ≢ []
    → occurs key (sent scope m) ≡ is_there (lookup (scope ++ key) m)
unfolding sent lookup
occurs-sent scope key [] h = refl
occurs-sent scope key ((k, v) ∷ m) h =
    ground (arith, entry_key k scope key h, occurs-sent scope key m h)

lookup-permᴰ :
    (k : Bytes) {l m : Dictionary Bytes} → Permᴰ l m → is_there (lookup k l) ≡ is_there (lookup k m)
unfolding lookup
lookup-permᴰ k Permᴰ.nil = refl
lookup-permᴰ k (Permᴰ.cons e p) = ground (arith, lookup-permᴰ k p)
lookup-permᴰ k (Permᴰ.swap e f) = ground arith
lookup-permᴰ k (Permᴰ.trans p q) = lookup-permᴰ k p ∙ lookup-permᴰ k q

-- ListObjectKeys succeeds, and whatever the order of the listing it sends a key of a namespace
-- exactly when the store holds a value under the full key.
pub list_object_keys-exists :
    (order : Dictionary Bytes → Dictionary Bytes) (label key : Bytes) (rest : List Bytes)
    (mdb : Memory)
    → Perm (order mdb.m) mdb.m
    → key ≢ []
    → (out : List Bytes) × (list_object_keys (memory_db order) collect (some (label ∷ rest)) mdb []
        ≡ (ok tt, out))
      × (exists (some (scope_of label ++ key)) mdb ≡ ok (occurs key out))
unfolding list_object_keys exists or_plain extract_label data_scope_key
list_object_keys-exists order label key rest mdb p h = (
  sent (scope_of label) (order mdb.m),
  ap (λ (r, out). (or_plain r, out))
      (list_items_lem order (send_key collect (scope_of label)) (some (scope_of label)) mdb []
        ∙ visit-sent (scope_of label) (order mdb.m) []),
  ap ok (
      sym (
        occurs-sent (scope_of label) key (order mdb.m) h
        ∙ ∥∥₁_elim p (Bool-set _ _) (λ q. lookup-permᴰ (scope_of label ++ key) q))),
)
