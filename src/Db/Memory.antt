-- ===== src/Db/Memory.antt =====
-- server/db/memory/memory.go: the in-memory store. One call holds the lock from its first access
-- of the maps to its last, so a call is one step. Go visits a map in no fixed order: `order` is
-- the order of a run.
pub mod Laws
pub mod Sequences
pub mod Listing
use stor.Base.{
  ℕ, ◌+◌, ◌%◌, ◌^◌, Bytes, List, [], Option, none, some, Bool, true, false, not, Result, ok, err,
  panic, Dictionary, lookup, insert, remove, has_prefix, map, if◌then◌else◌, ◌>>=◌,
}
use stor.Db.Types.{Error, not_found, nil_key, Slice, Item, Callback, visit, Database}
use stor.Db.Keys.{scoped_sequence_key}

pub record Memory : Type 0 where
  pub m : Dictionary Bytes
  pub c : Dictionary ℕ

-- New
abbrev pub empty : Memory
empty = record { m = []; c = [] }

unfoldable pub set : Slice → Bytes → Memory → Result Error (Unit {0}) × Memory
set none content mdb = (err nil_key, mdb)
set (some key) content mdb = (ok tt, record mdb { m = insert key content mdb.m })

-- A key that a map of numbers lacks reads as zero.
unfoldable pub counter : Bytes → Memory → ℕ
counter scope mdb = elim (lookup scope mdb.c) [ none ↦ 0 | some n ↦ n ]

-- The new state, once the key of the scope and its counter is known; the counter is a uint64.
unfoldable pub store_scoped :
    Bytes → Bytes → Memory → Result Error Bytes → Result Error Bytes × Memory
store_scoped scope content mdb (ok key) = (
  ok key,
  record {
    m = insert key content mdb.m;
    c = insert scope ((counter scope mdb + 1) % 2 ^ 64) mdb.c;
  },
)
store_scoped scope content mdb (err e) = (err e, mdb)
store_scoped scope content mdb panic = (panic, mdb)

unfoldable pub set_scoped : Slice → Bytes → Memory → Result Error Bytes × Memory
unfolding store_scoped scoped_sequence_key
set_scoped none content mdb = (err nil_key, mdb)
set_scoped (some scope) content mdb =
    store_scoped scope content mdb (scoped_sequence_key (some scope) (counter scope mdb))

abbrev value_of : Option Bytes → Result Error Bytes
value_of none = err not_found
value_of (some v) = ok v

unfoldable pub get : Slice → Memory → Result Error Bytes
get none mdb = err nil_key
get (some key) mdb = value_of (lookup key mdb.m)

abbrev pub is_there : Option Bytes → Bool
is_there none = false
is_there (some v) = true

unfoldable pub exists : Slice → Memory → Result Error Bool
exists none mdb = err nil_key
exists (some key) mdb = ok (is_there (lookup key mdb.m))

unfoldable pub delete : Slice → Memory → Result Error (Unit {0}) × Memory
delete none mdb = (err nil_key, mdb)
delete (some key) mdb = (ok tt, record mdb { m = remove key mdb.m })

-- The test at the head of the loop; without a prefix every key is listed.
abbrev pub is_listed : Slice → Bytes → Bool
is_listed none key = true
is_listed (some prefix) key = has_prefix key prefix

-- One round of the loop: the callback is called unless the key is skipped.
unfoldable pub listed : {S : Type 0} → Slice → Callback S → Callback S
listed prefix cb item s = if is_listed prefix item.key then cb item s else (ok tt, s)

abbrev pub item_of : Bytes × Bytes → Item
item_of (k, v) = record { key = k; value = v }

unfoldable pub list_items :
    {S : Type 0}
    → (Dictionary Bytes → Dictionary Bytes)
    → Callback S
    → Slice
    → Memory
    → S
    → Result Error (Unit {0}) × S
unfolding visit listed
list_items order cb prefix mdb s = visit (listed prefix cb) (map item_of (order mdb.m)) s

-- The counters stay.
unfoldable pub close : Memory → Result Error (Unit {0}) × Memory
close mdb = (ok tt, record mdb { m = [] })

-- The store as an implementation of the interface.
abbrev pub memory_db : (Dictionary Bytes → Dictionary Bytes) → Database
memory_db order = record {
  State = Memory;
  set = set;
  set_scoped = set_scoped;
  get = get;
  exists = exists;
  delete = delete;
  list_items = λ {S}. list_items order;
}
