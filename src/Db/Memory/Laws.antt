-- ===== src/Db/Memory/Laws.antt =====
-- Reads after writes in server/db/memory/memory.go.
use stor.Base.{
  ◌⊎◌, inl, inr, Option-cases, lookup, ◌≡◌, Bytes, arith, some, ok, err, if◌then◌else◌, bytes_eq,
  lookup-insert, lookup-remove, true, false,
}
use stor.Db.Types.{not_found}
use stor.Db.Memory.{Memory, set, set_scoped, get, exists, delete}

-- After Set a key reads as what was written, and every other key as before.
pub get-set :
    (k j content : Bytes) (mdb : Memory)
    → get (some j) (set (some k) content mdb).1
      ≡ (if bytes_eq k j then ok content else get (some j) mdb)
unfolding get set
get-set k j content mdb = ground (arith, lookup-insert k j content mdb.m)

-- After Delete a key is not found, and every other key reads as before.
pub get-delete :
    (k j : Bytes) (mdb : Memory)
    → get (some j) (delete (some k) mdb).1
      ≡ (if bytes_eq k j then err not_found else get (some j) mdb)
unfolding get delete
get-delete k j mdb = ground (arith, lookup-remove k j mdb.m)

-- A successful SetScoped writes its data under the key that it returns, and nowhere else.
pub get-set_scoped :
    (scope key j content : Bytes) (mdb : Memory)
    → (set_scoped (some scope) content mdb).0 ≡ ok key
    → get (some j) (set_scoped (some scope) content mdb).1
      ≡ (if bytes_eq key j then ok content else get (some j) mdb)
unfolding get set_scoped
get-set_scoped scope key j content mdb h = ground (arith, lookup-insert key j content mdb.m)

-- Exists answers as Get does.
pub exists-get :
    (k : Bytes) (mdb : Memory)
    → (exists (some k) mdb ≡ ok true) × ((v : Bytes) × (get (some k) mdb ≡ ok v))
      ⊎ (exists (some k) mdb ≡ ok false) × (get (some k) mdb ≡ err not_found)
unfolding exists get
exists-get k mdb = elim (Option-cases (lookup k mdb.m)) [
  | inl missing ↦ inr (rw missing, rw missing)
  | inr (v, found) ↦ inl (rw found, (v, rw found))
]
