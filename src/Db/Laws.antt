-- ===== src/Db/Laws.antt =====
-- What the clients of the interface of server/db/db.go rely on, and its instance for the in-memory store.
use stor.Base.{
  ℕ, ◌≡◌, ◌≢◌, Bytes, [], ◌++◌, some, ok, err, if◌then◌else◌, bytes_eq, put_le, Dictionary,
  ok-injective, sym,
}
use stor.Db.Types.{not_found, Database}
use stor.Db.Memory.{memory_db, set_scoped, counter}
use stor.Db.Memory.Laws.{get-set_scoped, get-delete}

pub record StoreLaws (D : Database) : Type 0 where
  -- A stored value is read back under the key that is returned, and other keys read as before.
  pub get_stored :
      (scope key j content : Bytes) (s : D.State)
      → (D.set_scoped (some scope) content s).0 ≡ ok key
      → D.get (some j) (D.set_scoped (some scope) content s).1
        ≡ (if bytes_eq key j then ok content else D.get (some j) s)
  -- The scope is a proper prefix of the key.
  pub stored_key :
      (scope key content : Bytes) (s : D.State)
      → (D.set_scoped (some scope) content s).0 ≡ ok key
      → (gen : Bytes) × (key ≡ scope ++ gen) × (gen ≢ [])
  -- A deleted value is gone, and other keys read as before.
  pub get_deleted :
      (key j : Bytes) (s : D.State)
      → (D.delete (some key) s).0 ≡ ok tt
      → D.get (some j) (D.delete (some key) s).1
        ≡ (if bytes_eq key j then err not_found else D.get (some j) s)

sequence_ne_nil : (n : ℕ) → put_le 8 n ≢ []
unfolding put_le
sequence_ne_nil n e = cc

pub memory-StoreLaws : (order : Dictionary Bytes → Dictionary Bytes) → StoreLaws (memory_db order)
unfolding set_scoped
memory-StoreLaws order = record {
  get_stored = get-set_scoped;
  stored_key = λ scope key content s e.
      (put_le 8 (counter scope s), sym (ok-injective e), sequence_ne_nil _);
  get_deleted = λ key j s e. get-delete key j s;
}
