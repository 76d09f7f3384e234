-- ===== src/Db/Memory/Sequences.antt =====
-- server/db/memory/memory.go: the sequences that SetScoped hands out.
use native.Mathlib.Nat.{le_refl}
use stor.Base.{
  ap, ◌%◌, ok-injective, ◌≡◌, ◌≢◌, refl, Bytes, arith, none, some, ok, err, if◌then◌else◌, bytes_eq,
  bytes_eq_iff, lookup-insert, lookup-remove, ℕ, ◌<◌, ◌≤◌, ◌++◌, put_le, ◌^◌, ◌+◌, lookup,
}
use stor.Db.Types.{not_found}
use stor.Db.Keys.{scoped_sequence_key}
use stor.Db.Keys.Scopes.{scoped_sequence_key-injective}
use stor.Db.Memory.{Memory, empty, set_scoped, get, delete, counter, close}

-- The sequences from the counter on are not in use.
pub record IsFresh (mdb : Memory) : Type 0 where
  pub unused :
      (scope : Bytes) (n : ℕ)
      → counter scope mdb ≤ n
      → n < 2 ^ 64
      → lookup (scope ++ put_le 8 n) mdb.m ≡ none

pub empty-IsFresh : IsFresh empty
unfolding lookup
empty-IsFresh = record { unused = λ scope n h k. refl }

pub delete-IsFresh : (key : Bytes) (mdb : Memory) → IsFresh mdb → IsFresh (delete (some key) mdb).1
unfolding delete counter
delete-IsFresh key mdb v = record {
  unused = λ scope n h k.
      ground (arith, lookup-remove key (scope ++ put_le 8 n) mdb.m, v.unused scope n h k);
}

pub close-IsFresh : (mdb : Memory) → IsFresh mdb → IsFresh (close mdb).1
unfolding close counter lookup
close-IsFresh mdb v = record { unused = λ scope n h k. refl }

-- The counter of a scope goes up by one, and no other counter changes.
counter-set_scoped :
    (scope other content : Bytes) (mdb : Memory)
    → counter scope mdb + 1 < 2 ^ 64
    → counter other (set_scoped (some scope) content mdb).1
      ≡ (if bytes_eq scope other then counter scope mdb + 1 else counter other mdb)
unfolding set_scoped counter
counter-set_scoped scope other content mdb h =
    ground (arith, lookup-insert scope other ((counter scope mdb + 1) % 2 ^ 64) mdb.c)

-- The key of one sequence, and that of a sequence from the new counter on.
later_key :
    (scope other content : Bytes) (mdb : Memory) (n : ℕ)
    → counter scope mdb + 1 < 2 ^ 64
    → counter other (set_scoped (some scope) content mdb).1 ≤ n
    → n < 2 ^ 64
    → (scope ++ put_le 8 (counter scope mdb) ≢ other ++ put_le 8 n) × (counter other mdb ≤ n)
unfolding scoped_sequence_key
later_key scope other content mdb n h k l = (
  (λ e.
      let (scopes, sequences) =
        scoped_sequence_key-injective scope other (counter scope mdb) n (omega arith) l (ap ok e) in
      ground (arith, counter-set_scoped scope other content mdb h, bytes_eq_iff scope other)),
  ground (arith, counter-set_scoped scope other content mdb h, bytes_eq_iff scope other),
)

-- SetScoped leaves the later sequences unused, if the counter does not wrap.
pub set_scoped-IsFresh :
    (scope content : Bytes) (mdb : Memory)
    → counter scope mdb + 1 < 2 ^ 64
    → IsFresh mdb
    → IsFresh (set_scoped (some scope) content mdb).1
unfolding set_scoped
set_scoped-IsFresh scope content mdb h v = record {
  unused = λ other n k l.
      let (ne, le) = later_key scope other content mdb n h k l in
      let key = scope ++ put_le 8 (counter scope mdb) in
      ground (
        arith,
        ne,
        lookup-insert key (other ++ put_le 8 n) content mdb.m,
        bytes_eq_iff key (other ++ put_le 8 n),
        v.unused other n le l,
      );
}

-- What the memory may be after calls of SetScoped, Delete and Close, while no counter wraps
pub data Reached : Memory → Type 0 where
  made : Reached empty
  has_set :
      {mdb : Memory} (scope content : Bytes)
      → Reached mdb
      → counter scope mdb + 1 < 2 ^ 64
      → Reached (set_scoped (some scope) content mdb).1
  has_deleted : {mdb : Memory} (key : Bytes) → Reached mdb → Reached (delete (some key) mdb).1
  has_closed : {mdb : Memory} → Reached mdb → Reached (close mdb).1

Reached-IsFresh : (mdb : Memory) → Reached mdb → IsFresh mdb
Reached-IsFresh mdb made = empty-IsFresh
Reached-IsFresh mdb (has_set {mdb = before} scope content r h) =
    set_scoped-IsFresh scope content before h (Reached-IsFresh before r)
Reached-IsFresh mdb (has_deleted {mdb = before} key r) =
    delete-IsFresh key before (Reached-IsFresh before r)
Reached-IsFresh mdb (has_closed {mdb = before} r) = close-IsFresh before (Reached-IsFresh before r)

-- After any calls of SetScoped, Delete and Close on a new database, in any order, the key that SetScoped
-- returns for a scope was not in use before, if the counter of no scope has wrapped.
pub set_scoped_fresh :
    (scope key content : Bytes) (mdb : Memory)
    → Reached mdb
    → counter scope mdb < 2 ^ 64
    → (set_scoped (some scope) content mdb).0 ≡ ok key
    → get (some key) mdb ≡ err not_found
unfolding set_scoped get
set_scoped_fresh scope key content mdb r h e =
    rw (← ok-injective e)
      (rw ((Reached-IsFresh mdb r).unused scope (counter scope mdb) (le_refl _) h))
