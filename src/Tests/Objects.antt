-- ===== src/Tests/Objects.antt =====
-- A client whose chunks hold the data in place of their hash, and whose metadata are encoded as bytes if
-- all keys are one byte long, at concrete values.
use stor.Client.Metastor.Once.{IsVariable}
use stor.Base.{
  ℕ, zero, suc, ◌≡◌, refl, sym, ap, Bytes, bytes_eq, bytes_eq_refl, bytes_eq→eq, Bool-cases, inl,
  inr, ◌>>◌, List, [], ◌∷◌, Option, some, none, Result, ok, err, ◌>>=◌, length, bind-ok,
  ok-injective, err-ne-ok, none-ne-some, arith, Dictionary, lookup, insert, remove, lookup-insert,
  lookup-remove,
}
use stor.Cluster.Types.{Chunk, ObjectRef}
use stor.Storage.Types.{optimal}
use stor.Pipeline.Types
use stor.Client.Traversal.{Metadata}
use stor.Client.Metastor.{
  MetaError, not_found, other, MetaClient, new_metadata, set_metadata, get_metadata,
  delete_metadata, update, update_metadata,
}
use stor.Client.Metastor.Updating.{IsFetched, IsMetastore, IsStoredFrom}
use stor.Client.Objects.{
  Client, of_metastor, write_object, read_object, delete_object, write_linked, Repair,
  repair_object,
}
use stor.Client.Objects.Deleting.{IsDeleting, delete_object_lem}
use stor.Client.Objects.Writing.{IsClient, write_object-put_data}
use stor.Client.Objects.Repairing.{with_chunks_of, IsRepaired, repair_object_lem}
use stor.Client.Objects.Linking.{with_next, IsWritten, write_linked_lem}

abbrev one_byte : Bytes → Result MetaError ℕ
one_byte (x ∷ []) = ok x
one_byte bytes = err (other 0)

abbrev key_byte : Option Bytes → Result MetaError ℕ
key_byte none = ok 0
key_byte (some (x ∷ [])) = ok (suc x)
key_byte (some bytes) = err (other 0)

abbrev byte_key : ℕ → Option Bytes
byte_key zero = none
byte_key (suc x) = some (x ∷ [])

abbrev no_objects : List ObjectRef → Result MetaError (Unit {0})
no_objects [] = ok tt
no_objects (object ∷ objects) = err (other 0)

abbrev only_hash : List Chunk → Result MetaError (ℕ × Bytes)
only_hash (chunk ∷ []) = no_objects chunk.objects >> ok (chunk.size, chunk.hash)
only_hash chunks = err (other 0)

abbrev plain : ℕ → Bytes → Chunk
plain n bytes = record { size = n; objects = []; hash = bytes }

abbrev small_encode : Metadata → Result MetaError Bytes
small_encode md = one_byte md.key >>= λ k. key_byte md.previous_key >>= λ p.
    key_byte md.next_key >>= λ n. only_hash md.chunks >>= λ c.
    ok (k ∷ p ∷ n ∷ md.size ∷ md.creation_epoch ∷ md.last_write_epoch ∷ c.0 ∷ c.1)

abbrev small_decode : Bytes → Metadata → Result MetaError Metadata
small_decode (k ∷ p ∷ n ∷ size ∷ created ∷ last ∷ m ∷ bytes) md = ok (record {
  key = k ∷ [];
  size = size;
  creation_epoch = created;
  last_write_epoch = last;
  chunks = plain m bytes ∷ [];
  previous_key = byte_key p;
  next_key = byte_key n;
})
small_decode bytes md = err (other 1)

one_byte-ok : (bytes : Bytes) (k : ℕ) → one_byte bytes ≡ ok k → k ∷ [] ≡ bytes
one_byte-ok [] k e = absurd (err-ne-ok e)
one_byte-ok (x ∷ []) k e = ap (λ z. z ∷ []) (sym (ok-injective e))
one_byte-ok (x ∷ y ∷ bytes) k e = absurd (err-ne-ok e)

key_byte-ok : (key : Option Bytes) (k : ℕ) → key_byte key ≡ ok k → byte_key k ≡ key
key_byte-ok none k e = ap byte_key (sym (ok-injective e))
key_byte-ok (some []) k e = absurd (err-ne-ok e)
key_byte-ok (some (x ∷ [])) k e = ap byte_key (sym (ok-injective e))
key_byte-ok (some (x ∷ y ∷ bytes)) k e = absurd (err-ne-ok e)

no_objects-ok : (objects : List ObjectRef) (u : Unit {0}) → no_objects objects ≡ ok u → [] ≡ objects
no_objects-ok [] u e = refl
no_objects-ok (object ∷ objects) u e = absurd (err-ne-ok e)

only_hash-ok :
    (chunks : List Chunk) (c : ℕ × Bytes) → only_hash chunks ≡ ok c → plain c.0 c.1 ∷ [] ≡ chunks
only_hash-ok [] c e = absurd (err-ne-ok e)
only_hash-ok (chunk ∷ []) c e =
    let (u, f, g) = bind-ok (no_objects chunk.objects) (λ u. ok (chunk.size, chunk.hash)) c e in
    let same = no_objects-ok chunk.objects u f in
    rw (sym (ok-injective g))
      (λ i. record { size = chunk.size; objects = same i; hash = chunk.hash } ∷ [])
only_hash-ok (chunk ∷ next ∷ chunks) c e = absurd (err-ne-ok e)

small_decode-encode :
    (md : Metadata) (bytes : Bytes)
    → small_encode md ≡ ok bytes
    → small_decode bytes new_metadata ≡ ok md
small_decode-encode md bytes e =
    let (k, k_ok, e₁) = bind-ok (one_byte md.key) _ bytes e in
    let (p, p_ok, e₂) = bind-ok (key_byte md.previous_key) _ bytes e₁ in
    let (n, n_ok, e₃) = bind-ok (key_byte md.next_key) _ bytes e₂ in
    let (c, c_ok, e₄) = bind-ok (only_hash md.chunks) _ bytes e₃ in
    let same_key = one_byte-ok md.key k k_ok in
    let same_previous = key_byte-ok md.previous_key p p_ok in
    let same_next = key_byte-ok md.next_key n n_ok in
    let same_chunks = only_hash-ok md.chunks c c_ok in
    rw (sym (ok-injective e₄)) (λ i. ok (record {
      key = same_key i;
      size = md.size;
      creation_epoch = md.creation_epoch;
      last_write_epoch = md.last_write_epoch;
      chunks = same_chunks i;
      previous_key = same_previous i;
      next_key = same_next i;
    }))

abbrev got : Option Bytes → Result MetaError Bytes
got none = err not_found
got (some bytes) = ok bytes

abbrev pub small_metastor : MetaClient (Dictionary Bytes)
small_metastor = record {
  database = record {
    set = λ key bytes w. (ok tt, insert key bytes w);
    get = λ key w. got (lookup key w);
    delete = λ key w. (ok tt, remove key w);
  };
  encode = small_encode;
  decode = small_decode;
}

pub small_metastor-IsMetastore : IsMetastore small_metastor
small_metastor-IsMetastore = record {
  get-set = λ key bytes w w' e.
      rw (sym (ap (λ z. z.1) e), lookup-insert key key bytes w, bytes_eq_refl key) refl;
  get-set_other = λ key key' bytes w h. elim (Bool-cases (bytes_eq key key')) [
    | inl t ↦ absurd (h (bytes_eq→eq key key' t))
    | inr f ↦ rw (lookup-insert key key' bytes w, f) refl
  ];
  decode-encode = small_decode-encode;
}

abbrev read_hash : List Chunk → Result Types.Error Bytes
read_hash (chunk ∷ []) = ok chunk.hash
read_hash chunks = err Types.unexpected_chunk_count

abbrev pub small_client : Client (Dictionary Bytes)
small_client = record {
  data_pipeline = record {
    write = λ input w. (ok (plain (length input) input ∷ []), w);
    read = λ chunks w. read_hash chunks;
    check = λ chunks fast w. ok optimal;
    repair = λ chunks w. (ok chunks, w);
    delete = λ chunks w. (ok tt, w);
  };
  metastor_client = small_metastor;
}

small_client-IsClient : IsClient small_client
small_client-IsClient = record {
  metastore = small_metastor-IsMetastore;
  read-write = λ input chunks w w' e some_chunk. rw (sym (ok-injective (ap (λ z. z.0) e))) refl;
  read_kept = λ input bytes chunks w e. e;
  read-set = λ chunks key bytes w. refl;
  get-write = λ key input w. refl;
}

abbrev small_metadata : Metadata
small_metadata = record {
  key = 5 ∷ [];
  size = 2;
  creation_epoch = 3;
  last_write_epoch = 3;
  chunks = plain 2 (7 ∷ 8 ∷ []) ∷ [];
  previous_key = none;
  next_key = none;
}

abbrev small_world : Dictionary Bytes
small_world = (5 ∷ [], 5 ∷ 0 ∷ 0 ∷ 2 ∷ 3 ∷ 3 ∷ 2 ∷ 7 ∷ 8 ∷ []) ∷ []

write_object-put_data_example : read_object small_client (5 ∷ []) small_world ≡ ok (7 ∷ 8 ∷ [])
unfolding write_object set_metadata insert
write_object-put_data_example =
    write_object-put_data small_client (λ key. none) (5 ∷ []) (7 ∷ 8 ∷ []) 3 [] small_world
      small_metadata small_client-IsClient (λ k b e. absurd (none-ne-some e)) refl (omega arith)
      (5 ∷ []) (7 ∷ 8 ∷ []) refl

small_client-IsDeleting : IsDeleting small_client
small_client-IsDeleting key w w' e =
    rw (sym (ap (λ z. z.1) e), lookup-remove key key w, bytes_eq_refl key) refl

delete_object_lem_example :
    (md : Metadata) × (get_metadata small_metastor (5 ∷ []) small_world ≡ ok md)
    × ((small_client.data_pipeline.delete md.chunks small_world).0 ≡ ok tt)
    × (read_object small_client (5 ∷ []) [] ≡ err (of_metastor not_found))
unfolding delete_object get_metadata delete_metadata lookup remove
delete_object_lem_example =
    delete_object_lem small_client (5 ∷ []) small_world [] small_client-IsDeleting
      (λ md e. sym (ap (λ m. m.key) (ok-injective e))) refl

-- Another client changes the metadata of another key while they are repaired.
abbrev other_change : Dictionary Bytes → Dictionary Bytes
other_change w = insert (6 ∷ []) [] w

abbrev repaired_metadata : Metadata
repaired_metadata = record small_metadata { last_write_epoch = 9 }

abbrev repaired_world : Dictionary Bytes
repaired_world = (5 ∷ [], 5 ∷ 0 ∷ 0 ∷ 2 ∷ 3 ∷ 9 ∷ 2 ∷ 7 ∷ 8 ∷ []) ∷ (6 ∷ [], []) ∷ []

abbrev small_repair : Repair
small_repair = record {
  repaired_chunks = plain 2 (7 ∷ 8 ∷ []) ∷ [];
  total_size_after_repair = 2;
  repair_epoch = 9;
}

repair_object_lem_example :
    (chunks : List Chunk) × (v : Dictionary Bytes) × IsRepaired small_client
      (5 ∷ [])
      9
      small_world
      chunks
      v
    × (latest : Metadata) × (variable : Metadata) × IsVariable
        (λ earlier. with_chunks_of 9 earlier chunks)
        variable
    × IsFetched small_metastor (5 ∷ []) variable latest (other_change v)
    × (repaired_metadata ≡ with_chunks_of 9 latest chunks)
    × IsStoredFrom small_metastor (5 ∷ []) repaired_metadata (other_change v) repaired_world
unfolding repair_object update_metadata update insert lookup
repair_object_lem_example =
    repair_object_lem small_client (5 ∷ []) 9 (other_change ∷ []) small_world repaired_world
      repaired_metadata small_repair (omega arith) refl

abbrev linked_world : Dictionary Bytes
linked_world =
    (5 ∷ [], 5 ∷ 0 ∷ 7 ∷ 2 ∷ 3 ∷ 3 ∷ 2 ∷ 7 ∷ 8 ∷ [])
    ∷ (6 ∷ [], 6 ∷ 6 ∷ 0 ∷ 1 ∷ 4 ∷ 4 ∷ 1 ∷ 9 ∷ [])
    ∷ []

abbrev previous_metadata : Metadata
previous_metadata = record small_metadata { next_key = some (6 ∷ []) }

abbrev new_linked : Metadata
new_linked = record {
  key = 6 ∷ [];
  size = 1;
  creation_epoch = 4;
  last_write_epoch = 4;
  chunks = plain 1 (9 ∷ []) ∷ [];
  previous_key = some (5 ∷ []);
  next_key = none;
}

write_linked_lem_example :
    (v : Dictionary Bytes) × ((md : Metadata) × (some new_linked ≡ some md)
      × IsWritten small_client (6 ∷ []) (5 ∷ []) (9 ∷ []) 4 small_world md v)
    × (latest : Metadata) × (variable : Metadata) × IsVariable (with_next (6 ∷ [])) variable
    × IsFetched small_metastor (5 ∷ []) variable latest small_world
    × (previous_metadata ≡ with_next (6 ∷ []) latest)
    × IsStoredFrom small_metastor (5 ∷ []) previous_metadata v linked_world
unfolding write_linked update_metadata update set_metadata insert lookup
write_linked_lem_example =
    write_linked_lem small_client (6 ∷ []) (5 ∷ []) (9 ∷ []) 4 [] small_world linked_world
      previous_metadata (some new_linked) refl
