-- ===== src/Client/Assembled.antt =====
-- client/client.go: NewClient, for the single-object pipeline and a client of the metadata, which have no
-- state in common.
use stor.Client.Traversal.{Metadata}
use stor.Base.{
  none-ne-some, ℕ, Option, none, some, [], ◌∷◌, arith, ◌<◌, length, panic-ne-ok, err-ne-ok, ◌≡◌,
  refl, ap, Bytes, List, Result, ok, err, panic, bind-ok, ok-injective,
}
use stor.Cluster.Types.{Chunk}
use stor.Storage.Types.{ChunkConfig}
use stor.Pipeline.Types
use stor.Pipeline.Types.{ChunkStorage, Processor, Hasher, IsStorage, KeepsChunks, IsReversible}
use stor.Pipeline.SingleObject
use stor.Pipeline.SingleObject.{
  SingleObject, only_chunk, config_of, from_storage, stored_processed, write, read,
}
use stor.Pipeline.SingleObject.Reading.{pipeline_read-write}
use stor.Client.Metastor.{MetaClient}
use stor.Client.Metastor.Updating.{IsMetastore}
use stor.Client.Objects.{Pipeline, Client, write_object, read_object}
use stor.Client.Objects.Writing.{IsClient, write_object-Wrote, write_object-put_data, put_data}

-- A call that changes the state of the data, beside that of the metadata
abbrev pub beside : {A U V : Type 0} → V → Result Types.Error A × U → Result Types.Error A × (U × V)
beside v r = (r.0, (r.1, v))

abbrev pub single_pipeline : (P : SingleObject) (V : Type 0) → Pipeline (P.chunk_storage.World × V)
single_pipeline P V = record {
  write = λ input w. beside w.1 (SingleObject.write P input w.0);
  read = λ chunks w. SingleObject.read P chunks w.0;
  check = λ chunks fast w. SingleObject.check P chunks fast w.0;
  repair = λ chunks w. beside w.1 (SingleObject.repair P chunks w.0);
  delete = λ chunks w. beside w.1 (SingleObject.delete P chunks w.0);
}

abbrev pub apart : (U : Type 0) {V : Type 0} → MetaClient V → MetaClient (U × V)
apart U M = record {
  database = record {
    set = λ key bytes w. let r = M.database.set key bytes w.1 in (r.0, (w.0, r.1));
    get = λ key w. M.database.get key w.1;
    delete = λ key w. let r = M.database.delete key w.1 in (r.0, (w.0, r.1));
  };
  encode = M.encode;
  decode = M.decode;
}

-- NewClient
abbrev pub new_client :
    (P : SingleObject) {V : Type 0} → MetaClient V → Client (P.chunk_storage.World × V)
new_client P {V} M = record {
  data_pipeline = single_pipeline P V;
  metastor_client = apart P.chunk_storage.World M;
}

apart-IsMetastore : {U V : Type 0} (M : MetaClient V) → IsMetastore M → IsMetastore (apart U M)
apart-IsMetastore M store = record {
  get-set = λ key bytes w w' e. store.get-set key bytes w.1 w'.1 (λ i. ((e i).0, (e i).1.1));
  get-set_other = λ key key' bytes w other. store.get-set_other key key' bytes w.1 other;
  decode-encode = store.decode-encode;
}

from_storage-ok :
    {A : Type 0} (r : Result stor.Storage.Types.Error A) (a : A) → from_storage r ≡ ok a → r ≡ ok a
from_storage-ok (ok b) a e = ap ok (ok-injective e)
from_storage-ok (err x) a e = absurd (err-ne-ok e)
from_storage-ok panic a e = absurd (panic-ne-ok e)

module _ (P : SingleObject) (hash : Hasher) (p : Processor) (h : P.hasher ≡ ok hash)
    (k : P.processor ≡ ok p) where
  -- Read depends on the state only by what the storage gives for the chunk.
  read_again :
      (chunks : List Chunk) (bytes : Bytes) (w w' : P.chunk_storage.World)
      → ((cfg : ChunkConfig) (raw : Bytes)
          → P.chunk_storage.read_chunk cfg w ≡ ok raw
          → P.chunk_storage.read_chunk cfg w' ≡ ok raw)
      → read P chunks w ≡ ok bytes
      → read P chunks w' ≡ ok bytes
  unfolding read
  read_again chunks bytes w w' keeps e =
      let (chunk, c, e₁) = bind-ok (only_chunk chunks) _ bytes e in
      let (raw, r, e₂) =
        bind-ok (from_storage (P.chunk_storage.read_chunk (config_of chunk) w)) _ bytes
          (rw (h, k) at e₁) in
      let stays =
        keeps (config_of chunk) raw
          (from_storage-ok (P.chunk_storage.read_chunk (config_of chunk) w) raw r) in
      rw (c, h, k, stays) e₂

  module _ (keeps : KeepsChunks P.chunk_storage) where
    stored_keeps :
        (sum : Bytes) (r : Result Types.Error Bytes) (w : P.chunk_storage.World) (cfg : ChunkConfig)
        (raw : Bytes)
        → P.chunk_storage.read_chunk cfg w ≡ ok raw
        → P.chunk_storage.read_chunk cfg (stored_processed P.chunk_storage sum r w).1 ≡ ok raw
    stored_keeps sum (ok processed) w cfg raw e = keeps cfg raw processed w e
    stored_keeps sum (err x) w cfg raw e = e
    stored_keeps sum panic w cfg raw e = e

    write_keeps :
        (input : Bytes) (w : P.chunk_storage.World) (cfg : ChunkConfig) (raw : Bytes)
        → P.chunk_storage.read_chunk cfg w ≡ ok raw
        → P.chunk_storage.read_chunk cfg (write P input w).1 ≡ ok raw
    unfolding write
    write_keeps input w cfg raw e =
        rw (h, k) (stored_keeps (hash input) (p.write_process input) w cfg raw e)

new_client-IsClient :
    (P : SingleObject) (hash : Hasher) (p : Processor) {V : Type 0} (M : MetaClient V)
    → IsStorage P.chunk_storage
    → KeepsChunks P.chunk_storage
    → IsReversible p
    → P.hasher ≡ ok hash
    → P.processor ≡ ok p
    → IsMetastore M
    → IsClient (new_client P M)
new_client-IsClient P hash p M storage keeps reversible h k store = record {
  metastore = apart-IsMetastore M store;
  read-write = λ input chunks w w' e some_chunk.
      pipeline_read-write P hash p input chunks w.0 w'.0 storage reversible h k
        (λ i. ((e i).0, (e i).1.0));
  read_kept = λ input bytes chunks w e.
      read_again P hash p h k chunks bytes w.0 (write P input w.0).1
        (write_keeps P hash p h k keeps input w.0) e;
  read-set = λ chunks key bytes w. refl;
  get-write = λ key input w. refl;
}

-- The calls of Write that have returned no error, the last call first
pub data Written {W : Type 0} (C : Client W) (w : W) : List (Bytes × Bytes) → W → Type 0 where
  none_written : Written C w [] w
  and_written :
      {calls : List (Bytes × Bytes)} {v w' : W} {md : Metadata} (key input : Bytes) (now : ℕ)
      → Written C w calls v
      → write_object C key input now v ≡ (ok md, w')
      → Written C w ((key, input) ∷ calls) w'

-- The data of the last call with the key
abbrev pub last_data : List (Bytes × Bytes) → Bytes → Option Bytes
last_data [] = λ key. none
last_data (call ∷ calls) = put_data (last_data calls) call.0 call.1

some_read :
    (P : SingleObject) (chunks : List Chunk) (bytes : Bytes) (w : P.chunk_storage.World)
    → read P chunks w ≡ ok bytes
    → 0 < length chunks
unfolding read
some_read P [] bytes w e = absurd (err-ne-ok e)
some_read P (chunk ∷ chunks) bytes w e = omega arith

-- After any calls of Write that return no error, in any order, on any keys, on a client that NewClient
-- makes of the single-object pipeline and a client of the metadata, which have no state in common, Read
-- of each key that was written gives the data of the last call of Write with that key. This is so over a
-- storage that reads what it has written and keeps it when more is written, with a hasher and a
-- reversible processor, and a database that gives what it has stored under a key and keeps what is under
-- the others, for metadata that are decoded as they were encoded.
pub read_object-Written :
    (P : SingleObject) (hash : Hasher) (p : Processor) {V : Type 0} (M : MetaClient V)
    (w : P.chunk_storage.World × V) (calls : List (Bytes × Bytes)) (w' : P.chunk_storage.World × V)
    → IsStorage P.chunk_storage
    → KeepsChunks P.chunk_storage
    → IsReversible p
    → P.hasher ≡ ok hash
    → P.processor ≡ ok p
    → IsMetastore M
    → Written (new_client P M) w calls w'
    → (key bytes : Bytes) → last_data calls key ≡ some bytes
    → read_object (new_client P M) key w' ≡ ok bytes
read_object-Written P hash p M w calls w' storage keeps reversible h k store none_written =
    λ key bytes e. absurd (none-ne-some e)
read_object-Written P hash p M w calls w' storage keeps reversible h k store
      (and_written {calls = before} {v = v} {md = md} key input now written e) =
    let C = new_client P M in
    let (some_key, u, wrote, stored) = write_object-Wrote C key input now v w' md e in
    let back =
      pipeline_read-write P hash p input md.chunks v.0 u.0 storage reversible h k
        (λ i. ((wrote i).0, (wrote i).1.0)) in
    write_object-put_data C (last_data before) key input now v w' md
      (new_client-IsClient P hash p M storage keeps reversible h k store)
      (read_object-Written P hash p M w before v storage keeps reversible h k store written) e
      (some_read P md.chunks input u.0 back)
