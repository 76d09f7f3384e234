-- ===== src/Client/Metastor.antt =====
-- client/metastor: the client of the metadata (client.go), the interface of its databases (db/db.go), the
-- update of a stored value under contention, as db/badger/badger.go does it, and the conversion of
-- encoding/proto/proto.go, over the code that protobuf generates.
pub mod Updating
pub mod Once
use stor.Base.{
  ℕ, Bytes, List, [], ◌∷◌, Option, none, some, ◌==◌, if◌then◌else◌, length, Result, ok, err, panic,
  ◌>>=◌, ◌>>◌, fail_if,
}
use stor.Cluster.Types.{Chunk}
use stor.Client.Traversal.{Metadata}

pub data MetaError : Type 0 where
  nil_key not_found : MetaError
  other : ℕ → MetaError

-- DB, over a world that it shares with the data
pub record Database (W : Type 0) : Type 0 where
  pub set : Bytes → Bytes → W → Result MetaError (Unit {0}) × W
  pub get : Bytes → W → Result MetaError Bytes
  pub delete : Bytes → W → Result MetaError (Unit {0}) × W

-- Client; decode stores what it parses in the metadata that it is given.
pub record MetaClient (W : Type 0) : Type 0 where
  pub database : Database W
  pub encode : Metadata → Result MetaError Bytes
  pub decode : Bytes → Metadata → Result MetaError Metadata

abbrev pub new_metadata : Metadata
new_metadata = record {
  key = [];
  size = 0;
  creation_epoch = 0;
  last_write_epoch = 0;
  chunks = [];
  previous_key = none;
  next_key = none;
}

-- UnmarshalMetadata, where `parse` is the generated Unmarshal: an empty list of chunks is not stored.
unfoldable pub unmarshal_metadata :
    (Bytes → Result MetaError Metadata) → Bytes → Metadata → Result MetaError Metadata
unmarshal_metadata parse bytes md = parse bytes >>= λ s. ok (record {
  key = s.key;
  size = s.size;
  creation_epoch = s.creation_epoch;
  last_write_epoch = s.last_write_epoch;
  chunks = if length s.chunks == 0 then md.chunks else s.chunks;
  previous_key = s.previous_key;
  next_key = s.next_key;
})

abbrev pub set_encoded :
    {W : Type 0} → Database W → Bytes → Result MetaError Bytes → W → Result MetaError (Unit {0}) × W
set_encoded D key (ok bytes) w = D.set key bytes w
set_encoded D key (err e) w = (err e, w)
set_encoded D key panic w = (panic, w)

module _ {W : Type 0} (C : MetaClient W) where
  -- SetMetadata
  unfoldable pub set_metadata : Metadata → W → Result MetaError (Unit {0}) × W
  set_metadata md w =
      if length md.key == 0 then (err nil_key, w) else set_encoded C.database md.key (C.encode md) w

  -- GetMetadata
  unfoldable pub get_metadata : Bytes → W → Result MetaError Metadata
  get_metadata key w =
      fail_if (length key == 0) nil_key
      >> (C.database.get key w >>= λ bytes. C.decode bytes new_metadata)

  -- DeleteMetadata
  unfoldable pub delete_metadata : Bytes → W → Result MetaError (Unit {0}) × W
  delete_metadata key w = if length key == 0 then (err nil_key, w) else C.database.delete key w

abbrev pub lifted : {E A : Type 0} → (MetaError → E) → Result MetaError A → Result E A
lifted lift (ok a) = ok a
lifted lift (err e) = err (lift e)
lifted lift panic = panic

module _ {W S E : Type 0} (D : Database W) (lift : MetaError → E) (key : Bytes)
    (callback : Bytes → S × W → Result E Bytes × (S × W)) where
  -- `txn.Set(key, metadata)`, and the commit
  abbrev pub committed : Result E Bytes × (S × W) → Result E (Unit {0}) × (S × W)
  committed (ok bytes, (s, w)) = let r = D.set key bytes w in (lifted lift r.0, (s, r.1))
  committed (err e, sw) = (err e, sw)
  committed (panic, sw) = (panic, sw)

  -- ErrConflict: another client has changed the world, and the loop goes on.
  abbrev pub retried :
      (W → W)
      → (S × W → Result E (Unit {0}) × (S × W))
      → Result E Bytes × (S × W)
      → Result E (Unit {0}) × (S × W)
  retried change again (ok bytes, (s, w)) = again (s, change w)
  retried change again (err e, sw) = (err e, sw)
  retried change again (panic, sw) = (panic, sw)

  abbrev pub with_stored :
      (Bytes → Result E (Unit {0}) × (S × W))
      → Result MetaError Bytes
      → S × W
      → Result E (Unit {0}) × (S × W)
  with_stored attempt (ok bytes) sw = attempt bytes
  with_stored attempt (err e) sw = (err (lift e), sw)
  with_stored attempt panic sw = (panic, sw)

  -- Update, for the changes that make an attempt end in a conflict; the callback has the state `S`.
  unfoldable pub update : List (W → W) → S × W → Result E (Unit {0}) × (S × W)
  update [] sw = with_stored (λ bytes. committed (callback bytes sw)) (D.get key sw.1) sw
  update (change ∷ changes) sw =
      with_stored (λ bytes. retried change (λ sw'. update changes sw') (callback bytes sw))
        (D.get key sw.1) sw

module _ {W S E : Type 0} (C : MetaClient W) (lift : MetaError → E)
    (callback : Metadata → S × W → Result E Metadata × (S × W)) where
  -- `return c.encode(*metadata)`: the variable `metadata` keeps what the callback has returned.
  abbrev pub encoded :
      Metadata → Result E Metadata × (S × W) → Result E Bytes × ((Metadata × S) × W)
  encoded old (ok md, (s, w)) = (lifted lift (C.encode md), ((md, s), w))
  encoded old (err e, (s, w)) = (err e, ((old, s), w))
  encoded old (panic, (s, w)) = (panic, ((old, s), w))

  abbrev pub decoded :
      Result MetaError Metadata → (Metadata × S) × W → Result E Bytes × ((Metadata × S) × W)
  decoded (ok md) ((old, s), w) = encoded md (callback md (s, w))
  decoded (err e) sw = (err (lift e), sw)
  decoded panic sw = (panic, sw)

  -- What UpdateMetadata gives the database as its callback
  abbrev pub metadata_callback : Bytes → (Metadata × S) × W → Result E Bytes × ((Metadata × S) × W)
  metadata_callback bytes sw = decoded (C.decode bytes sw.0.0) sw

  abbrev pub updated : Result E (Unit {0}) × ((Metadata × S) × W) → Result E Metadata × (S × W)
  updated (r, ((md, s), w)) = (r >> ok md, (s, w))

  -- UpdateMetadata
  unfoldable pub update_metadata : Bytes → List (W → W) → S × W → Result E Metadata × (S × W)
  update_metadata key changes (s, w) =
      if length key == 0
      then (err (lift nil_key), (s, w))
      else updated (update C.database lift key metadata_callback changes ((new_metadata, s), w))
