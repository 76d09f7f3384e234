-- ===== src/Client/Objects.antt =====
-- client/client.go and WriteLinked of client/client_linked_data.go: the client of 0-stor, over a pipeline
-- and a client of the metadata. The time is an argument; Close is left out.
pub mod Writing
pub mod Deleting
pub mod Repairing
pub mod Linking
use stor.Base.{
  ℕ, zero, suc, ◌+◌, Bytes, List, [], ◌∷◌, Bool, Option, none, some, ◌==◌, ◌||◌, if◌then◌else◌,
  length, Result, ok, err, panic, ◌>>=◌, ◌>>◌, fail_if,
}
use stor.Cluster.Types.{Chunk}
use stor.Storage.Types.{CheckStatus, not_supported}
use stor.Pipeline.Types
use stor.Pipeline.Types.{storage}
use stor.Client.Traversal.{Metadata}
use stor.Client.Metastor.{
  MetaError, MetaClient, lifted, set_metadata, get_metadata, delete_metadata, update_metadata,
}

pub data ClientError : Type 0 where
  nil_client_key repair_support : ClientError
  of_metastor : MetaError → ClientError
  of_pipeline : Types.Error → ClientError

-- The interface Pipeline
pub record Pipeline (W : Type 0) : Type 0 where
  pub write : Bytes → W → Result Types.Error (List Chunk) × W
  pub read : List Chunk → W → Result Types.Error Bytes
  pub check : List Chunk → Bool → W → Result Types.Error CheckStatus
  pub repair : List Chunk → W → Result Types.Error (List Chunk) × W
  pub delete : List Chunk → W → Result Types.Error (Unit {0}) × W

pub record Client (W : Type 0) : Type 0 where
  pub data_pipeline : Pipeline W
  pub metastor_client : MetaClient W

abbrev pub from_pipeline : {A : Type 0} → Result Types.Error A → Result ClientError A
from_pipeline (ok a) = ok a
from_pipeline (err e) = err (of_pipeline e)
from_pipeline panic = panic

-- `for _, chunk := range chunks { md.Size += chunk.Size }`
abbrev pub total_size : List Chunk → ℕ
total_size [] = 0
total_size (chunk ∷ chunks) = chunk.size + total_size chunks

abbrev pub metadata_for : Bytes → Option Bytes → ℕ → List Chunk → Metadata
metadata_for key previous_key now chunks = record {
  key = key;
  size = total_size chunks;
  creation_epoch = now;
  last_write_epoch = now;
  chunks = chunks;
  previous_key = previous_key;
  next_key = none;
}

module _ {W : Type 0} (C : Client W) where
  -- `err = c.metastorClient.SetMetadata(md)`
  abbrev pub stored_metadata : Metadata → W → Result ClientError Metadata × W
  stored_metadata md w =
      let r = set_metadata C.metastor_client md w in (lifted of_metastor r.0 >> ok md, r.1)

  -- What Write and WriteLinked do with the chunks of the pipeline
  abbrev pub written_chunks :
      Bytes
      → Option Bytes
      → ℕ
      → Result Types.Error (List Chunk) × W
      → Result ClientError Metadata × W
  written_chunks key previous_key now (ok chunks, w) =
      stored_metadata (metadata_for key previous_key now chunks) w
  written_chunks key previous_key now (err e, w) = (err (of_pipeline e), w)
  written_chunks key previous_key now (panic, w) = (panic, w)

  -- Write
  unfoldable pub write_object : Bytes → Bytes → ℕ → W → Result ClientError Metadata × W
  write_object key input now w =
      if length key == 0
      then (err nil_client_key, w)
      else written_chunks key none now (C.data_pipeline.write input w)

  abbrev pub metadata_at : Bytes → W → Result ClientError Metadata
  metadata_at key w =
      fail_if (length key == 0) nil_client_key
      >> lifted of_metastor (get_metadata C.metastor_client key w)

  -- ReadWithMeta and Read
  abbrev pub read_with_meta : Metadata → W → Result ClientError Bytes
  read_with_meta md w = from_pipeline (C.data_pipeline.read md.chunks w)

  unfoldable pub read_object : Bytes → W → Result ClientError Bytes
  read_object key w = metadata_at key w >>= λ md. read_with_meta md w

  abbrev pub deleted_data :
      Bytes → Result Types.Error (Unit {0}) × W → Result ClientError (Unit {0}) × W
  deleted_data key (ok tt, w) =
      let r = delete_metadata C.metastor_client key w in (lifted of_metastor r.0, r.1)
  deleted_data key (err e, w) = (err (of_pipeline e), w)
  deleted_data key (panic, w) = (panic, w)

  -- DeleteWithMeta and Delete
  abbrev pub delete_with_meta : Metadata → W → Result ClientError (Unit {0}) × W
  delete_with_meta md w = deleted_data md.key (C.data_pipeline.delete md.chunks w)

  abbrev pub delete_found : Result ClientError Metadata → W → Result ClientError (Unit {0}) × W
  delete_found (ok md) w = delete_with_meta md w
  delete_found (err e) w = (err e, w)
  delete_found panic w = (panic, w)

  unfoldable pub delete_object : Bytes → W → Result ClientError (Unit {0}) × W
  delete_object key w = delete_found (metadata_at key w) w

  -- CheckWithMeta and Check
  abbrev pub check_with_meta : Metadata → Bool → W → Result ClientError CheckStatus
  check_with_meta md fast w = from_pipeline (C.data_pipeline.check md.chunks fast w)

  unfoldable pub check_object : Bytes → Bool → W → Result ClientError CheckStatus
  check_object key fast w = metadata_at key w >>= λ md. check_with_meta md fast w

  abbrev pub next_linked : Bytes → Metadata → Metadata
  next_linked key md = record md { next_key = some key }

  abbrev pub link_written :
      Bytes
      → Metadata
      → Result ClientError Metadata × W
      → Result ClientError Metadata × (Option Metadata × W)
  link_written key previous (ok md, w) = (ok (next_linked key previous), (some md, w))
  link_written key previous (err e, w) = (err e, (none, w))
  link_written key previous (panic, w) = (panic, (none, w))

  -- The callback of WriteLinked, whose state is the metadata that it has written
  abbrev pub link_callback :
      Bytes
      → Bytes
      → Bytes
      → ℕ
      → Metadata
      → Option Metadata × W
      → Result ClientError Metadata × (Option Metadata × W)
  link_callback key previous_key input now previous (none, w) =
      link_written key previous
        (written_chunks key (some previous_key) now (C.data_pipeline.write input w))
  link_callback key previous_key input now previous (some md, w) =
      (ok (next_linked key previous), (some md, w))

  -- WriteLinked: the metadata written, and those that it is linked to; what it returns of them beside an
  -- error is left out.
  unfoldable pub write_linked :
      Bytes
      → Bytes
      → Bytes
      → ℕ
      → List (W → W)
      → W
      → Result ClientError Metadata × (Option Metadata × W)
  write_linked key previous_key input now changes w =
      if (length key == 0) || (length previous_key == 0)
      then (err nil_client_key, (none, w))
      else update_metadata C.metastor_client of_metastor (link_callback key previous_key input now)
          previous_key changes (none, w)

-- The variables of Repair that its callback changes
pub record Repair : Type 0 where
  pub repaired_chunks : List Chunk
  pub total_size_after_repair : ℕ
  pub repair_epoch : ℕ

abbrev pub no_repair : Repair
no_repair = record { repaired_chunks = []; total_size_after_repair = 0; repair_epoch = 0 }

abbrev pub repair_error : Types.Error → ClientError
repair_error (storage not_supported) = repair_support
repair_error e = of_pipeline e

abbrev pub with_repair : Metadata → Repair → Metadata
with_repair md r = record md {
  chunks = r.repaired_chunks;
  size = r.total_size_after_repair;
  last_write_epoch = r.repair_epoch;
}

abbrev pub repaired_by :
    {W : Type 0}
    → ℕ
    → Metadata
    → Repair
    → Result Types.Error (List Chunk) × W
    → Result ClientError Metadata × (Repair × W)
repaired_by now md r (ok chunks, w) =
    let r' : Repair = record {
      repaired_chunks = chunks;
      total_size_after_repair = r.total_size_after_repair + total_size chunks;
      repair_epoch = now;
    } in
    (ok (with_repair md r'), (r', w))
repaired_by now md r (err e, w) = (err (repair_error e), (r, w))
repaired_by now md r (panic, w) = (panic, (r, w))

module _ {W : Type 0} (C : Client W) where
  -- The callback of Repair; `now` is the time of its call of EpochNow.
  abbrev pub repair_callback :
      ℕ → Metadata → Repair × W → Result ClientError Metadata × (Repair × W)
  repair_callback now md (r, w) =
      if r.repair_epoch == 0
      then repaired_by now md r (C.data_pipeline.repair md.chunks w)
      else (ok (with_repair md r), (r, w))

  -- Repair, for the changes by others that make it try again
  unfoldable pub repair_object :
      Bytes → ℕ → List (W → W) → W → Result ClientError Metadata × (Repair × W)
  repair_object key now changes w =
      if length key == 0
      then (err nil_client_key, (no_repair, w))
      else update_metadata C.metastor_client of_metastor (repair_callback now) key changes
          (no_repair, w)
