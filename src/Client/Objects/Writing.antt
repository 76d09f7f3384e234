-- ===== src/Client/Objects/Writing.antt =====
-- client/client.go: Write and Read as the operations of a map from keys to data.
use stor.Base.{
  true-ne-false, ℕ, arith, ◌<◌, ◌≡◌, ◌≢◌, refl, sym, ap, ◌∙◌, Bytes, bytes_eq, bytes_eq_refl,
  bytes_eq→eq, List, Bool-cases, inl, inr, Option, none, some, some-injective, ◌==◌, if◌then◌else◌,
  length, Result, ok, err, panic, bind-ok, ok-injective, err-ne-ok, panic-ne-ok, pos→==_false,
}
use stor.Cluster.Types.{Chunk}
use stor.Pipeline.Types
use stor.Client.Traversal.{Metadata}
use stor.Client.Metastor.{lifted, set_metadata, get_metadata}
use stor.Client.Metastor.Updating.{
  IsMetastore, IsStoredFrom, lifted-ok, get_metadata-stored, set_metadata-stored,
}
use stor.Client.Objects.{
  of_metastor, Client, from_pipeline, metadata_for, stored_metadata, written_chunks, write_object,
  read_with_meta, read_object,
}

-- What the client relies on: data that are written are read and kept, and metadata and data do not get
-- into each other's way.
pub record IsClient {W : Type 0} (C : Client W) : Type 0 where
  pub metastore : IsMetastore C.metastor_client
  pub read-write :
      (input : Bytes) (chunks : List Chunk) (w w' : W)
      → C.data_pipeline.write input w ≡ (ok chunks, w')
      → 0 < length chunks
      → C.data_pipeline.read chunks w' ≡ ok input
  pub read_kept :
      (input bytes : Bytes) (chunks : List Chunk) (w : W)
      → C.data_pipeline.read chunks w ≡ ok bytes
      → C.data_pipeline.read chunks (C.data_pipeline.write input w).1 ≡ ok bytes
  pub read-set :
      (chunks : List Chunk) (key bytes : Bytes) (w : W)
      → C.data_pipeline.read chunks (C.metastor_client.database.set key bytes w).1
        ≡ C.data_pipeline.read chunks w
  pub get-write :
      (key input : Bytes) (w : W)
      → C.metastor_client.database.get key (C.data_pipeline.write input w).1
        ≡ C.metastor_client.database.get key w

from_pipeline-ok :
    {A : Type 0} (r : Result Types.Error A) (a : A) → from_pipeline r ≡ ok a → r ≡ ok a
from_pipeline-ok (ok b) a e = ap ok (ok-injective e)
from_pipeline-ok (err x) a e = absurd (err-ne-ok e)
from_pipeline-ok panic a e = absurd (panic-ne-ok e)

module _ {W : Type 0} (C : Client W) where
  pub stored_metadata-stored :
      (md₀ md : Metadata) (v w' : W)
      → stored_metadata C md₀ v ≡ (ok md, w')
      → (md₀ ≡ md) × (set_metadata C.metastor_client md₀ v ≡ (ok tt, w'))
  stored_metadata-stored md₀ md v w' e =
      let r = set_metadata C.metastor_client md₀ v in
      let (u, f, g) = bind-ok (lifted of_metastor r.0) (λ _. ok md₀) md (ap (λ z. z.0) e) in
      let set_ok = lifted-ok of_metastor r.0 tt f in
      (ok-injective g, λ i. (set_ok i, ap (λ z. z.1) e i))

  -- What a successful write has done
  abbrev pub Wrote : Bytes → Bytes → W → Metadata → W → Type 0
  Wrote key input w md w' =
      (0 < length key)
      × (v : W) × (C.data_pipeline.write input w ≡ (ok md.chunks, v))
      × IsStoredFrom C.metastor_client key md v w'

  written_chunks-Wrote :
      (key input : Bytes) (now : ℕ) (w w' : W) (md : Metadata)
      (r : Result Types.Error (List Chunk) × W)
      → C.data_pipeline.write input w ≡ r
      → written_chunks C key none now r ≡ (ok md, w')
      → Wrote key input w md w'
  written_chunks-Wrote key input now w w' md (ok chunks, v) e f =
      let (same, g) = stored_metadata-stored (metadata_for key none now chunks) md v w' f in
      let (some_key, stored) =
        set_metadata-stored C.metastor_client (metadata_for key none now chunks) v w' g in
      rw (sym same) (some_key, v, e, stored)
  written_chunks-Wrote key input now w w' md (err x, v) e f = absurd (err-ne-ok (ap (λ z. z.0) f))
  written_chunks-Wrote key input now w w' md (panic, v) e f = absurd (panic-ne-ok (ap (λ z. z.0) f))

  pub write_object-Wrote :
      (key input : Bytes) (now : ℕ) (w w' : W) (md : Metadata)
      → write_object C key input now w ≡ (ok md, w')
      → Wrote key input w md w'
  unfolding write_object
  write_object-Wrote key input now w w' md e = elim (Bool-cases (length key == 0)) [
    | inl t ↦ absurd (err-ne-ok (ap (λ z. z.0) (rw t at e)))
    | inr f ↦
        written_chunks-Wrote key input now w w' md (C.data_pipeline.write input w) refl (rw f at e)
  ]

  read_object-found :
      (key bytes : Bytes) (md : Metadata) (w : W)
      → 0 < length key
      → get_metadata C.metastor_client key w ≡ ok md
      → C.data_pipeline.read md.chunks w ≡ ok bytes
      → read_object C key w ≡ ok bytes
  unfolding read_object
  read_object-found key bytes md w some_key e f =
      rw (pos→==_false (length key) some_key) (rw e (rw f refl))

  found-read_object :
      (key bytes : Bytes) (w : W)
      → read_object C key w ≡ ok bytes
      → (0 < length key)
        × (md : Metadata) × (get_metadata C.metastor_client key w ≡ ok md)
        × (C.data_pipeline.read md.chunks w ≡ ok bytes)
  unfolding read_object
  found-read_object key bytes w e = elim (Bool-cases (length key == 0)) [
    | inl t ↦ absurd (err-ne-ok (rw t at e))
    | inr f ↦
        let (md, g, h) =
          bind-ok (lifted of_metastor (get_metadata C.metastor_client key w))
            (λ md. read_with_meta C md w) bytes (rw f at e) in
        (
          ground (arith, f),
          md,
          lifted-ok of_metastor (get_metadata C.metastor_client key w) md g,
          from_pipeline-ok (C.data_pipeline.read md.chunks w) bytes h,
        )
  ]

  module _ (client : IsClient C) where
    read_object-written :
        (key input : Bytes) (w w' : W) (md : Metadata)
        → Wrote key input w md w'
        → 0 < length md.chunks
        → read_object C key w' ≡ ok input
    read_object-written key input w w' md (some_key, v, e, (bytes, f, g)) some_chunk =
        let data_set = client.read-set md.chunks key bytes v in
        let world : (C.metastor_client.database.set key bytes v).1 ≡ w' = ap (λ z. z.1) g in
        read_object-found key input md w' some_key
          (get_metadata-stored C.metastor_client key md w' client.metastore some_key
            (bytes, f, v, g))
          ((rw world at data_set) ∙ client.read-write input md.chunks w v e some_chunk)

    read_object-other :
        (key key' input bytes' : Bytes) (w w' : W) (md : Metadata)
        → key ≢ key'
        → Wrote key input w md w'
        → read_object C key' w ≡ ok bytes'
        → read_object C key' w' ≡ ok bytes'
    unfolding get_metadata
    read_object-other key key' input bytes' w w' md other (some_key, v, e, (bytes, f, g)) h =
        let (some_key', md', found, bytes_read) = found-read_object key' bytes' w h in
        let world : (C.metastor_client.database.set key bytes v).1 ≡ w' = ap (λ z. z.1) g in
        let after_data : (C.data_pipeline.write input w).1 ≡ v = ap (λ z. z.1) e in
        let same_set = client.metastore.get-set_other key key' bytes v other in
        let same_write = client.get-write key' input w in
        let same : C.metastor_client.database.get key' w' ≡ C.metastor_client.database.get key' w =
          (rw world at same_set) ∙ (rw after_data at same_write) in
        let kept = client.read_kept input bytes' md'.chunks w bytes_read in
        let set_data = client.read-set md'.chunks key bytes v in
        read_object-found key' bytes' md' w' some_key' (rw same found)
          ((rw world at set_data) ∙ (rw after_data at kept))

-- The map with the data under the key
abbrev pub put_data : (Bytes → Option Bytes) → Bytes → Bytes → Bytes → Option Bytes
put_data m key input key' = if bytes_eq key key' then some input else m key'

put_data-read :
    {W : Type 0} (C : Client W) (m : Bytes → Option Bytes) (key input key' bytes' : Bytes)
    (w w' : W) (md : Metadata)
    → IsClient C
    → Wrote C key input w md w'
    → 0 < length md.chunks
    → ((k b : Bytes) → m k ≡ some b → read_object C k w ≡ ok b)
    → put_data m key input key' ≡ some bytes'
    → read_object C key' w' ≡ ok bytes'
put_data-read C m key input key' bytes' w w' md client wrote some_chunk shows e =
    elim (Bool-cases (bytes_eq key key')) [
      | inl t ↦
          rw (sym (bytes_eq→eq key key' t), sym (some-injective (rw t at e)))
            (read_object-written C client key input w w' md wrote some_chunk)
      | inr f ↦
          read_object-other C client key key' input bytes' w w' md
            (λ same. true-ne-false (bytes_eq key key') (rw same (bytes_eq_refl key')) f) wrote
            (shows key' bytes' (rw f at e))
    ]

-- Write and Read of the client are those of a map: if what Read gives in a world are the data of the
-- map m, and Write of data under a key returns no error and has made a chunk, then what Read gives
-- afterwards are the data of m with those under the key, over a pipeline that reads and keeps what it
-- has written, and a store of the metadata that is apart from the data.
pub write_object-put_data :
    {W : Type 0} (C : Client W) (m : Bytes → Option Bytes) (key input : Bytes) (now : ℕ) (w w' : W)
    (md : Metadata)
    → IsClient C
    → ((k b : Bytes) → m k ≡ some b → read_object C k w ≡ ok b)
    → write_object C key input now w ≡ (ok md, w')
    → 0 < length md.chunks
    → (k b : Bytes) → put_data m key input k ≡ some b
    → read_object C k w' ≡ ok b
write_object-put_data C m key input now w w' md client shows e some_chunk = λ k b f.
    put_data-read C m key input k b w w' md client (write_object-Wrote C key input now w w' md e)
      some_chunk shows f
