-- ===== src/Client/Objects/Linking.antt =====
-- client/client_linked_data.go: WriteLinked, which updates metadata that others may change at the same time.
use stor.Base.{
  none-ne-some, ℕ, ◌≡◌, inl, inr, refl, sym, ap, Bytes, List, Option, none, some, ◌==◌, ◌||◌,
  Bool-cases, length, Result, ok, err, panic, ok-injective, err-ne-ok, panic-ne-ok,
}
use stor.Cluster.Types.{Chunk}
use stor.Pipeline.Types
use stor.Client.Traversal.{Metadata}
use stor.Client.Metastor.{new_metadata}
use stor.Client.Metastor.Updating.{IsFetched, IsStoredFrom, set_metadata-stored}
use stor.Client.Metastor.Once.{IsVariable, after_changes, last_seen, update_metadata-once}
use stor.Client.Objects.{
  ClientError, of_metastor, Client, total_size, metadata_for, written_chunks, link_written,
  link_callback, write_linked,
}
use stor.Client.Objects.Writing.{stored_metadata-stored}

-- Metadata with a link on to the key
abbrev pub with_next : Bytes → Metadata → Metadata
with_next key md = record {
  key = md.key;
  size = md.size;
  creation_epoch = md.creation_epoch;
  last_write_epoch = md.last_write_epoch;
  chunks = md.chunks;
  previous_key = md.previous_key;
  next_key = some key;
}

-- The metadata of new chunks, with a link back to the previous key
abbrev pub linked_back : Bytes → Bytes → ℕ → List Chunk → Metadata
linked_back key previous_key now chunks = record {
  key = key;
  size = total_size chunks;
  creation_epoch = now;
  last_write_epoch = now;
  chunks = chunks;
  previous_key = some previous_key;
  next_key = none;
}

module _ {W : Type 0} (C : Client W) (key previous_key input : Bytes) (now : ℕ) (w : W) where
  -- The pipeline has written the data in the world `w`, and their metadata have been stored.
  abbrev pub IsWritten : Metadata → W → Type 0
  IsWritten md v =
      (chunks : List Chunk) × (u : W) × (C.data_pipeline.write input w ≡ (ok chunks, u))
      × (md ≡ linked_back key previous_key now chunks)
      × IsStoredFrom C.metastor_client key md u v

  abbrev DidWrite : Option Metadata → W → Type 0
  DidWrite s v = (md : Metadata) × (s ≡ some md) × IsWritten md v

  abbrev edit_link : Metadata → Option Metadata → Metadata
  edit_link previous s = with_next key previous

  written_chunks-IsWritten :
      (v : W) (md : Metadata) (r : Result Types.Error (List Chunk) × W)
      → C.data_pipeline.write input w ≡ r
      → written_chunks C key (some previous_key) now r ≡ (ok md, v)
      → IsWritten md v
  written_chunks-IsWritten v md (ok chunks, u) e f =
      let new = metadata_for key (some previous_key) now chunks in
      let (same, g) = stored_metadata-stored C new md u v f in
      let (some_key, stored) = set_metadata-stored C.metastor_client new u v g in
      rw (sym same) (chunks, u, e, refl, stored)
  written_chunks-IsWritten v md (err x, u) e f = absurd (err-ne-ok (ap (λ z. z.0) f))
  written_chunks-IsWritten v md (panic, u) e f = absurd (panic-ne-ok (ap (λ z. z.0) f))

  link_written-DidWrite :
      (previous previous' : Metadata) (s : Option Metadata) (v : W)
      (r : Result ClientError Metadata × W)
      → ((md : Metadata) (u : W) → r ≡ (ok md, u) → IsWritten md u)
      → link_written C key previous r ≡ (ok previous', (s, v))
      → DidWrite s v × (previous' ≡ with_next key previous)
  link_written-DidWrite previous previous' s v (ok md, u) written e =
      rw (sym (ok-injective (ap (λ z. z.0) e)), sym (ap (λ z. z.1.0) e), sym (ap (λ z. z.1.1) e))
        ((md, refl, written md u refl), refl)
  link_written-DidWrite previous previous' s v (err x, u) written e =
      absurd (err-ne-ok (ap (λ z. z.0) e))
  link_written-DidWrite previous previous' s v (panic, u) written e =
      absurd (panic-ne-ok (ap (λ z. z.0) e))

  first_link :
      (previous previous' : Metadata) (s : Option Metadata) (v : W)
      → IsFetched C.metastor_client previous_key new_metadata previous w
      → link_callback C key previous_key input now previous (none, w) ≡ (ok previous', (s, v))
      → DidWrite s v × (previous' ≡ edit_link previous s)
  first_link previous previous' s v fetched e =
      link_written-DidWrite previous previous' s v
        (written_chunks C key (some previous_key) now (C.data_pipeline.write input w))
        (λ md u f. written_chunks-IsWritten u md (C.data_pipeline.write input w) refl f) e

  later_link :
      (previous previous' : Metadata) (s s' : Option Metadata) (v u u' : W)
      → DidWrite s v
      → link_callback C key previous_key input now previous (s, u) ≡ (ok previous', (s', u'))
      → (s' ≡ s) × (u' ≡ u) × (previous' ≡ edit_link previous s)
  later_link previous previous' none s' v u u' (md, f, done) e = absurd (none-ne-some f)
  later_link previous previous' (some new) s' v u u' did e =
      (sym (ap (λ z. z.1.0) e), sym (ap (λ z. z.1.1) e), sym (ok-injective (ap (λ z. z.0) e)))

-- However often others change the metadata under the previous key while WriteLinked runs, if it returns
-- no error, the pipeline has written the data once, at the first attempt, and their metadata, with the
-- chunks that it has made, their total size and a link back to the previous key, have then been stored
-- under the key and are what it returns; and the metadata that were under the previous key at the last
-- attempt, decoded into new metadata or into those of an earlier attempt, with a link on to the key and otherwise unchanged, are what is stored there, after all the
-- changes.
pub write_linked_lem :
    {W : Type 0} (C : Client W) (key previous_key input : Bytes) (now : ℕ) (changes : List (W → W))
    (w w' : W) (previous : Metadata) (s : Option Metadata)
    → write_linked C key previous_key input now changes w ≡ (ok previous, (s, w'))
    → (v : W) × ((md : Metadata) × (s ≡ some md) × IsWritten C key previous_key input now w md v)
      × (latest : Metadata) × (variable : Metadata) × IsVariable (with_next key) variable
      × IsFetched C.metastor_client previous_key variable latest (last_seen changes w v)
      × (previous ≡ with_next key latest)
      × IsStoredFrom C.metastor_client previous_key previous (after_changes changes v) w'
unfolding write_linked
write_linked_lem C key previous_key input now changes w w' previous s e =
    elim (Bool-cases ((length key == 0) || (length previous_key == 0))) [
      | inl t ↦ absurd (err-ne-ok (ap (λ z. z.0) (rw t at e)))
      | inr f ↦
          update_metadata-once C.metastor_client of_metastor previous_key
            (link_callback C key previous_key input now) none changes w
            (DidWrite C key previous_key input now w) (edit_link C key previous_key input now w)
            (first_link C key previous_key input now w) (later_link C key previous_key input now w)
            previous s w' (rw f at e)
    ]
