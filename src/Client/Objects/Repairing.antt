-- ===== src/Client/Objects/Repairing.antt =====
-- client/client.go: Repair, which updates metadata that others may change at the same time.
use stor.Base.{
  ℕ, ◌+◌, ◌<◌, ◌≡◌, inl, inr, refl, sym, ap, ◌∙◌, Bytes, List, ◌==◌, Bool-cases, length, Result, ok,
  err, panic, ok-injective, err-ne-ok, panic-ne-ok, pos→==_false, arith,
}
use stor.Cluster.Types.{Chunk}
use stor.Pipeline.Types
use stor.Client.Traversal.{Metadata}
use stor.Client.Metastor.{new_metadata}
use stor.Client.Metastor.Updating.{IsFetched, IsStoredFrom}
use stor.Client.Metastor.Once.{IsVariable, after_changes, last_seen, update_metadata-once}
use stor.Client.Objects.{
  of_metastor, Client, total_size, with_repair, Repair, no_repair, repaired_by, repair_callback,
  repair_object,
}

-- Metadata with other chunks, written at the time
abbrev pub with_chunks_of : ℕ → Metadata → List Chunk → Metadata
with_chunks_of now md chunks = record {
  key = md.key;
  size = total_size chunks;
  creation_epoch = md.creation_epoch;
  last_write_epoch = now;
  chunks = chunks;
  previous_key = md.previous_key;
  next_key = md.next_key;
}

module _ {W : Type 0} (C : Client W) (key : Bytes) (now : ℕ) (w : W) where
  -- The pipeline has repaired the chunks of the metadata under the key in the world `w`.
  abbrev pub IsRepaired : List Chunk → W → Type 0
  IsRepaired chunks v =
      (old : Metadata) × IsFetched C.metastor_client key new_metadata old w
      × (C.data_pipeline.repair old.chunks w ≡ (ok chunks, v))

  abbrev DidRepair : Repair → W → Type 0
  DidRepair r v =
      (r.repair_epoch ≡ now)
      × (r.total_size_after_repair ≡ total_size r.repaired_chunks)
      × IsRepaired r.repaired_chunks v

  abbrev edit : Metadata → Repair → Metadata
  edit md r = with_chunks_of now md r.repaired_chunks

  with_repair-edit :
      (md : Metadata) (r : Repair)
      → r.repair_epoch ≡ now
      → r.total_size_after_repair ≡ total_size r.repaired_chunks
      → with_repair md r ≡ edit md r
  with_repair-edit md r epoch size =
      λ i. record md { chunks = r.repaired_chunks; size = size i; last_write_epoch = epoch i }

  repaired_by-DidRepair :
      (md md' : Metadata) (r' : Repair) (v : W) (a : Result Types.Error (List Chunk) × W)
      → IsFetched C.metastor_client key new_metadata md w
      → C.data_pipeline.repair md.chunks w ≡ a
      → repaired_by now md no_repair a ≡ (ok md', (r', v))
      → DidRepair r' v × (md' ≡ edit md r')
  repaired_by-DidRepair md md' r' v (ok chunks, u) fetched e f =
      let same : md' ≡ _ = sym (ok-injective (ap (λ z. z.0) f)) in
      let size : 0 + total_size chunks ≡ total_size chunks = omega arith in
      rw (sym (ap (λ z. z.1.1) f), same, sym (ap (λ z. z.1.0) f))
        (
          (refl, size, (md, fetched, e)),
          with_repair-edit md
              (record {
                repaired_chunks = chunks;
                total_size_after_repair = 0 + total_size chunks;
                repair_epoch = now;
              })
              refl size,
        )
  repaired_by-DidRepair md md' r' v (err x, u) fetched e f = absurd (err-ne-ok (ap (λ z. z.0) f))
  repaired_by-DidRepair md md' r' v (panic, u) fetched e f = absurd (panic-ne-ok (ap (λ z. z.0) f))

  first_repair :
      (md md' : Metadata) (r : Repair) (v : W)
      → IsFetched C.metastor_client key new_metadata md w
      → repair_callback C now md (no_repair, w) ≡ (ok md', (r, v))
      → DidRepair r v × (md' ≡ edit md r)
  first_repair md md' r v fetched e =
      repaired_by-DidRepair md md' r v (C.data_pipeline.repair md.chunks w) fetched refl e

  later_repair :
      0 < now
      → (md md' : Metadata) (r r' : Repair) (v u u' : W) → DidRepair r v
      → repair_callback C now md (r, u) ≡ (ok md', (r', u'))
      → (r' ≡ r) × (u' ≡ u) × (md' ≡ edit md r)
  later_repair positive md md' r r' v u u' (epoch, size, done) e =
      let f = rw (pos→==_false r.repair_epoch (omega (arith, epoch, positive))) at e in
      (
        sym (ap (λ z. z.1.0) f),
        sym (ap (λ z. z.1.1) f),
        sym (ok-injective (ap (λ z. z.0) f)) ∙ with_repair-edit md r epoch size,
      )

-- However often others change the metadata under Repair of the client, so that it tries again, when it
-- returns no error, the pipeline has repaired once, at the first attempt, the chunks of the metadata that
-- were then under the key; and the metadata that it returns are those that were under the key at the
-- last attempt, decoded into new metadata or into those of an earlier attempt, with the repaired chunks, their total size and the time of the repair in place of their
-- own, and are what is stored under the key, after all the changes. This is so if that time is positive.
pub repair_object_lem :
    {W : Type 0} (C : Client W) (key : Bytes) (now : ℕ) (changes : List (W → W)) (w w' : W)
    (md : Metadata) (r : Repair)
    → 0 < now
    → repair_object C key now changes w ≡ (ok md, (r, w'))
    → (chunks : List Chunk) × (v : W) × IsRepaired C key now w chunks v
      × (latest : Metadata) × (variable : Metadata) × IsVariable
          (λ earlier. with_chunks_of now earlier chunks)
          variable
      × IsFetched C.metastor_client key variable latest (last_seen changes w v)
      × (md ≡ with_chunks_of now latest chunks)
      × IsStoredFrom C.metastor_client key md (after_changes changes v) w'
unfolding repair_object
repair_object_lem C key now changes w w' md r positive e = elim (Bool-cases (length key == 0)) [
  | inl t ↦ absurd (err-ne-ok (ap (λ z. z.0) (rw t at e)))
  | inr f ↦
      let (v, (epoch, size, done), latest, variable, left, fetched, edited, stored) =
        update_metadata-once C.metastor_client of_metastor key (repair_callback C now) no_repair
          changes w (DidRepair C key now w) (edit C key now w) (first_repair C key now w)
          (later_repair C key now w positive) md r w' (rw f at e) in
      (r.repaired_chunks, v, done, latest, variable, left, fetched, edited, stored)
]
