-- ===== src/Client/Objects/Deleting.antt =====
-- client/client.go: Delete, which leaves neither the data nor the metadata.
use stor.Base.{
  arith, ◌<◌, ◌≡◌, refl, ap, Bytes, Bool-cases, inl, inr, ◌==◌, length, Result, ok, err, panic,
  err-ne-ok, panic-ne-ok, pos→==_false,
}
use stor.Pipeline.Types
use stor.Client.Traversal.{Metadata}
use stor.Client.Metastor.{delete_metadata, not_found, lifted, get_metadata}
use stor.Client.Metastor.Updating.{lifted-ok}
use stor.Client.Objects.{
  deleted_data, delete_found, metadata_at, delete_object, ClientError, of_metastor, Client,
  read_object,
}

-- `ErrNotFound` for a key that the database has deleted
abbrev pub IsDeleting : {W : Type 0} → Client W → Type 0
IsDeleting {W} C =
    (key : Bytes) (w w' : W)
    → C.metastor_client.database.delete key w ≡ (ok tt, w')
    → C.metastor_client.database.get key w' ≡ err not_found

module _ {W : Type 0} (C : Client W) (deleting : IsDeleting C) where
  deleted_data-gone :
      (key : Bytes) (w' : W) (r : Result Types.Error (Unit {0}) × W)
      → 0 < length key
      → deleted_data C key r ≡ (ok tt, w')
      → (r.0 ≡ ok tt) × (C.metastor_client.database.get key w' ≡ err not_found)
  unfolding delete_metadata
  deleted_data-gone key w' (ok tt, v) some_key e =
      let r = C.metastor_client.database.delete key v in
      let f : (lifted of_metastor r.0, r.1) ≡ (ok tt, w') =
        rw (pos→==_false (length key) some_key) at e in
      let set_ok = lifted-ok of_metastor r.0 tt (ap (λ z. z.0) f) in
      (refl, deleting key v w' (λ i. (set_ok i, ap (λ z. z.1) f i)))
  deleted_data-gone key w' (err x, v) some_key e = absurd (err-ne-ok (ap (λ z. z.0) e))
  deleted_data-gone key w' (panic, v) some_key e = absurd (panic-ne-ok (ap (λ z. z.0) e))

  found_deleted :
      (key : Bytes) (w w' : W) (r : Result ClientError Metadata)
      → ((md : Metadata) → r ≡ ok md → (md.key ≡ key) × (0 < length key))
      → delete_found C r w ≡ (ok tt, w')
      → (md : Metadata) × (r ≡ ok md)
        × ((C.data_pipeline.delete md.chunks w).0 ≡ ok tt)
        × (C.metastor_client.database.get key w' ≡ err not_found)
  found_deleted key w w' (ok md) owns e =
      let (same, some_key) = owns md refl in
      let (d, g) =
        deleted_data-gone key w' (C.data_pipeline.delete md.chunks w) some_key (rw same at e) in
      (md, refl, d, g)
  found_deleted key w w' (err x) owns e = absurd (err-ne-ok (ap (λ z. z.0) e))
  found_deleted key w w' panic owns e = absurd (panic-ne-ok (ap (λ z. z.0) e))

metadata_at-get :
    {W : Type 0} (C : Client W) (key : Bytes) (w : W) (md : Metadata)
    → metadata_at C key w ≡ ok md
    → (0 < length key) × (get_metadata C.metastor_client key w ≡ ok md)
metadata_at-get C key w md e = elim (Bool-cases (length key == 0)) [
  | inl t ↦ absurd (err-ne-ok (rw t at e))
  | inr f ↦ (
    ground (arith, f),
    lifted-ok of_metastor (get_metadata C.metastor_client key w) md (rw f at e),
  )
]

read_object-missing :
    {W : Type 0} (C : Client W) (key : Bytes) (w : W)
    → 0 < length key
    → C.metastor_client.database.get key w ≡ err not_found
    → read_object C key w ≡ err (of_metastor not_found)
unfolding read_object get_metadata
read_object-missing C key w some_key e = rw (pos→==_false (length key) some_key) (rw e refl)

-- If Delete of the client returns no error, the pipeline has deleted the chunks of the metadata under
-- the key, without an error, and Read answers that there are no metadata, if metadata are under their
-- own key and the database no longer finds a key that it has deleted.
pub delete_object_lem :
    {W : Type 0} (C : Client W) (key : Bytes) (w w' : W)
    → IsDeleting C
    → ((md : Metadata) → get_metadata C.metastor_client key w ≡ ok md → md.key ≡ key)
    → delete_object C key w ≡ (ok tt, w')
    → (md : Metadata) × (get_metadata C.metastor_client key w ≡ ok md)
      × ((C.data_pipeline.delete md.chunks w).0 ≡ ok tt)
      × (read_object C key w' ≡ err (of_metastor not_found))
unfolding delete_object
delete_object_lem C key w w' deleting own e =
    let (md, f, d, g) =
      found_deleted C deleting key w w' (metadata_at C key w)
        (λ md f. let (some_key, h) = metadata_at-get C key w md f in (own md h, some_key)) e in
    let (some_key, h) = metadata_at-get C key w md f in
    (md, h, d, read_object-missing C key w' some_key g)
