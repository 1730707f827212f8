-- ===== src/Document/Store.antt =====
-- Storing a version: the object, the row, and the clean-up when the row cannot be added.
use online_colab_document.Base.{
  ℕ, ◌%◌, String, Option, some, true, false, ◌==◌, ◌≡◌, arith, any_where, ==_refl,
}
use online_colab_document.Model.Document.{Document, Version}
use online_colab_document.World.{World, Error, ok, err, called}
use online_colab_document.Permission.Repository.{is_live}
use online_colab_document.Uuid.{new_uuid, uuid_text, stamp}
use online_colab_document.Storage.{put_object}
use online_colab_document.Storage.Laws.{
  object_at, put_object-db, put_object-env, put_object-object_at, delete_object-db,
}
use online_colab_document.Document.Repository.{add_document_version}
use online_colab_document.Document.Service.{store_version, new_version, or_delete_object}
use online_colab_document.Document.Versions.{
  versioned, add_document_version_ok, add_document_version-db, add_document_version-objects,
  add_document_version-env,
}

module _ (key_of : String → String) (doc : Document) (body : String) (by : Option String)
    (w : World) where
  -- The id and the key that the version gets, and the moments between the outside calls.
  abbrev pub stored_id : String
  stored_id = uuid_text (stamp (λ i. w.env.byte w.calls i % 256))

  abbrev pub stored_key : String
  stored_key = key_of stored_id

  abbrev after_put : World
  after_put = (put_object stored_key body doc.mime_type (called w)).1

  abbrev pub stored_at : ℕ
  stored_at = after_put.env.time after_put.calls

  abbrev pub stored : Version
  stored = new_version stored_id doc.id stored_key body by stored_at

  abbrev after_add : World
  after_add = (add_document_version doc.id stored stored_at (called after_put)).1

  pub store_version_ok :
      {id : String} {w' : World}
      → store_version key_of doc body by w ≡ (ok id, w')
      → (id ≡ stored_id)
        × (w'.db ≡ versioned w.db doc.id stored stored_at)
        × (any_where (is_live doc.id) w.db.documents ≡ true)
        × (any_where (λ u. u.id == stored_id) w.db.versions ≡ false)
        × (object_at stored_key w'
            ≡ some (record { key = stored_key; body = body; content_type = doc.mime_type }))
  unfolding store_version new_uuid or_delete_object
  store_version_ok h = ground (
    arith,
    put_object-db stored_key body doc.mime_type (called w),
    put_object-object_at stored_key body doc.mime_type (called w) stored_key,
    ==_refl stored_key,
    add_document_version_ok doc.id stored stored_at (called after_put),
    add_document_version-db doc.id stored stored_at (called after_put),
    add_document_version-objects doc.id stored stored_at (called after_put),
  )

  -- Storing a version that fails, at whatever step, changes no table.
  pub store_version_error :
      {e : Error} {w' : World} → store_version key_of doc body by w ≡ (err e, w') → w'.db ≡ w.db
  unfolding store_version new_uuid or_delete_object
  store_version_error h = ground (
    arith,
    put_object-db stored_key body doc.mime_type (called w),
    add_document_version-db doc.id stored stored_at (called after_put),
    delete_object-db stored_key after_add,
  )

  pub store_version-env :
      {id : String} {w' : World} → store_version key_of doc body by w ≡ (ok id, w') → w'.env ≡ w.env
  unfolding store_version new_uuid or_delete_object
  store_version-env h = ground (
    arith,
    put_object-env stored_key body doc.mime_type (called w),
    add_document_version-env doc.id stored stored_at (called after_put),
  )
