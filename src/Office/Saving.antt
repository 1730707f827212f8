-- ===== src/Office/Saving.antt =====
-- What `Save` stores, and what the editors read after it.
use Prim.Native.String.{String, len}
use online_colab_document.Base.{
  ℕ, ℤ, pos, negsuc, ◌-◌, ◌^◌, ltb, le_zero, false, ◌≤◌, some, none, true, if◌then◌else◌, pos_part,
  ◌≡◌, ◌≢◌, ◌⊎◌, refl, sym, subst, arith, Option-cases, inl, inr, find_where,
}
use online_colab_document.Model.User.{User}
use online_colab_document.Model.Document.{Document}
use online_colab_document.Model.Office.{Config}
use online_colab_document.World.{World, Error, internal, Result, ok, err, called}
use online_colab_document.World.Laws.{Result-cases, returned}
use online_colab_document.Permission.Repository.{is_live}
use online_colab_document.Permission.Service.{can_edit}
use online_colab_document.Permission.Access.{
  access, allows_edit, can_edit-ReadsOnly, can_edit-cases,
}
use online_colab_document.Storage.{get_object, read_all}
use online_colab_document.Storage.Laws.{object_at}
use online_colab_document.Document.Repository.{find_by_id}
use online_colab_document.Document.Service.{store_version}
use online_colab_document.Document.Store.{store_version_error}
use online_colab_document.Document.Saving.{
  HoldsContent, stored_row, store_version-HoldsContent, live_id, body_of,
}
use online_colab_document.Office.Editor.{is_casual_supported}
use online_colab_document.Office.Service.{
  Info, new_service, save, read_content, read_limited, key_for, wopi_content, wopi_info,
}
use online_colab_document.Office.Live.{wopi_info_ok, wopi_info-reads}
use online_colab_document.Wiring.{office_service}

-- The most bytes that a save may have.
abbrev pub limit : Config → ℕ
limit cfg = pos_part (office_service cfg).cfg.max_upload_bytes

-- What is stored of a body: all of it, but nothing under the greatest limit that an int64 can be.
abbrev pub kept : Config → String → String
kept cfg body = if ltb (limit cfg) (2 ^ 63 - 1) then body else ""

-- What the code reads of a body.
abbrev content_of : Config → String → String
content_of cfg body = read_content (office_service cfg).cfg.max_upload_bytes body

limit-kept :
    (n : ℤ) (body : String)
    → le_zero n ≡ false
    → read_content n body ≡ (if ltb (pos_part n) (2 ^ 63 - 1) then body else "")
unfolding read_content
limit-kept (pos n) body h = ground arith
limit-kept (negsuc n) body h = absurd (ground arith)

limit_positive : (cfg : Config) → le_zero (office_service cfg).cfg.max_upload_bytes ≡ false
unfolding office_service new_service
limit_positive cfg = ground arith

content_of-kept : (cfg : Config) (body : String) → content_of cfg body ≡ kept cfg body
content_of-kept cfg body =
    limit-kept (office_service cfg).cfg.max_upload_bytes body (limit_positive cfg)

module _ (cfg : Config) (u : User) (id body : String) (w : World) where
  -- The moment before the version is stored.
  abbrev pub ready : World
  ready = called (can_edit u.id id (called w)).1

  module _ {doc : Document} {n : ℕ} {w' : World}
      (h : save (office_service cfg) u id body w ≡ (ok (doc, n), w')) where
    save-live : find_where (is_live id) w.db.documents ≡ some doc
    unfolding save find_by_id office_service new_service read_limited
    save-live = ground arith

    save-supported : is_casual_supported doc.file_ext ≡ true
    unfolding save find_by_id office_service new_service read_limited
    save-supported = ground arith

    save-edits : allows_edit (access w.db u.id id) ≡ true
    unfolding save find_by_id office_service new_service read_limited
    save-edits = ground (arith, can_edit-cases u.id id (called w))

    save-length : (len (content_of cfg body) ≤ limit cfg) × (n ≡ len (content_of cfg body))
    unfolding save find_by_id read_limited
    save-length = (ground arith, ground arith)

    save-stores :
        (x : Error)
        → (store_version (key_for doc) doc (content_of cfg body) (some u.id) ready).0 ≢ err x
    unfolding save find_by_id office_service new_service read_limited
    save-stores x e = ground arith

    save-last : w' ≡ (store_version (key_for doc) doc (content_of cfg body) (some u.id) ready).1
    unfolding save find_by_id office_service new_service read_limited
    save-last = ground arith

    save-storing :
        (x : String) × (store_version (key_for doc) doc (content_of cfg body) (some u.id) ready
          ≡ (ok x, w'))
    save-storing =
        let store = store_version (key_for doc) doc (content_of cfg body) (some u.id) in
        elim (Result-cases (store ready).0) [
          | inl (x, e) ↦ (x, rw save-last (returned store ready e))
          | inr (x, e) ↦ absurd (save-stores x e)
        ]

    save-HoldsContent :
        HoldsContent id
          (stored_row (key_for doc) doc (content_of cfg body) (some u.id) ready)
          (content_of cfg body)
          w'
    save-HoldsContent =
        let (x, stored) = save-storing in
        let same = live_id id doc w.db save-live in
        let at_ready : find_where (is_live id) ready.db.documents ≡ some doc =
          rw (can_edit-ReadsOnly u.id id (called w)) save-live in
        let live' =
          subst (λ y. find_where (is_live y) ready.db.documents ≡ some doc) (sym same) at_ready in
        subst
          (λ y.
            HoldsContent y (stored_row (key_for doc) doc (content_of cfg body) (some u.id) ready)
              (content_of cfg body) w')
          same
          (store_version-HoldsContent (key_for doc) doc (content_of cfg body) (some u.id) ready
            live' stored)

  -- A save that succeeds is of a live document of a supported kind, which the user may edit by the
  -- tables of that moment. What it keeps of the body - all of it, but nothing under the greatest limit
  -- that an int64 can be - is within the limit; the save answers with its length, and it is then the
  -- content of the object that the document names.
  pub save_ok :
      {doc : Document} {n : ℕ} {w' : World}
      → save (office_service cfg) u id body w ≡ (ok (doc, n), w')
      → (find_where (is_live id) w.db.documents ≡ some doc)
        × (is_casual_supported doc.file_ext ≡ true)
        × (allows_edit (access w.db u.id id) ≡ true)
        × (len (kept cfg body) ≤ limit cfg)
        × (n ≡ len (kept cfg body))
        × HoldsContent id
            (stored_row (key_for doc) doc (kept cfg body) (some u.id) ready)
            (kept cfg body)
            w'
  save_ok h = rw (← content_of-kept cfg body) (
      let (short, n) = save-length h in
      (save-live h, save-supported h, save-edits h, short, n, save-HoldsContent h))

  store_cases :
      (doc : Document) (r : Result String × World)
      → store_version (key_for doc) doc (content_of cfg body) (some u.id) ready ≡ r
      → ((x : String) × (r.0 ≡ ok x)) ⊎ (r.1.db ≡ ready.db)
  store_cases doc (ok x, v) h = inl (x, refl)
  store_cases doc (err e, v) h =
      inr (store_version_error (key_for doc) doc (content_of cfg body) (some u.id) ready h)

  module _ {e : Error} {w' : World} (h : save (office_service cfg) u id body w ≡ (err e, w')) where
    save_error-missing : find_where (is_live id) w.db.documents ≡ none → w'.db ≡ w.db
    unfolding save find_by_id
    save_error-missing missing = ground arith

    save_error-stored :
        (doc : Document)
        → find_where (is_live id) w.db.documents ≡ some doc
        → (w'.db ≡ w.db)
          ⊎ (w' ≡ (store_version (key_for doc) doc (content_of cfg body) (some u.id) ready).1)
    unfolding save find_by_id office_service new_service read_limited
    save_error-stored doc live = ground (arith, can_edit-ReadsOnly u.id id (called w))

    save_error-failed :
        (doc : Document)
        → find_where (is_live id) w.db.documents ≡ some doc
        → (x : String)
        → (store_version (key_for doc) doc (content_of cfg body) (some u.id) ready).0 ≡ ok x
        → w'.db ≡ w.db
    unfolding save find_by_id office_service new_service read_limited
    save_error-failed doc live x stored = ground (arith, can_edit-ReadsOnly u.id id (called w))

  -- A save that fails, at whatever step, changes no table.
  pub save_error :
      {e : Error} {w' : World} → save (office_service cfg) u id body w ≡ (err e, w') → w'.db ≡ w.db
  save_error h = elim (Option-cases (find_where (is_live id) w.db.documents)) [
    | inl missing ↦ save_error-missing h missing
    | inr (doc, live) ↦
        elim (store_cases doc
          (store_version (key_for doc) doc (content_of cfg body) (some u.id) ready) refl) [
            | inl (x, stored) ↦ save_error-failed h doc live x stored
            | inr same ↦ elim (save_error-stored h doc live) [
              | inl done ↦ done
              | inr last ↦ rw (last, same, can_edit-ReadsOnly u.id id (called w)) refl
            ]
          ]
  ]

module _ (cfg : Config) (token id : String) (w : World) {doc : Document} {reader version : String}
    {w' : World}
    (h : wopi_content (office_service cfg) token id w ≡ (ok (doc, reader, version), w')) where
  wopi_content-info :
      (info : Info) × (v : World) × (wopi_info (office_service cfg) token id w ≡ (ok info, v))
      × (info.document ≡ doc)
      × (reader ≡ doc.storage_key)
      × (w'.objects ≡ v.objects)
  unfolding wopi_content get_object
  wopi_content-info = elim (Result-cases (wopi_info (office_service cfg) token id w).0) [
    | inl (info, e) ↦ (
      info,
      (wopi_info (office_service cfg) token id w).1,
      returned (wopi_info (office_service cfg) token id) w e,
      ground arith,
      ground arith,
      ground arith,
    )
    | inr (x, e) ↦ absurd (ground arith)
  ]

  wopi_content-live :
      (find_where (is_live id) w.db.documents ≡ some doc)
      × (reader ≡ doc.storage_key)
      × (w'.objects ≡ w.objects)
  wopi_content-live =
      let (info, v, e, same, key, objects) = wopi_content-info in
      let (c, _, live, _, _) = wopi_info_ok cfg token id w e in
      let reads = wopi_info-reads cfg token id w e in
      (rw (← same) live, key, rw (objects, reads) refl)

read_body :
    (key body : String) (w : World)
    → body_of (object_at key w) ≡ some body
    → (read_all key w).0 ≡ (if w.env.fault w.calls then err internal else ok body)
unfolding read_all
read_body key body w h = ground arith

-- After a save that succeeds, an editor that is given the document reads the body that was saved -
-- all of it, but nothing under the greatest limit that an int64 can be -, unless the read itself fails, and is told of the row that the save left.
pub save-wopi_content :
    (cfg : Config) (u : User) (id body token : String) (w : World) {doc d : Document} {n : ℕ}
    {reader version : String} {w' w'' : World}
    → save (office_service cfg) u id body w ≡ (ok (doc, n), w')
    → wopi_content (office_service cfg) token id w' ≡ (ok (d, reader, version), w'')
    → (d ≡ stored_row (key_for doc) doc (kept cfg body) (some u.id) (ready cfg u id body w))
      × ((read_all reader w'').0
          ≡ (if w''.env.fault w''.calls then err internal else ok (kept cfg body)))
save-wopi_content cfg u id body token w {doc} {d} {reader = reader} {w' = w'} {w'' = w''} saved
      read =
    let (_, _, _, _, _, (live, holds)) = save_ok cfg u id body w saved in
    let (found, key, objects) = wopi_content-live cfg token id w' read in
    let row = stored_row (key_for doc) doc (kept cfg body) (some u.id) (ready cfg u id body w) in
    let same : d ≡ row = ground arith in
    let at_key : reader ≡ row.storage_key = rw (key, same) refl in
    (same, rw at_key (read_body row.storage_key (kept cfg body) w'' (rw objects holds)))
