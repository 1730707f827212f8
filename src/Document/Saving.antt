-- ===== src/Document/Saving.antt =====
-- What a successful save and a successful read of a Markdown document say of the stored object.
use online_colab_document.Base.{
  ℤ, String, Option, some, none, ◌≡◌, ◌≢◌, sym, subst, refl, arith, ==_iff, Option-cases, inl, inr,
  find_where, find_where-true, find_where-update_where,
}
use online_colab_document.Model.Document.{Document}
use online_colab_document.World.Laws.{Result-cases, returned}
use online_colab_document.World.{World, Db, ok, called, Object}
use online_colab_document.Permission.Repository.{is_live}
use online_colab_document.Permission.Service.{can_edit}
use online_colab_document.Permission.Access.{can_edit-ReadsOnly, can_view-ReadsOnly}
use online_colab_document.Storage.{get_object, read_all}
use online_colab_document.Storage.Laws.{object_at}
use online_colab_document.Document.Repository.{find_by_id, with_version}
use online_colab_document.Document.Service.{
  MarkdownDocument, new_service, save_markdown, get_markdown, store_version, key_for,
}
use online_colab_document.Document.Versions.{numbered}
use online_colab_document.Document.Store.{stored, stored_at, store_version_ok}
use online_colab_document.Wiring.{document_service}

abbrev pub body_of : Option Object → Option String
body_of none = none
body_of (some o) = some o.body

-- The object that a live document names holds this content.
abbrev pub HoldsContent : String → Document → String → World → Type 0
HoldsContent id doc content w =
    (find_where (is_live id) w.db.documents ≡ some doc)
    × (body_of (object_at doc.storage_key w) ≡ some content)

module _ (n : ℤ) (v id : String) (w : World) {m : MarkdownDocument} {w' : World}
    (h : get_markdown (document_service n) v id w ≡ (ok m, w')) where
  get_markdown-HoldsContent : HoldsContent id m.document m.content w
  unfolding get_markdown document_service new_service find_by_id get_object read_all
  get_markdown-HoldsContent =
      (ground (arith, can_view-ReadsOnly v id w), ground (arith, can_view-ReadsOnly v id w))

module _ (key_of : String → String) (doc : Document) (content : String) (by : Option String)
    (w : World) where
  -- The document's row after its content has been stored.
  abbrev placed : Document → Document
  placed =
      with_version (numbered w.db doc.id (stored key_of doc content by w))
        (stored_at key_of doc content by w)

  abbrev pub stored_row : Document
  stored_row = placed doc

  pub store_version-HoldsContent :
      {x : String} {w' : World}
      → find_where (is_live doc.id) w.db.documents ≡ some doc
      → store_version key_of doc content by w ≡ (ok x, w')
      → HoldsContent doc.id stored_row content w'
  store_version-HoldsContent live h =
      let (_, same, _, _, kept) = store_version_ok key_of doc content by w h in
      let found = find_where-true (is_live doc.id) w.db.documents live in
      (
        rw same (
            rw
              (
                find_where-update_where (is_live doc.id) (is_live doc.id) placed w.db.documents
                    (λ d. refl),
                live,
                found,
              )
              refl),
        rw kept refl,
      )

pub live_id :
    (id : String) (doc : Document) (db : Db)
    → find_where (is_live id) db.documents ≡ some doc
    → doc.id ≡ id
live_id id doc db live =
    ground (arith, find_where-true (is_live id) db.documents live, ==_iff doc.id id)

save_final :
    (doc : Document) (id content : String) (last : Document) (w' v : World) (row : Document)
    → doc.id ≡ id
    → w'.db ≡ v.db
    → w'.objects ≡ v.objects
    → find_where (is_live id) w'.db.documents ≡ some last
    → HoldsContent doc.id row content v
    → HoldsContent id last content w'
save_final doc id content last w' v row same db objects final (live, kept) =
    let live' = subst (λ y. find_where (is_live y) v.db.documents ≡ some row) same live in
    let final' = subst (λ (y : Db). find_where (is_live id) y.documents ≡ some last) db final in
    let e : row ≡ last = cc in (final, rw (← e, objects) kept)

module _ (n : ℤ) (u id content : String) (w : World) {m : MarkdownDocument} {w' : World}
    (h : save_markdown (document_service n) u id content w ≡ (ok m, w')) where
  -- The moment before the version is stored.
  abbrev ready : World
  ready = called (can_edit u id w).1

  save_markdown-parts :
      (doc : Document)
      → find_where (is_live id) w.db.documents ≡ some doc
      → (w'.db ≡ (store_version (key_for doc) doc content (some u) ready).1.db)
        × (w'.objects ≡ (store_version (key_for doc) doc content (some u) ready).1.objects)
        × (m.content ≡ content)
        × (find_where (is_live id) w'.db.documents ≡ some m.document)
  unfolding save_markdown document_service new_service find_by_id
  save_markdown-parts doc live = ground (arith, can_edit-ReadsOnly u id w)

  save_markdown-live : find_where (is_live id) w.db.documents ≢ none
  unfolding save_markdown document_service new_service find_by_id
  save_markdown-live e = ground (arith, can_edit-ReadsOnly u id w)

  save_markdown-stored :
      (doc : Document)
      → find_where (is_live id) w.db.documents ≡ some doc
      → (x : String) × ((store_version (key_for doc) doc content (some u) ready).0 ≡ ok x)
  unfolding save_markdown document_service new_service find_by_id
  save_markdown-stored doc live =
      elim (Result-cases (store_version (key_for doc) doc content (some u) ready).0) [
        | inl found ↦ found
        | inr (e, failed) ↦ absurd (ground (arith, can_edit-ReadsOnly u id w))
      ]

  -- The saved content is at the object that the document names.
  pub save_markdown-HoldsContent : HoldsContent id m.document content w'
  save_markdown-HoldsContent = elim (Option-cases (find_where (is_live id) w.db.documents)) [
    | inl missing ↦ absurd (save_markdown-live missing)
    | inr (doc, live) ↦
        let (x, stored) = save_markdown-stored doc live in
        let (db, objects, _, final) = save_markdown-parts doc live in
        let same = live_id id doc w.db live in
        let at_ready : find_where (is_live id) ready.db.documents ≡ some doc =
          rw (can_edit-ReadsOnly u id w) live in
        let live' =
          subst (λ y. find_where (is_live y) ready.db.documents ≡ some doc) (sym same) at_ready in
        let holds =
          store_version-HoldsContent (key_for doc) doc content (some u) ready live'
            (returned (store_version (key_for doc) doc content (some u)) ready stored) in
        save_final doc id content m.document w'
          (store_version (key_for doc) doc content (some u) ready).1
          (stored_row (key_for doc) doc content (some u) ready) same db objects final holds
  ]

-- A read that succeeds in the world that a successful save leaves, whoever reads, gives the
-- saved content, and the document that the save returned.
pub save-get :
    (n : ℤ) (u v id content : String) (w : World) {m r : MarkdownDocument} {w' w'' : World}
    → save_markdown (document_service n) u id content w ≡ (ok m, w')
    → get_markdown (document_service n) v id w' ≡ (ok r, w'')
    → (r.content ≡ content) × (r.document ≡ m.document)
save-get n u v id content w {w'} saved read =
    let (a, b) = save_markdown-HoldsContent n u id content w saved in
    let (c, d) = get_markdown-HoldsContent n v id w' read in ground (arith)
