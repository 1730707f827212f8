-- ===== src/Share/Saving.antt =====
-- Saving through a link, and reading through it again.
use online_colab_document.Base.{
  String, some, none, true, ◌≡◌, ◌≢◌, sym, subst, refl, ◌∙◌, arith, ==_iff, find_where, ap, inl,
  inr,
}
use online_colab_document.Model.Document.{Document}
use online_colab_document.Model.Share.{Link, AccessResponse, permission_editor}
use online_colab_document.World.Laws.{Result-cases, returned}
use online_colab_document.World.{Error, err, World, Db, ok}
use online_colab_document.Permission.Repository.{is_live}
use online_colab_document.Storage.{get_object, read_all}
use online_colab_document.Storage.Laws.{object_at}
use online_colab_document.Document.Repository.{find_by_id}
use online_colab_document.Document.Service.{store_version, key_for}
use online_colab_document.Document.Saving.{
  body_of, HoldsContent, stored_row, store_version-HoldsContent, live_id,
}
use online_colab_document.Document.Store.{store_version_ok, store_version-env}
use online_colab_document.Share.Service.{
  valid_link, access, save_markdown, is_markdown_document, read_document_content,
}
use online_colab_document.Share.Access.{link_of, valid_link_ok, valid_link-ReadsOnly}

module _ (token content : String) (w : World) {r : AccessResponse} {w' : World}
    (h : save_markdown token content w ≡ (ok r, w')) where
  abbrev opened : World
  opened = (valid_link token w).1

  save_opened : (l : Link) × (doc : Document) × ((valid_link token w).0 ≡ ok (l, doc))
  unfolding save_markdown
  save_opened = elim (Result-cases (valid_link token w).0) [
    | inl ((l, doc), e) ↦ (l, doc, e)
    | inr (e, failed) ↦ absurd (ground arith)
  ]

  module _ (l : Link) (doc : Document) (e : (valid_link token w).0 ≡ ok (l, doc)) where
    save_editor : (l.permission ≡ permission_editor) × (is_markdown_document doc.file_ext ≡ true)
    unfolding save_markdown
    save_editor = ground (arith, ==_iff l.permission permission_editor)

    save_stores : (x : Error) → (store_version (key_for doc) doc content none opened).0 ≢ err x
    unfolding save_markdown
    save_stores x failed = ground arith

    module _ (x : String) (f : (store_version (key_for doc) doc content none opened).0 ≡ ok x) where
      save_db : w'.db ≡ (store_version (key_for doc) doc content none opened).1.db
      unfolding save_markdown find_by_id
      save_db = ground arith

      save_objects : w'.objects ≡ (store_version (key_for doc) doc content none opened).1.objects
      unfolding save_markdown find_by_id
      save_objects = ground arith

      save_env : w'.env ≡ (store_version (key_for doc) doc content none opened).1.env
      unfolding save_markdown find_by_id
      save_env = ground arith

    save_stored :
        (x : String) × ((store_version (key_for doc) doc content none opened).0 ≡ ok x)
        × (w'.db ≡ (store_version (key_for doc) doc content none opened).1.db)
        × (w'.objects ≡ (store_version (key_for doc) doc content none opened).1.objects)
        × (w'.env ≡ (store_version (key_for doc) doc content none opened).1.env)
    save_stored = elim (Result-cases (store_version (key_for doc) doc content none opened).0) [
      | inl (x, f) ↦ (x, f, save_db x f, save_objects x f, save_env x f)
      | inr (x, failed) ↦ absurd (save_stores x failed)
    ]

    save_holds :
        (row : Document) × (row.file_ext ≡ doc.file_ext) × HoldsContent l.document_id row content w'
    save_holds =
        let (_, _, _, _, live) = valid_link_ok token w (returned (valid_link token) w e) in
        let (x, f, db, objects, _) = save_stored in
        let same = live_id l.document_id doc w.db live in
        let at_opened : find_where (is_live doc.id) opened.db.documents ≡ some doc =
          subst (λ y. find_where (is_live y) opened.db.documents ≡ some doc) (sym same)
            (rw (valid_link-ReadsOnly token w) live) in
        let (a, b) =
          store_version-HoldsContent (key_for doc) doc content none opened at_opened
            (returned (store_version (key_for doc) doc content none) opened f) in
        (
          stored_row (key_for doc) doc content none opened,
          refl,
          (
            rw db (
                subst
                  (λ y.
                    find_where (is_live y)
                      (store_version (key_for doc) doc content none opened).1.db.documents
                    ≡ some (stored_row (key_for doc) doc content none opened))
                  same a),
            rw objects b,
          ),
        )

    save_links : link_of w' token ≡ some l
    save_links =
        let (_, found, _, _, _) = valid_link_ok token w (returned (valid_link token) w e) in
        let (x, f, db, _, env) = save_stored in
        let done = returned (store_version (key_for doc) doc content none) opened f in
        let (_, rows, _, _, _) = store_version_ok (key_for doc) doc content none opened done in
        let same_env : w'.env ≡ w.env =
          env
          ∙ store_version-env (key_for doc) doc content none opened done
          ∙ ap (λ (x : World). x.env) (valid_link-ReadsOnly token w) in
        let links : w'.db.links ≡ w.db.links =
          ap (λ (x : Db). x.links) (db ∙ rows)
          ∙ ap (λ (x : World). x.db.links) (valid_link-ReadsOnly token w) in
        rw (same_env, links) found

read_parts :
    (token : String) (w : World) {r : AccessResponse} {w' : World} (l : Link) (doc : Document)
    → access token w ≡ (ok r, w')
    → (valid_link token w).0 ≡ ok (l, doc)
    → is_markdown_document doc.file_ext ≡ true
    → body_of (object_at doc.storage_key w) ≡ some r.content
unfolding access read_document_content get_object read_all
read_parts token w l doc h e markdown = ground (arith, valid_link-ReadsOnly token w)

access_opened :
    (token : String) (w : World) {r : AccessResponse} {w' : World}
    → access token w ≡ (ok r, w')
    → (l : Link) × (doc : Document) × ((valid_link token w).0 ≡ ok (l, doc))
unfolding access
access_opened token w h = elim (Result-cases (valid_link token w).0) [
  | inl ((l, doc), e) ↦ (l, doc, e)
  | inr (e, failed) ↦ absurd (ground arith)
]

-- A save through a link that succeeds was made with one that lets edit, and a read with the same
-- token that succeeds in the world that the save leaves gives the saved content.
pub save_markdown-access :
    (token content : String) (w : World) {r q : AccessResponse} {w' w'' : World}
    → save_markdown token content w ≡ (ok r, w')
    → access token w' ≡ (ok q, w'')
    → ((l : Link) × (link_of w token ≡ some l) × (l.permission ≡ permission_editor))
      × (q.content ≡ content)
save_markdown-access token content w {r = r} {q = q} {w' = w'} saved read =
    let (l, doc, e) = save_opened token content w saved in
    let (editor, markdown) = save_editor token content w saved l doc e in
    let (row, ext, (live, held)) = save_holds token content w saved l doc e in
    let (k, again, f) = access_opened token w' read in
    let (_, named, _, _, there) = valid_link_ok token w' (returned (valid_link token) w' f) in
    let (_, found, _, _, _) = valid_link_ok token w (returned (valid_link token) w e) in
    let same_link : k ≡ l = ground (arith, save_links token content w saved l doc e) in
    let there' =
      subst (λ (x : Link). find_where (is_live x.document_id) w'.db.documents ≡ some again)
        same_link there in
    let same_row : again ≡ row = ground arith in
    let shown = read_parts token w' k again read f (
      subst (λ (x : Document). is_markdown_document x.file_ext ≡ true) (sym same_row)
        (rw ext markdown)) in
    let held' =
      subst (λ (x : Document). body_of (object_at x.storage_key w') ≡ some content) (sym same_row)
        held in
    ((l, found, editor), ground arith)
