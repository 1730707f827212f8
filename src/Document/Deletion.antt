-- ===== src/Document/Deletion.antt =====
-- What deleting a document does to the roles at it and at the others.
use online_colab_document.Base.{
  ℕ, ℤ, String, List, [], ◌∷◌, some, none, Bool, false, ◌&&◌, ◌==◌, ◌≡◌, refl, arith, ==_iff,
  ==_refl, find_where, any_where, update_where, Option-cases, inl, inr,
}
use online_colab_document.Model.Document.{Document}
use online_colab_document.Model.Permission.{role_owner, role_none}
use online_colab_document.World.{World, Db, ok, called}
use online_colab_document.Permission.Repository.{is_live}
use online_colab_document.Permission.Service.{can_delete}
use online_colab_document.Permission.Access.{access, can_delete-cases, can_delete-ReadsOnly}
use online_colab_document.Document.Accessible.{has_id, UniqueDocuments}
use online_colab_document.Document.Repository.{soft_deleted, find_by_id, soft_delete_for_owner}
use online_colab_document.Document.Service.{new_service}
use online_colab_document.Document.Service
use online_colab_document.Wiring.{document_service}

-- The rows that the deletion of an owner's document changes.
abbrev pub is_owned : String → String → Document → Bool
is_owned id owner d = is_live id d && d.owner_id == owner

no_live_after :
    (id owner : String) (t : ℕ) (ds : List Document)
    → any_where (has_id id) ds ≡ false
    → find_where (is_live id) (update_where (is_owned id owner) (soft_deleted t) ds) ≡ none
unfolding any_where find_where update_where
no_live_after id owner t [] h = refl
no_live_after id owner t (d ∷ ds) h = ground (arith, no_live_after id owner t ds)

find-deleted :
    (id owner : String) (t : ℕ) (ds : List Document) {doc : Document}
    → UniqueDocuments ds
    → find_where (is_live id) ds ≡ some doc
    → doc.owner_id ≡ owner
    → find_where (is_live id) (update_where (is_owned id owner) (soft_deleted t) ds) ≡ none
unfolding find_where update_where
find-deleted id owner t [] u h k = cc
find-deleted id owner t (d ∷ ds) {doc = doc} (u, us) h k = ground (
  arith,
  find-deleted id owner t ds {doc = doc} us,
  no_live_after id owner t ds,
  ==_iff d.id id,
  ==_refl owner,
)

find-deleted_elsewhere :
    (id e owner : String) (t : ℕ) (ds : List Document)
    → (id == e) ≡ false
    → find_where (is_live e) (update_where (is_owned id owner) (soft_deleted t) ds)
      ≡ find_where (is_live e) ds
unfolding find_where update_where
find-deleted_elsewhere id e owner t [] h = refl
find-deleted_elsewhere id e owner t (d ∷ ds) h =
    ground
      (arith, find-deleted_elsewhere id e owner t ds h, ==_iff d.id id, ==_iff d.id e, ==_iff id e)

module _ (n : ℤ) (u id : String) (w : World) {w' : World}
    (h : Service.delete (document_service n) u id w ≡ (ok tt, w')) where
  delete_live : (doc : Document) × (find_where (is_live id) w.db.documents ≡ some doc)
  unfolding Service.delete document_service new_service find_by_id
  delete_live = elim (Option-cases (find_where (is_live id) w.db.documents)) [
    | inl e ↦ absurd (ground (arith, can_delete-ReadsOnly u id w))
    | inr found ↦ found
  ]

  delete_db :
      (doc : Document)
      → find_where (is_live id) w.db.documents ≡ some doc
      → (t : ℕ) × (w'.db ≡ record w.db {
        documents = update_where (is_owned id doc.owner_id) (soft_deleted t) w.db.documents;
      })
  unfolding Service.delete document_service new_service find_by_id soft_delete_for_owner
  delete_db doc live =
      let read = (called (can_delete u id w).1) in
      (read.env.time read.calls, ground (arith, can_delete-ReadsOnly u id w))

  delete_document_owner : access w.db u id ≡ role_owner
  unfolding Service.delete document_service new_service
  delete_document_owner =
      ground (arith, can_delete-cases u id w, ==_iff (access w.db u id) role_owner)

access_missing :
    (db : Db) (v id : String)
    → find_where (is_live id) db.documents ≡ none
    → access db v id ≡ role_none
unfolding access
access_missing db v id h = rw h (ground arith)

-- Where no two documents have the same id, a deletion that succeeds was made by the document's
-- owner. Nobody has a role at the document afterwards, and every role at another document is as
-- it was.
pub delete-hides :
    (n : ℤ) (u id v e : String) (w : World) {w' : World}
    → UniqueDocuments w.db.documents
    → Service.delete (document_service n) u id w ≡ (ok tt, w')
    → (access w.db u id ≡ role_owner)
      × (access w'.db v id ≡ role_none)
      × ((id == e) ≡ false → access w'.db v e ≡ access w.db v e)
unfolding access
delete-hides n u id v e w {w'} unique h =
    let (doc, live) = delete_live n u id w h in
    let (t, db) = delete_db n u id w h doc live in
    (
      delete_document_owner n u id w h,
      access_missing w'.db v id
          (rw db (find-deleted id doc.owner_id t w.db.documents unique live refl)),
      λ k. rw (db, find-deleted_elsewhere id e doc.owner_id t w.db.documents k) refl,
    )
