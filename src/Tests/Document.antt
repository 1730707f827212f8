-- ===== src/Tests/Document.antt =====
-- Documents at the fixture.
use online_colab_document.Base.{
  pos, nat_eq, String, [], ◌∷◌, none, true, false, ◌==◌, ◌≡◌, refl, find_where, any_where,
  update_where, delete_where, max_where, select_where, order_by,
}
use online_colab_document.Model.Document.{Document, Version}
use online_colab_document.World.{Result, ok, err, World, internal}
use online_colab_document.World.Laws.{returned}
use online_colab_document.Uuid.{new_uuid, uuid_text, stamp}
use online_colab_document.Storage.{put_object, get_object, read_all, delete_object, ensure_bucket}
use online_colab_document.Storage.Laws.{put_object_stuck}
use online_colab_document.Permission.Repository.{document_owner_id, find_for_user}
use online_colab_document.Permission.Service.{role, can_view, can_edit, can_delete, can_manage}
use online_colab_document.Permission.Access.{access, allows_view}
use online_colab_document.Document.Filename.{storage_key, is_text_document}
use online_colab_document.Document.Repository.{
  add_document_version, has_number, next_version_no, find_by_id, list_accessible,
  soft_delete_for_owner,
}
use online_colab_document.Document.Service.{
  new_service, save_markdown, get_markdown, store_version, key_for, or_delete_object,
  restore_version, MarkdownDocument,
}
use online_colab_document.Document.Service
use online_colab_document.Document.Versions.{add_document_version-succeeds, versioned}
use online_colab_document.Document.Store.{store_version_error}
use online_colab_document.Document.Authority.{Refused, edits-Refused, delete-Refused}
use online_colab_document.Document.Saving.{save-get}
use online_colab_document.Document.Deletion.{delete-hides}
use online_colab_document.Document.Accessible.{has_id, list_accessible-access}
use online_colab_document.Wiring.{document_service}
use online_colab_document.Tests.Fixture.{calm, start, tables, notes, first_version}

-- What the operations of the package compute with.
runs : Unit {0}
unfolding document_service new_service save_markdown get_markdown Service.delete store_version
    or_delete_object list_accessible add_document_version find_by_id soft_delete_for_owner can_view
    can_edit can_delete can_manage role document_owner_id find_for_user access put_object get_object
    read_all delete_object ensure_bucket new_uuid storage_key is_text_document find_where any_where
    update_where delete_where max_where select_where order_by ◌==◌ uuid_text stamp
runs = tt

abbrev service : Service.Config
service = document_service (pos 0)

abbrev new_key : String
new_key = "documents/notes/versions/02030405-0607-4809-8a0b-0c0d0e0f1011/notes.md"

stored_under :
    any_where
      (λ o. o.key == new_key)
      (save_markdown service "alice" "notes" "new text" start).1.objects
    ≡ true
unfolding runs
stored_under = refl

edits-Refused_example :
    Refused start (save_markdown service "bob" "notes" "x" start)
    × Refused start (restore_version service "bob" "notes" "v1" start)
unfolding runs
edits-Refused_example = edits-Refused (pos 0) "bob" "notes" "x" "v1" start refl

delete-Refused_example : Refused start (Service.delete service "bob" "notes" start)
unfolding runs
delete-Refused_example = delete-Refused (pos 0) "bob" "notes" start refl

abbrev saved : World
saved = (save_markdown service "alice" "notes" "new text" start).1

abbrev second : Version
second = record first_version { id = "v2"; version_no = 0; storage_key = "k2" }

abbrev doc_of : Result MarkdownDocument → Document
doc_of (ok m) = m.document
doc_of (err e) = notes

abbrev text_of : Result MarkdownDocument → String
text_of (ok m) = m.content
text_of (err e) = ""

save-get_example :
    (text_of (get_markdown service "bob" "notes" saved).0 ≡ "new text")
    × (doc_of (get_markdown service "bob" "notes" saved).0
        ≡ doc_of (save_markdown service "alice" "notes" "new text" start).0)
unfolding runs
save-get_example =
    save-get (pos 0) "alice" "bob" "notes" "new text" start
      (returned (save_markdown service "alice" "notes" "new text") start refl)
      (returned (get_markdown service "bob" "notes") saved refl)

abbrev deleted : World
deleted = (Service.delete service "alice" "notes" start).1

delete-hides_example :
    (access start.db "alice" "notes" ≡ "owner")
    × (access deleted.db "alice" "notes" ≡ "none")
    × (("notes" == "other") ≡ false
        → access deleted.db "alice" "other" ≡ access start.db "alice" "other")
unfolding runs
delete-hides_example =
    delete-hides (pos 0) "alice" "notes" "alice" "other" start (refl, tt)
      (returned (Service.delete service "alice" "notes") start refl)

list_accessible-access_example :
    any_where (has_id "notes") (notes ∷ []) ≡ allows_view (access start.db "bob" "notes")
unfolding runs
list_accessible-access_example =
    list_accessible-access "bob" "notes" start (refl, tt) (refl, tt) (λ e. cc) (λ e. cc)
      (returned (list_accessible "bob") start refl)

add_document_version-succeeds_example :
    (any_where (has_number "notes" (next_version_no "notes" tables)) tables.versions ≡ false)
    × ((add_document_version "notes" second 20 start).0 ≡ ok tt)
    × ((add_document_version "notes" second 20 start).1.db ≡ versioned tables "notes" second 20)
unfolding runs
add_document_version-succeeds_example =
    add_document_version-succeeds "notes" second 20 start (λ n. refl) refl refl refl

abbrev gone : Document
gone = record notes { id = "gone" }

store_version_error_example : (store_version (key_for gone) gone "text" none start).1.db ≡ tables
unfolding runs
store_version_error_example =
    store_version_error (key_for gone) gone "text" none start {e = internal} refl

-- The bucket cannot be reached at the first call.
abbrev cut_off : World
cut_off = record start { env = record calm { fault = λ n. nat_eq n 0 } }

put_object_stuck_example :
    put_object "b" "2" "t" (put_object "a" "1" "t" cut_off).1
    ≡ (err internal, (put_object "a" "1" "t" cut_off).1)
put_object_stuck_example = put_object_stuck "a" "1" "t" "b" "2" "t" cut_off refl refl
