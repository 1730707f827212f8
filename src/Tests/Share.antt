-- ===== src/Tests/Share.antt =====
-- Share links at the fixture.
use online_colab_document.Base.{
  String, [], ◌∷◌, some, none, true, false, ◌==◌, ◌≡◌, ◌≢◌, refl, ==_iff, find_where, any_where,
  update_where, delete_where, max_where,
}
use online_colab_document.Model.Share.{Link, permission_editor, CreateResponse, AccessResponse}
use online_colab_document.World.{Result, ok, err, Error, World}
use online_colab_document.World.Laws.{returned}
use online_colab_document.Uuid.{new_uuid, new_token, uuid_text, token_text, stamp}
use online_colab_document.Storage.{put_object, get_object, read_all, delete_object, ensure_bucket}
use online_colab_document.Permission.Repository.{is_live, document_owner_id, find_for_user}
use online_colab_document.Permission.Service.{role, can_share, can_manage}
use online_colab_document.Permission.Access as Roles
use online_colab_document.Document.Filename.{storage_key}
use online_colab_document.Document.Repository.{add_document_version, find_by_id}
use online_colab_document.Document.Service.{store_version, or_delete_object}
use online_colab_document.Share.Repository.{find_by_token_hash, create}
use online_colab_document.Share.Repository as Links
use online_colab_document.Share.Service.{
  Config, CreateInput, new_service, create_link, valid_link, access, save_markdown,
  is_markdown_document, read_document_content,
}
use online_colab_document.Share.Service
use online_colab_document.Share.Access.{link_of, unexpired, valid_link_ok}
use online_colab_document.Share.Links.{Answers, create_link-opens}
use online_colab_document.Share.Disabling.{named, disable-refused}
use online_colab_document.Share.Saving.{save_markdown-access}
use online_colab_document.Wiring.{share_service}
use online_colab_document.Tests.Fixture.{start, notes, edit_link}

-- What the operations of the package compute with.
runs : Unit {0}
unfolding share_service new_service create_link valid_link access save_markdown is_markdown_document
    read_document_content Service.disable Service.hash_token Links.disable Links.find_by_id
    find_by_token_hash create can_share can_manage role document_owner_id find_for_user Roles.access
    store_version or_delete_object add_document_version find_by_id storage_key put_object get_object
    read_all delete_object ensure_bucket new_uuid new_token uuid_text token_text stamp find_where
    any_where update_where delete_where max_where ◌==◌
runs = tt

abbrev service : Config
service = share_service "https://docs.example.org/"

abbrev for_reading : CreateInput
for_reading = record {
  actor_id = "alice";
  document_id = "notes";
  permission = "viewer";
  expires_at = none;
}

-- The fixture's link, for reading only.
abbrev view_link : Link
view_link = record edit_link { permission = "viewer" }

abbrev read_only : World
read_only = record start { db = record start.db { links = view_link ∷ [] } }

abbrev secret : String
secret = "secret"

viewer_is_no_editor : view_link.permission ≢ permission_editor
unfolding ◌==◌
viewer_is_no_editor e = let k : ("viewer" == "editor") ≡ true = (==_iff "viewer" "editor").1 e in cc

abbrev made : World
made = (create_link service for_reading start).1

abbrev token_of : Result CreateResponse → String
token_of (ok r) = r.token
token_of (err e) = ""

abbrev content_of : Result AccessResponse → String
content_of (ok r) = r.content
content_of (err e) = ""

valid_link_ok_example :
    (secret ≢ "")
    × (link_of start "secret" ≡ some edit_link)
    × (edit_link.disabled ≡ false)
    × (unexpired edit_link.expires_at 1001 ≡ true)
    × (find_where (is_live "notes") start.db.documents ≡ some notes)
unfolding runs
valid_link_ok_example = valid_link_ok "secret" start (returned (valid_link "secret") start refl)

create_link-opens_example :
    (Roles.access start.db "alice" "notes" ≡ "owner")
    × (l : Link) × (link_of made (token_of (create_link service for_reading start).0) ≡ some l)
    × Answers for_reading l
unfolding runs
create_link-opens_example =
    create_link-opens "https://docs.example.org/" for_reading start
      (returned (create_link service for_reading) start refl)

disable-refused_example :
    ((l : Link) × (find_where (named "l1") start.db.links ≡ some l)
      × (Roles.access start.db "alice" l.document_id ≡ "owner"))
    × ((l : Link)
        → link_of start "secret" ≡ some l
        → l.id ≡ "l1"
        → (e : Error) × ((valid_link "secret" (Service.disable service "alice" "l1" start).1).0
            ≡ err e))
    × (((l : Link) → link_of start "secret" ≡ some l → (l.id == "l1") ≡ false)
        → link_of (Service.disable service "alice" "l1" start).1 "secret" ≡ link_of start "secret")
unfolding runs
disable-refused_example =
    disable-refused "https://docs.example.org/" "alice" "l1" "secret" start
      (returned (Service.disable service "alice" "l1") start refl)

abbrev saved : World
saved = (save_markdown "secret" "new text" start).1

save_markdown-access_example :
    ((l : Link) × (link_of start "secret" ≡ some l) × (l.permission ≡ "editor"))
    × (content_of (access "secret" saved).0 ≡ "new text")
unfolding runs
save_markdown-access_example =
    save_markdown-access "secret" "new text" start
      (returned (save_markdown "secret" "new text") start refl)
      (returned (access "secret") saved refl)
