-- ===== src/Document/Service.antt =====
-- backend/internal/document/service.go.
mod Access
use Prim.Native.String.{len}
use online_colab_document.Base.{
  ℕ, ℤ, ◌*◌, ◌^◌, String, List, Option, some, none, Bool, true, not, ◌&&◌, ◌||◌, ltb, ◌==◌,
  if◌then◌else◌, is_nil, le_zero, pos_part,
}
use online_colab_document.Text.{trim_space, file_base}
use online_colab_document.Model.Document.{Document, Version}
use online_colab_document.World.{
  invalid_file, file_too_large, unsupported_type, document_forbidden, Result, ok, err, M, pure,
  throw, ◌>>=◌, ◌>>◌, attempt, reject_if, now,
}
use online_colab_document.Uuid.{new_uuid}
use online_colab_document.Storage.{put_object, get_object, read_all, delete_object}
use online_colab_document.Document.File.{validate_file}
use online_colab_document.Document.Filename.{title_from_filename, storage_key, is_text_document}
use online_colab_document.Document.Repository.{
  create_with_version, list_by_owner, list_accessible, find_by_id, soft_delete_for_owner,
  find_version, add_document_version,
}
use online_colab_document.Document.Repository
unfoldable pub use online_colab_document.Document.Service.Access.*

unfoldable pub or_delete_object : String → Result (Unit {0}) → M (Unit {0})
or_delete_object key (ok u) = pure tt
or_delete_object key (err e) = attempt (delete_object key) >> throw e

-- A new version of a live document whose bytes are `body`: the object first, then the rows.
abbrev pub new_version : String → String → String → String → Option String → ℕ → Version
new_version version_id document_id key body created_by created_at = record {
  id = version_id;
  document_id = document_id;
  version_no = 0;
  storage_key = key;
  size_bytes = len body;
  created_by = created_by;
  created_at = created_at;
}

-- The key of a version of the document.
abbrev pub key_for : Document → String → String
key_for doc version_id = storage_key doc.id version_id doc.original_filename

-- The part that `RestoreVersion`, `SaveMarkdown`, the share link's `SaveMarkdown` and the office
-- documents' `Save` repeat: store the object under the key that the version's id gives, add the
-- version, and delete the object if the version could not be added.
unfoldable pub store_version : (String → String) → Document → String → Option String → M String
store_version key_of doc body created_by = do
  version_id ← new_uuid
  let key = key_of version_id
  put_object key body doc.mime_type
  created_at ← now
  added ← attempt (
      add_document_version doc.id (new_version version_id doc.id key body created_by created_at)
        created_at)
  or_delete_object key added
  pure version_id

abbrev body_of : Option String → String
body_of none = ""
body_of (some body) = body

unfoldable pub upload : Config → UploadInput → M Document
unfolding or_delete_object
upload s input = do
  reject_if
      (input.owner_id == "" || (is_nil input.reader || trim_space input.original_filename == ""))
      invalid_file
  reject_if (le_zero input.size_bytes) invalid_file
  reject_if (ltb s.max_upload_bytes (pos_part input.size_bytes)) file_too_large
  metadata ← validate_file input.original_filename input.header_mime_type (body_of input.reader)
  document_id ← new_uuid
  version_id ← new_uuid
  let key = storage_key document_id version_id input.original_filename
  put_object key (body_of input.reader) metadata.mime_type
  created_at ← now
  let doc : Document = record {
    id = document_id;
    owner_id = input.owner_id;
    title = title_from_filename input.original_filename;
    original_filename = file_base input.original_filename;
    file_ext = metadata.extension;
    mime_type = metadata.mime_type;
    storage_key = key;
    current_version_id = some version_id;
    size_bytes = pos_part input.size_bytes;
    deleted_at = none;
    created_at = created_at;
    updated_at = created_at;
  }
  let version : Version = record {
    id = version_id;
    document_id = document_id;
    version_no = 1;
    storage_key = key;
    size_bytes = pos_part input.size_bytes;
    created_by = some input.owner_id;
    created_at = created_at;
  }
  created ← attempt (create_with_version doc version)
  or_delete_object key created
  pure doc

unfoldable pub list : Config → String → M (List Document)
list s owner_id = do
  reject_if (owner_id == "") document_forbidden
  if is_nil s.permissions then list_by_owner owner_id else list_accessible owner_id

-- A limit that is not between 1 and 200 is 100.
unfoldable pub list_admin : ℤ → M (List Document)
list_admin limit =
    Repository.list_admin
      (if le_zero limit || ltb 200 (pos_part limit) then 100 else pos_part limit)

unfoldable pub delete_admin : String → M (Unit {0})
delete_admin id = do
  reject_if (id == "") document_forbidden
  deleted_at ← now
  Repository.soft_delete_admin id deleted_at

unfoldable pub get : Config → String → String → M Document
unfolding require_view
get s user_id id = do
  reject_if (user_id == "" || id == "") document_forbidden
  require_view s user_id id
  find_by_id id

unfoldable pub download : Config → String → String → M Download
unfolding get
download s user_id id = do
  doc ← get s user_id id
  reader ← get_object doc.storage_key
  pure (record { document = doc; reader = reader })

unfoldable pub download_version : Config → String → String → String → M VersionDownload
unfolding get
download_version s user_id id version_id = do
  doc ← get s user_id id
  version ← find_version id version_id
  reader ← get_object version.storage_key
  pure (record { document = doc; version = version; reader = reader })

unfoldable pub restore_version : Config → String → String → String → M Version
unfolding can_edit store_version
restore_version s user_id id version_id = do
  reject_if (user_id == "" || (id == "" || version_id == "")) document_forbidden
  edits ← can_edit s user_id id
  reject_if (not edits) document_forbidden
  doc ← find_by_id id
  source ← find_version id version_id
  reader ← get_object source.storage_key
  body ← read_all reader
  new_version_id ← store_version (key_for doc) doc body (some user_id)
  find_version doc.id new_version_id

unfoldable pub get_markdown : Config → String → String → M MarkdownDocument
unfolding get can_edit
get_markdown s user_id id = do
  doc ← get s user_id id
  reject_if (not (is_text_document doc.file_ext)) unsupported_type
  reader ← get_object doc.storage_key
  body ← read_all reader
  edits ← can_edit s user_id id
  pure (record { document = doc; content = body; can_edit = edits })

unfoldable pub save_markdown : Config → String → String → String → M MarkdownDocument
unfolding can_edit store_version
save_markdown s user_id id content = do
  reject_if (user_id == "" || id == "") document_forbidden
  edits ← can_edit s user_id id
  reject_if (not edits) document_forbidden
  doc ← find_by_id id
  reject_if (not (is_text_document doc.file_ext)) unsupported_type
  version_id ← store_version (key_for doc) doc content (some user_id)
  updated ← find_by_id id
  pure (record { document = updated; content = content; can_edit = true })

abbrev require_delete : Option PermissionService → String → String → M (Unit {0})
require_delete none user_id id = pure tt
require_delete (some p) user_id id = do
  deletes ← p.can_delete user_id id
  reject_if (not deletes) document_forbidden

unfoldable pub delete : Config → String → String → M (Unit {0})
delete s user_id id = do
  reject_if (user_id == "" || id == "") document_forbidden
  require_delete s.permissions user_id id
  doc ← find_by_id id
  reject_if (is_nil s.permissions && not (doc.owner_id == user_id)) document_forbidden
  deleted_at ← now
  soft_delete_for_owner id doc.owner_id deleted_at

unfoldable pub versions : Config → String → String → M (List Version)
unfolding require_view
versions s user_id id = do
  reject_if (user_id == "" || id == "") document_forbidden
  require_view s user_id id
  Repository.list_versions id
