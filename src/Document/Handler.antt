-- ===== src/Document/Handler.antt =====
-- backend/internal/document/handler.go.
use online_colab_document.Base.{
  ℕ, ℤ, pos, String, List, [], ◌∷◌, map, Option, none, some, Bool, true, ◌==◌, if◌then◌else◌,
}
use online_colab_document.Model.User.{User}
use online_colab_document.Model.Document.{
  Document, PublicDocument, PublicVersion, to_public, version_to_public,
}
use online_colab_document.World.{
  Error, document_forbidden, document_not_found, invalid_file, file_too_large, unsupported_type, M,
  pure, ◌>>=◌,
}
use online_colab_document.Http.Response.{
  Handler, Request, AuditRecorder, respond, refuse, serve, with_user, record_audit, audit_input,
  decimal,
}
use online_colab_document.Local.Password.{atoi}
use online_colab_document.Document.Service.{Config, MarkdownDocument, can_manage, can_edit}
use online_colab_document.Document.Service

-- `writeError`.
abbrev pub status_of : Error → ℕ × String
status_of document_forbidden = (403, "forbidden")
status_of document_not_found = (404, "document not found")
status_of invalid_file = (400, "invalid file")
status_of file_too_large = (413, "file too large")
status_of unsupported_type = (400, "unsupported file type")
status_of e = (500, "internal server error")

pub record MarkdownResponse : Type 0 where
  pub document : PublicDocument
  pub content : String
  pub can_edit : Bool

pub record AdminDocument : Type 0 where
  pub id : String
  pub owner_id : String
  pub title : String
  pub original_filename : String
  pub file_ext : String
  pub size_bytes : ℕ
  pub updated_at : ℕ

-- A file that is sent: its headers, and the reader that its bytes are copied from.
pub record Attachment : Type 0 where
  pub content_type : String
  pub content_length : ℕ
  pub filename : String
  pub reader : String

-- The multipart form that the library parses.
pub record FormFile : Type 0 where
  pub filename : String
  pub content_type : String
  pub size : ℤ
  pub content : String

pub data Form : Type 0 where
  invalid missing : Form
  file : FormFile → Form

-- The loop of `List`: the first check that fails ends it.
unfoldable pub described : Config → String → List Document → M (List PublicDocument)
described s user_id [] = pure []
described s user_id (doc ∷ docs) = do
  manages ← can_manage s user_id doc.id
  edits ← can_edit s user_id doc.id
  rest ← described s user_id docs
  pure (to_public doc manages edits ∷ rest)

unfoldable pub list : Config → Option User → Handler (List PublicDocument)
unfolding described
list s current = with_user current λ u.
    serve status_of (Service.list s u.id)
      λ docs. serve status_of (described s u.id docs) λ items. respond 200 items

abbrev or_hundred : Option ℤ → ℤ
or_hundred none = pos 100
or_hundred (some n) = n

abbrev admin_document : Document → AdminDocument
admin_document d = record {
  id = d.id;
  owner_id = d.owner_id;
  title = d.title;
  original_filename = d.original_filename;
  file_ext = d.file_ext;
  size_bytes = d.size_bytes;
  updated_at = d.updated_at;
}

unfoldable pub admin_list : String → Handler (List AdminDocument)
admin_list limit =
    serve status_of (Service.list_admin (if limit == "" then pos 100 else or_hundred (atoi limit)))
      λ docs. respond 200 (map admin_document docs)

unfoldable pub admin_delete :
    Option AuditRecorder → Request → Option User → String → Handler (Unit {0})
admin_delete recorder r current id = with_user current λ u.
    serve status_of (Service.delete_admin id) λ a.
      record_audit recorder r (audit_input u "admin.document_delete" "document" id [])
        (respond 200 tt)

abbrev with_file : {A : Type 0} → Form → (FormFile → Handler A) → Handler A
with_file invalid k = refuse 400 "invalid upload"
with_file missing k = refuse 400 "file is required"
with_file (file f) k = k f

abbrev upload_metadata : Document → List (String × String)
upload_metadata d =
    ("fileExt", d.file_ext) ∷ ("mimeType", d.mime_type) ∷ ("sizeBytes", decimal d.size_bytes) ∷ []

unfoldable pub upload :
    Config → Option AuditRecorder → Request → Option User → Form → Handler PublicDocument
upload s recorder r current form = with_user current λ u. with_file form λ f.
    serve status_of
      (Service.upload s (record {
        owner_id = u.id;
        original_filename = f.filename;
        header_mime_type = f.content_type;
        size_bytes = f.size;
        reader = some f.content;
      }))
      λ d.
        record_audit recorder r
          (audit_input u "document.upload" "document" d.id (upload_metadata d))
          (respond 201 (to_public d true true))

-- What the user may do with a document, beside the document.
abbrev describe : Config → String → Document → Handler PublicDocument
describe s user_id d = serve status_of (can_manage s user_id d.id) λ manages.
    serve status_of (can_edit s user_id d.id) λ edits. respond 200 (to_public d manages edits)

unfoldable pub get : Config → Option User → String → Handler PublicDocument
get s current id =
    with_user current λ u. serve status_of (Service.get s u.id id) λ d. describe s u.id d

abbrev pub attachment : Document → ℕ → String → Attachment
attachment d size reader = record {
  content_type = d.mime_type;
  content_length = size;
  filename = d.original_filename;
  reader = reader;
}

abbrev pub size_metadata : Document → List (String × String)
size_metadata d = ("sizeBytes", decimal d.size_bytes) ∷ []

unfoldable pub download :
    Config → Option AuditRecorder → Request → Option User → String → Handler Attachment
download s recorder r current id = with_user current λ u.
    serve status_of (Service.download s u.id id) λ d.
      record_audit recorder r
        (audit_input u "document.download" "document" d.document.id (size_metadata d.document))
        (respond 200 (attachment d.document d.document.size_bytes d.reader))

unfoldable pub download_version : Config → Option User → String → String → Handler Attachment
download_version s current id version_id = with_user current λ u.
    serve status_of (Service.download_version s u.id id version_id)
      λ d. respond 200 (attachment d.document d.version.size_bytes d.reader)

abbrev markdown_response : Config → String → MarkdownDocument → Handler MarkdownResponse
markdown_response s user_id m = serve status_of (can_manage s user_id m.document.id) λ manages.
    respond 200 (record {
      document = to_public m.document manages m.can_edit;
      content = m.content;
      can_edit = m.can_edit;
    })

unfoldable pub get_markdown : Config → Option User → String → Handler MarkdownResponse
get_markdown s current id =
    with_user current
      λ u. serve status_of (Service.get_markdown s u.id id) λ m. markdown_response s u.id m

abbrev pub decoded : {A : Type 0} → Option String → (String → Handler A) → Handler A
decoded none k = refuse 400 "invalid json"
decoded (some content) k = k content

-- The body is the content that the JSON decoder gives, none for an error.
unfoldable pub update_markdown :
    Config
    → Option AuditRecorder
    → Request
    → Option User
    → String
    → Option String
    → Handler MarkdownResponse
update_markdown s recorder r current id body = with_user current λ u. decoded body λ content.
    serve status_of (Service.save_markdown s u.id id content) λ m.
      record_audit recorder r
        (audit_input u "document.markdown_save" "document" m.document.id (size_metadata m.document))
        (markdown_response s u.id m)

unfoldable pub delete :
    Config → Option AuditRecorder → Request → Option User → String → Handler (Unit {0})
delete s recorder r current id = with_user current λ u.
    serve status_of (Service.delete s u.id id) λ a.
      record_audit recorder r (audit_input u "document.delete" "document" id []) (respond 200 tt)

unfoldable pub versions : Config → Option User → String → Handler (List PublicVersion)
versions s current id =
    with_user current
      λ u. serve status_of (Service.versions s u.id id) λ vs. respond 200 (map version_to_public vs)

unfoldable pub restore_version :
    Config → Option AuditRecorder → Request → Option User → String → String → Handler PublicVersion
restore_version s recorder r current id version_id = with_user current λ u.
    serve status_of (Service.restore_version s u.id id version_id) λ v.
      record_audit recorder r
        (audit_input u "document.version_restore" "document" v.document_id
          (("sourceVersionId", version_id) ∷ ("newVersionId", v.id) ∷ []))
        (respond 201 (version_to_public v))
