-- ===== src/Office/Service.antt =====
-- The operations of backend/internal/office/service.go.
use Prim.Native.String.{String, ◌++◌, len}
use online_colab_document.Base.{
  ℕ, ◌*◌, ◌^◌, pos, Option, none, some, Bool, false, not, ◌||◌, ◌&&◌, ltb, ◌==◌, if◌then◌else◌,
  le_zero, is_negative, pos_part, int64_suc, ℤ,
}
use online_colab_document.Text.{to_lower, equal_fold}
use online_colab_document.Model.User.{User}
use online_colab_document.Model.Document.{Document}
use online_colab_document.Model.Office.{WopiClaims, Session, CollabSession, Config}
use online_colab_document.World.{
  Env, Result, ok, err, M, pure, throw, ◌>>=◌, ◌>>◌, attempt, reject_if, call, office_forbidden,
  office_unsupported_file, office_too_large,
}
use online_colab_document.Storage.{get_object}
use online_colab_document.Document.Repository.{find_by_id}
use online_colab_document.Document.Service.{store_version}
use online_colab_document.Office.Token.{mint_wopi_token, verify_wopi_token}
use online_colab_document.Office.Editor.{
  without_slashes, is_casual_supported, editor_kind, editor_url,
}

-- The interface `PermissionService`.
pub record PermissionService : Type 0 where
  pub can_view : String → String → M Bool
  pub can_edit : String → String → M Bool

pub record Service : Type 0 where
  pub cfg : Config
  pub permissions : PermissionService

unfoldable pub new_service : Config → PermissionService → Service
new_service cfg permissions = record {
  cfg = record cfg {
    provider = if cfg.provider == "" then "casual" else cfg.provider;
    max_upload_bytes =
        if le_zero cfg.max_upload_bytes then pos (50 * 2 ^ 20) else cfg.max_upload_bytes;
  };
  permissions = permissions;
}

unfoldable pub session : Service → User → String → M Session
session s current_user document_id = do
  doc ← find_by_id document_id
  reject_if (not (is_casual_supported doc.file_ext) || s.cfg.jwt_secret == "")
      office_unsupported_file
  views ← s.permissions.can_view current_user.id document_id
  reject_if (not views) office_forbidden
  edits ← s.permissions.can_edit current_user.id document_id
  let base = without_slashes s.cfg.public_api_url
  let role : String = if edits then "editor" else "viewer"
  token ← mint_wopi_token s.cfg current_user doc.id role (editor_kind doc.file_ext)
  λ w. (
    ok (record {
      provider = s.cfg.provider;
      document_id = doc.id;
      file_ext = to_lower doc.file_ext;
      title = doc.original_filename;
      mode = if edits then "edit" else "view";
      download_url = base ++ "/api/documents/" ++ doc.id ++ "/download";
      save_url = base ++ "/api/documents/" ++ doc.id ++ "/office/content";
      editor_url = editor_url w.env s.cfg doc token;
    }),
    w,
  )

unfoldable pub collab_session : Service → User → String → M CollabSession
collab_session s current_user document_id = do
  doc ← find_by_id document_id
  reject_if (not (to_lower doc.file_ext == "xlsx")) office_unsupported_file
  views ← s.permissions.can_view current_user.id document_id
  reject_if (not views) office_forbidden
  edits ← s.permissions.can_edit current_user.id document_id
  let server_url = without_slashes s.cfg.collab_public_url
  let enabled = s.cfg.collab_enabled && not (server_url == "")
  pure (record {
    enabled = enabled;
    document_id = doc.id;
    file_ext = to_lower doc.file_ext;
    room = "office:" ++ doc.id;
    role = if edits then "write" else "view";
    server_url = server_url;
    reason = if enabled then "" else "office collab service is not configured";
  })

-- What `io.ReadAll` gives of a reader that is limited to one byte more than the limit: nothing if that
-- sum is not positive, as it is not if it wraps around. A body that is too long is cut there; that
-- is longer than the limit all the same, so the whole body stands for it.
unfoldable pub read_content : ℤ → String → String
read_content limit body = if le_zero (int64_suc limit) then "" else body

-- `int64(len(data)) > limit`.
abbrev pub exceeds : ℤ → ℕ → Bool
exceeds limit size = is_negative limit || ltb (pos_part limit) size

-- The bounded read, which may fail, and the test of what it read.
unfoldable pub read_limited : ℤ → String → M String
unfolding read_content
read_limited limit body = do
  call
  let content = read_content limit body
  reject_if (exceeds limit (len content)) office_too_large
  pure content

-- The file name stands in the key as it was uploaded.
abbrev pub key_for : Document → String → String
key_for doc version_id =
    "documents/" ++ doc.id ++ "/versions/" ++ version_id ++ "/" ++ doc.original_filename

unfoldable pub save : Service → User → String → String → M (Document × ℕ)
unfolding read_limited
save s current_user document_id body = do
  doc ← find_by_id document_id
  reject_if (not (is_casual_supported doc.file_ext)) office_unsupported_file
  edits ← s.permissions.can_edit current_user.id document_id
  reject_if (not edits) office_forbidden
  content ← read_limited s.cfg.max_upload_bytes body
  store_version (key_for doc) doc content (some current_user.id)
  pure (doc, len content)

-- What an editor is told of the document: itself, whether it may be edited, and its version.
pub record Info : Type 0 where
  pub document : Document
  pub can_edit : Bool
  pub version : String

abbrev version_of : Env → Document → Option String → String
version_of env doc none = env.rfc3339_nano doc.updated_at
version_of env doc (some id) = id

unfoldable pub wopi_info : Service → String → String → M Info
wopi_info s token document_id = do
  claims ← verify_wopi_token s.cfg token document_id
  doc ← find_by_id document_id
  views ← s.permissions.can_view claims.subject document_id
  reject_if (not views) office_forbidden
  edits ← s.permissions.can_edit claims.subject document_id
  λ w. (
    ok (record {
      document = doc;
      can_edit = edits;
      version = version_of w.env doc doc.current_version_id;
    }),
    w,
  )

-- The object is read through the reader that is returned.
unfoldable pub wopi_content : Service → String → String → M (Document × String × String)
unfolding wopi_info
wopi_content s token document_id = do
  info ← wopi_info s token document_id
  reader ← get_object info.document.storage_key
  pure (info.document, reader, info.version)

-- The user of a token: only the two fields that the token names are set.
abbrev pub token_user : WopiClaims → User
token_user claims = record {
  id = claims.subject;
  email = "";
  display_name = claims.display_name;
  avatar_key = none;
  password_hash = none;
  auth_source = "";
  oidc_subject = none;
  is_admin = false;
  disabled = false;
  created_at = 0;
  updated_at = 0;
}

unfoldable pub wopi_save : Service → String → String → String → M (Document × ℕ)
unfolding save
wopi_save s token document_id body = do
  claims ← verify_wopi_token s.cfg token document_id
  edits ← s.permissions.can_edit claims.subject document_id
  reject_if (not edits) office_forbidden
  save s (token_user claims) document_id body

unfoldable pub sheets_room_info : Service → User → String → M (Unit {0})
sheets_room_info s current_user document_id = do
  doc ← find_by_id document_id
  reject_if (not (equal_fold doc.file_ext "xlsx")) office_unsupported_file
  views ← s.permissions.can_view current_user.id document_id
  reject_if (not views) office_forbidden

unfoldable pub sheets_room_seed : Service → User → String → M (Document × String)
unfolding sheets_room_info
sheets_room_seed s current_user document_id = do
  sheets_room_info s current_user document_id
  doc ← find_by_id document_id
  reader ← get_object doc.storage_key
  pure (doc, reader)

unfoldable pub docs_room_seed : Service → User → String → M (Document × String)
docs_room_seed s current_user document_id = do
  doc ← find_by_id document_id
  reject_if (not (equal_fold doc.file_ext "docx")) office_unsupported_file
  views ← s.permissions.can_view current_user.id document_id
  reject_if (not views) office_forbidden
  reader ← get_object doc.storage_key
  pure (doc, reader)

-- Every error of the token is `ErrForbidden`, and so is another kind.
abbrev of_kind : String → Result WopiClaims → M WopiClaims
of_kind kind (err e) = throw office_forbidden
of_kind kind (ok claims) = if claims.kind == kind then pure claims else throw office_forbidden

unfoldable pub authorize_collab : Service → String → String → String → M String
authorize_collab s token document_id kind = do
  verified ← attempt (verify_wopi_token s.cfg token document_id)
  claims ← of_kind kind verified
  views ← s.permissions.can_view claims.subject document_id
  reject_if (not views) office_forbidden
  edits ← s.permissions.can_edit claims.subject document_id
  pure (if edits then "write" else "view")
