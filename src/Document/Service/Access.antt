-- ===== src/Document/Service/Access.antt =====
-- backend/internal/document/service.go: the types, and the checks of the caller.
use online_colab_document.Base.{
  ℕ, ℤ, ◌*◌, ◌^◌, String, Option, some, none, Bool, not, ◌==◌, if◌then◌else◌, le_zero, pos_part,
}
use online_colab_document.Model.Document.{Document, Version}
use online_colab_document.World.{document_forbidden, M, pure, ◌>>=◌, reject_if}
use online_colab_document.Document.Repository.{find_by_id}

-- The interface `PermissionService`.
pub record PermissionService : Type 0 where
  pub can_view : String → String → M Bool
  pub can_edit : String → String → M Bool
  pub can_manage : String → String → M Bool
  pub can_delete : String → String → M Bool

pub record Config : Type 0 where
  pub permissions : Option PermissionService
  pub max_upload_bytes : ℕ

abbrev pub default_max_upload_bytes : ℕ
default_max_upload_bytes = 50 * 2 ^ 20

unfoldable pub new_service : Option PermissionService → ℤ → Config
new_service permissions limit = record {
  permissions = permissions;
  max_upload_bytes = if le_zero limit then default_max_upload_bytes else pos_part limit;
}

-- `reader` is the uploaded file's content, none for a nil reader.
pub record UploadInput : Type 0 where
  pub owner_id : String
  pub original_filename : String
  pub header_mime_type : String
  pub size_bytes : ℤ
  pub reader : Option String

pub record Download : Type 0 where
  pub document : Document
  pub reader : String

pub record VersionDownload : Type 0 where
  pub document : Document
  pub version : Version
  pub reader : String

pub record MarkdownDocument : Type 0 where
  pub document : Document
  pub content : String
  pub can_edit : Bool

-- `if err != nil { _ = s.storage.DeleteObject(…); return err }`.

-- Without a permission service the owner alone may use a document.
abbrev pub is_owner : String → String → M Bool
is_owner user_id id = do doc ← find_by_id id; pure (doc.owner_id == user_id)

abbrev pub allowed_or_owner :
    (PermissionService → String → String → M Bool)
    → Option PermissionService
    → String
    → String
    → M Bool
allowed_or_owner ask none user_id id = is_owner user_id id
allowed_or_owner ask (some p) user_id id = ask p user_id id

unfoldable pub can_manage : Config → String → String → M Bool
can_manage s user_id id = allowed_or_owner (λ p. p.can_manage) s.permissions user_id id

unfoldable pub can_edit : Config → String → String → M Bool
can_edit s user_id id = allowed_or_owner (λ p. p.can_edit) s.permissions user_id id

unfoldable pub require_view : Config → String → String → M (Unit {0})
require_view s user_id id = do
  views ← allowed_or_owner (λ p. p.can_view) s.permissions user_id id
  reject_if (not views) document_forbidden
