-- ===== src/Model/Document.antt =====
-- backend/internal/document/model.go.
use online_colab_document.Base.{ℕ, String, Bool, Option}

pub record Document : Type 0 where
  pub id : String
  pub owner_id : String
  pub title : String
  pub original_filename : String
  pub file_ext : String
  pub mime_type : String
  pub storage_key : String
  pub current_version_id : Option String
  pub size_bytes : ℕ
  pub deleted_at : Option ℕ
  pub created_at : ℕ
  pub updated_at : ℕ

pub record Version : Type 0 where
  pub id : String
  pub document_id : String
  pub version_no : ℕ
  pub storage_key : String
  pub size_bytes : ℕ
  pub created_by : Option String
  pub created_at : ℕ

pub record PublicDocument : Type 0 where
  pub id : String
  pub title : String
  pub original_filename : String
  pub file_ext : String
  pub mime_type : String
  pub size_bytes : ℕ
  pub updated_at : ℕ
  pub created_at : ℕ
  pub can_manage : Bool
  pub can_edit : Bool

pub record PublicVersion : Type 0 where
  pub id : String
  pub version_no : ℕ
  pub size_bytes : ℕ
  pub created_by : Option String
  pub created_at : ℕ

unfoldable pub to_public : Document → Bool → Bool → PublicDocument
to_public d can_manage can_edit = record {
  id = d.id;
  title = d.title;
  original_filename = d.original_filename;
  file_ext = d.file_ext;
  mime_type = d.mime_type;
  size_bytes = d.size_bytes;
  updated_at = d.updated_at;
  created_at = d.created_at;
  can_manage = can_manage;
  can_edit = can_edit;
}

unfoldable pub version_to_public : Version → PublicVersion
version_to_public v = record {
  id = v.id;
  version_no = v.version_no;
  size_bytes = v.size_bytes;
  created_by = v.created_by;
  created_at = v.created_at;
}
