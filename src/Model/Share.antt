-- ===== src/Model/Share.antt =====
-- backend/internal/share/model.go.
use online_colab_document.Base.{ℕ, String, Bool, Option}
use online_colab_document.Model.Document.{PublicDocument}

abbrev pub permission_viewer : String
permission_viewer = "viewer"

abbrev pub permission_editor : String
permission_editor = "editor"

pub record Link : Type 0 where
  pub id : String
  pub document_id : String
  pub token_hash : String
  pub permission : String
  pub expires_at : Option ℕ
  pub disabled : Bool
  pub created_by : Option String
  pub created_at : ℕ

pub record PublicLink : Type 0 where
  pub id : String
  pub document_id : String
  pub permission : String
  pub expires_at : Option ℕ
  pub disabled : Bool
  pub created_at : ℕ

pub record CreateResponse : Type 0 where
  pub public_link : PublicLink
  pub token : String
  pub url : String

pub record AccessResponse : Type 0 where
  pub document : PublicDocument
  pub content : String
  pub can_edit : Bool

unfoldable pub to_public : Link → PublicLink
to_public link = record {
  id = link.id;
  document_id = link.document_id;
  permission = link.permission;
  expires_at = link.expires_at;
  disabled = link.disabled;
  created_at = link.created_at;
}
