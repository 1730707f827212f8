-- ===== src/Model/Permission.antt =====
-- backend/internal/permission/model.go.
use online_colab_document.Base.{ℕ, String, Option}

abbrev pub subject_type_user : String
subject_type_user = "user"

abbrev pub role_owner : String
role_owner = "owner"

abbrev pub role_editor : String
role_editor = "editor"

abbrev pub role_viewer : String
role_viewer = "viewer"

abbrev pub role_none : String
role_none = "none"

pub record Permission : Type 0 where
  pub id : String
  pub document_id : String
  pub subject_type : String
  pub subject_id : String
  pub subject_display_name : Option String
  pub subject_email : Option String
  pub permission : String
  pub created_by : Option String
  pub created_at : ℕ

pub record PublicPermission : Type 0 where
  pub id : String
  pub document_id : String
  pub subject_type : String
  pub subject_id : String
  pub subject_display_name : Option String
  pub subject_email : Option String
  pub permission : String
  pub created_at : ℕ

unfoldable pub to_public : Permission → PublicPermission
to_public p = record {
  id = p.id;
  document_id = p.document_id;
  subject_type = p.subject_type;
  subject_id = p.subject_id;
  subject_display_name = p.subject_display_name;
  subject_email = p.subject_email;
  permission = p.permission;
  created_at = p.created_at;
}
