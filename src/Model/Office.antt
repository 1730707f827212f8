-- ===== src/Model/Office.antt =====
-- The structs of backend/internal/office/service.go that pass between its functions.
use online_colab_document.Base.{ℤ, String, List, Bool}

pub record WopiClaims : Type 0 where
  pub subject : String
  pub display_name : String
  pub file_id : String
  pub role : String
  pub permissions : List String
  pub kind : String
  pub expires_at : ℤ

pub record Session : Type 0 where
  pub provider : String
  pub document_id : String
  pub file_ext : String
  pub title : String
  pub mode : String
  pub download_url : String
  pub save_url : String
  pub editor_url : String

pub record CollabSession : Type 0 where
  pub enabled : Bool
  pub document_id : String
  pub file_ext : String
  pub room : String
  pub role : String
  pub server_url : String
  pub reason : String

pub record Config : Type 0 where
  pub provider : String
  pub public_api_url : String
  pub collab_public_url : String
  pub collab_enabled : Bool
  pub jwt_secret : String
  pub docs_editor_url : String
  pub sheets_editor_url : String
  pub max_upload_bytes : ℤ
