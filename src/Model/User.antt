-- ===== src/Model/User.antt =====
-- backend/internal/user/model.go and the record of backend/internal/auth/session/session.go.
use online_colab_document.Base.{ℕ, String, Bool, Option}

pub record User : Type 0 where
  pub id : String
  pub email : String
  pub display_name : String
  pub avatar_key : Option String
  pub password_hash : Option String
  pub auth_source : String
  pub oidc_subject : Option String
  pub is_admin : Bool
  pub disabled : Bool
  pub created_at : ℕ
  pub updated_at : ℕ

pub record Session : Type 0 where
  pub id : String
  pub user_id : String
  pub token_hash : String
  pub expires_at : ℕ
  pub created_at : ℕ

pub record PublicUser : Type 0 where
  pub id : String
  pub email : String
  pub display_name : String
  pub avatar_url : String
  pub auth_source : String
  pub is_admin : Bool

pub record AdminUser : Type 0 where
  pub id : String
  pub email : String
  pub display_name : String
  pub auth_source : String
  pub is_admin : Bool
  pub disabled : Bool
  pub created_at : ℕ
  pub avatar_url : String
