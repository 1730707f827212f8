-- ===== src/Local/Service/Types.antt =====
-- backend/internal/auth/local/service.go: the types, the token hash and the password check.
use online_colab_document.Base.{ℕ, String, Option, some, none, Bool, false}
use online_colab_document.Model.User.{User, Session}
use online_colab_document.World.{
  Error, user_not_found, session_not_found, Result, ok, err, Env, M, pure, throw,
}

-- The service's fields: the two password functions are fields of the Go struct, too.
pub record Config : Type 0 where
  pub pepper : String
  pub session_ttl : ℕ
  pub hash_password : String → String → M String
  pub verify_password : String → String → String → Env → Result Bool

pub record RegisterInput : Type 0 where
  pub email : String
  pub display_name : String
  pub password : String

pub record LoginInput : Type 0 where
  pub email : String
  pub password : String

pub record ChangePasswordInput : Type 0 where
  pub user_id : String
  pub current_password : String
  pub new_password : String

pub record AdminResetPasswordInput : Type 0 where
  pub actor : User
  pub target_user_id : String
  pub new_password : String

pub record AdminUpdateUserInput : Type 0 where
  pub actor : User
  pub target_user_id : String
  pub display_name : Option String
  pub email : Option String
  pub is_admin : Option Bool
  pub disabled : Option Bool

pub record AuthSession : Type 0 where
  pub user : User
  pub token : String
  pub expires_at : ℕ

pub record PublicSession : Type 0 where
  pub id : String
  pub current : Bool
  pub expires_at : ℕ
  pub created_at : ℕ

unfoldable pub hash_token : String → M String
hash_token token w = (ok (w.env.sha256_base64 token), w)

-- `errors.Is(err, ErrUserNotFound)` becomes another error.
abbrev pub found_user : Error → Result User → M User
found_user missing (ok u) = pure u
found_user missing (err user_not_found) = throw missing
found_user missing (err e) = throw e

abbrev pub found_session : Error → Result Session → M Session
found_session missing (ok s) = pure s
found_session missing (err session_not_found) = throw missing
found_session missing (err e) = throw e

-- `verify_password` of a hash that is there.
abbrev pub verifies : Config → String → Option String → Env → Result Bool
verifies s password none env = ok false
verifies s password (some hash) env = s.verify_password password s.pepper hash env

abbrev pub verified : Config → String → Option String → M Bool
verified s password hash w = (verifies s password hash w.env, w)

-- The end of `Login`: a new session of the user.
