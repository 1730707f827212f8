-- ===== src/Local/Service.antt =====
-- backend/internal/auth/local/service.go.
mod Types
use Prim.Native.String.{len}
use online_colab_document.Base.{
  ℕ, ◌+◌, String, List, map, Option, some, none, Bool, false, not, ◌&&◌, ◌||◌, ltb, ◌==◌,
  if◌then◌else◌, is_nil,
}
use online_colab_document.Text.{trim_space}
use online_colab_document.Model.User.{User, Session}
use online_colab_document.World.{
  Error, local_invalid_input, invalid_credentials, unauthenticated, password_unsupported,
  session_forbidden, current_session, user_not_found, session_not_found, Result, ok, err, Env, M,
  pure, throw, ◌>>=◌, ◌>>◌, attempt, reject_if, now,
}
use online_colab_document.Uuid.{new_uuid, new_token}
use online_colab_document.Local.Email.{normalize_email, valid_email}
use online_colab_document.Local.Repository.{
  create, find_by_email, find_by_id, find_by_spelled_id, update_password_hash, update_display_name,
  update_avatar_key, create_session, find_session_by_token_hash, find_session_by_id,
  list_sessions_by_user_id, delete_session_by_id, delete_session_by_token_hash,
}
use online_colab_document.Local.Repository
unfoldable pub use online_colab_document.Local.Service.Types.*

unfoldable pub register : Config → RegisterInput → M User
unfolding normalize_email
register s input = do
  let email : String = normalize_email input.email
  let name : String = trim_space input.display_name
  reject_if (not (valid_email email) || (name == "" || ltb (len input.password) 8))
      local_invalid_input
  password_hash ← s.hash_password input.password s.pepper
  id ← new_uuid
  created_at ← now
  let u : User = record {
    id = id;
    email = email;
    display_name = name;
    avatar_key = none;
    password_hash = some password_hash;
    auth_source = "local";
    oidc_subject = none;
    is_admin = false;
    disabled = false;
    created_at = created_at;
    updated_at = created_at;
  }
  create u
  pure u

unfoldable pub start_session : User → ℕ → M AuthSession
unfolding hash_token
start_session u ttl = do
  token ← new_token
  session_id ← new_uuid
  created_at ← now
  token_hash ← hash_token token
  create_session (record {
    id = session_id;
    user_id = u.id;
    token_hash = token_hash;
    expires_at = created_at + ttl;
    created_at = created_at;
  })
  pure (record { user = u; token = token; expires_at = created_at + ttl })

unfoldable pub login : Config → LoginInput → M AuthSession
unfolding normalize_email start_session
login s input = do
  let email : String = normalize_email input.email
  reject_if (not (valid_email email) || input.password == "") invalid_credentials
  found ← attempt (find_by_email email)
  u ← found_user invalid_credentials found
  reject_if (u.disabled || (not (u.auth_source == "local") || is_nil u.password_hash))
      invalid_credentials
  matches ← verified s input.password u.password_hash
  reject_if (not matches) invalid_credentials
  start_session u s.session_ttl

unfoldable pub change_password : Config → ChangePasswordInput → M (Unit {0})
change_password s input = do
  reject_if
      (input.user_id == "" || (input.current_password == "" || ltb (len input.new_password) 8))
      local_invalid_input
  found ← attempt (find_by_id input.user_id)
  u ← found_user unauthenticated found
  reject_if u.disabled unauthenticated
  reject_if (not (u.auth_source == "local") || is_nil u.password_hash) password_unsupported
  matches ← verified s input.current_password u.password_hash
  reject_if (not matches) invalid_credentials
  next_hash ← s.hash_password input.new_password s.pepper
  update_password_hash u.id next_hash

unfoldable pub update_profile : String → String → M User
update_profile user_id display_name = do
  let name : String = trim_space display_name
  reject_if (user_id == "" || (name == "" || ltb 120 (len name))) local_invalid_input
  found ← attempt (find_by_id user_id)
  u ← found_user unauthenticated found
  reject_if u.disabled unauthenticated
  update_display_name u.id name

unfoldable pub update_avatar : String → String → M User
update_avatar user_id avatar_key = do
  reject_if (user_id == "" || avatar_key == "") local_invalid_input
  found ← attempt (find_by_id user_id)
  u ← found_user unauthenticated found
  reject_if u.disabled unauthenticated
  update_avatar_key u.id (some avatar_key)

unfoldable pub admin_reset_password : Config → AdminResetPasswordInput → M (Unit {0})
admin_reset_password s input = do
  reject_if
      (not input.actor.is_admin || (input.target_user_id == "" || ltb (len input.new_password) 8))
      local_invalid_input
  target ← find_by_spelled_id input.target_user_id
  reject_if (not (target.auth_source == "local") || is_nil target.password_hash)
      password_unsupported
  hash ← s.hash_password input.new_password s.pepper
  update_password_hash target.id hash

abbrev pub is_false : Option Bool → Bool
is_false none = false
is_false (some b) = not b

abbrev pub is_true : Option Bool → Bool
is_true none = false
is_true (some b) = b

abbrev pub checked_name : Option String → M (Option String)
checked_name none = pure none
checked_name (some display_name) = do
  let name : String = trim_space display_name
  reject_if (name == "" || ltb 120 (len name)) local_invalid_input
  pure (some name)

abbrev pub checked_email : Option String → M (Option String)
checked_email none = pure none
checked_email (some address) = do
  let email : String = normalize_email address
  reject_if (not (valid_email email)) local_invalid_input
  pure (some email)

unfoldable pub admin_update_user : AdminUpdateUserInput → M User
admin_update_user input = do
  reject_if (not input.actor.is_admin || input.target_user_id == "") local_invalid_input
  reject_if
      (input.target_user_id == input.actor.id
        && (is_false input.is_admin || is_true input.disabled))
      local_invalid_input
  target ← find_by_spelled_id input.target_user_id
  reject_if
      (not (is_nil input.display_name && is_nil input.email) && not (target.auth_source == "local"))
      password_unsupported
  name ← checked_name input.display_name
  email ← checked_email input.email
  Repository.admin_update_user target.id name email input.is_admin input.disabled

abbrev public_session : String → Session → PublicSession
public_session current_hash r = record {
  id = r.id;
  current = r.token_hash == current_hash;
  expires_at = r.expires_at;
  created_at = r.created_at;
}

unfoldable pub list_sessions : String → String → M (List PublicSession)
unfolding hash_token
list_sessions user_id current_token = do
  reject_if (user_id == "" || current_token == "") unauthenticated
  records ← list_sessions_by_user_id user_id
  current_hash ← hash_token current_token
  pure (map (public_session current_hash) records)

unfoldable pub revoke_session : String → String → String → M (Unit {0})
unfolding hash_token
revoke_session user_id session_id current_token = do
  reject_if (user_id == "" || (session_id == "" || current_token == "")) local_invalid_input
  found ← attempt (find_session_by_id session_id)
  r ← found_session session_forbidden found
  reject_if (not (r.user_id == user_id)) session_forbidden
  current_hash ← hash_token current_token
  reject_if (r.token_hash == current_hash) current_session
  delete_session_by_id session_id

-- An expired session is deleted, whatever comes of that, and is no session.
abbrev reject_expired : Session → ℕ → M (Unit {0})
reject_expired r t =
    if ltb t r.expires_at
    then pure tt
    else attempt (delete_session_by_token_hash r.token_hash) >> throw unauthenticated

unfoldable pub current_user : String → M User
unfolding hash_token
current_user token = do
  reject_if (token == "") unauthenticated
  token_hash ← hash_token token
  found ← attempt (find_session_by_token_hash token_hash)
  r ← found_session unauthenticated found
  t ← now
  reject_expired r t
  found ← attempt (find_by_id r.user_id)
  u ← found_user unauthenticated found
  reject_if u.disabled unauthenticated
  pure u

unfoldable pub logout : String → M (Unit {0})
unfolding hash_token
logout token = if token == "" then pure tt else hash_token token >>= delete_session_by_token_hash
