-- ===== src/Local/Repository.antt =====
-- backend/internal/auth/local/repository.go, its SQL as operations on the tables.
use online_colab_document.Base.{
  ℕ, String, List, [], ◌∷◌, ◌++◌, Option, none, some, Bool, false, not, ◌&&◌, ◌||◌, ltb, ◌==◌,
  if◌then◌else◌, is_text, find_where, any_where, select_where, update_where, delete_where, order_by,
}
use online_colab_document.Model.User.{User, Session}
use online_colab_document.World.{
  internal, user_not_found, email_already_used, session_not_found, Result, ok, err, Db, M, ◌>>=◌,
  ◌>>◌, query, exec, now,
}

abbrev pub has_id : String → User → Bool
has_id id u = u.id == id

abbrev pub has_email : String → User → Bool
has_email email u = u.email == email

abbrev pub has_subject : String → User → Bool
has_subject subject u = is_text u.oidc_subject subject

abbrev clashing_subject : Option String → User → Bool
clashing_subject none u = false
clashing_subject (some subject) u = has_subject subject u

-- The primary key, the unique address and the unique OIDC subject: any violation is reported as
-- `ErrEmailAlreadyUsed`.
unfoldable pub create : User → M (Unit {0})
create new = exec λ db.
    if any_where
      (λ u. has_id new.id u || (has_email new.email u || clashing_subject new.oidc_subject u))
      db.users
    then err email_already_used
    else ok (record db { users = db.users ++ new ∷ [] })

abbrev user_row : Option User → Result User
user_row none = err user_not_found
user_row (some u) = ok u

unfoldable pub find_by_email : String → M User
find_by_email email = query λ db. user_row (find_where (has_email email) db.users)

unfoldable pub find_by_id : String → M User
find_by_id id = query λ db. user_row (find_where (has_id id) db.users)

abbrev spelled_row : Option String → Db → Result User
spelled_row none db = err internal
spelled_row (some id) db = user_row (find_where (has_id id) db.users)

-- The same statement for an id that a request spells: the column is a UUID, so the database compares
-- the UUID that the text denotes.
unfoldable pub find_by_spelled_id : String → M User
find_by_spelled_id id w = query (spelled_row (w.env.uuid_text id)) w

unfoldable pub find_by_oidc_subject : String → M User
find_by_oidc_subject subject = query λ db. user_row (find_where (has_subject subject) db.users)

-- `NOW()` is the database's clock.
abbrev update_user : String → (ℕ → User → User) → M (Unit {0})
update_user id f = do
  t ← now
  exec λ db. ok (record db { users = update_where (has_id id) (f t) db.users })

-- The same, where no row is an error.
abbrev update_found_user : String → (ℕ → User → User) → M (Unit {0})
update_found_user id f = do
  t ← now
  exec λ db.
      if any_where (has_id id) db.users
      then ok (record db { users = update_where (has_id id) (f t) db.users })
      else err user_not_found

abbrev other_has : String → (User → Bool) → User → Bool
other_has id test u = not (has_id id u) && test u

unfoldable pub set_oidc_subject : String → String → M User
unfolding find_by_id
set_oidc_subject id subject = do
  t ← now
  exec λ db.
      if any_where (has_id id) db.users && any_where (other_has id (has_subject subject)) db.users
      then err email_already_used
      else ok (record db {
        users =
            update_where (has_id id) (λ u. record u { oidc_subject = some subject; updated_at = t })
              db.users;
      })
  find_by_id id

unfoldable pub update_password_hash : String → String → M (Unit {0})
update_password_hash id hash =
    update_found_user id (λ t u. record u { password_hash = some hash; updated_at = t })

unfoldable pub update_display_name : String → String → M User
unfolding find_by_id
update_display_name id name = do
  update_found_user id (λ t u. record u { display_name = name; updated_at = t })
  find_by_id id

unfoldable pub update_avatar_key : String → Option String → M User
unfolding find_by_id
update_avatar_key id key = do
  update_found_user id (λ t u. record u { avatar_key = key; updated_at = t })
  find_by_id id

-- `COALESCE($n, column)`.
abbrev pub coalesce {ℓ} : {A : Type ℓ} → Option A → A → A
coalesce none old = old
coalesce (some new) old = new

abbrev pub email_taken : String → Option String → Db → Bool
email_taken id none db = false
email_taken id (some email) db =
    any_where (has_id id) db.users && any_where (other_has id (has_email email)) db.users

unfoldable pub admin_update_user :
    String → Option String → Option String → Option Bool → Option Bool → M User
unfolding find_by_id
admin_update_user id name email is_admin disabled = do
  t ← now
  exec λ db.
      if email_taken id email db
      then err email_already_used
      else ok (record db {
        users =
            update_where (has_id id)
              (λ u. record u {
                display_name = coalesce name u.display_name;
                email = coalesce email u.email;
                is_admin = coalesce is_admin u.is_admin;
                disabled = coalesce disabled u.disabled;
                updated_at = t;
              })
              db.users;
      })
  find_by_id id

abbrev pub has_token : String → Session → Bool
has_token token_hash s = s.token_hash == token_hash

-- The primary key and the unique `token_hash`.
unfoldable pub create_session : Session → M (Unit {0})
create_session new = exec λ db.
    if any_where (λ s. s.id == new.id || has_token new.token_hash s) db.sessions
    then err internal
    else ok (record db { sessions = db.sessions ++ new ∷ [] })

abbrev session_row : Option Session → Result Session
session_row none = err session_not_found
session_row (some s) = ok s

unfoldable pub find_session_by_token_hash : String → M Session
find_session_by_token_hash token_hash =
    query λ db. session_row (find_where (has_token token_hash) db.sessions)

unfoldable pub find_session_by_id : String → M Session
find_session_by_id id = query λ db. session_row (find_where (λ s. s.id == id) db.sessions)

unfoldable pub list_sessions_by_user_id : String → M (List Session)
list_sessions_by_user_id user_id = do
  t ← now
  query λ db. ok (
      order_by (λ r s. ltb s.created_at r.created_at)
        (select_where (λ s. s.user_id == user_id && ltb t s.expires_at) db.sessions))

unfoldable pub delete_session_by_id : String → M (Unit {0})
delete_session_by_id id =
    exec λ db. ok (record db { sessions = delete_where (λ s. s.id == id) db.sessions })

unfoldable pub delete_session_by_token_hash : String → M (Unit {0})
delete_session_by_token_hash token_hash =
    exec λ db. ok (record db { sessions = delete_where (has_token token_hash) db.sessions })
