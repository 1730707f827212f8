-- ===== src/Tests/Local.antt =====
-- Accounts and sessions at the fixture.
use online_colab_document.Base.{
  [], ◌∷◌, some, none, true, false, ◌==◌, ◌<◌, ◌≡◌, ◌≢◌, ◌⊎◌, refl, find_where, any_where,
  update_where, delete_where,
}
use online_colab_document.Text.{trim_space, to_lower, lower_char, is_dot}
use online_colab_document.Model.User.{User, Session}
use online_colab_document.World.{Result, ok, err, World, pure}
use online_colab_document.World.Laws.{returned}
use online_colab_document.Uuid.{new_uuid, new_token, uuid_text, token_text, stamp}
use online_colab_document.Local.Email.{normalize_email, valid_email}
use online_colab_document.Local.Repository.{
  has_email, has_token, find_by_email, find_by_id, find_by_spelled_id, create_session,
  find_session_by_id, find_session_by_token_hash, delete_session_by_id,
  delete_session_by_token_hash,
}
use online_colab_document.Local.Repository
use online_colab_document.Local.Service.{
  Config, LoginInput, AuthSession, AdminUpdateUserInput, login, start_session, current_user,
  revoke_session, verifies, hash_token, admin_update_user,
}
use online_colab_document.Local.Sessions.{session_of, user_of, current_user_ok, revoke_session_ok}
use online_colab_document.Local.Login.{login_ok}
use online_colab_document.Local.Admin.{account, is_active_admin, admin_update_user-stays}
use online_colab_document.Tests.Fixture.{start, alice, bob}

-- What the operations of the package compute with.
runs : Unit {0}
unfolding is_dot login start_session current_user revoke_session admin_update_user hash_token
    find_by_email find_by_id find_by_spelled_id to_lower lower_char create_session
    find_session_by_id find_session_by_token_hash delete_session_by_id delete_session_by_token_hash
    Repository.admin_update_user normalize_email valid_email trim_space new_uuid new_token uuid_text
    token_text stamp find_where any_where update_where delete_where ◌==◌
runs = tt

-- Passwords that are stored as they are.
abbrev plain : Config
plain = record {
  pepper = "";
  session_ttl = 100;
  hash_password = λ p pepper. pure p;
  verify_password = λ p pepper hash env. ok (p == hash);
}

abbrev by_alice : LoginInput
by_alice = record { email = " Alice@example.org "; password = "hash" }

abbrev logged_in : World
logged_in = (login plain by_alice start).1

abbrev session_for : Result AuthSession → AuthSession
session_for (ok a) = a
session_for (err e) = record { user = bob; token = ""; expires_at = 0 }

abbrev answer : AuthSession
answer = session_for (login plain by_alice start).0

login_ok_example :
    (find_where (has_email (normalize_email by_alice.email)) start.db.users ≡ some answer.user)
    × (answer.user.disabled ≡ false)
    × (answer.user.auth_source ≡ "local")
    × (verifies plain by_alice.password answer.user.password_hash start.env ≡ ok true)
    × (r : Session) × (session_of logged_in answer.token ≡ some r)
    × (r.user_id ≡ answer.user.id)
    × (r.expires_at ≡ answer.expires_at)
unfolding runs
login_ok_example = login_ok plain by_alice start (returned (login plain by_alice) start refl)

abbrev opened : Session
opened = record {
  id = "s1";
  user_id = "alice";
  token_hash = "token";
  expires_at = 5000;
  created_at = 1;
}

abbrev other : Session
other = record {
  id = "s2";
  user_id = "alice";
  token_hash = "old";
  expires_at = 5000;
  created_at = 1;
}

abbrev two_sessions : World
two_sessions = record start { db = record start.db { sessions = opened ∷ other ∷ [] } }

current_user_ok_example :
    (s : Session) × (session_of two_sessions "token" ≡ some s)
    × (two_sessions.env.time 1 < s.expires_at)
    × (user_of two_sessions s.user_id ≡ some alice)
    × (alice.disabled ≡ false)
unfolding runs
current_user_ok_example =
    current_user_ok "token" two_sessions (returned (current_user "token") two_sessions refl)

revoke_session_ok_example :
    (s : Session) × (find_where (λ r. r.id == "s2") two_sessions.db.sessions ≡ some s)
    × (s.user_id ≡ "alice")
    × ((s.token_hash == "token") ≡ false)
    × ((revoke_session "alice" "s2" "token" two_sessions).1.db ≡ record two_sessions.db {
      sessions = delete_where (λ r. r.id == "s2") two_sessions.db.sessions;
    })
unfolding runs
revoke_session_ok_example =
    revoke_session_ok "alice" "s2" "token" two_sessions
      (returned (revoke_session "alice" "s2" "token") two_sessions refl)

abbrev root : User
root = record alice { is_admin = true }

abbrev with_root : World
with_root = record start { db = record start.db { users = root ∷ bob ∷ [] } }

abbrev rename : AdminUpdateUserInput
rename = record {
  actor = root;
  target_user_id = "alice";
  display_name = some "Root";
  email = none;
  is_admin = some true;
  disabled = none;
}

admin_update_user-stays_example :
    (is_active_admin (account (admin_update_user rename with_root).1 "alice") ≡ true)
    ⊎ ((with_root.env.uuid_text rename.target_user_id ≡ some root.id)
        × (rename.target_user_id ≢ root.id))
unfolding runs
admin_update_user-stays_example =
    admin_update_user-stays rename with_root refl
      (returned (admin_update_user rename) with_root refl)

-- The other case: Alice in capitals passes the guard, and the database takes her for Alice.
abbrev disable_alice : AdminUpdateUserInput
disable_alice = record rename {
  target_user_id = "ALICE";
  display_name = none;
  is_admin = none;
  disabled = some true;
}

locked_out : is_active_admin (account (admin_update_user disable_alice with_root).1 "alice") ≡ false
unfolding runs
locked_out = refl
