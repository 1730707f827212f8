-- ===== src/Local/Sessions.antt =====
-- Sessions: what a login makes, what a token opens, and which sessions a user may end.
use online_colab_document.Base.{
  suc, ◌<◌, String, Option, some, none, true, false, ◌==◌, ◌≡◌, ◌≢◌, arith, ==_iff, find_where,
  delete_where, inl, inr, Option-cases,
}
use online_colab_document.Model.User.{User, Session}
use online_colab_document.World.{World, ok}
use online_colab_document.Local.Repository.{
  has_id, has_token, find_by_id, find_session_by_id, find_session_by_token_hash,
  delete_session_by_id,
}
use online_colab_document.Local.Service.{current_user, revoke_session, hash_token}

abbrev pub session_of : World → String → Option Session
session_of w token = find_where (has_token (w.env.sha256_base64 token)) w.db.sessions

abbrev pub user_of : World → String → Option User
user_of w id = find_where (has_id id) w.db.users

module _ (token : String) (w : World) {u : User} {w' : World}
    (h : current_user token w ≡ (ok u, w')) where
  current_user_found : session_of w token ≢ none
  unfolding current_user find_session_by_token_hash hash_token
  current_user_found e = ground arith

  current_user_unexpired :
      (s : Session) → session_of w token ≡ some s → w.env.time (suc w.calls) < s.expires_at
  unfolding current_user find_session_by_token_hash hash_token
  current_user_unexpired s e = ground arith

  current_user_row : (s : Session) → session_of w token ≡ some s → user_of w s.user_id ≡ some u
  unfolding current_user find_session_by_token_hash find_by_id hash_token
  current_user_row s e = ground arith

  current_user_enabled : u.disabled ≡ false
  unfolding current_user
  current_user_enabled = ground arith

-- A token that is accepted names a session of the tables that has not expired at the clock's time,
-- and the user it gives is that session's and is not disabled.
pub current_user_ok :
    (token : String) (w : World) {u : User} {w' : World}
    → current_user token w ≡ (ok u, w')
    → (s : Session) × (session_of w token ≡ some s)
      × (w.env.time (suc w.calls) < s.expires_at)
      × (user_of w s.user_id ≡ some u)
      × (u.disabled ≡ false)
current_user_ok token w h = elim (Option-cases (session_of w token)) [
  | inl e ↦ absurd (current_user_found token w h e)
  | inr (s, e) ↦ (
    s,
    e,
    current_user_unexpired token w h s e,
    current_user_row token w h s e,
    current_user_enabled token w h,
  )
]

module _ (user_id session_id token : String) (w : World) {w' : World}
    (h : revoke_session user_id session_id token w ≡ (ok tt, w')) where
  abbrev revoked : Option Session
  revoked = find_where (λ r. r.id == session_id) w.db.sessions

  revoke_session_found : revoked ≢ none
  unfolding revoke_session find_session_by_id
  revoke_session_found e = ground arith

  revoke_session_own : (s : Session) → revoked ≡ some s → (s.user_id == user_id) ≡ true
  unfolding revoke_session find_session_by_id
  revoke_session_own s e = ground arith

  revoke_session_other :
      (s : Session) → revoked ≡ some s → (s.token_hash == w.env.sha256_base64 token) ≡ false
  unfolding revoke_session find_session_by_id hash_token
  revoke_session_other s e = ground arith

  revoke_session_db :
      (s : Session)
      → revoked ≡ some s
      → w'.db ≡ record w.db { sessions = delete_where (λ r. r.id == session_id) w.db.sessions }
  unfolding revoke_session find_session_by_id hash_token delete_session_by_id
  revoke_session_db s e = ground arith

-- A session that is ended is one of the user's own and not the one he calls with, and its row is all
-- that the call changes of the tables.
pub revoke_session_ok :
    (user_id session_id token : String) (w : World) {w' : World}
    → revoke_session user_id session_id token w ≡ (ok tt, w')
    → (s : Session) × (find_where (λ r. r.id == session_id) w.db.sessions ≡ some s)
      × (s.user_id ≡ user_id)
      × ((s.token_hash == w.env.sha256_base64 token) ≡ false)
      × (w'.db ≡ record w.db { sessions = delete_where (λ r. r.id == session_id) w.db.sessions })
revoke_session_ok user_id session_id token w h =
    elim (Option-cases (find_where (λ r. r.id == session_id) w.db.sessions)) [
      | inl e ↦ absurd (revoke_session_found user_id session_id token w h e)
      | inr (s, e) ↦ (
        s,
        e,
        (==_iff s.user_id user_id).0 (revoke_session_own user_id session_id token w h s e),
        revoke_session_other user_id session_id token w h s e,
        revoke_session_db user_id session_id token w h s e,
      )
    ]
