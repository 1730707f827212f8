-- ===== src/Local/Login.antt =====
-- What a login checks, and the session that it makes.
use online_colab_document.Base.{
  ℕ, ◌+◌, String, List, [], ◌∷◌, ◌++◌, Option, some, none, true, false, ◌||◌, ◌==◌, ◌≡◌, ◌≢◌, refl,
  arith, ==_iff, ==_refl, find_where, any_where, inl, inr, Option-cases, ap, subst,
}
use online_colab_document.Model.User.{User, Session}
use online_colab_document.World.{World, ok, called}
use online_colab_document.World.Laws.{Result-cases}
use online_colab_document.Uuid.{new_uuid, new_token, new_uuid-ReadsOnly, new_token-ReadsOnly}
use online_colab_document.Local.Email.{normalize_email}
use online_colab_document.Local.Repository.{has_email, has_token, find_by_email, create_session}
use online_colab_document.Local.Service.{
  Config, LoginInput, AuthSession, login, start_session, verifies, hash_token,
}
use online_colab_document.Local.Sessions.{session_of}

find-fresh :
    (h : String) (s : Session) (rows : List Session)
    → s.token_hash ≡ h
    → any_where (λ r. r.id == s.id || has_token s.token_hash r) rows ≡ false
    → find_where (has_token h) (rows ++ s ∷ []) ≡ some s
unfolding find_where any_where
find-fresh h s [] e k = ground (arith, ==_refl h)
find-fresh h s (x ∷ xs) e k = ground (arith, find-fresh h s xs e, ==_refl h)

module _ (u : User) (ttl : ℕ) (w : World) {a : AuthSession}
    (h : (start_session u ttl w).0 ≡ ok a) where
  abbrev at_id : World
  at_id = (new_token w).1

  abbrev at_clock : World
  at_clock = (new_uuid at_id).1

  abbrev made : String → String → Session
  made id token = record {
    id = id;
    user_id = u.id;
    token_hash = at_clock.env.sha256_base64 token;
    expires_at = at_clock.env.time at_clock.calls + ttl;
    created_at = at_clock.env.time at_clock.calls;
  }

  start_session_values :
      (id : String) × (token : String) × ((new_token w).0 ≡ ok token) × ((new_uuid at_id).0 ≡ ok id)
  unfolding start_session
  start_session_values = elim (Result-cases (new_token w).0) [
    | inr (e, failed) ↦ absurd (ground arith)
    | inl (token, a) ↦ elim (Result-cases (new_uuid at_id).0) [
      | inr (e, failed) ↦ absurd (ground arith)
      | inl (id, b) ↦ (id, token, a, b)
    ]
  ]

  start_session_rows :
      (id token : String)
      → (new_token w).0 ≡ ok token
      → (new_uuid at_id).0 ≡ ok id
      → ((start_session u ttl w).1.db
          ≡ record w.db { sessions = w.db.sessions ++ made id token ∷ [] })
        × (any_where (λ r. r.id == id || has_token (made id token).token_hash r) w.db.sessions
            ≡ false)
        × (a ≡ record { user = u; token = token; expires_at = (made id token).expires_at })
        × ((start_session u ttl w).1.env ≡ at_clock.env)
  unfolding start_session create_session hash_token
  start_session_rows id token x y = (
    ground (arith, new_token-ReadsOnly w, new_uuid-ReadsOnly at_id),
    ground (arith, new_token-ReadsOnly w, new_uuid-ReadsOnly at_id),
    ground arith,
    ground arith,
  )

  pub start_session_ok :
      (s : Session) × (session_of (start_session u ttl w).1 a.token ≡ some s)
      × (s.user_id ≡ u.id)
      × (s.expires_at ≡ a.expires_at)
      × (a.user ≡ u)
  start_session_ok =
      let (id, token, x, y) = start_session_values in
      let (db, fresh, made_of, env) = start_session_rows id token x y in
      (
        made id token,
        rw (db, env, made_of)
            (find-fresh (made id token).token_hash (made id token) w.db.sessions refl fresh),
        refl,
        rw made_of refl,
        rw made_of refl,
      )

module _ (s : Config) (input : LoginInput) (w : World) {a : AuthSession} {w' : World}
    (h : login s input w ≡ (ok a, w')) where
  abbrev row : Option User
  row = find_where (has_email (normalize_email input.email)) w.db.users

  login_found : row ≢ none
  unfolding login find_by_email
  login_found e = ground arith

  login_checks :
      (u : User)
      → row ≡ some u
      → (u.disabled ≡ false)
        × ((u.auth_source == "local") ≡ true)
        × (verifies s input.password u.password_hash w.env ≡ ok true)
  unfolding login find_by_email
  login_checks u e = (ground arith, ground arith, ground arith)

  login_session : (u : User) → row ≡ some u → start_session u s.session_ttl (called w) ≡ (ok a, w')
  unfolding login find_by_email
  login_session u e = ground arith

-- A login that succeeds found an account under the normalised address that is local and not disabled
-- and whose password hash verifies the password. It answers with that account, and its token names a
-- stored session of the account that ends when the answer says.
pub login_ok :
    (s : Config) (input : LoginInput) (w : World) {a : AuthSession} {w' : World}
    → login s input w ≡ (ok a, w')
    → (find_where (has_email (normalize_email input.email)) w.db.users ≡ some a.user)
      × (a.user.disabled ≡ false)
      × (a.user.auth_source ≡ "local")
      × (verifies s input.password a.user.password_hash w.env ≡ ok true)
      × (r : Session) × (session_of w' a.token ≡ some r)
      × (r.user_id ≡ a.user.id)
      × (r.expires_at ≡ a.expires_at)
login_ok s input w {a = a} {w' = w'} h =
    elim (Option-cases (find_where (has_email (normalize_email input.email)) w.db.users)) [
      | inl e ↦ absurd (login_found s input w h e)
      | inr (u, e) ↦
          let (enabled, source, verified) = login_checks s input w h u e in
          let started = login_session s input w h u e in
          let (r, named, user, ends, same) =
            start_session_ok u s.session_ttl (called w) (ap (λ x. x.0) started) in
          rw same (
            e,
            enabled,
            (==_iff u.auth_source "local").0 source,
            verified,
            r,
            subst (λ x. session_of x a.token ≡ some r) (ap (λ x. x.1) started) named,
            user,
            ends,
          )
    ]
