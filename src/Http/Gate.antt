-- ===== src/Http/Gate.antt =====
-- What stands before a route for administrators.
use online_colab_document.Base.{
  ℕ, suc, ◌<◌, String, Option, none, some, true, false, ◌≡◌, ◌≢◌, arith, Option-cases, inl, inr,
}
use online_colab_document.Model.User.{User, Session}
use online_colab_document.World.{World, ok}
use online_colab_document.World.Laws.{Result-cases, returned}
use online_colab_document.Local.Service.{current_user}
use online_colab_document.Local.Sessions.{session_of, user_of, current_user_ok}
use online_colab_document.Http.Response.{Handler, done}
use online_colab_document.Http.Middleware.{require_auth, require_admin}

module _ {A : Type 0} (next : Option User → Handler A) (cookie : Option String) (w : World)
    {status : ℕ} {a : A} {w' : World}
    (h : require_admin current_user cookie next w ≡ (done status a, w')) where
  admin-token : cookie ≢ none
  unfolding require_admin require_auth
  admin-token e = ground arith

  module _ (token : String) (e : cookie ≡ some token) where
    admin-user : (u : User) × ((current_user token w).0 ≡ ok u)
    unfolding require_admin require_auth
    admin-user = elim (Result-cases (current_user token w).0) [
      | inl found ↦ found
      | inr (x, failed) ↦ absurd (ground arith)
    ]

    module _ (u : User) (f : (current_user token w).0 ≡ ok u) where
      admin-is_admin : u.is_admin ≡ true
      unfolding require_admin require_auth
      admin-is_admin = ground arith

      admin-next : next (some u) (current_user token w).1 ≡ (done status a, w')
      unfolding require_admin require_auth
      admin-next = ground arith

-- An answer of a route for administrators that is no refusal was given for a request whose cookie
-- names a session of the tables that has not expired, of an account that is an administrator and is
-- not disabled, and is the answer of the route's handler for that account.
pub require_admin_ok :
    {A : Type 0} (next : Option User → Handler A) (cookie : Option String) (w : World) {status : ℕ}
    {a : A} {w' : World}
    → require_admin current_user cookie next w ≡ (done status a, w')
    → (token : String) × (cookie ≡ some token)
      × (s : Session) × (session_of w token ≡ some s)
      × (w.env.time (suc w.calls) < s.expires_at)
      × (u : User) × (user_of w s.user_id ≡ some u)
      × (u.disabled ≡ false)
      × (u.is_admin ≡ true)
      × (next (some u) (current_user token w).1 ≡ (done status a, w'))
require_admin_ok next cookie w h = elim (Option-cases cookie) [
  | inl e ↦ absurd (admin-token next cookie w h e)
  | inr (token, e) ↦
      let (u, f) = admin-user next cookie w h token e in
      let (s, session, live, row, enabled) =
        current_user_ok token w (returned (current_user token) w f) in
      (
        token,
        e,
        s,
        session,
        live,
        u,
        row,
        enabled,
        admin-is_admin next cookie w h token e u f,
        admin-next next cookie w h token e u f,
      )
]
