-- ===== src/Oidc/Routes.antt =====
-- What the callback's route answers.
use online_colab_document.Base.{
  ℕ, suc, String, Option, some, true, false, ◌==◌, ◌≡◌, ◌≢◌, arith, ==_iff, inl, inr, find_where,
}
use online_colab_document.Model.User.{User, Session}
use online_colab_document.World.{World, ok, called}
use online_colab_document.World.Laws.{Result-cases, returned}
use online_colab_document.Local.Repository.{has_subject}
use online_colab_document.Local.Service.{AuthSession}
use online_colab_document.Local.Sessions.{session_of}
use online_colab_document.Http.Response.{Request, AuditRecorder, done}
use online_colab_document.Oidc.Service.{Service, Provider, Profile, provider}
use online_colab_document.Oidc.Service
use online_colab_document.Oidc.Accounts.{UniqueUsers, Outcome}
use online_colab_document.Oidc.Callback.{Vouches, callback_ok}
use online_colab_document.Oidc.Handler.{LoggedIn, CallbackQuery, callback}

-- The moment after the service's callback.
abbrev pub finished : Service → ℕ → CallbackQuery → World → World
finished s ttl q w = (Service.callback s q.code q.nonce_cookie ttl w).1

module _ (s : Service) (ttl : ℕ) (location : String) (recorder : Option AuditRecorder) (r : Request)
    (q : CallbackQuery) (w : World) {status : ℕ} {a : LoggedIn} {w' : World}
    (h : callback s ttl location recorder r q w ≡ (done status a, w')) where
  callback-states : ((q.state == "") ≡ false) × ((q.state == q.state_cookie) ≡ true)
  unfolding callback
  callback-states = (ground arith, ground arith)

  callback-session :
      (x : AuthSession) × (Service.callback s q.code q.nonce_cookie ttl w
        ≡ (ok x, finished s ttl q w))
  unfolding callback
  callback-session = elim (Result-cases (Service.callback s q.code q.nonce_cookie ttl w).0) [
    | inl (x, e) ↦ (x, returned (Service.callback s q.code q.nonce_cookie ttl) w e)
    | inr (x, e) ↦ absurd (ground arith)
  ]

  callback-token :
      (x : AuthSession)
      → Service.callback s q.code q.nonce_cookie ttl w ≡ (ok x, finished s ttl q w)
      → (a.token ≡ x.token) × (a.expires_at ≡ x.expires_at)
  unfolding callback
  callback-token x e = (ground arith, ground arith)

-- A login through the provider that the route lets in comes back with the state of its own cookie,
-- and rests on a profile that the provider vouches for with the nonce of its own cookie. The token
-- of the answer's cookie names a stored session, which ends with the cookie, of an account that is
-- not disabled and has the subject of the profile.
pub callback_done :
    (s : Service) (ttl : ℕ) (location : String) (recorder : Option AuditRecorder) (r : Request)
    (q : CallbackQuery) (w : World) {status : ℕ} {a : LoggedIn} {w' : World}
    → UniqueUsers w.db.users
    → callback s ttl location recorder r q w ≡ (done status a, w')
    → (q.state ≢ "")
      × (q.state ≡ q.state_cookie)
      × (p : Provider) × (profile : Profile) × (provider s w ≡ (ok p, called w))
      × Vouches p q.code q.nonce_cookie (suc w.calls) profile
      × (u : User) × (v : World) × (find_where (has_subject profile.subject) v.db.users ≡ some u)
      × (u.disabled ≡ false)
      × Outcome s.cfg profile w u v
      × (x : Session) × (session_of (finished s ttl q w) a.token ≡ some x)
      × (x.user_id ≡ u.id)
      × (x.expires_at ≡ a.expires_at)
callback_done s ttl location recorder r q w unique h =
    let (named, same) = callback-states s ttl location recorder r q w h in
    let (x, e) = callback-session s ttl location recorder r q w h in
    let (token, ends) = callback-token s ttl location recorder r q w h x e in
    let (p, profile, asked, vouched, v, found, enabled, outcome, row, stored, owner, expires) =
      callback_ok s q.code q.nonce_cookie ttl w unique e in
    (
      λ k. ground (arith, ==_iff q.state ""),
      (==_iff q.state q.state_cookie).0 same,
      p,
      profile,
      asked,
      vouched,
      x.user,
      v,
      found,
      enabled,
      outcome,
      row,
      rw token stored,
      owner,
      rw ends expires,
    )
