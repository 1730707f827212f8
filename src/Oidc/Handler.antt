-- ===== src/Oidc/Handler.antt =====
-- backend/internal/auth/oidc/handler.go. Every answer of the callback, but that to an error of the
-- provider, also expires the two cookies of the login.
use online_colab_document.Base.{
  ℕ, ◌+◌, ◌*◌, ◌^◌, String, [], ◌∷◌, Option, none, some, not, ◌||◌, ◌==◌, if◌then◌else◌,
}
use online_colab_document.World.{
  Error, oidc_disabled, invalid_state, invalid_token, invalid_credentials, email_conflict, now,
}
use online_colab_document.Http.Response.{
  Handler, Request, AuditRecorder, respond, refuse, serve, record_audit, audit_input,
}
use online_colab_document.Oidc.Service.{Service, login_url, new_state_token, new_nonce}
use online_colab_document.Oidc.Service

-- `writeAuthError`.
abbrev pub status_of : Error → ℕ × String
status_of oidc_disabled = (404, "oidc disabled")
status_of invalid_state = (400, "invalid oidc state")
status_of invalid_token = (401, "oidc login failed")
status_of invalid_credentials = (401, "oidc login failed")
status_of email_conflict = (409, "email already registered")
status_of e = (500, "internal server error")

-- A redirection with the cookies of a login that has begun.
pub record Begun : Type 0 where
  pub location : String
  pub state : String
  pub nonce : String
  pub expires : ℕ

-- 10 minutes.
abbrev transient_ttl : ℕ
transient_ttl = 600 * 10 ^ 9

unfoldable pub login : Service → Handler Begun
login s = serve status_of new_state_token λ state. serve status_of new_nonce λ nonce.
    serve status_of (login_url s state nonce) λ location. serve status_of now λ t.
      respond 302
        (record { location = location; state = state; nonce = nonce; expires = t + transient_ttl })

-- A redirection with the cookie of the new session.
pub record LoggedIn : Type 0 where
  pub location : String
  pub token : String
  pub expires_at : ℕ

abbrev or_documents : Option String → String
or_documents none = "/documents"
or_documents (some url) = url

-- `documents_at` is what `net/url` makes of an address once its path is `/documents`, none if it does
-- not parse.
unfoldable pub redirect_url : (String → Option String) → String → String
redirect_url documents_at frontend =
    if frontend == "" then "/documents" else or_documents (documents_at frontend)

-- What the callback reads of its request: the query, and the two cookies, empty where missing.
pub record CallbackQuery : Type 0 where
  pub error : String
  pub state : String
  pub code : String
  pub state_cookie : String
  pub nonce_cookie : String

unfoldable pub callback :
    Service → ℕ → String → Option AuditRecorder → Request → CallbackQuery → Handler LoggedIn
callback s session_ttl location recorder r q =
    if not (q.error == "")
    then refuse 401 "oidc login failed"
    else if q.state == "" || (q.state_cookie == "" || not (q.state == q.state_cookie))
    then refuse 400 "invalid oidc state"
    else serve status_of (Service.callback s q.code q.nonce_cookie session_ttl) λ a.
      record_audit recorder r
        (audit_input a.user "auth.login" "user" a.user.id (("authSource", "oidc") ∷ []))
        (respond 302 (record { location = location; token = a.token; expires_at = a.expires_at }))
