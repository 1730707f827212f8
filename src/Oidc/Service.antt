-- ===== src/Oidc/Service.antt =====
-- backend/internal/auth/oidc/service.go. The provider is an argument: how it answers each outside
-- call, by the call's number.
use online_colab_document.Base.{
  ℕ, String, Option, none, some, Bool, false, not, ◌||◌, ◌==◌, if◌then◌else◌,
}
use online_colab_document.Text.{trim_space, to_lower}
use online_colab_document.Model.User.{User}
use online_colab_document.World.{
  Error, oidc_disabled, invalid_state, invalid_token, email_conflict, provider_failed,
  invalid_credentials, user_not_found, email_already_used, Result, ok, err, M, pure, throw, ◌>>=◌,
  ◌>>◌, attempt, reject_if, now, called,
}
use online_colab_document.Uuid.{new_uuid, new_token}
use online_colab_document.Local.Repository.{
  create, find_by_email, find_by_oidc_subject, set_oidc_subject,
}
use online_colab_document.Local.Service.{AuthSession, start_session}

pub record IdToken : Type 0 where
  pub subject : String
  pub nonce : String

pub record Profile : Type 0 where
  pub subject : String
  pub email : String
  pub display_name : String

-- What the code reads of an `oauth2.Token`: the access token and the extra field `id_token`, none if
-- that is no text.
pub record Token : Type 0 where
  pub access_token : String
  pub id_token : Option String

-- `OAuthClient`, `TokenVerifier` and `UserInfoFetcher`; none for an error.
pub record Provider : Type 0 where
  pub auth_code_url : String → String → String
  pub exchange : ℕ → String → Option Token
  pub verify : ℕ → String → Option IdToken
  pub fetch : ℕ → Token → Option Profile

pub record Config : Type 0 where
  pub enabled : Bool
  pub auto_merge_by_email : Bool

-- The factory's answers, none for a nil factory.
pub record Service : Type 0 where
  pub cfg : Config
  pub provider_factory : Option (ℕ → Option Provider)

abbrev answered : {A : Type 0} → Error → Option A → M A
answered e none = throw e
answered e (some a) = pure a

-- A call of the provider.
abbrev pub ask : {A : Type 0} → Error → (ℕ → Option A) → M A
ask e answers w = answered e (answers w.calls) (called w)

abbrev from_factory : Option (ℕ → Option Provider) → M Provider
from_factory none = throw provider_failed
from_factory (some factory) = ask provider_failed factory

unfoldable pub provider : Service → M Provider
provider s = from_factory s.provider_factory

unfoldable pub login_url : Service → String → String → M String
unfolding provider
login_url s state nonce = do
  reject_if (not s.cfg.enabled) oidc_disabled
  p ← provider s
  pure (p.auth_code_url state nonce)

abbrev or_text : String → String → String
or_text s fallback = if s == "" then fallback else s

unfoldable pub normalize_profile : Profile → String → Profile
normalize_profile p subject =
    let email = to_lower (trim_space p.email) in
    record {
      subject = or_text (trim_space p.subject) subject;
      email = email;
      display_name = or_text (trim_space p.display_name) email;
    }

-- `errors.Is(err, local.ErrUserNotFound)`.
abbrev if_missing : {A : Type 0} → Result User → (User → M A) → M A → M A
if_missing (ok u) found missing = found u
if_missing (err user_not_found) found missing = missing
if_missing (err e) found missing = throw e

abbrev created_or_conflict : Result (Unit {0}) → M (Unit {0})
created_or_conflict (ok u) = pure tt
created_or_conflict (err email_already_used) = throw email_conflict
created_or_conflict (err e) = throw e

abbrev pub new_user : String → Profile → ℕ → User
new_user id p t = record {
  id = id;
  email = p.email;
  display_name = p.display_name;
  avatar_key = none;
  password_hash = none;
  auth_source = "oidc";
  oidc_subject = some p.subject;
  is_admin = false;
  disabled = false;
  created_at = t;
  updated_at = t;
}

unfoldable pub create_oidc_user : Profile → M User
create_oidc_user p = do
  id ← new_uuid
  t ← now
  created ← attempt (create (new_user id p t))
  created_or_conflict created
  pure (new_user id p t)

unfoldable pub merge_by_email : Config → Profile → User → M User
merge_by_email cfg p existing = do
  reject_if (not cfg.auto_merge_by_email) email_conflict
  reject_if existing.disabled invalid_credentials
  set_oidc_subject existing.id p.subject

unfoldable pub upsert_oidc_user : Config → Profile → M User
unfolding merge_by_email create_oidc_user
upsert_oidc_user cfg p = do
  by_subject ← attempt (find_by_oidc_subject p.subject)
  if_missing by_subject (λ u. reject_if u.disabled invalid_credentials >> pure u)
      do
        by_email ← attempt (find_by_email p.email)
        if_missing by_email (merge_by_email cfg p) (create_oidc_user p)

abbrev raw_id_token : Option String → M String
raw_id_token none = throw invalid_token
raw_id_token (some raw) = reject_if (raw == "") invalid_token >> pure raw

-- What the provider says of the user who comes back with this code.
unfoldable pub identify : Provider → String → String → M Profile
unfolding normalize_profile
identify p code nonce = do
  token ← ask provider_failed (λ n. p.exchange n code)
  raw ← raw_id_token token.id_token
  id_token ← ask invalid_token (λ n. p.verify n raw)
  reject_if (not (id_token.nonce == nonce)) invalid_token
  fetched ← ask provider_failed (λ n. p.fetch n token)
  let profile = normalize_profile fetched id_token.subject
  reject_if (profile.subject == "" || profile.email == "") invalid_token
  pure profile

-- `createSession` is, step by step, the end of a local login.
unfoldable pub callback : Service → String → String → ℕ → M AuthSession
unfolding provider identify upsert_oidc_user
callback s code nonce session_ttl = do
  reject_if (not s.cfg.enabled) oidc_disabled
  reject_if (code == "" || nonce == "") invalid_state
  p ← provider s
  profile ← identify p code nonce
  u ← upsert_oidc_user s.cfg profile
  start_session u session_ttl

unfoldable pub new_state_token : M String
new_state_token = new_token

unfoldable pub new_nonce : M String
new_nonce = new_token
