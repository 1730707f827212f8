-- ===== src/World.antt =====
-- What the services run against, and how they run: the database's tables, the object store, and an
-- environment that answers each outside call, as a state that an operation passes on.
pub mod Laws
use online_colab_document.Base.{
  ℕ, suc, ◌%◌, ◌≡◌, refl, String, List, Option, none, some, Bool, true, false, if◌then◌else◌,
}
use online_colab_document.Model.User.{User, Session}
use online_colab_document.Model.Document.{Document, Version}
use online_colab_document.Model.Permission.{Permission}
use online_colab_document.Model.Share.{Link}
use online_colab_document.Model.Collab.{Snapshot, Update, Hub}
use online_colab_document.Model.Audit.{Log}
use online_colab_document.Model.Office.{WopiClaims}

-- The sentinel errors of the packages, prefixed by the package where two share a name. Every other
-- error, wrapped by `fmt.Errorf`, is `internal`: no caller tells those apart.
pub data Error : Type 0 where
  -- A run-time panic.
  internal panic : Error
  permission_forbidden permission_invalid_input permission_not_found : Error
  document_forbidden document_not_found invalid_file file_too_large unsupported_type : Error
  share_forbidden share_invalid_input share_not_found share_expired share_disabled : Error
  share_unsupported_file : Error
  collab_forbidden collab_not_found collab_unsupported_file : Error
  office_forbidden office_unsupported_file office_too_large : Error
  local_invalid_input invalid_credentials unauthenticated password_unsupported : Error
  session_forbidden current_session user_not_found email_already_used session_not_found : Error
  oidc_disabled invalid_state invalid_token email_conflict provider_failed : Error

-- A Go result `(A, error)` of which a caller reads the value only if the error is nil.
pub data Result {ℓ} (A : Type ℓ) : Type ℓ where
  ok : A → Result A
  err : Error → Result A

-- What lies outside the code. Outside calls are numbered; `fault n` says that call n fails,
-- `time n` is the clock at call n, and `byte n i` is byte i that `rand.Read` gives at call n.
pub record Env : Type 0 where
  pub fault : ℕ → Bool
  pub time : ℕ → ℕ
  pub byte : ℕ → ℕ → ℕ
  -- The hexadecimal and the base64 digest of SHA-256.
  pub sha256_hex : String → String
  pub sha256_base64 : String → String
  -- The HMAC-SHA-256 of a message under a key, as bytes.
  pub hmac_sha256 : List ℕ → List ℕ → List ℕ
  -- `json.Marshal` and `json.Unmarshal` of the claims of an office token.
  pub claims_json : WopiClaims → List ℕ
  pub parse_claims : List ℕ → Option WopiClaims
  -- Whether the database's collation puts one text before another.
  pub collates : String → String → Bool
  -- The text that the database shows of the UUID that a text denotes to it, in letters of either case;
  -- none for a text that it refuses as a UUID.
  pub uuid_text : String → Option String
  -- A time in the format `time.RFC3339Nano`.
  pub rfc3339_nano : ℕ → String
  -- `http.DetectContentType`, and `mime.ParseMediaType`'s media type.
  pub detect_content_type : String → String
  pub parse_media_type : String → Option String

-- The tables of backend/migrations.
pub record Db : Type 0 where
  pub users : List User
  pub sessions : List Session
  pub documents : List Document
  pub versions : List Version
  pub permissions : List Permission
  pub links : List Link
  pub snapshots : List Snapshot
  pub updates : List Update
  pub logs : List Log

-- An object of the bucket; its data is a text, whose length is counted in bytes.
pub record Object : Type 0 where
  pub key : String
  pub body : String
  pub content_type : String

pub record World : Type 0 where
  pub env : Env
  pub calls : ℕ
  pub db : Db
  pub objects : List Object
  -- `ensureOnce` has run, and `ensureErr` is not nil.
  pub bucket_exists : Bool
  pub ensured : Bool
  pub ensure_err : Bool
  pub hub : Hub

abbrev pub M {ℓ} : Type ℓ → Type ℓ
M A = World → Result A × World

abbrev pub pure {ℓ} : {A : Type ℓ} → A → M A
pure a w = (ok a, w)

abbrev pub throw {ℓ} : {A : Type ℓ} → Error → M A
throw e w = (err e, w)

abbrev pub continue {ℓ κ} :
    {A : Type ℓ} {B : Type κ} → Result A × World → (A → M B) → Result B × World
continue (ok a, w) f = f a w
continue (err e, w) f = (err e, w)

infixl 5 ◌>>=◌ ◌>>◌
abbrev pub ◌>>=◌ {ℓ κ} : {A : Type ℓ} {B : Type κ} → M A → (A → M B) → M B
◌>>=◌ m f w = continue (m w) f

abbrev pub ◌>>◌ {ℓ κ} : {A : Type ℓ} {B : Type κ} → M A → M B → M B
m >> k = m >>= λ _. k

abbrev attempted {ℓ} : {A : Type ℓ} → Result A × World → Result (Result A) × World
attempted (r, w) = (ok r, w)

-- The result of a call that the caller inspects, error included.
abbrev pub attempt {ℓ} : {A : Type ℓ} → M A → M (Result A)
attempt m w = attempted (m w)

-- `if test { return err }`.
abbrev pub reject_if : Bool → Error → M (Unit {0})
reject_if true e = throw e
reject_if false e = pure tt

abbrev pub called : World → World
called w = record w { calls = suc w.calls }

-- An outside call that may fail.
abbrev pub call : M (Unit {0})
call w = if w.env.fault w.calls then (err internal, called w) else (ok tt, called w)

abbrev pub lift {ℓ} : {A : Type ℓ} → Result A → M A
lift r w = (r, w)

-- One SQL query.
abbrev pub query {ℓ} : {A : Type ℓ} → (Db → Result A) → M A
query read = call >> λ w. (read w.db, w)

abbrev pub committed : Db → Result Db → World → Result (Unit {0}) × World
committed old (ok db) w = (ok tt, record w { db = db })
committed old (err e) w = (err e, w)

-- One SQL statement outside a transaction: a statement that fails changes nothing.
abbrev pub exec : (Db → Result Db) → M (Unit {0})
exec write = call >> λ w. committed w.db (write w.db) w

-- `s.now()`.
abbrev pub now : M ℕ
now w = (ok (w.env.time w.calls), called w)
