-- ===== src/Office/Token.antt =====
-- The WOPI tokens of backend/internal/office/service.go: a JSON web token under HMAC-SHA-256.
use Prim.Native.String.{String, ◌++◌ as push_str, len}
use online_colab_document.Base.{
  ℕ, ◌+◌, ◌*◌, ◌/◌, ◌^◌, ℤ, pos, negsuc, List, [], ◌∷◌, Option, none, some, Bool, true, ◌||◌, not,
  leb, ltb, ◌==◌, if◌then◌else◌,
}
use online_colab_document.Model.User.{User}
use online_colab_document.Model.Office.{WopiClaims, Config}
use online_colab_document.World.{
  Env, M, pure, throw, ◌>>=◌, ◌>>◌, reject_if, now, ok, office_forbidden, office_unsupported_file,
}
use online_colab_document.Encoding.Bytes.{utf8, same_bytes}
use online_colab_document.Encoding.Base64.{url_alphabet, encode, decode}
use online_colab_document.Encoding.Split.{split, join}

-- `t.Unix()`, of a time in nanoseconds.
abbrev pub unix : ℕ → ℕ
unix t = t / 10 ^ 9

-- 15 minutes.
abbrev pub token_ttl : ℕ
token_ttl = 900 * 10 ^ 9

abbrev pub header_json : String
header_json = "{\"alg\":\"HS256\",\"typ\":\"JWT\"}"

abbrev pub signature_of : Env → String → String → List ℕ
signature_of env secret signing = env.hmac_sha256 (utf8 secret) (utf8 signing)

abbrev pub signing_text : String → String → String
signing_text header payload = push_str header (push_str "." payload)

unfoldable pub sign_jwt : Env → String → WopiClaims → String
sign_jwt env secret claims =
    let header = encode url_alphabet (utf8 header_json) in
    let payload = encode url_alphabet (env.claims_json claims) in
    join "." (
      header
      ∷ payload
      ∷ encode url_alphabet (signature_of env secret (signing_text header payload))
      ∷ [])

-- `json.Unmarshal` of the payload and the test of the two fields.
abbrev pub checked_claims : Option WopiClaims → Option WopiClaims
checked_claims none = none
checked_claims (some c) = if c.subject == "" || c.file_id == "" then none else some c

abbrev pub parsed_claims : Env → Option (List ℕ) → Option WopiClaims
parsed_claims env none = none
parsed_claims env (some payload) = checked_claims (env.parse_claims payload)

abbrev pub check_signature : Env → String → String → String → Option (List ℕ) → Option WopiClaims
check_signature env secret header payload none = none
check_signature env secret header payload (some got) =
    if same_bytes got (signature_of env secret (signing_text header payload))
    then parsed_claims env (decode url_alphabet payload)
    else none

abbrev pub check_token : Env → String → List String → Option WopiClaims
check_token env secret (header ∷ payload ∷ signature ∷ []) =
    if ltb (len secret) 16
    then none
    else check_signature env secret header payload (decode url_alphabet signature)
check_token env secret parts = none

-- Every error is `ErrForbidden`.
unfoldable pub verify_jwt : Env → String → String → Option WopiClaims
verify_jwt env secret token = check_token env secret (split b'.' token)

-- `a <= b`.
abbrev pub not_after : ℤ → ℕ → Bool
not_after (pos n) t = leb n t
not_after (negsuc n) t = true

abbrev pub permissions_of : String → List String
permissions_of role = if role == "editor" then "read" ∷ "write" ∷ [] else "read" ∷ []

abbrev pub claims_for : User → String → String → String → ℕ → WopiClaims
claims_for u file_id role kind t = record {
  subject = u.id;
  display_name = u.display_name;
  file_id = file_id;
  role = role;
  permissions = permissions_of role;
  kind = kind;
  expires_at = pos (unix (t + token_ttl));
}

unfoldable pub mint_wopi_token : Config → User → String → String → String → M String
mint_wopi_token cfg u file_id role kind = do
  reject_if (ltb (len cfg.jwt_secret) 16) office_unsupported_file
  t ← now
  λ w. (ok (sign_jwt w.env cfg.jwt_secret (claims_for u file_id role kind t)), w)

-- The clock is read only if the file id is the token's.
abbrev pub unexpired : String → Option WopiClaims → M WopiClaims
unexpired file_id none = throw office_forbidden
unexpired file_id (some c) =
    if not (c.file_id == file_id)
    then throw office_forbidden
    else now >>= λ t. if not_after c.expires_at (unix t) then throw office_forbidden else pure c

unfoldable pub verify_wopi_token : Config → String → String → M WopiClaims
verify_wopi_token cfg token file_id w = unexpired file_id (verify_jwt w.env cfg.jwt_secret token) w
