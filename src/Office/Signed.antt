-- ===== src/Office/Signed.antt =====
-- Which tokens `verifyWOPIToken` accepts: those that `mintWOPIToken` made, and what an accepted one
-- says.
use Prim.Native.String.{String, len}
use online_colab_document.Base.{
  ℕ, ◌+◌, ◌≤◌, List, [], ◌∷◌, some, true, false, ◌&&◌, ◌||◌, ltb, ◌==◌, ==_iff, if◌then◌else◌, ◌≡◌,
  ◌≢◌, refl, arith, Option-cases, inl, inr,
}
use online_colab_document.Model.User.{User}
use online_colab_document.Model.Office.{WopiClaims, Config}
use online_colab_document.World.{Env, World, ok, err, called, office_forbidden}
use online_colab_document.Encoding.Bytes.{
  utf8, same_bytes, same_bytes_refl, same_bytes-≡, lacks, AllBelow,
}
use online_colab_document.Encoding.Base64.{sextets, url_alphabet, encode, decode}
use online_colab_document.Encoding.Split.{split, join, split_three}
use online_colab_document.Encoding.RoundTrip.{decode-encode, lacks-encode, url_IsAlphabet}
use online_colab_document.Office.Token.{
  unix, token_ttl, header_json, signature_of, signing_text, check_token, sign_jwt, verify_jwt,
  not_after, claims_for, mint_wopi_token, verify_wopi_token,
}

-- What the two outside functions are to be: a digest is bytes, and claims are read back from the
-- bytes that they are written as.
pub record IsCodec (env : Env) (c : WopiClaims) : Type 0 where
  pub digests : (key message : List ℕ) → AllBelow 256 (env.hmac_sha256 key message)
  pub written : AllBelow 256 (env.claims_json c)
  pub read_back : env.parse_claims (env.claims_json c) ≡ some c

lacks-header : lacks b'.' (encode url_alphabet (utf8 header_json)) ≡ true
unfolding lacks encode utf8 sextets
lacks-header = refl

module _ (env : Env) (secret : String) (c : WopiClaims) (is : IsCodec env c) where
  abbrev header : String
  header = encode url_alphabet (utf8 header_json)

  abbrev payload : String
  payload = encode url_alphabet (env.claims_json c)

  abbrev mac : List ℕ
  mac = signature_of env secret (signing_text header payload)

  split-sign_jwt :
      split b'.' (sign_jwt env secret c) ≡ header ∷ payload ∷ encode url_alphabet mac ∷ []
  unfolding sign_jwt join
  split-sign_jwt =
      split_three "." header payload (encode url_alphabet mac) lacks-header
        (lacks-encode url_alphabet b'.' url_IsAlphabet (env.claims_json c) is.written)
        (lacks-encode url_alphabet b'.' url_IsAlphabet mac (is.digests _ _))

  check_token-signed :
      ltb (len secret) 16 ≡ false
      → (c.subject == "" || c.file_id == "") ≡ false
      → check_token env secret (header ∷ payload ∷ encode url_alphabet mac ∷ []) ≡ some c
  check_token-signed long named =
      rw
        (
          long,
          decode-encode url_alphabet b'.' url_IsAlphabet mac (is.digests _ _),
          same_bytes_refl mac,
          decode-encode url_alphabet b'.' url_IsAlphabet (env.claims_json c) is.written,
          is.read_back,
          named,
        )
        refl

  -- A token that was signed with a long enough secret is read back, if it names a user and a file.
  pub sign_jwt-verify_jwt :
      16 ≤ len secret
      → c.subject ≢ ""
      → c.file_id ≢ ""
      → verify_jwt env secret (sign_jwt env secret c) ≡ some c
  unfolding verify_jwt
  sign_jwt-verify_jwt long subject file =
      rw split-sign_jwt (
        check_token-signed (ground arith)
          (ground (arith, ==_iff c.subject "", ==_iff c.file_id "")))

-- A token that was minted for a user and a file is accepted, under the same secret and at any later
-- moment, exactly for that file and before the second in which the 15 minutes end; what is accepted
-- then are the claims that were minted, and every refusal is `ErrForbidden`.
pub mint-verify :
    (cfg : Config) (u : User) (file_id role kind : String) (w : World) {token : String} {w' : World}
    → mint_wopi_token cfg u file_id role kind w ≡ (ok token, w')
    → IsCodec w.env (claims_for u file_id role kind (w.env.time w.calls))
    → u.id ≢ ""
    → file_id ≢ ""
    → (v : World) → v.env ≡ w.env
    → (asked : String)
    → (verify_wopi_token cfg token asked v).0 ≡ (
        if file_id == asked
          && ltb (unix (v.env.time v.calls)) (unix (w.env.time w.calls + token_ttl))
        then ok (claims_for u file_id role kind (w.env.time w.calls))
        else err office_forbidden)
unfolding mint_wopi_token verify_wopi_token
mint-verify cfg u file_id role kind w {token} {w'} minted is named file v same asked =
    let c = claims_for u file_id role kind (w.env.time w.calls) in
    let long : 16 ≤ len cfg.jwt_secret = ground arith in
    let signed : token ≡ sign_jwt w.env cfg.jwt_secret c = ground arith in
    let read = sign_jwt-verify_jwt w.env cfg.jwt_secret c is long named file in
    rw (signed, same, read) (ground arith)

-- The token's parts carry claims under a digest by the secret.
abbrev pub IsSigned : Env → String → List String → WopiClaims → Type 0
IsSigned env secret parts c =
    (header payload signature : String) × (bytes : List ℕ) × (parts
      ≡ header ∷ payload ∷ signature ∷ [])
    × (16 ≤ len secret)
    × (decode url_alphabet signature ≡ some (signature_of env secret (signing_text header payload)))
    × (decode url_alphabet payload ≡ some bytes)
    × (env.parse_claims bytes ≡ some c)
    × (c.subject ≢ "")

module _ (env : Env) (secret header payload signature : String) {c : WopiClaims}
    (h : check_token env secret (header ∷ payload ∷ signature ∷ []) ≡ some c) where
  check_token-decodes :
      (got bytes : List ℕ) × (decode url_alphabet signature ≡ some got)
      × (decode url_alphabet payload ≡ some bytes)
  check_token-decodes = elim (Option-cases (decode url_alphabet signature)) [
    | inl e ↦ absurd (ground arith)
    | inr (got, e) ↦ elim (Option-cases (decode url_alphabet payload)) [
      | inl f ↦ absurd (ground arith)
      | inr (bytes, f) ↦ (got, bytes, e, f)
    ]
  ]

  module _ (got bytes : List ℕ) (e : decode url_alphabet signature ≡ some got)
      (f : decode url_alphabet payload ≡ some bytes) where
    check_token-same : same_bytes got (signature_of env secret (signing_text header payload)) ≡ true
    check_token-same = ground arith

    check_token-parsed : env.parse_claims bytes ≡ some c
    check_token-parsed = ground arith

    check_token-subject : (c.subject == "") ≡ false
    check_token-subject = ground arith

  check_token-IsSigned : IsSigned env secret (header ∷ payload ∷ signature ∷ []) c
  check_token-IsSigned =
      let (got, bytes, e, f) = check_token-decodes in
      let same = same_bytes-≡ got _ (check_token-same got bytes e f) in
      let named = check_token-subject got bytes e f in
      (
        header,
        payload,
        signature,
        bytes,
        refl,
        ground arith,
        rw (← same) e,
        f,
        check_token-parsed got bytes e f,
        λ k. ground (arith, ==_iff c.subject ""),
      )

check_token_ok :
    (env : Env) (secret : String) (parts : List String) {c : WopiClaims}
    → check_token env secret parts ≡ some c
    → IsSigned env secret parts c
check_token_ok env secret (a ∷ b ∷ d ∷ []) h = check_token-IsSigned env secret a b d h
check_token_ok env secret [] h = absurd (ground arith)
check_token_ok env secret (a ∷ []) h = absurd (ground arith)
check_token_ok env secret (a ∷ b ∷ []) h = absurd (ground arith)
check_token_ok env secret (a ∷ b ∷ d ∷ x ∷ xs) h = absurd (ground arith)

-- What an accepted token is: three parts, of which the last is the digest of the other two under the
-- secret, of 16 bytes at least, and the second the claims; they name a user and the file that was
-- asked for, and have not expired.
pub verify_wopi_token_ok :
    (cfg : Config) (token file_id : String) (w : World) {c : WopiClaims} {w' : World}
    → verify_wopi_token cfg token file_id w ≡ (ok c, w')
    → IsSigned w.env cfg.jwt_secret (split b'.' token) c
      × (c.file_id ≡ file_id)
      × (not_after c.expires_at (unix (w.env.time w.calls)) ≡ false)
      × (w' ≡ called w)
unfolding verify_wopi_token
verify_wopi_token_ok cfg token file_id w {c = c} h =
    let found : verify_jwt w.env cfg.jwt_secret token ≡ some c = ground arith in
    (
      check_token_ok w.env cfg.jwt_secret (split b'.' token) (unfold verify_jwt in found),
      ground (arith, ==_iff c.file_id file_id),
      ground arith,
      ground arith,
    )
