-- ===== src/Office/Editor.antt =====
-- The addresses of the editors of backend/internal/office/service.go.
use Prim.Native.String.{String, ◌++◌}
use online_colab_document.Base.{
  ℕ, List, [], ◌∷◌, Option, none, some, Bool, not, ◌||◌, ◌==◌, if◌then◌else◌,
}
use online_colab_document.Text.{trim_right, trim_prefix, has_prefix, is_slash, to_lower, equal_fold}
use online_colab_document.Model.Document.{Document}
use online_colab_document.Model.Office.{WopiClaims, Config}
use online_colab_document.World.{Env}
use online_colab_document.Encoding.Bytes.{utf8}
use online_colab_document.Encoding.Base64.{url_alphabet, encode, decode}
use online_colab_document.Encoding.Split.{split}
use online_colab_document.Encoding.Url.{query_escape}

-- `strings.TrimRight(s, "/")`.
abbrev pub without_slashes : String → String
without_slashes s = trim_right is_slash s

unfoldable pub is_casual_supported : String → Bool
is_casual_supported ext = let e = to_lower ext in e == "docx" || (e == "xlsx" || e == "md")

unfoldable pub editor_kind : String → String
editor_kind ext = if equal_fold ext "xlsx" then "sheets" else "docs"

abbrev role_in : Document → Option WopiClaims → String
role_in doc none = "view"
role_in doc (some c) =
    if not (c.file_id == doc.id) || not (c.role == "editor") then "view" else "write"

abbrev role_of_payload : Env → Document → Option (List ℕ) → String
role_of_payload env doc none = "view"
role_of_payload env doc (some payload) = role_in doc (env.parse_claims payload)

abbrev role_of_parts : Env → Document → List String → String
role_of_parts env doc (header ∷ payload ∷ signature ∷ []) =
    role_of_payload env doc (decode url_alphabet payload)
role_of_parts env doc parts = "view"

-- The role that the editor shows, read from a token that is not verified.
unfoldable pub role_for_document : Env → Document → String → String
role_for_document env doc token = role_of_parts env doc (split b'.' token)

unfoldable pub editor_url : Env → Config → Document → String → String
unfolding editor_kind role_for_document query_escape has_prefix
editor_url env cfg doc token =
    let role = role_for_document env doc token in
    let base = without_slashes cfg.docs_editor_url in
    let kind = if equal_fold doc.file_ext "md" then "markdown" else "docx" in
    let ws_scheme = if has_prefix base "https://" then "wss://" else "ws://" in
    let ws_host = trim_prefix "http://" (trim_prefix "https://" base) in
    let collab =
      ws_scheme
      ++ ws_host
      ++ "/yjs?room="
      ++ query_escape doc.id
      ++ "&access_token="
      ++ query_escape token in
    if editor_kind doc.file_ext == "sheets"
    then without_slashes cfg.sheets_editor_url
      ++ "/?room="
      ++ query_escape doc.id
      ++ "&access_token="
      ++ query_escape token
      ++ "&role="
      ++ role
    else base
      ++ "/doc/"
      ++ encode url_alphabet (utf8 doc.id)
      ++ "?access_token="
      ++ token
      ++ "&room="
      ++ doc.id
      ++ "&kind="
      ++ kind
      ++ "&role="
      ++ role
      ++ "&collab="
      ++ query_escape collab
