-- ===== src/Document/File.antt =====
-- What backend/internal/document/service.go reads from a file's name, type and first bytes.
use online_colab_document.Base.{
  String, List, [], ◌∷◌, Option, some, none, Bool, true, false, not, ◌&&◌, ◌||◌, ◌==◌,
  if◌then◌else◌, any_where, map,
}
use online_colab_document.Text.{trim_space, to_lower, trim_prefix, file_ext}
use online_colab_document.World.{
  invalid_file, unsupported_type, ok, err, Env, M, pure, throw, ◌>>=◌, ◌>>◌, attempt, call,
  reject_if,
}

pub record FileMetadata : Type 0 where
  pub extension : String
  pub mime_type : String

pub record AllowedType : Type 0 where
  pub preferred : String
  pub mimes : List String

abbrev media_type : String → Option String → String
media_type value none = to_lower (trim_space value)
media_type value (some m) = to_lower m

unfoldable pub normalize_mime : Env → String → String
normalize_mime env value = if value == "" then "" else media_type value (env.parse_media_type value)

unfoldable pub new_allowed_type : Env → String → List String → AllowedType
unfolding normalize_mime
new_allowed_type env preferred alternates = record {
  preferred = preferred;
  mimes = map (normalize_mime env) (preferred ∷ alternates);
}

unfoldable pub accepts : Env → AllowedType → String → Bool
unfolding normalize_mime any_where
accepts env t value =
    let m = normalize_mime env value in not (m == "") && any_where (λ k. k == m) t.mimes

-- The table `allowedFileTypes`.
unfoldable pub allowed_file_type : Env → String → Option AllowedType
unfolding new_allowed_type
allowed_file_type env ext =
    if ext == "docx"
    then some (
        new_allowed_type env
          "application/vnd.openxmlformats-officedocument.wordprocessingml.document"
          ("application/zip" ∷ "application/octet-stream" ∷ []))
    else if ext == "xlsx"
    then some (
        new_allowed_type env "application/vnd.openxmlformats-officedocument.spreadsheetml.sheet"
          ("application/zip" ∷ "application/octet-stream" ∷ []))
    else if ext == "md"
    then some (
        new_allowed_type env "text/markdown"
          ("text/plain; charset=utf-8" ∷ "text/plain" ∷ "application/octet-stream" ∷ []))
    else none

-- The extension of an upload, without its dot.
unfoldable pub upload_ext : String → String
unfolding trim_prefix to_lower file_ext
upload_ext filename = trim_prefix "." (to_lower (file_ext filename))

abbrev content_type : AllowedType → String → String
content_type allowed header =
    if header == "" || header == "application/octet-stream" then allowed.preferred else header

abbrev check_type : String → String → String → Env → Option AllowedType → M FileMetadata
check_type ext header body env none = throw unsupported_type
check_type ext header body env (some allowed) = do
  sniffed ← attempt call
  reject_if (elim sniffed [ ok u ↦ false | err e ↦ true ]) invalid_file
  reject_if
      (not (accepts env allowed (normalize_mime env header))
        && not (accepts env allowed (env.detect_content_type body)))
      unsupported_type
  pure (record { extension = ext; mime_type = content_type allowed (normalize_mime env header) })

unfoldable pub validate_file : String → String → String → M FileMetadata
unfolding accepts allowed_file_type upload_ext normalize_mime
validate_file filename header body w =
    let ext = upload_ext filename in
    if ext == ""
    then throw unsupported_type w
    else check_type ext header body w.env (allowed_file_type w.env ext) w
