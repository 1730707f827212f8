-- ===== src/Document/Filename.antt =====
-- The titles, storage keys and extensions of backend/internal/document/service.go.
use Prim.Native.Char.{Char, code}
use Prim.Native.String.{[], ◌∷◌, ◌++◌}
use online_colab_document.Base.{String, Bool, false, true, ◌||◌, nat_eq, ◌==◌, if◌then◌else◌}
use online_colab_document.Text.{
  between, trim_left, trim_right, trim_space, to_lower, trim_prefix, trim_suffix, file_ext,
  file_base,
}

unfoldable pub title_from_filename : String → String
unfolding file_base file_ext trim_suffix trim_space
title_from_filename filename =
    let base = file_base filename in
    let title = trim_space (trim_suffix (file_ext base) base) in if title == "" then base else title

-- The class `[a-zA-Z0-9._-]`.
unfoldable pub is_safe : Char → Bool
is_safe c =
    let n = code c in
    between b'a' b'z' n
    || (between b'A' b'Z' n
        || (between b'0' b'9' n || (nat_eq n b'.' || (nat_eq n b'_' || nat_eq n b'-'))))

-- The underscore that stands for a run of unsafe characters.
underscore : Bool → String → String
underscore in_run s = if in_run then s else "_" ++ s

-- `unsafeFilenameChars.ReplaceAllString(name, "_")`, with whether a run has begun.
replace_unsafe : Bool → String → String
replace_unsafe in_run [] = []
replace_unsafe in_run (c ∷ s) =
    let safe = c ∷ replace_unsafe false s in
    let unsafe = underscore in_run (replace_unsafe true s) in if is_safe c then safe else unsafe

-- The cutset "._-".
unfoldable pub is_edge : Char → Bool
is_edge c = nat_eq (code c) b'.' || (nat_eq (code c) b'_' || nat_eq (code c) b'-')

or_document : String → String
or_document s = if s == "" then "document" else s

unfoldable pub safe_filename : String → String
unfolding replace_unsafe is_safe is_edge underscore or_document trim_left trim_right file_base
safe_filename filename =
    or_document (trim_right is_edge (trim_left is_edge (replace_unsafe false (file_base filename))))

unfoldable pub storage_key : String → String → String → String
unfolding safe_filename
storage_key document_id version_id filename =
    "documents/" ++ document_id ++ "/versions/" ++ version_id ++ "/" ++ safe_filename filename

unfoldable pub is_text_document : String → Bool
unfolding to_lower trim_prefix
is_text_document ext = to_lower (trim_prefix "." ext) == "md"
