-- ===== src/Text.antt =====
-- The functions of Go's `strings` and `path/filepath` that the services call, over texts. Case
-- mapping is that of ASCII; the white space is Unicode's.
use Prim.Native.Char.{Char, code}
use Prim.Native.String.{String, [], ◌∷◌, char_at}
use online_colab_document.Base.{
  ℕ, ◌-◌, Bool, true, false, ◌&&◌, ◌||◌, nat_eq, leb, ◌==◌, if◌then◌else◌,
}

abbrev pub between : ℕ → ℕ → ℕ → Bool
between lo hi n = leb lo n && leb n hi

-- `unicode.IsSpace`.
pub is_space : Char → Bool
is_space c =
    let n = code c in
    between 9 13 n
    || (nat_eq n 32
        || (nat_eq n 0x85
            || (nat_eq n 0xa0
                || (nat_eq n 0x1680
                    || (between 0x2000 0x200a n
                        || (nat_eq n 0x2028
                            || (nat_eq n 0x2029
                                || (nat_eq n 0x202f || (nat_eq n 0x205f || nat_eq n 0x3000)))))))))

unfoldable pub is_slash : Char → Bool
is_slash c = nat_eq (code c) b'/'

unfoldable pub is_dot : Char → Bool
is_dot c = nat_eq (code c) b'.'

unfoldable pub trim_left : (Char → Bool) → String → String
trim_left cut [] = []
trim_left cut (c ∷ s) = let rest = trim_left cut s in if cut c then rest else c ∷ s

abbrev keep_unless : Bool → Char → String → String
keep_unless true c [] = []
keep_unless false c [] = c ∷ []
keep_unless b c (d ∷ s) = c ∷ d ∷ s

unfoldable pub trim_right : (Char → Bool) → String → String
trim_right cut [] = []
trim_right cut (c ∷ s) = keep_unless (cut c) c (trim_right cut s)

unfoldable pub trim_space : String → String
unfolding trim_left trim_right is_space
trim_space s = trim_right is_space (trim_left is_space s)

unfoldable pub lower_char : Char → Char
lower_char c =
    if between b'A' b'Z' (code c) then char_at "abcdefghijklmnopqrstuvwxyz" (code c - b'A') else c

unfoldable pub to_lower : String → String
unfolding lower_char
to_lower [] = []
to_lower (c ∷ s) = lower_char c ∷ to_lower s

-- A character as simple case folding reads it, where that is a lower-case ASCII letter: the long s
-- and the Kelvin sign are the two letters beyond ASCII that fold to one.
unfoldable pub folded : String → String
unfolding lower_char
folded [] = []
folded (c ∷ s) =
    let rest = folded s in
    if nat_eq (code c) 0x17f
    then char_at "s" 0 ∷ rest
    else if nat_eq (code c) 0x212a
    then char_at "k" 0 ∷ rest
    else lower_char c ∷ rest

-- `strings.EqualFold(s, t)` for a `t` of lower-case ASCII letters.
unfoldable pub equal_fold : String → String → Bool
unfolding folded
equal_fold s t = folded s == t

-- Whether what is left of the text, from some place on, passes the test.
unfoldable pub from_some_place : (String → Bool) → String → Bool
from_some_place p [] = p []
from_some_place p (c ∷ s) = p (c ∷ s) || from_some_place p s

-- `strings.HasPrefix(s, prefix)`.
unfoldable pub has_prefix : String → String → Bool
has_prefix s [] = true
has_prefix [] (c ∷ prefix) = false
has_prefix (d ∷ s) (c ∷ prefix) = nat_eq (code d) (code c) && has_prefix s prefix

-- `strings.Contains(s, part)`.
unfoldable pub contains : String → String → Bool
unfolding from_some_place has_prefix
contains s part = from_some_place (λ rest. has_prefix rest part) s

abbrev stripped : String → String → String → String
stripped whole [] s = s
stripped whole (p ∷ ps) [] = whole
stripped whole (p ∷ ps) (c ∷ s) =
    let rest = stripped whole ps s in if nat_eq (code p) (code c) then rest else whole

unfoldable pub trim_prefix : String → String → String
trim_prefix prefix s = stripped s prefix s

-- The first place where what is left is the suffix is the text's end, if the suffix is one.
unfoldable pub trim_suffix : String → String → String
trim_suffix suffix [] = []
trim_suffix suffix (c ∷ s) =
    let rest = c ∷ trim_suffix suffix s in if (c ∷ s) == suffix then [] else rest

-- `filepath.Ext`: from the last dot of the last path element on.
ext_from : String → String → String
ext_from found [] = found
ext_from found (c ∷ s) = ext_from (if is_slash c then [] else if is_dot c then c ∷ s else found) s

unfoldable pub file_ext : String → String
unfolding ext_from is_slash is_dot
file_ext path = ext_from [] path

after_slash : String → String → String
after_slash found [] = found
after_slash found (c ∷ s) = after_slash (if is_slash c then s else found) s

or_slash : String → String
or_slash [] = "/"
or_slash (c ∷ s) = c ∷ s

-- `filepath.Base`: the last path element, trailing slashes removed.
unfoldable pub file_base : String → String
unfolding after_slash or_slash trim_right is_slash
file_base [] = "."
file_base (c ∷ s) = let path = trim_right is_slash (c ∷ s) in or_slash (after_slash path path)
