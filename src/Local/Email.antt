-- ===== src/Local/Email.antt =====
-- The addresses that backend/internal/auth/local/service.go accepts.
use Prim.Native.Char.{Char, code}
use Prim.Native.String.{[], ◌∷◌}
use online_colab_document.Base.{String, Bool, true, false, not, ◌&&◌, ◌||◌, nat_eq, ◌==◌}
use online_colab_document.Text.{trim_space, to_lower, is_dot}

unfoldable pub normalize_email : String → String
unfolding trim_space to_lower
normalize_email email = to_lower (trim_space email)

pub is_at : Char → Bool
is_at c = nat_eq (code c) b'@'

-- The class `\s` of the pattern.
is_blank : Char → Bool
is_blank c =
    let n = code c in nat_eq n 9 || (nat_eq n 10 || (nat_eq n 12 || (nat_eq n 13 || nat_eq n 32)))

-- `[^@\s]+` up to the end of the text.
unfoldable pub all_plain : String → Bool
unfolding is_at is_blank
all_plain [] = true
all_plain (c ∷ s) = not (is_at c || is_blank c) && all_plain s

-- A dot after the first character and before the last.
dot_before_last : String → Bool
dot_before_last [] = false
dot_before_last (c ∷ s) = is_dot c && not (s == "") || dot_before_last s

unfoldable pub dot_inside : String → Bool
unfolding dot_before_last
dot_inside [] = false
dot_inside (c ∷ s) = dot_before_last s

-- What follows the first `@`, if only plain characters, and at least one, come before it.
domain_after : Bool → String → String
domain_after started [] = ""
domain_after started (c ∷ s) =
    let rest = domain_after true s in
    let domain : String = elim started [ true ↦ s | false ↦ "" ] in
    elim (is_at c) [ true ↦ domain | false ↦ elim (is_blank c) [ true ↦ "" | false ↦ rest ] ]

-- `^[^@\s]+@[^@\s]+\.[^@\s]+$`.
unfoldable pub valid_email : String → Bool
unfolding domain_after dot_inside all_plain
valid_email email = let domain = domain_after false email in all_plain domain && dot_inside domain
