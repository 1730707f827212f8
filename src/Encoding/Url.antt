-- ===== src/Encoding/Url.antt =====
-- `url.QueryEscape`.
use Prim.Native.Char.{Char, code}
use Prim.Native.String.{String, [], ◌∷◌, char_at}
use online_colab_document.Base.{ℕ, ◌/◌, ◌%◌, List, Bool, ◌||◌, nat_eq, if◌then◌else◌}
use online_colab_document.Base
use online_colab_document.Text.{between}
use online_colab_document.Encoding.Bytes.{encode_rune}

abbrev hex_digit : ℕ → Char
hex_digit n = char_at "0123456789ABCDEF" n

abbrev escaped : List ℕ → String → String
escaped Base.[] rest = rest
escaped (Base.◌∷◌ b bs) rest =
    char_at "%" 0 ∷ hex_digit (b / 16) ∷ hex_digit (b % 16) ∷ escaped bs rest

abbrev is_unreserved : ℕ → Bool
is_unreserved n =
    between b'a' b'z' n
    || (between b'A' b'Z' n
        || (between b'0' b'9' n
            || (nat_eq n b'-' || (nat_eq n b'_' || (nat_eq n b'.' || nat_eq n b'~')))))

-- A space becomes a plus sign, and a byte that is not unreserved its number in hexadecimal.
unfoldable pub query_escape : String → String
unfolding encode_rune
query_escape [] = []
query_escape (c ∷ s) =
    let rest = query_escape s in
    if is_unreserved (code c)
    then c ∷ rest
    else if nat_eq (code c) 32
    then char_at "+" 0 ∷ rest
    else escaped (encode_rune (code c) Base.[]) rest
