-- ===== src/Encoding/Base64.antt =====
-- `base64.RawURLEncoding` and `base64.RawStdEncoding`.
use Prim.Native.Char.{code}
use Prim.Native.String.{String, char_at}
use online_colab_document.Base.{
  ℕ, suc, ◌+◌, ◌*◌, ◌/◌, ◌%◌, List, [], ◌∷◌, map, Option, none, some, ◌||◌, nat_eq, if◌then◌else◌,
}
use online_colab_document.Encoding.Bytes.{text_of}

abbrev pub url_alphabet : String
url_alphabet = "ABCDEFGHIJKLMNOPQRSTUVWXYZabcdefghijklmnopqrstuvwxyz0123456789-_"

abbrev pub std_alphabet : String
std_alphabet = "ABCDEFGHIJKLMNOPQRSTUVWXYZabcdefghijklmnopqrstuvwxyz0123456789+/"

-- Groups of six bits, those of a last group that is short filled up with zeros.
unfoldable pub sextets : List ℕ → List ℕ
sextets [] = []
sextets (a ∷ []) = (a / 4) ∷ (a % 4 * 16) ∷ []
sextets (a ∷ b ∷ []) = (a / 4) ∷ (a % 4 * 16 + b / 16) ∷ (b % 16 * 4) ∷ []
sextets (a ∷ b ∷ c ∷ rest) =
    (a / 4) ∷ (a % 4 * 16 + b / 16) ∷ (b % 16 * 4 + c / 64) ∷ (c % 64) ∷ sextets rest

unfoldable pub encode : String → List ℕ → String
unfolding text_of
encode alphabet bytes = text_of (map (char_at alphabet) (sextets bytes))

abbrev pub later : Option ℕ → Option ℕ
later none = none
later (some n) = some (suc n)

-- The place of a character in the alphabet.
unfoldable pub index_of : ℕ → String → Option ℕ
index_of c String.[] = none
index_of c (String.◌∷◌ d s) = if nat_eq (code d) c then some 0 else later (index_of c s)

abbrev pub in_front {ℓ} : {A : Type ℓ} → Option A → Option (List A) → Option (List A)
in_front none rest = none
in_front (some x) none = none
in_front (some x) (some xs) = some (x ∷ xs)

-- The decoder skips the characters `\r` and `\n`.
unfoldable pub values : String → String → Option (List ℕ)
unfolding index_of
values alphabet String.[] = some []
values alphabet (String.◌∷◌ c s) =
    let rest = values alphabet s in
    if nat_eq (code c) 10 || nat_eq (code c) 13
    then rest
    else in_front (index_of (code c) alphabet) rest

-- The bytes of the groups. One group alone is no byte, and spare bits of the last group are ignored.
unfoldable pub octets : List ℕ → Option (List ℕ)
octets [] = some []
octets (a ∷ []) = none
octets (a ∷ b ∷ []) = some ((a * 4 + b / 16) ∷ [])
octets (a ∷ b ∷ c ∷ []) = some ((a * 4 + b / 16) ∷ (b % 16 * 16 + c / 4) ∷ [])
octets (a ∷ b ∷ c ∷ d ∷ rest) =
    in_front (some (a * 4 + b / 16))
      (in_front (some (b % 16 * 16 + c / 4)) (in_front (some (c % 4 * 64 + d)) (octets rest)))

abbrev pub and_octets : Option (List ℕ) → Option (List ℕ)
and_octets none = none
and_octets (some ns) = octets ns

unfoldable pub decode : String → String → Option (List ℕ)
unfolding values octets
decode alphabet s = and_octets (values alphabet s)
