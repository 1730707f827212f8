-- ===== src/Encoding/Bytes.antt =====
-- `[]byte(s)`: the UTF-8 of a text, and texts from lists of characters.
use Prim.Native.Char.{Char, code, len_utf8, len_utf8_def}
use Prim.Native.String.{String, len}
use Prim.Native.String.len
use online_colab_document.Base.{
  ℕ, ◌+◌, ◌/◌, ◌%◌, ◌<◌, ◌≡◌, refl, List, [], ◌∷◌, length, Bool, true, false, not, ◌&&◌, ltb,
  nat_eq, if◌then◌else◌, arith,
}

-- The bytes of one character, in front of the rest.
unfoldable pub encode_rune : ℕ → List ℕ → List ℕ
encode_rune n rest =
    if ltb n 0x80
    then n ∷ rest
    else if ltb n 0x800
    then (0xc0 + n / 0x40) ∷ (0x80 + n % 0x40) ∷ rest
    else if ltb n 0x10000
    then (0xe0 + n / 0x1000) ∷ (0x80 + n / 0x40 % 0x40) ∷ (0x80 + n % 0x40) ∷ rest
    else (0xf0 + n / 0x40000)
      ∷ (0x80 + n / 0x1000 % 0x40)
      ∷ (0x80 + n / 0x40 % 0x40)
      ∷ (0x80 + n % 0x40)
      ∷ rest

unfoldable pub utf8 : String → List ℕ
unfolding encode_rune
utf8 String.[] = []
utf8 (String.◌∷◌ c s) = encode_rune (code c) (utf8 s)

unfoldable pub text_of : List Char → String
text_of [] = ""
text_of (c ∷ cs) = String.◌∷◌ c (text_of cs)

-- Whether the character with this code stands in the text.
unfoldable pub lacks : ℕ → String → Bool
lacks n String.[] = true
lacks n (String.◌∷◌ c s) = not (nat_eq (code c) n) && lacks n s

-- Numbers below a bound, such as bytes.
abbrev pub AllBelow : ℕ → List ℕ → Type 0
AllBelow n [] = Unit
AllBelow n (x ∷ xs) = (x < n) × AllBelow n xs

-- `subtle.ConstantTimeCompare(a, b) == 1` and `hmac.Equal(a, b)`.
unfoldable pub same_bytes : List ℕ → List ℕ → Bool
same_bytes [] [] = true
same_bytes [] (b ∷ bs) = false
same_bytes (a ∷ more) [] = false
same_bytes (a ∷ more) (b ∷ bs) = nat_eq a b && same_bytes more bs

pub same_bytes_refl : (bs : List ℕ) → same_bytes bs bs ≡ true
unfolding same_bytes
same_bytes_refl [] = refl
same_bytes_refl (b ∷ bs) = ground (arith, same_bytes_refl bs)

pub same_bytes-≡ : (os bs : List ℕ) → same_bytes os bs ≡ true → os ≡ bs
unfolding same_bytes
same_bytes-≡ [] [] h = refl
same_bytes-≡ [] (b ∷ bs) h = absurd (ground arith)
same_bytes-≡ (a ∷ more) [] h = absurd (ground arith)
same_bytes-≡ (a ∷ more) (b ∷ bs) h = ground (arith, same_bytes-≡ more bs)

length-encode_rune :
    (c : Char) (rest : List ℕ) → length (encode_rune (code c) rest) ≡ len_utf8 c + length rest
unfolding encode_rune
length-encode_rune c rest = rw len_utf8_def (ground arith)

-- Go's `len` of a text counts its bytes.
pub length-utf8 : (s : String) → length (utf8 s) ≡ len s
unfolding utf8
length-utf8 String.[] = rw len.nil refl
length-utf8 (String.◌∷◌ c s) = rw (len.cons, length-encode_rune c (utf8 s), length-utf8 s) refl
