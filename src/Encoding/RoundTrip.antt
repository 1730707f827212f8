-- ===== src/Encoding/RoundTrip.antt =====
-- Decoding what was encoded.
use Prim.Native.Char.{code}
use Prim.Native.String.{String, char_at}
use online_colab_document.Base.{
  ℕ, ◌<◌, List, [], ◌∷◌, map, Option, none, some, Bool, true, false, not, ◌&&◌, ◌||◌, nat_eq, ◌≡◌,
  refl, arith, all_below, all_below-true,
}
use online_colab_document.Encoding.Bytes.{text_of, lacks, AllBelow}
use online_colab_document.Encoding.Base64.{
  sextets, octets, encode, decode, values, index_of, url_alphabet, std_alphabet,
}

octets-sextets : (bs : List ℕ) → AllBelow 256 bs → octets (sextets bs) ≡ some bs
unfolding octets sextets
octets-sextets [] h = refl
octets-sextets (a ∷ []) (ha, _) = ground arith
octets-sextets (a ∷ b ∷ []) (ha, (hb, _)) = ground arith
octets-sextets (a ∷ b ∷ c ∷ rest) (ha, (hb, (hc, h))) = ground (arith, octets-sextets rest h)

sextets-AllBelow : (bs : List ℕ) → AllBelow 256 bs → AllBelow 64 (sextets bs)
unfolding sextets
sextets-AllBelow [] h = tt
sextets-AllBelow (a ∷ []) (ha, _) = omega arith
sextets-AllBelow (a ∷ b ∷ []) (ha, (hb, _)) = omega arith
sextets-AllBelow (a ∷ b ∷ c ∷ rest) (ha, (hb, (hc, h))) =
    (omega arith, (omega arith, (omega arith, (omega arith, sextets-AllBelow rest h))))

abbrev is_some : ℕ → Option ℕ → Bool
is_some n none = false
is_some n (some m) = nat_eq m n

-- The digit for a number: it is read back as the number, is no line break and no separator.
abbrev good_digit : String → ℕ → ℕ → Bool
good_digit alphabet sep n =
    is_some n (index_of (code (char_at alphabet n)) alphabet)
    && (not (nat_eq (code (char_at alphabet n)) 10 || nat_eq (code (char_at alphabet n)) 13)
        && not (nat_eq (code (char_at alphabet n)) sep))

pub record IsAlphabet (alphabet : String) (sep : ℕ) : Type 0 where
  pub good : (n : ℕ) → n < 64 → good_digit alphabet sep n ≡ true

pub url_IsAlphabet : IsAlphabet url_alphabet b'.'
unfolding index_of all_below
url_IsAlphabet = record { good = λ n h. all_below-true 64 (good_digit url_alphabet b'.') n refl h }

pub std_IsAlphabet : IsAlphabet std_alphabet b'$'
unfolding index_of all_below
std_IsAlphabet = record { good = λ n h. all_below-true 64 (good_digit std_alphabet b'$') n refl h }

module _ (alphabet : String) (sep : ℕ) (is : IsAlphabet alphabet sep) where
  values-digits :
      (ns : List ℕ)
      → AllBelow 64 ns
      → values alphabet (text_of (map (char_at alphabet) ns)) ≡ some ns
  unfolding values text_of
  values-digits [] h = refl
  values-digits (n ∷ ns) (h, hs) = ground (arith, is.good n h, values-digits ns hs)

  lacks-digits :
      (ns : List ℕ) → AllBelow 64 ns → lacks sep (text_of (map (char_at alphabet) ns)) ≡ true
  unfolding lacks text_of
  lacks-digits [] h = refl
  lacks-digits (n ∷ ns) (h, hs) = ground (arith, is.good n h, lacks-digits ns hs)

  -- What is encoded is decoded.
  pub decode-encode :
      (bs : List ℕ) → AllBelow 256 bs → decode alphabet (encode alphabet bs) ≡ some bs
  unfolding decode encode
  decode-encode bs h = rw (values-digits (sextets bs) (sextets-AllBelow bs h)) (octets-sextets bs h)

  -- No separator stands in an encoding.
  pub lacks-encode : (bs : List ℕ) → AllBelow 256 bs → lacks sep (encode alphabet bs) ≡ true
  unfolding encode
  lacks-encode bs h = lacks-digits (sextets bs) (sextets-AllBelow bs h)
