-- ===== src/Encoding/Split.antt =====
-- `strings.Split` by one character.
use Prim.Native.Char.{Char, code}
use Prim.Native.String.{String, ◌++◌}
use Prim.Native.String.append
use online_colab_document.Base.{ℕ, List, [], ◌∷◌, true, nat_eq, if◌then◌else◌, ◌≡◌, refl, arith, ap}
use online_colab_document.Encoding.Bytes.{lacks}

abbrev onto_first : Char → List String → List String
onto_first c [] = String.◌∷◌ c "" ∷ []
onto_first c (p ∷ ps) = String.◌∷◌ c p ∷ ps

unfoldable pub split : ℕ → String → List String
split sep String.[] = "" ∷ []
split sep (String.◌∷◌ c s) =
    let parts = split sep s in if nat_eq (code c) sep then "" ∷ parts else onto_first c parts

-- `strings.Join`.
unfoldable pub join : Char → List String → String
join sep [] = ""
join sep (p ∷ []) = p
join sep (p ∷ q ∷ ps) = p ++ String.◌∷◌ sep (join sep (q ∷ ps))

pub split_last : (sep : ℕ) (p : String) → lacks sep p ≡ true → split sep p ≡ p ∷ []
unfolding split lacks
split_last sep String.[] h = refl
split_last sep (String.◌∷◌ c p) h = ground (arith, split_last sep p)

pub append_assoc : (s t u : String) → (s ++ t) ++ u ≡ s ++ (t ++ u)
append_assoc String.[] t u = rw (append.nil, append.nil)
append_assoc (String.◌∷◌ c s) t u =
    rw (append.cons, append.cons, append.cons) (ap (String.◌∷◌ c) (append_assoc s t u))

-- The part before the first separator.
pub split_front :
    (c : Char) (p rest : String)
    → lacks (code c) p ≡ true
    → split (code c) (p ++ String.◌∷◌ c rest) ≡ p ∷ split (code c) rest
unfolding split lacks
split_front c String.[] rest h = rw append.nil (ground arith)
split_front c (String.◌∷◌ d p) rest h = rw append.cons (ground (arith, split_front c p rest))

-- Parts that lack the separator are what a text that joins them is split into.
pub split_three :
    (c : Char) (p q r : String)
    → lacks (code c) p ≡ true
    → lacks (code c) q ≡ true
    → lacks (code c) r ≡ true
    → split (code c) (p ++ String.◌∷◌ c (q ++ String.◌∷◌ c r)) ≡ p ∷ q ∷ r ∷ []
split_three c p q r hp hq hr =
    rw (split_front c p (q ++ String.◌∷◌ c r) hp, split_front c q r hq, split_last (code c) r hr)
      refl

pub split_four :
    (c : Char) (p q r s : String)
    → lacks (code c) p ≡ true
    → lacks (code c) q ≡ true
    → lacks (code c) r ≡ true
    → lacks (code c) s ≡ true
    → split (code c) (p ++ String.◌∷◌ c (q ++ String.◌∷◌ c (r ++ String.◌∷◌ c s)))
      ≡ p ∷ q ∷ r ∷ s ∷ []
split_four c p q r s hp hq hr hs =
    rw (split_front c p (q ++ String.◌∷◌ c (r ++ String.◌∷◌ c s)) hp, split_three c q r s hq hr hs)
      refl
