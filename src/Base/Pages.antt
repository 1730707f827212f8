-- ===== src/Base/Pages.antt =====
-- A page of a list: what `LIMIT` and `OFFSET` leave.
use Prim.Native.Nat.{ℕ, zero, suc, ◌-◌, ◌≤◌}
use mathlib.Core.Path.{◌≡◌, refl, ap}
use mathlib.Core.Bool.{Bool, true, false, not}
use mathlib.Core.Logic.{◌⊎◌, inl, inr}
use mathlib.Core.List.{List, [], ◌∷◌, map}
use native.Mathlib.Omega.{arith}
use online_colab_document.Base.Int.{ℤ, pos, negsuc, le_zero, is_negative, pos_part}
use online_colab_document.Base.Tests.{ltb}
use online_colab_document.Base.Tables.{length, take, drop, any_where, select_where, delete_where}

module _ {ℓ} {A : Type ℓ} where
  pub length-take : (n : ℕ) (xs : List A) → length (take n xs) ≤ n
  length-take zero xs = omega arith
  length-take (suc n) [] = omega arith
  length-take (suc n) (x ∷ xs) = omega (arith, length-take n xs)

  pub length-drop : (n : ℕ) (xs : List A) → length (drop n xs) ≡ length xs - n
  length-drop zero xs = omega arith
  length-drop (suc n) [] = omega arith
  length-drop (suc n) (x ∷ xs) = omega (arith, length-drop n xs)

  -- Whether one row more than a page is there, asked of a list that is cut at one row more.
  pub length-take-suc : (n : ℕ) (xs : List A) → ltb n (length (take (suc n) xs)) ≡ ltb n (length xs)
  length-take-suc zero [] = refl
  length-take-suc zero (x ∷ xs) = ground arith
  length-take-suc (suc n) [] = refl
  length-take-suc (suc n) (x ∷ xs) = ground (arith, length-take-suc n xs)

  pub take-take-suc : (n : ℕ) (xs : List A) → take n (take (suc n) xs) ≡ take n xs
  take-take-suc zero xs = refl
  take-take-suc (suc n) [] = refl
  take-take-suc (suc n) (x ∷ xs) = ap (λ ys. x ∷ ys) (take-take-suc n xs)

  pub take_short : (n : ℕ) (xs : List A) → length xs ≤ n → take n xs ≡ xs
  take_short zero [] h = refl
  take_short zero (x ∷ xs) h = absurd (omega arith)
  take_short (suc n) [] h = refl
  take_short (suc n) (x ∷ xs) h = ap (λ ys. x ∷ ys) (take_short n xs (omega arith))

  -- No row of a part fails a test that no row of the whole fails.
  pub any_where-take :
      (p : A → Bool) (n : ℕ) (xs : List A)
      → any_where p xs ≡ false
      → any_where p (take n xs) ≡ false
  unfolding any_where
  any_where-take p zero xs h = refl
  any_where-take p (suc n) [] h = refl
  any_where-take p (suc n) (x ∷ xs) h = ground (arith, any_where-take p n xs)

  pub any_where-drop :
      (p : A → Bool) (n : ℕ) (xs : List A)
      → any_where p xs ≡ false
      → any_where p (drop n xs) ≡ false
  unfolding any_where
  any_where-drop p zero xs h = h
  any_where-drop p (suc n) [] h = h
  any_where-drop p (suc n) (x ∷ xs) h = any_where-drop p n xs (ground arith)

  pub any_where-map :
      (p : A → Bool) (f : A → A) (xs : List A)
      → ((x : A) → p (f x) ≡ p x)
      → any_where p (map f xs) ≡ any_where p xs
  unfolding any_where
  any_where-map p f [] h = refl
  any_where-map p f (x ∷ xs) h = ground (arith, h x, any_where-map p f xs h)

  pub any_not-select_where :
      (p : A → Bool) (xs : List A) → any_where (λ x. not (p x)) (select_where p xs) ≡ false
  unfolding any_where select_where
  any_not-select_where p [] = refl
  any_not-select_where p (x ∷ xs) = ground (arith, any_not-select_where p xs)

  pub any_where-delete_own : (p : A → Bool) (xs : List A) → any_where p (delete_where p xs) ≡ false
  unfolding any_where delete_where
  any_where-delete_own p [] = refl
  any_where-delete_own p (x ∷ xs) = ground (arith, any_where-delete_own p xs)

pub length-map {ℓ κ} :
    {A : Type ℓ} {B : Type κ} (f : A → B) (xs : List A) → length (map f xs) ≡ length xs
length-map f [] = refl
length-map f (x ∷ xs) = ap suc (length-map f xs)

-- A page has as many rows as are asked for, from one to `most`, and otherwise `usual`.
abbrev pub PageSize : ℕ → ℕ → ℤ → ℕ → Type 0
PageSize most usual limit n =
    ((limit ≡ pos n) × (1 ≤ n) × (n ≤ most))
    ⊎ ((n ≡ usual) × ((le_zero limit ≡ true) ⊎ (suc most ≤ pos_part limit)))

-- A page begins at the row that is asked for; a negative offset is the first.
abbrev pub PageStart : ℤ → ℕ → Type 0
PageStart offset o = (offset ≡ pos o) ⊎ ((is_negative offset ≡ true) × (o ≡ 0))

pub pos_part-PageStart : (offset : ℤ) → PageStart offset (pos_part offset)
pos_part-PageStart (pos n) = inl refl
pos_part-PageStart (negsuc n) = inr (refl, refl)
