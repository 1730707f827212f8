-- ===== src/Base/Rows.antt =====
-- The laws of the tables' operations.
use mathlib.Core.Path.{◌≡◌, refl}
use mathlib.Core.Logic.{inl, inr}
use mathlib.Core.Bool.{Bool, true, false, not, ◌&&◌, ◌||◌}
use mathlib.Core.Option.{Option, none, some}
use mathlib.Core.List.{List, [], ◌∷◌, ◌++◌}
use native.Mathlib.Omega.{arith}
use online_colab_document.Base.Tests.{if◌then◌else◌, Bool-cases, is_nil}
use online_colab_document.Base.Tables.{
  find_where, any_where, update_where, delete_where, select_where, insert_by, order_by,
}

abbrev pub or_else {ℓ} : {A : Type ℓ} → Option A → Option A → Option A
or_else none o = o
or_else (some a) o = some a

abbrev pub changed {ℓ} : {A : Type ℓ} → (A → Bool) → (A → A) → Option A → Option A
changed p f none = none
changed p f (some x) = some (if p x then f x else x)

module _ {ℓ} {A : Type ℓ} where
  pub find_where-true : (p : A → Bool) (xs : List A) {x : A} → find_where p xs ≡ some x → p x ≡ true
  unfolding find_where
  find_where-true p [] h = cc
  find_where-true p (y ∷ ys) h = elim (Bool-cases (p y)) [
    | inl e ↦ ground (arith)
    | inr e ↦ find_where-true p ys (rw (e, find_where) at h)
  ]

  pub any_where-find_where :
      (p : A → Bool) (xs : List A) → any_where p xs ≡ not (is_nil (find_where p xs))
  unfolding any_where find_where
  any_where-find_where p [] = refl
  any_where-find_where p (x ∷ xs) = ground (arith, any_where-find_where p xs)

  pub find_where-append :
      (p : A → Bool) (xs ys : List A)
      → find_where p (xs ++ ys) ≡ or_else (find_where p xs) (find_where p ys)
  unfolding find_where
  find_where-append p [] ys = refl
  find_where-append p (x ∷ xs) ys = ground (arith, find_where-append p xs ys)

  -- An update that the test of a search does not see.
  pub find_where-update_where :
      (q p : A → Bool) (f : A → A) (xs : List A)
      → ((x : A) → q (f x) ≡ q x)
      → find_where q (update_where p f xs) ≡ changed p f (find_where q xs)
  unfolding find_where update_where
  find_where-update_where q p f [] h = refl
  find_where-update_where q p f (x ∷ xs) h = ground (arith, h x, find_where-update_where q p f xs h)

  -- A deletion of rows that the search would not find.
  pub find_where-delete_where :
      (q p : A → Bool) (xs : List A)
      → ((x : A) → q x ≡ true → p x ≡ false)
      → find_where q (delete_where p xs) ≡ find_where q xs
  unfolding find_where delete_where
  find_where-delete_where q p [] h = refl
  find_where-delete_where q p (x ∷ xs) h = ground (arith, h x, find_where-delete_where q p xs h)

  -- A row that passes one test passes a weaker one.
  pub any_where_mono :
      (p q : A → Bool) (xs : List A)
      → ((x : A) → p x ≡ true → q x ≡ true)
      → any_where p xs ≡ true
      → any_where q xs ≡ true
  unfolding any_where
  any_where_mono p q [] h k = cc
  any_where_mono p q (x ∷ xs) h k = ground (arith, h x, any_where_mono p q xs h)

  pub any_where-delete_where :
      (q p : A → Bool) (xs : List A)
      → any_where q xs ≡ false
      → any_where q (delete_where p xs) ≡ false
  unfolding any_where delete_where
  any_where-delete_where q p [] h = refl
  any_where-delete_where q p (x ∷ xs) h = ground (arith, any_where-delete_where q p xs)

  pub any_where-append :
      (q : A → Bool) (xs ys : List A) → any_where q (xs ++ ys) ≡ any_where q xs || any_where q ys
  unfolding any_where
  any_where-append q [] ys = refl
  any_where-append q (x ∷ xs) ys = ground (arith, any_where-append q xs ys)

  pub any_where-update_where :
      (q p : A → Bool) (f : A → A) (xs : List A)
      → ((x : A) → q (f x) ≡ q x)
      → any_where q (update_where p f xs) ≡ any_where q xs
  unfolding any_where update_where
  any_where-update_where q p f [] h = refl
  any_where-update_where q p f (x ∷ xs) h = ground (arith, h x, any_where-update_where q p f xs h)

  pub any_where-select_where :
      (q p : A → Bool) (xs : List A)
      → any_where q (select_where p xs) ≡ any_where (λ x. p x && q x) xs
  unfolding any_where select_where
  any_where-select_where q p [] = refl
  any_where-select_where q p (x ∷ xs) = ground (arith, any_where-select_where q p xs)

  any_where-insert_by :
      (q : A → Bool) (before : A → A → Bool) (x : A) (ys : List A)
      → any_where q (insert_by before x ys) ≡ (q x || any_where q ys)
  unfolding any_where insert_by
  any_where-insert_by q before x [] = ground arith
  any_where-insert_by q before x (y ∷ ys) = ground (arith, any_where-insert_by q before x ys)

  -- Sorting loses no row and makes none up.
  pub any_where-order_by :
      (q : A → Bool) (before : A → A → Bool) (xs : List A)
      → any_where q (order_by before xs) ≡ any_where q xs
  unfolding any_where order_by
  any_where-order_by q before [] = refl
  any_where-order_by q before (x ∷ xs) =
      ground
        (arith, any_where-insert_by q before x (order_by before xs), any_where-order_by q before xs)
