-- ===== src/World/Laws.antt =====
-- How a computation's result and its effect follow from those of its parts.
use online_colab_document.Base.{◌≡◌, refl, ◌⊎◌, inl, inr}
use online_colab_document.World.{Error, Result, ok, err, World, M, ◌>>=◌, continue}

-- Inversion of a chain that succeeds.
pub >>=-eq-ok {ℓ κ} :
    {A : Type ℓ} {B : Type κ} (m : M A) (f : A → M B) (w : World) {b : B} {w' : World}
    → (m >>= f) w ≡ (ok b, w')
    → (a : A) × (v : World) × (m w ≡ (ok a, v)) × (f a v ≡ (ok b, w'))
>>=-eq-ok {A} {B} m f w {b} {w'} h = go (m w) refl h
  where
    go :
        (r : Result A × World)
        → m w ≡ r
        → continue r f ≡ (ok b, w')
        → (a : A) × (v : World) × (m w ≡ (ok a, v)) × (f a v ≡ (ok b, w'))
    go (ok a, v) e h = (a, v, e, h)
    go (err x, v) e h = cc

-- The computation changes nothing but the count of outside calls.
abbrev pub ReadsOnly {ℓ} : {A : Type ℓ} → M A → Type 0
ReadsOnly m = (w : World) → (m w).1 ≡ record w { calls = (m w).1.calls }

pub Result-cases {ℓ} :
    {A : Type ℓ} (r : Result A) → ((a : A) × (r ≡ ok a)) ⊎ ((e : Error) × (r ≡ err e))
Result-cases (ok a) = inl (a, refl)
Result-cases (err e) = inr (e, refl)

-- A computation that succeeded, as one equation.
pub returned {ℓ} :
    {A : Type ℓ} (m : M A) (w : World) {a : A} → (m w).0 ≡ ok a → m w ≡ (ok a, (m w).1)
returned m w h = rw (← h)
