-- ===== src/Prelude/Order.antt =====
-- `ORDER BY`: a stable sort of rows, and what it keeps.
use mathlib.Core.Bool.{Bool, true, false, ◌||◌}
use mathlib.Core.Path.{◌≡◌, refl}
use native.Mathlib.Omega.{arith}
use mathlib.Core.List.{List, [], ◌∷◌}
use morpho_research_os.Prelude.Tests.{if◌then◌else◌}
use morpho_research_os.Prelude.Lists.{All, any}

module _ {ℓ} {A : Type ℓ} (le : A → A → Bool) where
  unfoldable pub place : A → List A → List A
  place x [] = x ∷ []
  place x (y ∷ ys) = let rest = place x ys in if le x y then x ∷ y ∷ ys else y ∷ rest

  unfoldable pub order_by : List A → List A
  unfolding place
  order_by [] = []
  order_by (x ∷ xs) = place x (order_by xs)

  pub All-place {κ} : (P : A → Type κ) (x : A) (xs : List A) → P x → All P xs → All P (place x xs)
  unfolding place
  All-place P x [] p h = (p, h)
  All-place P x (y ∷ ys) p h = go (le x y) (All-place P x ys p h.1)
    where
      go : (b : Bool) → All P (place x ys) → All P (if b then x ∷ y ∷ ys else y ∷ place x ys)
      go true rest = (p, h)
      go false rest = (h.0, rest)

  pub All-order_by {κ} : (P : A → Type κ) (xs : List A) → All P xs → All P (order_by xs)
  unfolding order_by
  All-order_by P [] h = h
  All-order_by P (x ∷ xs) h = All-place P x (order_by xs) h.0 (All-order_by P xs h.1)

  any-place : (p : A → Bool) (x : A) (xs : List A) → any p (place x xs) ≡ (p x || any p xs)
  unfolding place
  any-place p x [] = refl
  any-place p x (y ∷ ys) = ground (arith, any-place p x ys)

  pub any-order_by : (p : A → Bool) (xs : List A) → any p (order_by xs) ≡ any p xs
  unfolding order_by
  any-order_by p [] = refl
  any-order_by p (x ∷ xs) = ground (arith, any-place p x (order_by xs), any-order_by p xs)
