-- ===== src/Prelude/Maps.antt =====
-- `HashMap<String, A>` as the list of its entries, in some order, and what its operations answer.
use mathlib.Core.Option
use mathlib.Core.Path.{◌≡◌, refl}
use mathlib.Core.Bool.{true, false}
use mathlib.Core.Option.{Option, none, some}
use mathlib.Core.List.{List, [], ◌∷◌, map}
use native.Mathlib.Omega.{arith}
use Prim.Native.String.{String}
use text.Mathlib.Text.{◌==◌ as str_eq}
use text.Mathlib.TextEquality.{eq_iff}
use morpho_research_os.Prelude.Tests.{if◌then◌else◌}

module _ {A : Type 0} where
  abbrev pub lookup : String → List (String × A) → Option A
  lookup k [] = none
  lookup k (e ∷ m) = let rest = lookup k m in if str_eq e.0 k then some e.1 else rest

  -- `get_mut(k)`, and the assignments under it.
  abbrev pub adjust : String → (A → A) → List (String × A) → List (String × A)
  adjust k f [] = []
  adjust k f (e ∷ m) =
      let rest = adjust k f m in if str_eq e.0 k then (e.0, f e.1) ∷ m else e ∷ rest

  abbrev pub insert : String → A → List (String × A) → List (String × A)
  insert k v [] = (k, v) ∷ []
  insert k v (e ∷ m) = let rest = insert k v m in if str_eq e.0 k then (k, v) ∷ m else e ∷ rest

  abbrev pub remove : String → List (String × A) → List (String × A)
  remove k [] = []
  remove k (e ∷ m) = let rest = remove k m in if str_eq e.0 k then rest else e ∷ rest

  abbrev pub keys : List (String × A) → List String
  keys m = map (λ e. e.0) m

  abbrev pub values : List (String × A) → List A
  values m = map (λ e. e.1) m

  pub lookup-insert :
      (k j : String) (v : A) (m : List (String × A))
      → lookup j (insert k v m) ≡ (if str_eq k j then some v else lookup j m)
  lookup-insert k j v [] = refl
  lookup-insert k j v (e ∷ m) =
      ground (arith, lookup-insert k j v m, eq_iff e.0 k, eq_iff e.0 j, eq_iff k j)

  pub lookup-adjust :
      (k j : String) (f : A → A) (m : List (String × A))
      → lookup j (adjust k f m) ≡ (if str_eq k j then Option.map f (lookup j m) else lookup j m)
  lookup-adjust k j f [] = ground arith
  lookup-adjust k j f (e ∷ m) =
      ground (arith, lookup-adjust k j f m, eq_iff e.0 k, eq_iff e.0 j, eq_iff k j)

  pub lookup-remove :
      (k j : String) (m : List (String × A))
      → lookup j (remove k m) ≡ (if str_eq k j then none else lookup j m)
  lookup-remove k j [] = ground arith
  lookup-remove k j (e ∷ m) =
      ground (arith, lookup-remove k j m, eq_iff e.0 k, eq_iff e.0 j, eq_iff k j)

  pub lookup-map :
      (f : A → A) (k : String) (m : List (String × A))
      → lookup k (map (λ e. (e.0, f e.1)) m) ≡ Option.map f (lookup k m)
  lookup-map f k [] = refl
  lookup-map f k (e ∷ m) = ground (arith, lookup-map f k m)

module _ {κ} {A : Type 0} (P : A → Type κ) where
  -- What holds of every value.
  abbrev pub Every : List (String × A) → Type κ
  Every [] = Unit
  Every (e ∷ m) = P e.1 × Every m

  pub Every-lookup :
      (k : String) (m : List (String × A)) {a : A} → Every m → lookup k m ≡ some a → P a
  Every-lookup k [] h e = cc
  Every-lookup k (x ∷ m) h e = grind (arith, Every-lookup k m)

  pub Every-adjust :
      (k : String) (f : A → A) (m : List (String × A))
      → ((a : A) → P a → P (f a))
      → Every m
      → Every (adjust k f m)
  Every-adjust k f [] h p = p
  Every-adjust k f (x ∷ m) h p =
      let rest = Every-adjust k f m h p.1 in
      elim (str_eq x.0 k) as (λ b. Every (if b then (x.0, f x.1) ∷ m else x ∷ adjust k f m)) [
        | true ↦ (h x.1 p.0, p.1)
        | false ↦ (p.0, rest)
      ]

  pub Every-insert :
      (k : String) (v : A) (m : List (String × A)) → P v → Every m → Every (insert k v m)
  Every-insert k v [] h p = (h, p)
  Every-insert k v (x ∷ m) h p =
      let rest = Every-insert k v m h p.1 in
      elim (str_eq x.0 k) as (λ b. Every (if b then (k, v) ∷ m else x ∷ insert k v m)) [
        | true ↦ (h, p.1)
        | false ↦ (p.0, rest)
      ]

  pub Every-remove : (k : String) (m : List (String × A)) → Every m → Every (remove k m)
  Every-remove k [] p = p
  Every-remove k (x ∷ m) p =
      let rest = Every-remove k m p.1 in
      elim (str_eq x.0 k) as (λ b. Every (if b then remove k m else x ∷ remove k m)) [
        | true ↦ rest
        | false ↦ (p.0, rest)
      ]

  pub Every-map :
      (f : A → A) (m : List (String × A))
      → ((a : A) → P a → P (f a))
      → Every m
      → Every (map (λ e. (e.0, f e.1)) m)
  Every-map f [] h p = p
  Every-map f (x ∷ m) h p = (h x.1 p.0, Every-map f m h p.1)
