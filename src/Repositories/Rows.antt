-- ===== src/Repositories/Rows.antt =====
-- Rows with a text for their primary key: at most one row has a given key, so that a query or an
-- update by key is about the first row that has it.
pub mod Fresh
use mathlib.Core.Option
use mathlib.Core.Option.{some-injective}
use mathlib.Core.Path.{subst}
use morpho_research_os.Prelude.{
  String, false, Option, some, List, [], ◌∷◌, ◌≡◌, refl, inl, inr, Bool-cases, find, str_eq, arith,
  All, eq_iff, if◌then◌else◌,
}

module _ {A : Type 0} (key : A → String) where
  unfoldable pub row : String → List A → Option A
  row id rows = find (λ r. str_eq (key r) id) rows

  unfoldable pub modify : String → (A → A) → List A → List A
  modify id f [] = []
  modify id f (x ∷ xs) =
      let rest = modify id f xs in if str_eq (key x) id then f x ∷ xs else x ∷ rest

  -- The rows' keys differ pairwise.
  abbrev pub Distinct : List A → Type 0
  Distinct [] = Unit
  Distinct (x ∷ xs) = All (λ y. str_eq (key x) (key y) ≡ false) xs × Distinct xs

  pub row-modify :
      (f : A → A) (id j : String) (xs : List A)
      → ((x : A) → key (f x) ≡ key x)
      → row j (modify id f xs) ≡ (if str_eq id j then Option.map f (row j xs) else row j xs)
  unfolding row modify
  row-modify f id j [] k = ground arith
  row-modify f id j (x ∷ xs) k = ground (
    arith,
    k x,
    row-modify f id j xs k,
    eq_iff (key x) id,
    eq_iff (key x) j,
    eq_iff id j,
    eq_iff (key (f x)) j,
  )

  pub key-row : (id : String) (xs : List A) {x : A} → row id xs ≡ some x → key x ≡ id
  unfolding row
  key-row id [] h = cc
  key-row id (y ∷ ys) h = grind (arith, key-row id ys, eq_iff (key y) id)

-- Two tables hold the same rows in the same order up to `R`.
pub data Rows {A : Type 0} (R : A → A → Type 0) : List A → List A → Type 0 where
  end : Rows R [] []
  next : {x y : A} {xs ys : List A} → R x y → Rows R xs ys → Rows R (x ∷ xs) (y ∷ ys)

module _ {A : Type 0} {R : A → A → Type 0} where
  pub Rows-refl : ((x : A) → R x x) → (xs : List A) → Rows R xs xs
  Rows-refl r [] = end
  Rows-refl r (x ∷ xs) = next (r x) (Rows-refl r xs)

  pub Rows-trans :
      ((x y z : A) → R x y → R y z → R x z)
      → {xs ys zs : List A} → Rows R xs ys
      → Rows R ys zs
      → Rows R xs zs
  Rows-trans t end end = end
  Rows-trans t (next h r) (next k q) = next (t _ _ _ h k) (Rows-trans t r q)

module _ {A : Type 0} {R : A → A → Type 0} (key : A → String) where
  -- An update by key of a row that is there.
  pub Rows-modify :
      (f : A → A) (id : String) (xs : List A)
      → ((x : A) → R x x)
      → ((x : A) → row key id xs ≡ some x → R x (f x))
      → Rows R xs (modify key id f xs)
  unfolding row modify
  Rows-modify f id [] r h = end
  Rows-modify f id (x ∷ xs) r h = elim (Bool-cases (str_eq (key x) id)) [
    | inl e ↦ rw e (next (h x (rw e refl)) (Rows-refl r xs))
    | inr e ↦ rw e (next (r x) (Rows-modify f id xs r (λ y q. h y (rw e q))))
  ]

  module _ (same_key : (x y : A) → R x y → key y ≡ key x) where
    All-Rows :
        (s : String) {xs ys : List A}
        → Rows R xs ys
        → All (λ x. str_eq s (key x) ≡ false) xs
        → All (λ y. str_eq s (key y) ≡ false) ys
    All-Rows s end h = tt
    All-Rows s (next {x} {y} r rs) h = (rw (same_key x y r) h.0, All-Rows s rs h.1)

    pub Distinct-Rows : {xs ys : List A} → Rows R xs ys → Distinct key xs → Distinct key ys
    Distinct-Rows end d = tt
    Distinct-Rows (next {x} {y} r rs) d =
        (rw (same_key x y r) (All-Rows (key x) rs d.0), Distinct-Rows rs d.1)

    -- A row that is there is still there, related to what it was.
    pub row-Rows :
        (id : String) {xs ys : List A} {x : A}
        → Rows R xs ys
        → row key id xs ≡ some x
        → (y : A) × (row key id ys ≡ some y) × R x y
    unfolding row
    row-Rows id end h = cc
    row-Rows id {x} (next {x = a} {y = b} r rs) h = elim (Bool-cases (str_eq (key a) id)) [
      | inl e ↦
          (b, rw (same_key a b r, e) refl, subst (λ z. R z b) (some-injective a x (rw e at h)) r)
      | inr e ↦
          let (y, found, rel) = row-Rows id rs (rw e at h) in (y, rw (same_key a b r, e) found, rel)
    ]
