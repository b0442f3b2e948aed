-- ===== src/Repositories/Domain/Growth.antt =====
-- Tables that keep their rows, changed at most in a given way, and gain rows at the end.
use mathlib.Core.Option.{some-injective}
use text.Mathlib.TextPositions.{eq_refl}
use morpho_research_os.Prelude.{
  String, Bool, true, false, Option, none, some, List, [], ◌∷◌, ◌++◌, ◌≡◌, refl, ap, inl, inr,
  Bool-cases, find, str_eq, arith, All, if◌then◌else◌,
}
use morpho_research_os.Repositories.Rows.{row, modify, Distinct}

-- Old rows are related by `R` to what they were, new ones satisfy `N`.
pub data Grown {A : Type 0} (R : A → A → Type 0) (N : A → Type 0) : List A → List A → Type 0 where
  added : {ys : List A} → All N ys → Grown R N [] ys
  kept : {x y : A} {xs ys : List A} → R x y → Grown R N xs ys → Grown R N (x ∷ xs) (y ∷ ys)

module _ {A : Type 0} {R : A → A → Type 0} {N : A → Type 0} where
  pub Grown-refl : ((x : A) → R x x) → (xs : List A) → Grown R N xs xs
  Grown-refl r [] = added tt
  Grown-refl r (x ∷ xs) = kept (r x) (Grown-refl r xs)

  All-Grown :
      {xs ys : List A} → ((x y : A) → N x → R x y → N y) → All N xs → Grown R N xs ys → All N ys
  All-Grown k h (added n) = n
  All-Grown k h (kept r g) = (k _ _ h.0 r, All-Grown k h.1 g)

  pub Grown-trans :
      {xs ys zs : List A}
      → ((x y z : A) → R x y → R y z → R x z)
      → ((x y : A) → N x → R x y → N y)
      → Grown R N xs ys
      → Grown R N ys zs
      → Grown R N xs zs
  Grown-trans t k (added n) g = added (All-Grown k n g)
  Grown-trans t k (kept r f) (kept q g) = kept (t _ _ _ r q) (Grown-trans t k f g)

  pub Grown-append : ((x : A) → R x x) → (xs : List A) (y : A) → N y → Grown R N xs (xs ++ y ∷ [])
  Grown-append r [] y h = added (h, tt)
  Grown-append r (x ∷ xs) y h = kept (r x) (Grown-append r xs y h)

module _ {A : Type 0} (key : A → String) where
  pub Grown-modify :
      {R : A → A → Type 0} {N : A → Type 0} (f : A → A) (id : String) (xs : List A)
      → ((x : A) → R x x)
      → ((x : A) → row key id xs ≡ some x → R x (f x))
      → Grown R N xs (modify key id f xs)
  unfolding row modify
  Grown-modify f id [] r h = added tt
  Grown-modify f id (x ∷ xs) r h = elim (Bool-cases (str_eq (key x) id)) [
    | inl e ↦ rw e (kept (h x (rw e refl)) (Grown-refl r xs))
    | inr e ↦ rw e (kept (r x) (Grown-modify f id xs r (λ y q. h y (rw e q))))
  ]

  unnamed_modify :
      (f : A → A) (id s : String) (xs : List A)
      → ((x : A) → key (f x) ≡ key x)
      → All (λ x. str_eq s (key x) ≡ false) xs
      → All (λ x. str_eq s (key x) ≡ false) (modify key id f xs)
  unfolding modify
  unnamed_modify f id s [] k h = tt
  unnamed_modify f id s (x ∷ xs) k h = elim (Bool-cases (str_eq (key x) id)) [
    | inl e ↦ rw (e, k x) h
    | inr e ↦ rw e (h.0, unnamed_modify f id s xs k h.1)
  ]

  pub Distinct-modify :
      (f : A → A) (id : String) (xs : List A)
      → ((x : A) → key (f x) ≡ key x)
      → Distinct key xs
      → Distinct key (modify key id f xs)
  unfolding modify
  Distinct-modify f id [] k d = tt
  Distinct-modify f id (x ∷ xs) k d = elim (Bool-cases (str_eq (key x) id)) [
    | inl e ↦ rw (e, k x) d
    | inr e ↦ rw e (unnamed_modify f id (key x) xs k d.0, Distinct-modify f id xs k d.1)
  ]

  unnamed_before :
      (f : A → A) (id s : String) (xs : List A)
      → ((x : A) → key (f x) ≡ key x)
      → All (λ x. str_eq s (key x) ≡ false) (modify key id f xs)
      → All (λ x. str_eq s (key x) ≡ false) xs
  unfolding modify
  unnamed_before f id s [] k h = tt
  unnamed_before f id s (x ∷ xs) k h = elim (Bool-cases (str_eq (key x) id)) [
    | inl e ↦ rw (e, k x) at h
    | inr e ↦ let h' = rw e at h in (h'.0, unnamed_before f id s xs k h'.1)
  ]

  -- Keys that are distinct after an update were so before.
  pub Distinct-before :
      (f : A → A) (id : String) (xs : List A)
      → ((x : A) → key (f x) ≡ key x)
      → Distinct key (modify key id f xs)
      → Distinct key xs
  unfolding modify
  Distinct-before f id [] k d = tt
  Distinct-before f id (x ∷ xs) k d = elim (Bool-cases (str_eq (key x) id)) [
    | inl e ↦ rw (e, k x) at d
    | inr e ↦
        let d' = rw e at d in
        (unnamed_before f id (key x) xs k d'.0, Distinct-before f id xs k d'.1)
  ]

  unnamed_append :
      (s : String) (xs : List A) (y : A)
      → All (λ x. str_eq s (key x) ≡ false) xs
      → str_eq s (key y) ≡ false
      → All (λ x. str_eq s (key x) ≡ false) (xs ++ y ∷ [])
  unnamed_append s [] y h k = (k, tt)
  unnamed_append s (x ∷ xs) y h k = (h.0, unnamed_append s xs y h.1 k)

  pub Distinct-append :
      (xs : List A) (y : A)
      → row key (key y) xs ≡ none
      → Distinct key xs
      → Distinct key (xs ++ y ∷ [])
  unfolding row
  Distinct-append [] y h d = (tt, tt)
  Distinct-append (x ∷ xs) y h d = elim (Bool-cases (str_eq (key x) (key y))) [
    | inl e ↦ elim (found _ _ e h) [ ]
    | inr e ↦ (unnamed_append (key x) xs y d.0 e, Distinct-append xs y (rw e at h) d.1)
  ]
    where
      found : (b : Bool) (rest : Option A) → b ≡ true → (if b then some x else rest) ≡ none → ⊥
      found true rest e h = cc
      found false rest e h = cc

  holds_at :
      (P : A → Type 0) (p : A → Bool) (xs : List A) {x : A} → All P xs → find p xs ≡ some x → P x
  holds_at P p [] a h = cc
  holds_at P p (y ∷ ys) a h = grind (arith, holds_at P p ys)

  -- A row that some test finds is the row under its key.
  pub row_of_find :
      (p : A → Bool) (xs : List A) {x : A}
      → Distinct key xs
      → find p xs ≡ some x
      → row key (key x) xs ≡ some x
  unfolding row
  row_of_find p [] d h = cc
  row_of_find p (y ∷ ys) {x = x} d h = elim (Bool-cases (p y)) [
    | inl e ↦
        let same : y ≡ x = some-injective y x (rw e at h) in
        rw (ap key same, eq_refl (key x)) (ap some same)
    | inr e ↦
        let later : find p ys ≡ some x = rw e at h in
        let other = holds_at (λ z. str_eq (key y) (key z) ≡ false) p ys d.0 later in
        rw other (row_of_find p ys d.1 later)
  ]

module _ {A : Type 0} (key : A → String) where
  -- How a table changes: its keys stay distinct, and then its rows stay and some are added.
  pub record Grows (R : A → A → Type 0) (N : A → Type 0) (xs ys : List A) : Type 0 where
    pub distinct : Distinct key xs → Distinct key ys
    pub grown : Distinct key xs → Grown R N xs ys

  module _ {R : A → A → Type 0} {N : A → Type 0} (r : (x : A) → R x x) where
    pub Grows-refl : (xs : List A) → Grows R N xs xs
    Grows-refl xs = record { distinct = λ d. d; grown = λ _. Grown-refl r xs }

    pub Grows-append :
        (xs : List A) (y : A) → row key (key y) xs ≡ none → N y → Grows R N xs (xs ++ y ∷ [])
    Grows-append xs y h n = record {
      distinct = Distinct-append key xs y h;
      grown = λ _. Grown-append r xs y n;
    }

    pub Grows-modify :
        (f : A → A) (id : String) (xs : List A)
        → ((x : A) → key (f x) ≡ key x)
        → (Distinct key xs → (x : A) → row key id xs ≡ some x → R x (f x))
        → Grows R N xs (modify key id f xs)
    Grows-modify f id xs k h = record {
      distinct = Distinct-modify key f id xs k;
      grown = λ d. Grown-modify key f id xs r (h d);
    }

  pub Grows-trans :
      {R : A → A → Type 0} {N : A → Type 0} {xs ys zs : List A}
      → ((x y z : A) → R x y → R y z → R x z)
      → ((x y : A) → N x → R x y → N y)
      → Grows R N xs ys
      → Grows R N ys zs
      → Grows R N xs zs
  Grows-trans t k f g = record {
    distinct = λ d. g.distinct (f.distinct d);
    grown = λ d. Grown-trans t k (f.grown d) (g.grown (f.distinct d));
  }
