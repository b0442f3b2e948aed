-- ===== src/Repositories/Rows/Fresh.antt =====
-- Rows that a query returned, while the table still holds them: with distinct keys each one is found
-- by its key, and choosing and sorting keeps the keys distinct.
use text.Mathlib.TextPositions.{eq_refl}
use morpho_research_os.Prelude.{
  String, Bool, true, false, some, List, [], ◌∷◌, ◌≡◌, ◌∙◌, str_eq, str_eq_comm, All, All-select,
  select, if◌then◌else◌, order_by,
}
use morpho_research_os.Prelude.Order.{place, All-place, All-order_by}
use morpho_research_os.Repositories.Rows.{row, Distinct}

module _ {A : Type 0} (key : A → String) where
  row_later :
      (x y : A) (xs : List A)
      → str_eq (key x) (key y) ≡ false
      → row key (key y) xs ≡ some y
      → row key (key y) (x ∷ xs) ≡ some y
  unfolding row
  row_later x y xs n h = rw n h

  rows_later :
      (x : A) (xs ys : List A)
      → All (λ y. str_eq (key x) (key y) ≡ false) ys
      → All (λ y. row key (key y) xs ≡ some y) ys
      → All (λ y. row key (key y) (x ∷ xs) ≡ some y) ys
  rows_later x xs [] n h = tt
  rows_later x xs (y ∷ ys) n h = (row_later x y xs n.0 h.0, rows_later x xs ys n.1 h.1)

  row_first : (x : A) (xs : List A) → row key (key x) (x ∷ xs) ≡ some x
  unfolding row
  row_first x xs = rw (eq_refl (key x))

  pub rows_found : (xs : List A) → Distinct key xs → All (λ y. row key (key y) xs ≡ some y) xs
  rows_found [] d = tt
  rows_found (x ∷ xs) d = (row_first x xs, rows_later x xs xs d.0 (rows_found xs d.1))

  pub Distinct-select : (p : A → Bool) (xs : List A) → Distinct key xs → Distinct key (select p xs)
  Distinct-select p [] d = tt
  Distinct-select p (x ∷ xs) d =
      let rest = Distinct-select p xs d.1 in
      elim (p x) as (λ b. Distinct key (if b then x ∷ select p xs else select p xs)) [
        | true ↦ (All-select _ p xs d.0, rest)
        | false ↦ rest
      ]

  Distinct-place :
      (le : A → A → Bool) (x : A) (xs : List A)
      → All (λ y. str_eq (key x) (key y) ≡ false) xs
      → Distinct key xs
      → Distinct key (place le x xs)
  unfolding place
  Distinct-place le x [] n d = (tt, tt)
  Distinct-place le x (y ∷ ys) n d =
      let rest = Distinct-place le x ys n.1 d.1 in
      let other : str_eq (key y) (key x) ≡ false = str_eq_comm (key y) (key x) ∙ n.0 in
      elim (le x y) as (λ b. Distinct key (if b then x ∷ y ∷ ys else y ∷ place le x ys)) [
        | true ↦ (n, d)
        | false ↦ (All-place le _ x ys other d.0, rest)
      ]

  pub Distinct-order_by :
      (le : A → A → Bool) (xs : List A) → Distinct key xs → Distinct key (order_by le xs)
  unfolding order_by
  Distinct-order_by le [] d = tt
  Distinct-order_by le (x ∷ xs) d =
      Distinct-place le x (order_by le xs) (All-order_by le _ xs d.0) (Distinct-order_by le xs d.1)
