-- ===== src/Vault/Slug/Laws.antt =====
-- What a slug looks like, and that a slug is its own slug.
use mathlib.Core.Logic.{◌↔◌}
use mathlib.Core.Path.{subst}
use morpho_research_os.Prelude.{
  ℕ, zero, suc, ◌≤◌, ◌≡◌, refl, sym, ap, ◌∙◌, ◌⊎◌, inl, inr, Bool, true, false, not, ◌&&◌, ◌||◌,
  List, [], ◌∷◌, ◌==◌, leb, ltb, if◌then◌else◌, take, length, is_empty, arith, Bool-cases,
}
use morpho_research_os.Redaction.{ascii_lower}
use morpho_research_os.Vault.Slug.{dash, is_ascii_alphanumeric, scan, pop_dashes, slugify}

-- A small letter or a digit.
abbrev pub is_slug_letter : ℕ → Bool
is_slug_letter c = (leb 48 c && leb c 57) || (leb 97 c && leb c 122)

-- Letters and single dashes; the flag says that a dash may not come next.
abbrev pub is_spaced : Bool → List ℕ → Bool
is_spaced after_dash [] = true
is_spaced after_dash (c ∷ cs) =
    let ok_letter = is_spaced false cs in
    let ok_dash = is_spaced true cs in
    if is_slug_letter c then ok_letter else not after_dash && c == dash && ok_dash

abbrev pub ends_with_dash : List ℕ → Bool
ends_with_dash [] = false
ends_with_dash (c ∷ []) = c == dash
ends_with_dash (c ∷ d ∷ cs) = ends_with_dash (d ∷ cs)

-- At most eighty small letters, digits and dashes, with a dash neither first nor last nor after a dash.
pub record IsSlug (slug : List ℕ) : Type 0 where
  pub short : length slug ≤ 80
  pub spaced : is_spaced true slug ≡ true
  pub closed : ends_with_dash slug ≡ false

is_alphanumeric_lower :
    (c : ℕ) → is_ascii_alphanumeric (ascii_lower c) ≡ is_slug_letter (ascii_lower c)
is_alphanumeric_lower c = ground arith

-- What follows a character may be replaced by what is as good there.
replace_tail :
    (last : Bool) (c : ℕ) (xs ys : List ℕ)
    → (is_spaced false xs ≡ true → is_spaced false ys ≡ true)
    → (is_spaced true xs ≡ true → is_spaced true ys ≡ true)
    → is_spaced last (c ∷ xs) ≡ true
    → is_spaced last (c ∷ ys) ≡ true
replace_tail last c xs ys f g = go (is_slug_letter c) last (c == dash)
  where
    go :
        (b l d : Bool)
        → (if b then is_spaced false xs else not l && d && is_spaced true xs) ≡ true
        → (if b then is_spaced false ys else not l && d && is_spaced true ys) ≡ true
    go true l d h = f h
    go false true d h = h
    go false false true h = g h
    go false false false h = h

scan-is_spaced : (last : Bool) (title : List ℕ) → is_spaced last (scan last title) ≡ true
unfolding scan
scan-is_spaced last [] = refl
scan-is_spaced last (c ∷ title) =
    let after_letter = scan-is_spaced false title in
    let after_dash = scan-is_spaced true title in
    elim (Bool-cases (is_ascii_alphanumeric (ascii_lower c))) [
      | inl e ↦ rw (e, sym (is_alphanumeric_lower c) ∙ e) after_letter
      | inr e ↦ rw e (dashed last title after_dash)
    ]
  where
    dashed :
        (l : Bool) (cs : List ℕ)
        → is_spaced true (scan true cs) ≡ true
        → is_spaced l (if not l then dash ∷ scan true cs else scan true cs) ≡ true
    dashed true cs h = h
    dashed false cs h = h

-- One step of popping.
abbrev popped : ℕ → List ℕ → List ℕ
popped c rest = if is_empty rest && c == dash then [] else c ∷ rest

popped-ends_with_dash :
    (c : ℕ) (rest : List ℕ) → ends_with_dash rest ≡ false → ends_with_dash (popped c rest) ≡ false
popped-ends_with_dash c [] h = go (c == dash) refl
  where
    go : (b : Bool) → (c == dash) ≡ b → ends_with_dash (if b then [] else c ∷ []) ≡ false
    go true e = refl
    go false e = e
popped-ends_with_dash c (d ∷ rest) h = h

pop_dashes-ends_with_dash : (slug : List ℕ) → ends_with_dash (pop_dashes slug) ≡ false
unfolding pop_dashes
pop_dashes-ends_with_dash [] = refl
pop_dashes-ends_with_dash (c ∷ slug) =
    popped-ends_with_dash c (pop_dashes slug) (pop_dashes-ends_with_dash slug)

popped-is_spaced :
    (last : Bool) (c : ℕ) (rest : List ℕ)
    → is_spaced last (c ∷ rest) ≡ true
    → is_spaced last (popped c rest) ≡ true
popped-is_spaced last c rest h = go (is_empty rest && c == dash)
  where
    go : (b : Bool) → is_spaced last (if b then [] else c ∷ rest) ≡ true
    go true = refl
    go false = h

pop_dashes-is_spaced :
    (last : Bool) (slug : List ℕ)
    → is_spaced last slug ≡ true
    → is_spaced last (pop_dashes slug) ≡ true
unfolding pop_dashes
pop_dashes-is_spaced last [] h = refl
pop_dashes-is_spaced last (c ∷ slug) h = popped-is_spaced last c (pop_dashes slug) (
    replace_tail last c slug (pop_dashes slug) (pop_dashes-is_spaced false slug)
      (pop_dashes-is_spaced true slug) h)

take-is_spaced :
    (last : Bool) (n : ℕ) (slug : List ℕ)
    → is_spaced last slug ≡ true
    → is_spaced last (take n slug) ≡ true
take-is_spaced last zero slug h = refl
take-is_spaced last (suc n) [] h = refl
take-is_spaced last (suc n) (c ∷ slug) h =
    replace_tail last c slug (take n slug) (take-is_spaced false n slug)
      (take-is_spaced true n slug) h

length-popped : (c : ℕ) (rest : List ℕ) → length (popped c rest) ≤ suc (length rest)
length-popped c rest = go (is_empty rest && c == dash)
  where
    go : (b : Bool) → length (if b then [] else c ∷ rest) ≤ suc (length rest)
    go true = omega arith
    go false = omega arith

length-pop_dashes : (slug : List ℕ) → length (pop_dashes slug) ≤ length slug
unfolding pop_dashes
length-pop_dashes [] = omega arith
length-pop_dashes (c ∷ slug) =
    omega (arith, length-popped c (pop_dashes slug), length-pop_dashes slug)

length-take : (n : ℕ) (slug : List ℕ) → length (take n slug) ≤ n
length-take zero slug = omega arith
length-take (suc n) [] = omega arith
length-take (suc n) (c ∷ slug) = omega (arith, length-take n slug)

IsSlug-pop_dashes :
    (slug : List ℕ) → length slug ≤ 80 → is_spaced true slug ≡ true → IsSlug (pop_dashes slug)
IsSlug-pop_dashes slug h k = record {
  short = omega (arith, length-pop_dashes slug);
  spaced = pop_dashes-is_spaced true slug k;
  closed = pop_dashes-ends_with_dash slug;
}

slugify-IsSlug : (title : List ℕ) → IsSlug (slugify title)
unfolding slugify
slugify-IsSlug title =
    let slug = pop_dashes (scan true title) in
    let spaced = pop_dashes-is_spaced true _ (scan-is_spaced true title) in
    elim (Bool-cases (ltb 80 (length slug))) [
      | inl e ↦ rw e (
          IsSlug-pop_dashes (take 80 slug) (length-take 80 slug)
            (take-is_spaced true 80 slug spaced))
      | inr e ↦ rw e (record {
        short = ground arith;
        spaced = spaced;
        closed = pop_dashes-ends_with_dash (scan true title);
      })
    ]

keep_letter : (c : ℕ) → is_slug_letter c ≡ true → ascii_lower c ≡ c
keep_letter c h = ground arith

keep_alphanumeric : (c : ℕ) → is_slug_letter c ≡ true → is_ascii_alphanumeric c ≡ true
keep_alphanumeric c h = ground arith

is_dash : (c : ℕ) → (c == dash) ≡ true → c ≡ dash
is_dash c h = ground arith

-- A text that may stand begins with a letter, or with a dash that may come there.
spaced_head :
    (b l d x y : Bool)
    → (if b then x else not l && d && y) ≡ true
    → ((b ≡ true) × (x ≡ true)) ⊎ ((l ≡ false) × (d ≡ true) × (y ≡ true))
spaced_head true l d x y h = inl (refl, h)
spaced_head false true d x y h = cc
spaced_head false false true x y h = inr (refl, refl, h)
spaced_head false false false x y h = cc

scan_spaced : (last : Bool) (slug : List ℕ) → is_spaced last slug ≡ true → scan last slug ≡ slug
unfolding scan
scan_spaced last [] h = refl
scan_spaced last (c ∷ slug) h =
    let after_letter = scan_spaced false slug in
    let after_dash = scan_spaced true slug in
    elim (spaced_head (is_slug_letter c) last (c == dash) _ _ h) [
      | inl (letter, rest) ↦
          rw (keep_letter c letter, keep_alphanumeric c letter)
            (ap (λ t. c ∷ t) (after_letter rest))
      | inr (free, e, rest) ↦ rw (is_dash c e, free) (ap (λ t. dash ∷ t) (after_dash rest))
    ]

pop_closed : (slug : List ℕ) → ends_with_dash slug ≡ false → pop_dashes slug ≡ slug
unfolding pop_dashes
pop_closed [] h = refl
pop_closed (c ∷ []) h = rw h refl
pop_closed (c ∷ d ∷ slug) h = ap (popped c) (pop_closed (d ∷ slug) h)

slugify_fixed : (slug : List ℕ) → IsSlug slug → slugify slug ≡ slug
unfolding slugify
slugify_fixed slug is =
    let kept : pop_dashes (scan true slug) ≡ slug =
      ap pop_dashes (scan_spaced true slug is.spaced) ∙ pop_closed slug is.closed in
    let fits : ltb 80 (length slug) ≡ false = go (is.short) in rw (kept, fits) refl
  where
    go : {n : ℕ} → n ≤ 80 → ltb 80 n ≡ false
    go {n} h = ground arith

-- The slug of a title is at most eighty small letters, digits and dashes, with a dash neither first
-- nor last nor after a dash; and the texts of this form are exactly the ones that are their own slug.
pub slugify_iff :
    (title : List ℕ) → IsSlug (slugify title) × (IsSlug title ↔ (slugify title ≡ title))
slugify_iff title =
    (slugify-IsSlug title, (slugify_fixed title, λ h. subst IsSlug h (slugify-IsSlug title)))
