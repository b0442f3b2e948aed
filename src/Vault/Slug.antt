-- ===== src/Vault/Slug.antt =====
-- `slugify` (vault.rs): the name of a note's file, from its title. A text is the list of its code
-- points; the length of a slug in bytes is its length, since a slug is ASCII.
pub mod Laws
use morpho_research_os.Prelude.{
  ℕ, zero, suc, ◌+◌, ◌≤◌, ◌≡◌, refl, Bool, true, false, not, ◌&&◌, ◌||◌, List, [], ◌∷◌, ◌==◌, leb,
  ltb, if◌then◌else◌, take, length, is_empty,
}
use morpho_research_os.Redaction.{ascii_lower}

abbrev pub dash : ℕ
dash = 45

-- `is_ascii_alphanumeric`.
abbrev pub is_ascii_alphanumeric : ℕ → Bool
is_ascii_alphanumeric c =
    (leb 48 c && leb c 57) || (leb 65 c && leb c 90) || (leb 97 c && leb c 122)

-- The loop over the characters; the flag is `last_dash`.
unfoldable pub scan : Bool → List ℕ → List ℕ
scan last_dash [] = []
scan last_dash (ch ∷ chars) =
    let lowered = ascii_lower ch in
    let rest = scan (not (is_ascii_alphanumeric lowered)) chars in
    if is_ascii_alphanumeric lowered
    then lowered ∷ rest
    else if not last_dash
    then dash ∷ rest
    else rest

-- `while slug.ends_with('-') { slug.pop(); }`.
unfoldable pub pop_dashes : List ℕ → List ℕ
pop_dashes [] = []
pop_dashes (c ∷ slug) =
    let rest = pop_dashes slug in if is_empty rest && c == dash then [] else c ∷ rest

unfoldable pub slugify : List ℕ → List ℕ
slugify title =
    let slug = pop_dashes (scan true title) in
    if ltb 80 (length slug) then pop_dashes (take 80 slug) else slug

-- The title "A: b!" gives "a-b".
slugify_runs : slugify (65 ∷ 58 ∷ 32 ∷ 98 ∷ 33 ∷ []) ≡ 97 ∷ 45 ∷ 98 ∷ []
unfolding slugify pop_dashes scan
slugify_runs = refl
