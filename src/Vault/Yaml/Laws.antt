-- ===== src/Vault/Yaml/Laws.antt =====
-- A quoted text reads back as the text that was quoted.
use Prim.Native.Nat.{◌/◌}
use morpho_research_os.Prelude.{
  ℕ, zero, suc, ◌+◌, ◌*◌, ◌%◌, ◌<◌, ◌≡◌, refl, ap, ◌∙◌, ◌⊎◌, inl, inr, Bool, true, false, Option,
  none, some, List, [], ◌∷◌, ◌++◌, ◌==◌, ◌||◌, All, ltb, if◌then◌else◌, arith, Bool-cases,
}
use morpho_research_os.Vault.Yaml.{hex_code, escape, escaped, yaml_str}
use morpho_research_os.Vault.Yaml.Reader.{
  is_raw, is_hex, digits, before, inside, slash, after, hex_value, prepend, unquote,
  without_returns,
}

-- A control character below the space, or a character that may stand in a quoted text as it is.
abbrev pub IsQuotable : ℕ → Type 0
IsQuotable c = (ltb c 32 || is_raw c) ≡ true

-- What one escaped character reads as.
abbrev read_one : ℕ → Option (List ℕ) → Option (List ℕ)
read_one c o = if c == 13 then o else prepend c o

unquote-plain :
    (c : ℕ) (text : List ℕ)
    → (c == 34) ≡ false
    → (c == 92) ≡ false
    → is_raw c ≡ true
    → unquote inside (c ∷ text) ≡ prepend c (unquote inside text)
unfolding unquote
unquote-plain c text = go (c == 34) (c == 92) (is_raw c)
  where
    go :
        (x y z : Bool)
        → x ≡ false
        → y ≡ false
        → z ≡ true
        → (elim x as (λ _. Option (List ℕ)) [
          | true ↦ unquote after text
          | false ↦ elim y as (λ _. Option (List ℕ)) [
            | true ↦ unquote slash text
            | false ↦ elim z as (λ _. Option (List ℕ)) [
              | true ↦ prepend c (unquote inside text)
              | false ↦ none
            ]
          ]
        ])
          ≡ prepend c (unquote inside text)
    go true y z h k l = cc
    go false true z h k l = cc
    go false false true h k l = refl
    go false false false h k l = cc

hex_value-hex_code : (n : ℕ) → n < 16 → hex_value (hex_code n) ≡ n
hex_value-hex_code n h = ground arith

is_hex-hex_code : (n : ℕ) → n < 16 → is_hex (hex_code n) ≡ true
is_hex-hex_code n h = ground arith

if_hex :
    {A : Type 0} (b : Bool) (x y : A) → b ≡ true → (elim b as (λ _. A) [ true ↦ x | false ↦ y ]) ≡ x
if_hex true x y h = refl
if_hex false x y h = cc

unquote-digit :
    (k n c : ℕ) (text : List ℕ)
    → is_hex c ≡ true
    → unquote (digits (suc k) n) (c ∷ text) ≡ unquote (digits k (n * 16 + hex_value c)) text
unfolding unquote
unquote-digit k n c text h = if_hex (is_hex c) _ none h

unquote-last :
    (n c : ℕ) (text : List ℕ)
    → is_hex c ≡ true
    → unquote (digits zero n) (c ∷ text) ≡ prepend (n * 16 + hex_value c) (unquote inside text)
unfolding unquote
unquote-last n c text h = if_hex (is_hex c) _ none h

unquote-digits :
    (c : ℕ) (text : List ℕ)
    → ltb c 32 ≡ true
    → unquote inside (92 ∷ 117 ∷ 48 ∷ 48 ∷ hex_code (c / 16) ∷ hex_code (c % 16) ∷ text)
      ≡ prepend c (unquote inside text)
unfolding unquote
unquote-digits c text h =
    let high = hex_value-hex_code (c / 16) (quotient h) in
    let low = hex_value-hex_code (c % 16) (remainder c) in
    unquote-digit 0 0 (hex_code (c / 16)) (hex_code (c % 16) ∷ text)
      (is_hex-hex_code (c / 16) (quotient h))
    ∙ unquote-last (0 * 16 + hex_value (hex_code (c / 16))) (hex_code (c % 16)) text
        (is_hex-hex_code (c % 16) (remainder c))
    ∙ ap (λ n. prepend n (unquote inside text)) (digits_value high low)
  where
    quotient : ltb c 32 ≡ true → c / 16 < 16
    quotient h = ground arith

    remainder : (n : ℕ) → n % 16 < 16
    remainder n = omega arith

    digits_value : {a b : ℕ} → a ≡ c / 16 → b ≡ c % 16 → (0 * 16 + a) * 16 + b ≡ c
    digits_value e f = omega arith

equal : (a b : ℕ) → (a == b) ≡ true → a ≡ b
equal a b h = ground arith

-- The five characters with an escape of their own, and the one that is left out.
unquote-special :
    (c : ℕ) (text : List ℕ)
    → (c ≡ 34) ⊎ (c ≡ 92) ⊎ (c ≡ 10) ⊎ (c ≡ 13) ⊎ (c ≡ 9)
    → unquote inside (escape c ++ text) ≡ read_one c (unquote inside text)
unfolding unquote
unquote-special c text (inl e) = rw e refl
unquote-special c text (inr (inl e)) = rw e refl
unquote-special c text (inr (inr (inl e))) = rw e refl
unquote-special c text (inr (inr (inr (inl e)))) = rw e refl
unquote-special c text (inr (inr (inr (inr e)))) = rw e refl

unquote-escape :
    (c : ℕ) (text : List ℕ)
    → (ltb c 32 || is_raw c) ≡ true
    → unquote inside (escape c ++ text) ≡ read_one c (unquote inside text)
unquote-escape c text h = elim (Bool-cases (c == 34)) [
  | inl e ↦ unquote-special c text (inl (equal c 34 e))
  | inr a ↦ elim (Bool-cases (c == 92)) [
    | inl e ↦ unquote-special c text (inr (inl (equal c 92 e)))
    | inr b ↦ elim (Bool-cases (c == 10)) [
      | inl e ↦ unquote-special c text (inr (inr (inl (equal c 10 e))))
      | inr n ↦ elim (Bool-cases (c == 13)) [
        | inl e ↦ unquote-special c text (inr (inr (inr (inl (equal c 13 e)))))
        | inr r ↦ elim (Bool-cases (c == 9)) [
          | inl e ↦ unquote-special c text (inr (inr (inr (inr (equal c 9 e)))))
          | inr t ↦ elim (Bool-cases (ltb c 32)) [
            | inl e ↦ rw (a, b, n, r, t, e) (unquote-digits c text e)
            | inr u ↦ rw (a, b, n, r, t, u) (unquote-plain c text a b (rw u at h))
          ]
        ]
      ]
    ]
  ]
]

append_assoc : (xs ys zs : List ℕ) → (xs ++ ys) ++ zs ≡ xs ++ (ys ++ zs)
append_assoc [] ys zs = refl
append_assoc (x ∷ xs) ys zs = ap (λ t. x ∷ t) (append_assoc xs ys zs)

read_one-some : (c : ℕ) (cs : List ℕ) → read_one c (some cs) ≡ some (if c == 13 then cs else c ∷ cs)
read_one-some c cs = go (c == 13)
  where
    go : (b : Bool) → (if b then some cs else some (c ∷ cs)) ≡ some (if b then cs else c ∷ cs)
    go true = refl
    go false = refl

unquote-escaped :
    (value : List ℕ)
    → All IsQuotable value
    → unquote inside (escaped value ++ 34 ∷ []) ≡ some (without_returns value)
unfolding unquote
unquote-escaped [] h = refl
unquote-escaped (c ∷ value) (now, rest) =
    ap (unquote inside) (append_assoc (escape c) (escaped value) (34 ∷ []))
    ∙ unquote-escape c (escaped value ++ 34 ∷ []) now
    ∙ ap (read_one c) (unquote-escaped value rest)
    ∙ read_one-some c (without_returns value)

-- A reader of double-quoted YAML texts, which refuses the characters that must not stand in one as they
-- are, reads the quoted form of a value back as the value without its carriage returns. The characters
-- of the value from the space on are ones that may stand in a quoted text; the ones below are any.
pub unquote-yaml_str :
    (value : List ℕ)
    → All IsQuotable value
    → unquote before (yaml_str value) ≡ some (without_returns value)
unfolding unquote yaml_str
unquote-yaml_str value h = unquote-escaped value h
