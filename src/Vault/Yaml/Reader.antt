-- ===== src/Vault/Yaml/Reader.antt =====
-- A reader of double-quoted YAML texts, independent of how the vault writes them.
use morpho_research_os.Prelude.{
  ℕ, zero, suc, ◌+◌, ◌-◌, ◌*◌, Bool, true, false, ◌||◌, ◌&&◌, Option, none, some, List, [], ◌∷◌,
  ◌==◌, ltb, if◌then◌else◌,
}

-- Where a reader stands: before the quote, in the text, after a backslash, among hexadecimal digits
-- with so many to come, or after the closing quote.
pub data Place : Type 0 where
  before inside slash after : Place
  digits : ℕ → ℕ → Place

-- A digit of the base sixteen.
abbrev pub is_hex : ℕ → Bool
is_hex c = (ltb 47 c && ltb c 58) || (ltb 96 c && ltb c 103)

abbrev pub hex_value : ℕ → ℕ
hex_value c = if ltb c 58 then c - 48 else c - 87

-- The characters that stand in a quoted text as they are: what YAML calls printable, without the
-- tab, the line ends of any of its versions, and the byte-order mark.
abbrev pub is_raw : ℕ → Bool
is_raw c =
    between 32 126
    || between 160 8231
    || between 8234 55295
    || between 57344 65278
    || between 65280 65533
    || between 65536 1114111
  where
    between : ℕ → ℕ → Bool
    between low high = ltb low (suc c) && ltb c (suc high)

abbrev pub prepend : ℕ → Option (List ℕ) → Option (List ℕ)
prepend c none = none
prepend c (some cs) = some (c ∷ cs)

-- The reader of a double-quoted YAML text, for the escapes of quotes, backslashes, line ends, tabs and
-- four-digit code points, in small hexadecimal digits.
unfoldable pub unquote : Place → List ℕ → Option (List ℕ)
unquote after [] = some []
unquote _ [] = none
unquote before (c ∷ text) = elim (c == 34) [ true ↦ unquote inside text | false ↦ none ]
unquote inside (c ∷ text) = elim (c == 34) [
  | true ↦ unquote after text
  | false ↦ elim (c == 92) [
    | true ↦ unquote slash text
    | false ↦ elim (is_raw c) [ true ↦ prepend c (unquote inside text) | false ↦ none ]
  ]
]
unquote slash (c ∷ text) = elim (c == 117) [
  | true ↦ unquote (digits 3 0) text
  | false ↦ elim (c == 110) [
    | true ↦ prepend 10 (unquote inside text)
    | false ↦ elim (c == 116) [
      | true ↦ prepend 9 (unquote inside text)
      | false ↦ elim (c == 34 || c == 92) [ true ↦ prepend c (unquote inside text) | false ↦ none ]
    ]
  ]
]
unquote after (c ∷ text) = none
unquote (digits zero n) (c ∷ text) = elim (is_hex c) [
  | true ↦ prepend (n * 16 + hex_value c) (unquote inside text)
  | false ↦ none
]
unquote (digits (suc k) n) (c ∷ text) = elim (is_hex c) [
  | true ↦ unquote (digits k (n * 16 + hex_value c)) text
  | false ↦ none
]

-- The text without its carriage returns.
abbrev pub without_returns : List ℕ → List ℕ
without_returns [] = []
without_returns (c ∷ cs) = let rest = without_returns cs in if c == 13 then rest else c ∷ rest
