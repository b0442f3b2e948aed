-- ===== src/Vault/Yaml.antt =====
-- `yaml_str` (vault.rs): a value in the front matter of a note. A text is the list of its code points.
pub mod Reader
pub mod Laws
use Prim.Native.Nat.{◌/◌}
use morpho_research_os.Prelude.{
  ℕ, ◌+◌, ◌≡◌, refl, ◌%◌, List, [], ◌∷◌, ◌++◌, ◌==◌, ltb, if◌then◌else◌,
}

-- A digit of `{:x}`.
abbrev pub hex_code : ℕ → ℕ
hex_code n = if ltb n 10 then 48 + n else 87 + n

-- One character as it stands between the quotes; a control character is below 32, so that two of the
-- four hexadecimal digits are zeros.
abbrev pub escape : ℕ → List ℕ
escape ch =
    if ch == 34
    then 92 ∷ 34 ∷ []
    else if ch == 92
    then 92 ∷ 92 ∷ []
    else if ch == 10
    then 92 ∷ 110 ∷ []
    else if ch == 13
    then []
    else if ch == 9
    then 92 ∷ 116 ∷ []
    else if ltb ch 32
    then 92 ∷ 117 ∷ 48 ∷ 48 ∷ hex_code (ch / 16) ∷ hex_code (ch % 16) ∷ []
    else ch ∷ []

-- The loop over the characters.
abbrev pub escaped : List ℕ → List ℕ
escaped [] = []
escaped (ch ∷ value) = escape ch ++ escaped value

unfoldable pub yaml_str : List ℕ → List ℕ
yaml_str value = 34 ∷ escaped value ++ 34 ∷ []

-- The text `a"` with a bell before it.
yaml_str_runs :
    yaml_str (7 ∷ 97 ∷ 34 ∷ []) ≡ 34 ∷ 92 ∷ 117 ∷ 48 ∷ 48 ∷ 48 ∷ 55 ∷ 97 ∷ 92 ∷ 34 ∷ 34 ∷ []
unfolding yaml_str
yaml_str_runs = refl
