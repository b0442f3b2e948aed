-- ===== src/Vault/Hash.antt =====
-- `content_hash` (vault.rs): FNV-1a on 64 bits over the bytes of a text, printed in hexadecimal.
use Prim.Native.Nat.{◌/◌}
use morpho_research_os.Prelude.{
  ℕ, zero, suc, ◌≡◌, refl, ◌+◌, ◌-◌, ◌*◌, ◌^◌, ◌%◌, String, List, [], ◌∷◌, ◌++◌, ◌==◌, ltb, length,
  digit, format, if◌then◌else◌,
}
use morpho_research_os.Redaction.{codes}

-- `^` on so many bits.
abbrev pub xor : ℕ → ℕ → ℕ → ℕ
xor zero a b = 0
xor (suc bits) a b =
    let high = xor bits (a / 2) (b / 2) in (if a % 2 == b % 2 then 0 else 1) + 2 * high

-- One round: `hash ^= byte`, and `wrapping_mul` by the prime.
abbrev pub mix : ℕ → ℕ → ℕ
mix hash byte = xor 64 hash byte * 1099511628211 % 2 ^ 64

abbrev pub fold_bytes : ℕ → List ℕ → ℕ
fold_bytes hash [] = hash
fold_bytes hash (byte ∷ bytes) = fold_bytes (mix hash byte) bytes

abbrev hex_digit : ℕ → String
hex_digit n =
    if ltb n 10
    then digit n
    else if n == 10
    then "a"
    else if n == 11
    then "b"
    else if n == 12
    then "c"
    else if n == 13
    then "d"
    else if n == 14
    then "e"
    else "f"

-- The hexadecimal digits of a number, of which there are no more than its value and one.
abbrev hex_digits : ℕ → ℕ → List String
hex_digits zero n = []
hex_digits (suc fuel) n =
    let high = hex_digits fuel (n / 16) in
    if ltb n 16 then hex_digit n ∷ [] else high ++ hex_digit (n % 16) ∷ []

abbrev zeros : ℕ → List String
zeros zero = []
zeros (suc n) = "0" ∷ zeros n

-- The number in hexadecimal, with zeros before it up to the width.
abbrev pub hex_padded : ℕ → ℕ → String
hex_padded width n = let shown = hex_digits 17 n in format (zeros (width - length shown) ++ shown)

unfoldable pub content_hash : List ℕ → String
content_hash bytes = format (
    hex_padded 16 (fold_bytes 14695981039346656037 bytes)
    ∷ "-0x"
    ∷ hex_padded 5 (length bytes)
    ∷ [])

-- UTF-8.
abbrev utf8 : ℕ → List ℕ
utf8 c =
    if ltb c 128
    then c ∷ []
    else if ltb c 2048
    then (192 + c / 64) ∷ (128 + c % 64) ∷ []
    else if ltb c 65536
    then (224 + c / 4096) ∷ (128 + c / 64 % 64) ∷ (128 + c % 64) ∷ []
    else (240 + c / 262144) ∷ (128 + c / 4096 % 64) ∷ (128 + c / 64 % 64) ∷ (128 + c % 64) ∷ []

abbrev bytes_of : List ℕ → List ℕ
bytes_of [] = []
bytes_of (c ∷ text) = utf8 c ++ bytes_of text

-- `str::as_bytes`.
unfoldable pub as_bytes : String → List ℕ
as_bytes text = bytes_of (codes text)

-- The published value of the function at the text "a".
fold_bytes_runs : fold_bytes 14695981039346656037 (97 ∷ []) ≡ 12638187200555641996
fold_bytes_runs = refl
