-- ===== src/Worker/Version.antt =====
-- `protocol_compatible` and `parse_semver` (worker/mod.rs). A text is scanned as the list of its code
-- points.
use Prim.Native.Nat.{max}
use morpho_research_os.Prelude.{
  ℕ, ◌+◌, ◌-◌, ◌*◌, ◌^◌, String, Bool, false, ◌&&◌, ◌||◌, ◌==◌, ltb, leb, Option, none, some, List,
  [], ◌∷◌, if◌then◌else◌,
}
use morpho_research_os.Redaction.{codes}

-- `split(separator)`, the parts in order; there is always a first one.
abbrev pub more : ℕ → List (List ℕ) → List (List ℕ)
more c [] = (c ∷ []) ∷ []
more c (part ∷ parts) = (c ∷ part) ∷ parts

abbrev pub split : ℕ → List ℕ → List (List ℕ)
split separator [] = [] ∷ []
split separator (c ∷ text) =
    let parts = split separator text in if c == separator then [] ∷ parts else more c parts

-- The digits of a number that a `u64` holds.
abbrev pub digits : ℕ → List ℕ → Option ℕ
digits n [] = some n
digits n (c ∷ text) =
    let next = n * 10 + (c - 48) in
    let rest = digits next text in if leb 48 c && leb c 57 && ltb next (2 ^ 64) then rest else none

-- `str::parse::<u64>`, which takes one leading plus sign.
abbrev pub parse_u64 : List ℕ → Option ℕ
parse_u64 [] = none
parse_u64 (c ∷ []) = digits 0 (c ∷ [])
parse_u64 (c ∷ d ∷ text) = if c == 43 then digits 0 (d ∷ text) else digits 0 (c ∷ d ∷ text)

-- `parts.next().and_then(|p| p.parse().ok()).unwrap_or(0)`, and the parts after it.
abbrev pub next_or_zero : List (List ℕ) → ℕ
next_or_zero [] = 0
next_or_zero (part ∷ parts) = elim (parse_u64 part) [ none ↦ 0 | some n ↦ n ]

abbrev pub rest_of : List (List ℕ) → List (List ℕ)
rest_of [] = []
rest_of (part ∷ parts) = parts

pub record Semver : Type 0 where
  pub major : ℕ
  pub minor : ℕ
  pub patch : ℕ

-- The order of the tuples `(major, minor, patch)`.
abbrev pub semver_leb : Semver → Semver → Bool
semver_leb a b =
    ltb a.major b.major
    || (a.major == b.major && (ltb a.minor b.minor || (a.minor == b.minor && leb a.patch b.patch)))

unfoldable pub parse_semver : String → Option Semver
parse_semver text = elim (split 46 (codes text)) [
  | [] ↦ none
  | first ∷ parts ↦ elim (parse_u64 first) [
    | none ↦ none
    | some major ↦
        some (record {
          major = major;
          minor = next_or_zero parts;
          patch = next_or_zero (rest_of parts);
        })
  ]
]

abbrev pub worker_protocol_version : String
worker_protocol_version = "1.0"

unfoldable pub protocol_compatible : String → String → Bool
unfolding parse_semver
protocol_compatible min max = elim (parse_semver min) [
  | none ↦ false
  | some lo ↦ elim (parse_semver max) [
    | none ↦ false
    | some hi ↦ elim (parse_semver worker_protocol_version) [
      | none ↦ false
      | some ours ↦ semver_leb lo ours && semver_leb ours hi
    ]
  ]
]
