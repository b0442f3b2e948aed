-- ===== src/Ids.antt =====
-- `parse_rfc3339_ms` (ids.rs), on the bytes of the text.
use Prim.Native.Nat.{◌/◌}
use morpho_research_os.Prelude.{
  ℕ, zero, suc, ◌+◌, ◌-◌, ◌*◌, String, Bool, not, ◌&&◌, ◌||◌, Option, none, some, List, [], ◌∷◌,
  ◌++◌, ◌≡◌, refl, ◌==◌, ltb, leb, if◌then◌else◌, take, length, all,
}
use morpho_research_os.Prelude.Int.{ℤ, pos, negsuc, sub_ℕ, ◌+ℤ◌, ◌-ℤ◌, ◌*ℤ◌, ltb_ℤ}
use morpho_research_os.Vault.Hash.{as_bytes}

abbrev drop : ℕ → List ℕ → List ℕ
drop zero bytes = bytes
drop (suc n) [] = []
drop (suc n) (b ∷ bytes) = drop n bytes

-- `&bytes[from..to]`.
abbrev slice : ℕ → ℕ → List ℕ → List ℕ
slice from to bytes = take (to - from) (drop from bytes)

abbrev is_digit : ℕ → Bool
is_digit b = leb 48 b && leb b 57

abbrev digits_value : ℕ → List ℕ → ℕ
digits_value n [] = n
digits_value n (b ∷ bytes) = digits_value (10 * n + (b - 48)) bytes

abbrev digits : List ℕ → Option ℕ
digits [] = none
digits (b ∷ bytes) = if all is_digit (b ∷ bytes) then some (digits_value 0 (b ∷ bytes)) else none

-- `str::parse::<i64>`, on texts too short to overflow: digits, after a sign if there is one.
abbrev parse_i64 : List ℕ → Option ℤ
parse_i64 [] = none
parse_i64 (b ∷ bytes) =
    if b == 43
    then elim (digits bytes) as (λ _. Option ℤ) [ none ↦ none | some n ↦ some (pos n) ]
    else if b == 45
    then elim (digits bytes) as (λ _. Option ℤ) [ none ↦ none | some n ↦ some (sub_ℕ 0 n) ]
    else elim (digits (b ∷ bytes)) as (λ _. Option ℤ) [ none ↦ none | some n ↦ some (pos n) ]

abbrev take_digits : List ℕ → List ℕ
take_digits [] = []
take_digits (b ∷ bytes) = let rest = take_digits bytes in if is_digit b then b ∷ rest else []

abbrev and_then {ℓ κ} : {A : Type ℓ} {B : Type κ} → Option A → (A → Option B) → Option B
and_then none f = none
and_then (some a) f = f a

-- The milliseconds, and the text after them.
abbrev fraction : List ℕ → Option (ℕ × List ℕ)
fraction [] = some (0, [])
fraction (b ∷ rest) =
    let found = take_digits rest in
    if not (b == 46)
    then some (0, b ∷ rest)
    else elim (digits (take 3 (found ++ 48 ∷ 48 ∷ []))) as (λ _. Option (ℕ × List ℕ)) [
      | none ↦ none
      | some millis ↦ if length found == 0 then none else some (millis, drop (length found) rest)
    ]

-- `±HH:MM`, in seconds.
abbrev hours_minutes : ℤ → List ℕ → Option ℤ
hours_minutes sign text =
    if not (length text == 5) || not (all (λ b. b == 58) (slice 2 3 text))
    then none
    else and_then (parse_i64 (slice 0 2 text)) λ oh.
      and_then (parse_i64 (slice 3 5 text)) λ om. some (sign *ℤ (oh *ℤ pos 3600 +ℤ om *ℤ pos 60))

abbrev offset_seconds : List ℕ → Option ℤ
offset_seconds [] = none
offset_seconds (b ∷ rest) =
    if (b == 90 || b == 122) && length rest == 0
    then some (pos 0)
    else if b == 43
    then hours_minutes (pos 1) rest
    else if b == 45
    then hours_minutes (negsuc 0) rest
    else none

-- Division by a positive number that rounds towards zero, as `/` does on `i64`.
abbrev div : ℤ → ℕ → ℤ
div (pos n) k = pos (n / k)
div (negsuc n) k = sub_ℕ 0 (suc n / k)

-- Days since 1970-01-01; all quotients but the era's are of numbers that are not negative.
abbrev days_from_civil : ℤ → ℤ → ℤ → ℤ
days_from_civil year m d =
    let y = if ltb_ℤ (pos 2) m then year else year -ℤ pos 1 in
    let era = div (if ltb_ℤ y (pos 0) then y -ℤ pos 399 else y) 400 in
    let yoe = y -ℤ era *ℤ pos 400 in
    let doy =
      div (pos 153 *ℤ (if ltb_ℤ (pos 2) m then m -ℤ pos 3 else m +ℤ pos 9) +ℤ pos 2) 5
      +ℤ d
      -ℤ pos 1 in
    let doe = yoe *ℤ pos 365 +ℤ div yoe 4 -ℤ div yoe 100 +ℤ doy in
    era *ℤ pos 146097 +ℤ doe -ℤ pos 719468

abbrev between : ℕ → ℕ → ℤ → Bool
between low high n = not (ltb_ℤ n (pos low)) && not (ltb_ℤ (pos high) n)

unfoldable pub parse_rfc3339_ms : String → Option ℤ
parse_rfc3339_ms value =
    let bytes = as_bytes value in
    let whole = and_then (parse_i64 (slice 0 4 bytes)) λ year.
      and_then (parse_i64 (slice 5 7 bytes)) λ month. and_then (parse_i64 (slice 8 10 bytes)) λ day.
        and_then (parse_i64 (slice 11 13 bytes)) λ hour.
          and_then (parse_i64 (slice 14 16 bytes)) λ minute.
            and_then (parse_i64 (slice 17 19 bytes)) λ second.
              if not (between 1 12 month && between 1 31 day)
              then none
              else and_then (fraction (drop 19 bytes)) λ found.
                and_then (offset_seconds found.1) λ offset. some (
                  (days_from_civil year month day *ℤ pos 86400
                      +ℤ hour *ℤ pos 3600
                      +ℤ minute *ℤ pos 60
                      +ℤ second
                      -ℤ offset)
                    *ℤ pos 1000
                  +ℤ pos found.0) in
    if ltb (length bytes) 20 then none else whole

-- The instants that the tests of the source name.
epoch_runs : parse_rfc3339_ms "1970-01-01T00:00:00Z" ≡ some (pos 0)
unfolding parse_rfc3339_ms as_bytes
epoch_runs = refl

offset_runs : parse_rfc3339_ms "2026-09-16T14:00:00.5+02:00" ≡ some (pos 1789560000500)
unfolding parse_rfc3339_ms as_bytes
offset_runs = refl

leap_day_runs : parse_rfc3339_ms "2024-02-29T00:00:00Z" ≡ some (pos 1709164800000)
unfolding parse_rfc3339_ms as_bytes
leap_day_runs = refl
