-- ===== src/Ingestion/Laws/Names.antt =====
-- The names of the files in the content cache.
use mathlib.Core.Path.{subst}
use Prim.Native.String
use Prim.Native.String.append
use Prim.Native.Char.{code, Char}
use morpho_research_os.Prelude.{
  String, Bool, true, false, ◌&&◌, ◌≡◌, refl, sym, List, [], ◌∷◌, all, All, format, str_eq,
  if◌then◌else◌,
}
use morpho_research_os.Redaction.{codes}
use morpho_research_os.Ingestion.Cache.{is_plain, sanitize, extension, file_name}

-- Letters, digits, dots, dashes and underscores.
abbrev pub IsPlain : String → Type 0
IsPlain s = all is_plain (codes s) ≡ true

both : (a b : Bool) → (a && b) ≡ true → (a ≡ true) × (b ≡ true)
both true b h = (refl, h)
both false b h = cc

IsPlain-append : (s t : String) → IsPlain s → IsPlain t → IsPlain (String.◌++◌ s t)
IsPlain-append String.String.[] t h k = subst IsPlain (sym (append.nil t)) k
IsPlain-append (String.String.◌∷◌ c s) t h k =
    let parts = both (is_plain (code c)) (all is_plain (codes s)) h in
    subst IsPlain (sym (append.cons c s t)) (rw (parts.0, IsPlain-append s t parts.1 k) refl)

plain_one : (c : Char) → is_plain (code (if is_plain (code c) then c else "_")) ≡ true
plain_one c = go (is_plain (code c)) refl
  where
    go : (b : Bool) → is_plain (code c) ≡ b → is_plain (code (if b then c else "_")) ≡ true
    go true e = e
    go false e = refl

IsPlain-sanitize : (s : String) → IsPlain (sanitize s)
IsPlain-sanitize String.String.[] = refl
IsPlain-sanitize (String.String.◌∷◌ c s) = rw (plain_one c, IsPlain-sanitize s) refl

IsPlain-format : (parts : List String) → All IsPlain parts → IsPlain (format parts)
unfolding format
IsPlain-format [] h = refl
IsPlain-format (s ∷ parts) h = IsPlain-append s (format parts) h.0 (IsPlain-format parts h.1)

IsPlain-if : (b : Bool) (s t : String) → IsPlain s → IsPlain t → IsPlain (if b then s else t)
IsPlain-if true s t h k = h
IsPlain-if false s t h k = k

IsPlain-extension : (content_type : String) → IsPlain (extension content_type)
IsPlain-extension content_type = IsPlain-if (str_eq content_type "text/html") _ _ refl (
    IsPlain-if (str_eq content_type "text/markdown") _ _ refl
      (IsPlain-if (str_eq content_type "application/json") _ _ refl refl))

-- Whatever the source, the fingerprint and the type of a content are, the name of its file has
-- letters, digits, dots, dashes and underscores only, so no separator of folders.
pub IsPlain-file_name :
    (core_source_id fingerprint content_type : String)
    → IsPlain (file_name core_source_id fingerprint content_type)
IsPlain-file_name core_source_id fingerprint content_type = IsPlain-format _ (
  IsPlain-sanitize core_source_id,
  (refl, (IsPlain-sanitize fingerprint, (refl, (IsPlain-extension content_type, tt)))),
)
