-- ===== src/Redaction.antt =====
-- Redaction of JSON trees (redaction.rs): `is_sensitive_key` and `redact_json`. A text is scanned as
-- the list of its code points; the scans of the code are on ASCII.
pub mod Laws
use Prim.Native.String
use Prim.Native.Char.{code}
use morpho_research_os.Prelude.{
  ℕ, ◌+◌, String, Bool, true, false, ◌&&◌, ◌||◌, List, [], ◌∷◌, ◌==◌, leb, if◌then◌else◌, map, any,
}

abbrev pub codes : String → List ℕ
codes String.String.[] = []
codes (String.String.◌∷◌ c s) = code c ∷ codes s

-- `starts_with` and `contains` on lists of codes.
abbrev pub begins : List ℕ → List ℕ → Bool
begins [] text = true
begins (a ∷ fragment) [] = false
begins (a ∷ fragment) (b ∷ text) = a == b && begins fragment text

abbrev pub contains : List ℕ → List ℕ → Bool
contains fragment [] = begins fragment []
contains fragment (b ∷ text) = begins fragment (b ∷ text) || contains fragment text

-- `to_ascii_lowercase`, and `replace('-', "_")`.
abbrev pub ascii_lower : ℕ → ℕ
ascii_lower c = if leb 65 c && leb c 90 then c + 32 else c

abbrev pub hyphen : ℕ → ℕ
hyphen c = if c == 45 then 95 else c

abbrev pub sensitive_key_fragments : List String
sensitive_key_fragments =
    "api_key" ∷ "apikey" ∷ "secret" ∷ "token" ∷ "password" ∷ "passwd" ∷ "authorization"
    ∷ "credential" ∷ "session_key" ∷ []

abbrev pub redacted : String
redacted = "[redacted]"

unfoldable pub is_sensitive_key : String → Bool
is_sensitive_key key =
    let lowered = map ascii_lower (codes key) in
    let normalized = map hyphen lowered in
    any (λ fragment. contains (codes fragment) lowered || contains (codes fragment) normalized)
      sensitive_key_fragments

-- `serde_json::Value`; a number is the text it is printed as.
mutual
  pub data Json : Type 0 where
    null : Json
    boolean : Bool → Json
    number : String → Json
    text : String → Json
    array : Items → Json
    object : Fields → Json

  pub data Items : Type 0 where
    nil : Items
    cons : Json → Items → Items

  pub data Fields : Type 0 where
    end : Fields
    field : String → Json → Fields → Fields

abbrev pub is_null : Json → Bool
is_null null = true
is_null _ = false

-- What becomes of the value of a sensitive key.
abbrev pub mask : Json → Json
mask v = if is_null v then v else text redacted

unfoldable mutual
  pub redact_json : Json → Json
  redact_json null = null
  redact_json (boolean b) = boolean b
  redact_json (number n) = number n
  redact_json (text s) = text s
  redact_json (array items) = array (redact_items items)
  redact_json (object fields) = object (redact_fields fields)

  pub redact_items : Items → Items
  redact_items nil = nil
  redact_items (cons v items) = cons (redact_json v) (redact_items items)

  pub redact_fields : Fields → Fields
  redact_fields end = end
  redact_fields (field key v fields) =
      let inside = redact_json v in
      let rest = redact_fields fields in
      field key (if is_sensitive_key key then mask v else inside) rest
