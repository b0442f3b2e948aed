-- ===== src/Env.antt =====
-- What the core takes from outside its own sources: JSON values and their text (serde_json), the
-- system clock and fresh identifiers (`now_unix_ms` and `new_id` of ids.rs over std and uuid).
-- The n-th reading of the clock and the n-th identifier are given by functions; the state counts
-- how many were taken.
use morpho_research_os.Prelude.{ℕ, String, Bool, Option, none, List, ◌≡◌, ◌⊎◌, inr}

pub record Env : Type 1 where
  -- `serde_json::Value`, with `get`, `as_str`, `is_null` and the `json!` objects of texts.
  pub Value : Type 0
  pub get : Value → String → Option Value
  pub as_str : Value → Option String
  pub is_null : Value → Bool
  pub null : Value
  pub text : String → Value
  pub flag : Bool → Value
  pub object : List (String × Value) → Value
  -- `serde_json::to_string`: the text, or on the left the message of the error.
  pub to_string : Value → String ⊎ String
  -- `serde_json::from_str::<Value>`: the message of the error, if the text is no JSON.
  pub parse_error : String → Option String
  pub clock : ℕ → ℕ
  pub uuid : ℕ → String

-- Documented behaviour of serde_json: printing a value succeeds, and prints JSON.
pub record PrintsJson (env : Env) : Type 0 where
  pub print : env.Value → String
  pub prints : (v : env.Value) → env.to_string v ≡ inr (print v)
  pub parses : (v : env.Value) → env.parse_error (print v) ≡ none
