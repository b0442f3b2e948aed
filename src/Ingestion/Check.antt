-- ===== src/Ingestion/Check.antt =====
-- The first pass over the worker's records (ingestion.rs): closed vocabularies, and the records that
-- are kept.
use Prim.Native.String
use Prim.Native.Char.{code, Char}
use morpho_research_os.Prelude.{
  ℕ, suc, String, Bool, true, false, ◌&&◌, ◌||◌, Option, none, some, List, [], ◌∷◌, ◌⊎◌, inl, inr,
  ◌==◌, str_eq, any, format, map, if◌then◌else◌,
}
use morpho_research_os.Errors.{Result, ok, err, database}
use morpho_research_os.Env.{Env}
use morpho_research_os.Redaction.{codes, ascii_lower, begins}
use morpho_research_os.Repositories.Runs.{contains}
use morpho_research_os.Repositories.Domain.{confidence_states}
use morpho_research_os.Repositories.Domain.Sources.{content_classes}
use morpho_research_os.Repositories.Domain.Nodes.{node_types}
use morpho_research_os.Repositories.Domain.Claims.{claim_status_states}
use morpho_research_os.Ingestion.Wire.{
  RecordWire, ParsedRecord, source, source_content, node, relation, claim, evidence, has_anchor,
  Serde,
}

abbrev pub results_schema_version : String
results_schema_version = "1"

abbrev pub relation_directions : List String
relation_directions = "directed" ∷ "undirected" ∷ []

abbrev pub source_types : List String
source_types =
    "web_page" ∷ "paper" ∷ "book" ∷ "documentation" ∷ "news" ∷ "blog" ∷ "forum" ∷ "dataset"
    ∷ "video" ∷ "other" ∷ []

-- `?` on a result, and a test that ends in an error.
unfoldable pub and_then {ℓ κ} : {A : Type ℓ} {B : Type κ} → Result A → (A → Result B) → Result B
and_then (ok a) f = f a
and_then (err e) f = err e

abbrev pub check : Bool → String → Result (Unit {0})
check true message = ok tt
check false message = err (database message)

-- The list of known values that some messages print after it is left out.
abbrev pub unknown : String → String → String
unknown what value = format ("unknown " ∷ what ∷ " '" ∷ value ∷ "' in worker results" ∷ [])

abbrev pub valid_source_type : String → Result String
valid_source_type value =
    if contains source_types value then ok value else err (database (unknown "source_type" value))

abbrev pub eq_ignore_ascii_case : String → String → Bool
eq_ignore_ascii_case a b =
    let s = map ascii_lower (codes a) in
    let t = map ascii_lower (codes b) in begins s t && begins t s

-- `to_uppercase` of a letter that a node type begins with.
abbrev upper : Char → Char
upper c =
    if code c == b'a'
    then "A"
    else if code c == b'b'
    then "B"
    else if code c == b'c'
    then "C"
    else if code c == b'd'
    then "D"
    else if code c == b'e'
    then "E"
    else if code c == b'o'
    then "O"
    else if code c == b'p'
    then "P"
    else if code c == b't'
    then "T"
    else c

abbrev capitalized : String → Result String
capitalized String.String.[] = err (database "empty node type in worker results")
capitalized (String.String.◌∷◌ c rest) = ok (String.String.◌∷◌ (upper c) rest)

unfoldable pub capitalized_node_type : String → Result String
capitalized_node_type value =
    if any (λ core. eq_ignore_ascii_case core value) node_types
    then capitalized value
    else err (database (unknown "node type" value))

abbrev pub evidence_direction : String → Result String
evidence_direction value =
    if str_eq value "supports" || str_eq value "support"
    then ok "support"
    else if str_eq value "contradicts" || str_eq value "contradict"
    then ok "contradict"
    else err (database (unknown "evidence direction" value))

abbrev pub valid_confidence : String → Result (Unit {0})
valid_confidence value =
    check (str_eq value "" || contains confidence_states value) (unknown "confidence" value)

-- `parse_record`.
abbrev pub parse_record : {A : Type 0} → String → String ⊎ A → Result A
parse_record kind (inl message) =
    err (database (format ("worker " ∷ kind ∷ " record failed validation: " ∷ message ∷ [])))
parse_record kind (inr wire) = ok wire

abbrev pub skipped_kinds : List String
skipped_kinds = "extraction" ∷ "dropped" ∷ "validation-report" ∷ "note" ∷ "incremental-report" ∷ []

module _ ⦃env : Env⦄ ⦃serde : Serde env⦄ where
  open env use {Value}
  open serde use {
    read_source, read_source_content, read_node, read_relation, read_claim, read_evidence,
  }

  unfoldable pub check_source : Value → Result (ParsedRecord Value)
  check_source v =
      and_then (parse_record "source" (read_source v))
        λ wire. and_then (valid_source_type wire.source_type) λ _. ok (source wire)

  unfoldable pub check_source_content : Value → Result (ParsedRecord Value)
  check_source_content v = and_then (parse_record "source-content" (read_source_content v)) λ wire.
      and_then
        (check (contains content_classes wire.locator_base)
          (unknown "content class" wire.locator_base))
        λ _. ok (source_content wire)

  unfoldable pub check_node : Value → Result (ParsedRecord Value)
  check_node v = and_then (parse_record "node" (read_node v)) λ wire.
      and_then (capitalized_node_type wire.node_type)
        λ _. and_then (valid_confidence wire.confidence) λ _. ok (node wire)

  unfoldable pub check_relation : Value → Result (ParsedRecord Value)
  check_relation v = and_then (parse_record "relation" (read_relation v)) λ wire.
      and_then
        (check (contains relation_directions wire.direction)
          (unknown "relation direction" wire.direction))
        λ _. and_then (valid_confidence wire.confidence) λ _. ok (relation wire)

  unfoldable pub check_claim : Value → Result (ParsedRecord Value)
  check_claim v = and_then (parse_record "claim" (read_claim v)) λ wire.
      and_then
        (check (contains claim_status_states wire.status) (unknown "claim status" wire.status))
        λ _. and_then (valid_confidence wire.confidence) λ _. ok (claim wire)

  unfoldable pub check_evidence : Value → Result (ParsedRecord Value)
  check_evidence v = and_then (parse_record "evidence" (read_evidence v)) λ wire.
      and_then (evidence_direction wire.direction) λ _.
        and_then
          (check (has_anchor wire.locator)
            (format ("evidence '" ∷ wire.evidence_id ∷ "' carries no locator anchor" ∷ [])))
          λ _. ok (evidence wire)

  -- What one record comes to; `none` is a record that stays with the worker.
  unfoldable pub check_record : RecordWire Value → Result (Option (ParsedRecord Value))
  check_record r =
      let kept : Result (ParsedRecord Value) → Result (Option (ParsedRecord Value)) =
        λ done. and_then done λ p. ok (some p) in
      if str_eq r.kind "source"
      then kept (check_source r.payload)
      else if str_eq r.kind "source-content"
      then kept (check_source_content r.payload)
      else if str_eq r.kind "node"
      then kept (check_node r.payload)
      else if str_eq r.kind "relation"
      then kept (check_relation r.payload)
      else if str_eq r.kind "claim"
      then kept (check_claim r.payload)
      else if str_eq r.kind "evidence"
      then kept (check_evidence r.payload)
      else if contains skipped_kinds r.kind
      then ok none
      else err (database (unknown "record kind" r.kind))

  -- The records that are kept, and how many are skipped.
  abbrev pub add_record :
      Option (ParsedRecord Value) → List (ParsedRecord Value) × ℕ → List (ParsedRecord Value) × ℕ
  add_record none (parsed, skipped) = (parsed, suc skipped)
  add_record (some p) (parsed, skipped) = (p ∷ parsed, skipped)

  unfoldable pub check_all : List (RecordWire Value) → Result (List (ParsedRecord Value) × ℕ)
  check_all [] = ok ([], 0)
  check_all (r ∷ rs) =
      let rest = check_all rs in
      and_then (check_record r) λ p. and_then rest λ found. ok (add_record p found)

  abbrev pub batch_nodes : List (ParsedRecord Value) → List String
  batch_nodes [] = []
  batch_nodes (node wire ∷ rs) = wire.node_id ∷ batch_nodes rs
  batch_nodes (_ ∷ rs) = batch_nodes rs

  abbrev pub batch_claims : List (ParsedRecord Value) → List String
  batch_claims [] = []
  batch_claims (claim wire ∷ rs) = wire.claim_id ∷ batch_claims rs
  batch_claims (_ ∷ rs) = batch_claims rs
