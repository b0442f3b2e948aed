-- ===== src/Ingestion/Wire.antt =====
-- The shapes of the worker's results (ingestion.rs) and what reads them. A member that the code reads
-- only to check the shape is left out: the readers, which serde derives, are parameters.
use morpho_research_os.Prelude.{
  ℕ, String, Bool, false, not, Option, none, some, List, [], ◌∷◌, ◌⊎◌, str_eq, any,
}
use morpho_research_os.Env.{Env}

-- The job whose results are ingested.
pub record IngestTarget : Type 0 where
  pub project_id : String
  pub job_id : String
  pub run_id : String

pub record RecordWire (Value : Type 0) : Type 0 where
  pub kind : String
  pub payload : Value

pub record ResultsEnvelopeWire (Value : Type 0) : Type 0 where
  pub schema_version : String
  pub job_id : String
  pub records : List (RecordWire Value)

pub record SourceWire (Value : Type 0) : Type 0 where
  pub source_id : String
  pub url : String
  pub canonical_url : String
  pub title : String
  pub source_type : String
  pub quality : Option Value

pub record SourceContentWire : Type 0 where
  pub source_id : String
  pub content : String
  pub content_type : String
  pub fingerprint : String
  pub fetched_at : String
  pub locator_base : String

pub record NodeWire : Type 0 where
  pub node_id : String
  pub node_type : String
  pub title : String
  pub aliases : List String
  pub summary : String
  pub confidence : String
  pub source_ids : List String
  pub claim_ids : List String

pub record RelationWire : Type 0 where
  pub relation_id : String
  pub subject_node_id : String
  pub predicate : String
  pub object_node_id : String
  pub direction : String
  pub confidence : String

pub record ClaimWire (Value : Type 0) : Type 0 where
  pub claim_id : String
  pub subject_node_id : String
  pub predicate : String
  pub object_value : String
  pub scope : String
  pub status : String
  pub confidence : String
  pub provenance : Value

pub record EvidenceLocatorWire : Type 0 where
  pub quote : Option String
  pub section : Option String
  pub url_fragment : Option String
  pub position : Option String
  pub retrieved_at : String

pub record EvidenceWire : Type 0 where
  pub evidence_id : String
  pub claim_id : String
  pub source_id : String
  pub locator : EvidenceLocatorWire
  pub direction : String

-- A text that is there and not empty.
abbrev pub is_anchor : Option String → Bool
is_anchor none = false
is_anchor (some text) = not (str_eq text "")

unfoldable pub has_anchor : EvidenceLocatorWire → Bool
has_anchor l = any is_anchor (l.quote ∷ l.section ∷ l.url_fragment ∷ l.position ∷ [])

-- One validated record.
pub data ParsedRecord (Value : Type 0) : Type 0 where
  source : SourceWire Value → ParsedRecord Value
  source_content : SourceContentWire → ParsedRecord Value
  node : NodeWire → ParsedRecord Value
  relation : RelationWire → ParsedRecord Value
  claim : ClaimWire Value → ParsedRecord Value
  evidence : EvidenceWire → ParsedRecord Value

pub record IngestStats : Type 0 where
  pub sources : ℕ
  pub source_contents : ℕ
  pub nodes : ℕ
  pub relations : ℕ
  pub claims : ℕ
  pub evidence : ℕ
  pub skipped : ℕ

-- `serde_json::from_value` at the shapes, with the message of the error on the left, and what else is
-- asked of a JSON value. A number is the text that it is printed as.
pub record Serde (env : Env) : Type 0 where
  pub read_envelope : env.Value → String ⊎ ResultsEnvelopeWire env.Value
  pub read_source : env.Value → String ⊎ SourceWire env.Value
  pub read_source_content : env.Value → String ⊎ SourceContentWire
  pub read_node : env.Value → String ⊎ NodeWire
  pub read_relation : env.Value → String ⊎ RelationWire
  pub read_claim : env.Value → String ⊎ ClaimWire env.Value
  pub read_evidence : env.Value → String ⊎ EvidenceWire
  pub as_f64 : env.Value → Option String
  -- `(0.0..=1.0).contains`.
  pub in_unit : String → Bool
  -- `Display for Value`.
  pub show : env.Value → String
