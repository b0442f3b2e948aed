-- ===== src/Repositories/Domain.antt =====
-- The tables of the research results (migrations 001, 005 and 006) with their records, and the queries
-- and writes that the repositories build on. A quality score is the text that it is printed as. The
-- project that a row refers to, whose table is not part of the state, is taken to exist.
pub mod Sources
pub mod Nodes
pub mod Relations
pub mod Claims
pub mod Evidence
pub mod Growth
pub mod Guards
pub mod Same
pub mod Kept
pub mod Laws
use morpho_research_os.Prelude.{
  ℕ, suc, String, Bool, true, false, Option, none, some, List, [], ◌∷◌, str_eq, any, if◌then◌else◌,
}
use morpho_research_os.Prelude.Int.{ℤ}
use morpho_research_os.Errors.{Result, ok, err, Action, database, pure, raise}
use morpho_research_os.Env.{Env}
use morpho_research_os.Repositories.Tables.{Db}

-- repositories/sources.rs.
pub record SourceRecord : Type 0 where
  pub id : String
  pub project_id : String
  pub url : String
  pub canonical_url : String
  pub title : String
  pub source_type : String
  pub status : String
  pub retrieved_at : ℕ
  pub quality_score : Option String
  pub quality_notes : Option String
  pub created_at : ℕ
  pub updated_at : ℕ

pub record SourceContentRecord : Type 0 where
  pub id : String
  pub source_id : String
  pub content_hash : String
  pub format : String
  pub cache_path : String
  pub byte_size : ℕ
  pub extracted_at : ℤ
  pub content_class : String

-- repositories/knowledge.rs.
pub record KnowledgeNodeRecord : Type 0 where
  pub id : String
  pub project_id : String
  pub node_type : String
  pub title : String
  pub slug : String
  pub summary : String
  pub status : String
  pub confidence : String
  pub aliases : List String
  pub tags : List String
  pub source_ids : List String
  pub claim_ids : List String
  pub created_at : ℕ
  pub updated_at : ℕ

-- repositories/relations.rs.
pub record RelationRecord : Type 0 where
  pub id : String
  pub project_id : String
  pub from_node_id : String
  pub to_node_id : String
  pub relation_type : String
  pub confidence : String
  pub created_at : ℕ

-- repositories/claims.rs.
pub record ClaimRecord : Type 0 where
  pub id : String
  pub project_id : String
  pub subject : String
  pub predicate : String
  pub object_value : String
  pub scope : String
  pub status : String
  pub confidence : String
  pub provenance : String
  pub created_at : ℕ
  pub updated_at : ℕ

-- repositories/evidence.rs.
pub record EvidenceRecord : Type 0 where
  pub id : String
  pub project_id : String
  pub source_id : String
  pub quote : String
  pub value : String
  pub locator : String
  pub locator_detail : String
  pub retrieved_at : ℤ
  pub direction : String
  pub created_at : ℕ

-- The tables, beside the ones of the orchestrator; a link is a claim's id with a piece of evidence's.
pub record Domain : Type 0 where
  pub core : Db
  pub sources : List SourceRecord
  pub contents : List SourceContentRecord
  pub nodes : List KnowledgeNodeRecord
  pub relations : List RelationRecord
  pub claims : List ClaimRecord
  pub evidence : List EvidenceRecord
  pub links : List (String × String)

abbrev pub source_key : SourceRecord → String
source_key r = r.id

abbrev pub content_key : SourceContentRecord → String
content_key r = r.id

abbrev pub node_key : KnowledgeNodeRecord → String
node_key r = r.id

abbrev pub relation_key : RelationRecord → String
relation_key r = r.id

abbrev pub claim_key : ClaimRecord → String
claim_key r = r.id

abbrev pub evidence_key : EvidenceRecord → String
evidence_key r = r.id

abbrev pub confidence_states : List String
confidence_states = "confirmed" ∷ "high" ∷ "medium" ∷ "low" ∷ "unverified" ∷ "conflicting" ∷ []

abbrev pub is_there {ℓ} : {A : Type ℓ} → Option A → Bool
is_there none = false
is_there (some _) = true

abbrev pub is_missing {ℓ} : {A : Type ℓ} → Option A → Bool
is_missing none = true
is_missing (some _) = false

-- A condition that ends in the database's error where it fails.
unfoldable pub require : Bool → String → Action Domain (Unit {0})
require b message = if b then pure tt else raise (database message)

-- A statement that changes the tables.
unfoldable pub execute : (Domain → Domain) → Action Domain (Unit {0})
execute f d = (ok tt, f d)

module _ ⦃env : Env⦄ where
  open env use {clock, uuid}

  unfoldable pub now_unix_ms : Action Domain ℕ
  now_unix_ms d =
      (ok (clock d.core.reads), record d { core = record d.core { reads = suc d.core.reads } })

  unfoldable pub new_id : Action Domain String
  new_id d =
      (ok (uuid d.core.drawn), record d { core = record d.core { drawn = suc d.core.drawn } })

  -- `new.id.clone().unwrap_or_else(new_id)`.
  unfoldable pub id_or_new : Option String → Action Domain String
  id_or_new none = new_id
  id_or_new (some id) = pure id
