-- ===== src/Repositories/Domain/Nodes.antt =====
-- Knowledge nodes (repositories/knowledge.rs). A list of texts is stored as JSON, which serde_json
-- prints and reads back.
use morpho_research_os.Prelude.{
  ℕ, String, Bool, true, false, ◌&&◌, ◌||◌, Option, none, some, List, [], ◌∷◌, ◌++◌, ◌==◌, str_eq,
  str_leb, ltb, find, select, order_by, format, if◌then◌else◌,
}
use morpho_research_os.Errors.{Action, pure, gets, ◌>>=◌, ◌>>◌}
use morpho_research_os.Env.{Env}
use morpho_research_os.Repositories.Rows.{row, modify}
use morpho_research_os.Repositories.Runs.{contains}
use morpho_research_os.Repositories.Domain.{
  Domain, KnowledgeNodeRecord, node_key, confidence_states, require, execute, now_unix_ms,
  id_or_new, is_missing,
}

abbrev pub node_types : List String
node_types =
    "Concept" ∷ "Person" ∷ "Organization" ∷ "Company" ∷ "Paper" ∷ "Book" ∷ "Experiment" ∷ "Event"
    ∷ "Technology" ∷ "Product" ∷ "Application" ∷ "Policy" ∷ "Dataset" ∷ "Controversy" ∷ []

pub record NewKnowledgeNode : Type 0 where
  pub id : Option String
  pub project_id : String
  pub node_type : String
  pub title : String
  pub slug : String
  pub summary : String
  pub confidence : String
  pub aliases : List String
  pub tags : List String
  pub source_ids : List String
  pub claim_ids : List String

abbrev pub merge_unique : List String → List String → List String
merge_unique merged [] = merged
merge_unique merged (item ∷ incoming) =
    merge_unique (if contains merged item then merged else merged ++ item ∷ []) incoming

abbrev pub has_slug : String → String → KnowledgeNodeRecord → Bool
has_slug project_id slug r = str_eq r.project_id project_id && str_eq r.slug slug

unfoldable pub get_by_slug : String → String → Domain → Option KnowledgeNodeRecord
get_by_slug project_id slug d = find (has_slug project_id slug) d.nodes

abbrev pub node_leb : KnowledgeNodeRecord → KnowledgeNodeRecord → Bool
node_leb a b = ltb a.created_at b.created_at || (a.created_at == b.created_at && str_leb a.id b.id)

unfoldable pub list_for_project : String → Domain → List KnowledgeNodeRecord
list_for_project project_id d =
    order_by node_leb (select (λ r. str_eq r.project_id project_id) d.nodes)

-- The columns that an upsert of a stored node sets; `existing` is what was read before.
abbrev pub merged :
    NewKnowledgeNode → KnowledgeNodeRecord → ℕ → KnowledgeNodeRecord → KnowledgeNodeRecord
merged new existing now r = record r {
  title = new.title;
  summary = new.summary;
  confidence = new.confidence;
  aliases = merge_unique existing.aliases new.aliases;
  tags = merge_unique existing.tags new.tags;
  source_ids = merge_unique existing.source_ids new.source_ids;
  claim_ids = merge_unique existing.claim_ids new.claim_ids;
  updated_at = now;
}

unfoldable pub validate : NewKnowledgeNode → Action Domain (Unit {0})
unfolding require
validate new = do
  require (contains node_types new.node_type)
      (format ("unknown node type '" ∷ new.node_type ∷ "'" ∷ []))
  require (contains confidence_states new.confidence)
      (format ("unknown confidence '" ∷ new.confidence ∷ "'" ∷ []))

module _ ⦃env : Env⦄ where
  -- `INSERT INTO knowledge_nodes`, under its primary key.
  unfoldable pub insert_node : KnowledgeNodeRecord → Action Domain (Unit {0})
  insert_node r = do
    taken ← gets (λ d. row node_key r.id d.nodes)
    require (is_missing taken) "UNIQUE constraint failed: knowledge_nodes.id"
    execute (λ d. record d { nodes = d.nodes ++ r ∷ [] })

  unfoldable pub upsert_existing :
      NewKnowledgeNode → KnowledgeNodeRecord → Action Domain (KnowledgeNodeRecord × Bool)
  upsert_existing new existing = do
    now ← now_unix_ms
    execute
        (λ d. record d { nodes = modify node_key existing.id (merged new existing now) d.nodes })
    pure (merged new existing now existing, false)

  unfoldable pub insert_new : NewKnowledgeNode → Action Domain (KnowledgeNodeRecord × Bool)
  insert_new new = do
    now ← now_unix_ms
    id ← id_or_new new.id
    let r : KnowledgeNodeRecord = record {
      id = id;
      project_id = new.project_id;
      node_type = new.node_type;
      title = new.title;
      slug = new.slug;
      summary = new.summary;
      status = "draft";
      confidence = new.confidence;
      aliases = new.aliases;
      tags = new.tags;
      source_ids = new.source_ids;
      claim_ids = new.claim_ids;
      created_at = now;
      updated_at = now;
    }
    insert_node r
    pure (r, true)

  unfoldable pub upsert_by_slug : NewKnowledgeNode → Action Domain (KnowledgeNodeRecord × Bool)
  upsert_by_slug new = do
    validate new
    found ← gets (get_by_slug new.project_id new.slug)
    elim found as (λ _. Action Domain (KnowledgeNodeRecord × Bool)) [
      | none ↦ insert_new new
      | some existing ↦ upsert_existing new existing
    ]
