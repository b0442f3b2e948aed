-- ===== src/Repositories/Domain/Relations.antt =====
-- Relations between knowledge nodes (repositories/relations.rs).
use morpho_research_os.Prelude.{
  String, Bool, true, false, not, ◌&&◌, ◌||◌, Option, none, some, List, [], ◌∷◌, ◌++◌, ◌==◌, str_eq,
  str_leb, ltb, select, order_by, format,
}
use morpho_research_os.Errors.{Action, pure, gets, ◌>>=◌, ◌>>◌}
use morpho_research_os.Env.{Env}
use morpho_research_os.Repositories.Rows.{row}
use morpho_research_os.Repositories.Runs.{contains}
use morpho_research_os.Repositories.Domain.{
  Domain, RelationRecord, relation_key, node_key, confidence_states, require, execute, now_unix_ms,
  id_or_new, is_there, is_missing,
}

pub record NewRelation : Type 0 where
  pub id : Option String
  pub project_id : String
  pub from_node_id : String
  pub to_node_id : String
  pub relation_type : String
  pub confidence : String

unfoldable pub get : String → Domain → Option RelationRecord
get id d = row relation_key id d.relations

-- The lookup by the id that was supplied, if one was.
unfoldable pub stored : Option String → Domain → Option RelationRecord
stored none d = none
stored (some id) d = get id d

abbrev pub relation_leb : RelationRecord → RelationRecord → Bool
relation_leb a b =
    ltb a.created_at b.created_at || (a.created_at == b.created_at && str_leb a.id b.id)

unfoldable pub list_for_project : String → Domain → List RelationRecord
list_for_project project_id d =
    order_by relation_leb (select (λ r. str_eq r.project_id project_id) d.relations)

-- A stored row of the same project is answered as it is.
unfoldable pub reuse : NewRelation → RelationRecord → Action Domain (RelationRecord × Bool)
reuse new existing = do
  require (str_eq existing.project_id new.project_id) (
      format (
        "relation '" ∷ existing.id ∷ "' belongs to project '" ∷ existing.project_id
        ∷ "' and cannot be reused by project '" ∷ new.project_id ∷ "'" ∷ []))
  pure (existing, false)

module _ ⦃env : Env⦄ where
  -- `INSERT INTO relations`, under its keys.
  unfoldable pub insert_relation : RelationRecord → Action Domain (Unit {0})
  insert_relation r = do
    taken ← gets (get r.id)
    require (is_missing taken) "UNIQUE constraint failed: relations.id"
    from ← gets (λ d. row node_key r.from_node_id d.nodes)
    require (is_there from) "FOREIGN KEY constraint failed"
    to ← gets (λ d. row node_key r.to_node_id d.nodes)
    require (is_there to) "FOREIGN KEY constraint failed"
    execute (λ d. record d { relations = d.relations ++ r ∷ [] })

  unfoldable pub insert_new : NewRelation → Action Domain (RelationRecord × Bool)
  insert_new new = do
    now ← now_unix_ms
    id ← id_or_new new.id
    let r : RelationRecord = record {
      id = id;
      project_id = new.project_id;
      from_node_id = new.from_node_id;
      to_node_id = new.to_node_id;
      relation_type = new.relation_type;
      confidence = new.confidence;
      created_at = now;
    }
    insert_relation r
    pure (r, true)

  unfoldable pub insert : NewRelation → Action Domain (RelationRecord × Bool)
  insert new = do
    require (contains confidence_states new.confidence)
        (format ("unknown confidence '" ∷ new.confidence ∷ "'" ∷ []))
    require (not (str_eq new.from_node_id new.to_node_id))
        "relation endpoints must differ (self-loops are not allowed)"
    found ← gets (stored new.id)
    elim found as (λ _. Action Domain (RelationRecord × Bool)) [
      | none ↦ insert_new new
      | some existing ↦ reuse new existing
    ]
