-- ===== src/Ingestion/Resolve.antt =====
-- How the worker's ids become the core's (ingestion.rs).
use morpho_research_os.Prelude.{
  String, Option, none, some, List, [], ◌∷◌, str_eq, format, lookup, if◌then◌else◌,
}
use morpho_research_os.Errors.{CoreError, Result, ok, err, database, ok_or}
use morpho_research_os.Repositories.Runs.{contains}
use morpho_research_os.Repositories.Domain.{Domain, ClaimRecord}
use morpho_research_os.Repositories.Domain.Nodes
use morpho_research_os.Repositories.Domain.Claims

abbrev pub scoped_id : String → String → String
scoped_id project_id worker_id = format (project_id ∷ ":" ∷ worker_id ∷ [])

abbrev pub unresolved : String → String → String → CoreError
unresolved what worker_id why =
    database
      (format ("worker results reference " ∷ what ∷ " '" ∷ worker_id ∷ "' which " ∷ why ∷ []))

unfoldable pub resolve_source : List (String × String) → String → Result String
resolve_source source_map worker_id =
    ok_or (lookup worker_id source_map) (unresolved "source" worker_id "the batch never delivered")

abbrev pub nowhere : String
nowhere = "is neither in the batch nor ingested for this project"

unfoldable pub resolve_node : String → String → List String → Domain → Result String
resolve_node project_id worker_id batch_nodes d =
    elim (Nodes.get_by_slug project_id worker_id d) as (λ _. Result String) [
      | some existing ↦ ok existing.id
      | none ↦
          if contains batch_nodes worker_id
          then ok (scoped_id project_id worker_id)
          else err (unresolved "node" worker_id nowhere)
    ]

-- A row under the worker's own id, if it is of this project.
abbrev pub legacy_claim : String → Option ClaimRecord → Option String
legacy_claim project_id none = none
legacy_claim project_id (some legacy) =
    if str_eq legacy.project_id project_id then some legacy.id else none

-- The scoped id if a row has it, else a legacy row's.
unfoldable pub stored_claim : String → String → Domain → Option String
stored_claim project_id worker_id d =
    elim (Claims.get (scoped_id project_id worker_id) d) as (λ _. Option String) [
      | some _ ↦ some (scoped_id project_id worker_id)
      | none ↦ legacy_claim project_id (Claims.get worker_id d)
    ]

unfoldable pub resolve_claim : String → String → List String → Domain → Result String
unfolding stored_claim
resolve_claim project_id worker_id batch_claims d =
    elim (stored_claim project_id worker_id d) as (λ _. Result String) [
      | some id ↦ ok id
      | none ↦
          if contains batch_claims worker_id
          then ok (scoped_id project_id worker_id)
          else err (unresolved "claim" worker_id nowhere)
    ]
