-- ===== src/Repositories/Projects.antt =====
-- Projects and the decisions on their gaps (repositories/projects.rs, repositories/gap_decisions.rs).
pub mod Laws
use morpho_research_os.Prelude.{
  ℕ, suc, String, Bool, true, false, ◌&&◌, ◌||◌, Option, none, some, List, [], ◌∷◌, ◌++◌, ◌==◌,
  str_eq, str_leb, ltb, find, select, order_by, format, if◌then◌else◌,
}
use morpho_research_os.Errors.{Result, ok, err, Action, database, pure, raise, gets, ◌>>=◌, ◌>>◌}
use morpho_research_os.Env.{Env}
use morpho_research_os.Repositories.Rows.{row, modify}
use morpho_research_os.Repositories.Tables.{Db}
use morpho_research_os.Repositories.Tasks
use morpho_research_os.Repositories.Runs.{contains}
use morpho_research_os.Repositories.Domain.{is_there, is_missing}

pub record ProjectRecord : Type 0 where
  pub id : String
  pub name : String
  pub description : String
  pub status : String
  pub created_at : ℕ
  pub updated_at : ℕ

pub record GapDecisionRecord : Type 0 where
  pub project_id : String
  pub dimension : String
  pub status : String
  pub created_task_id : Option String
  pub created_at : ℕ
  pub updated_at : ℕ

-- The two tables, beside the ones of the orchestrator.
pub record Workspace : Type 0 where
  pub core : Db
  pub projects : List ProjectRecord
  pub decisions : List GapDecisionRecord

abbrev pub project_states : List String
project_states = "active" ∷ "archived" ∷ []

abbrev pub gap_decision_statuses : List String
gap_decision_statuses = "approved" ∷ "dismissed" ∷ []

abbrev pub project_key : ProjectRecord → String
project_key r = r.id

unfoldable pub get : String → Workspace → Option ProjectRecord
get id w = row project_key id w.projects

abbrev pub project_leb : ProjectRecord → ProjectRecord → Bool
project_leb a b =
    ltb a.created_at b.created_at || (a.created_at == b.created_at && str_leb a.id b.id)

unfoldable pub list : Workspace → List ProjectRecord
list w = order_by project_leb w.projects

-- A condition that ends in the database's error where it fails.
unfoldable pub ensure : Bool → String → Action Workspace (Unit {0})
ensure b message = if b then pure tt else raise (database message)

unfoldable pub run_statement : (Workspace → Workspace) → Action Workspace (Unit {0})
run_statement f w = (ok tt, f w)

-- `WHERE project_id = ?1 AND dimension = ?2`.
abbrev pub is_decision : String → String → GapDecisionRecord → Bool
is_decision project_id dimension r = str_eq r.project_id project_id && str_eq r.dimension dimension

unfoldable pub get_decision : String → String → Workspace → Option GapDecisionRecord
get_decision project_id dimension w = find (is_decision project_id dimension) w.decisions

unfoldable pub list_decisions : String → Workspace → List GapDecisionRecord
list_decisions project_id w =
    order_by (λ a b. str_leb a.dimension b.dimension)
      (select (λ r. str_eq r.project_id project_id) w.decisions)

-- `ON CONFLICT (project_id, dimension) DO UPDATE`: `f` changes the row that is there, else `new` is added.
unfoldable pub place :
    (GapDecisionRecord → Bool)
    → (GapDecisionRecord → GapDecisionRecord)
    → GapDecisionRecord
    → List GapDecisionRecord
    → List GapDecisionRecord
place p f new [] = new ∷ []
place p f new (r ∷ rows) = let rest = place p f new rows in if p r then f r ∷ rows else r ∷ rest

abbrev pub decided : String → Option String → ℕ → GapDecisionRecord → GapDecisionRecord
decided status created_task_id now r = record r {
  status = status;
  created_task_id = created_task_id;
  updated_at = now;
}

-- The foreign key of the created task, where there is one.
abbrev pub task_there : Option String → Workspace → Bool
task_there none w = true
task_there (some id) w = is_there (Tasks.get id w.core)

abbrev pub answer_row : Option GapDecisionRecord → Action Workspace GapDecisionRecord
answer_row none = raise (database "Query returned no rows")
answer_row (some r) = pure r

module _ ⦃env : Env⦄ where
  open env use {clock, uuid}

  unfoldable pub now : Action Workspace ℕ
  now w = (ok (clock w.core.reads), record w { core = record w.core { reads = suc w.core.reads } })

  unfoldable pub fresh_id : Action Workspace String
  fresh_id w =
      (ok (uuid w.core.drawn), record w { core = record w.core { drawn = suc w.core.drawn } })

  unfoldable pub insert : String → String → Action Workspace ProjectRecord
  insert name description = do
    id ← fresh_id
    created_at ← now
    updated_at ← now
    let r : ProjectRecord = record {
      id = id;
      name = name;
      description = description;
      status = "active";
      created_at = created_at;
      updated_at = updated_at;
    }
    taken ← gets (get id)
    ensure (is_missing taken) "UNIQUE constraint failed: projects.id"
    run_statement (λ w. record w { projects = w.projects ++ r ∷ [] })
    pure r

  unfoldable pub update_status : String → String → Action Workspace ProjectRecord
  update_status id status = do
    ensure (contains project_states status)
        (format ("unknown project status '" ∷ status ∷ "'" ∷ []))
    updated_at ← now
    before ← gets (get id)
    run_statement (λ w. record w {
      projects =
          modify project_key id (λ r. record r { status = status; updated_at = updated_at })
            w.projects;
    })
    ensure (is_there before) (format ("project '" ∷ id ∷ "' not found" ∷ []))
    found ← gets (get id)
    elim found as (λ _. Action Workspace ProjectRecord) [
      | none ↦ raise (database (format ("project '" ∷ id ∷ "' disappeared during update" ∷ [])))
      | some r ↦ pure r
    ]

  unfoldable pub upsert :
      String → String → String → Option String → Action Workspace GapDecisionRecord
  upsert project_id dimension status created_task_id = do
    ensure (contains gap_decision_statuses status)
        (format ("unknown gap decision status '" ∷ status ∷ "'" ∷ []))
    at ← now
    before ← gets (get_decision project_id dimension)
    project ← gets (get project_id)
    ensure (is_there before || is_there project) "FOREIGN KEY constraint failed"
    known ← gets (task_there created_task_id)
    ensure known "FOREIGN KEY constraint failed"
    run_statement (λ w. record w {
      decisions =
          place (is_decision project_id dimension) (decided status created_task_id at)
            (record {
              project_id = project_id;
              dimension = dimension;
              status = status;
              created_task_id = created_task_id;
              created_at = at;
              updated_at = at;
            })
            w.decisions;
    })
    stored ← gets (get_decision project_id dimension)
    answer_row stored
