-- ===== src/Orchestrator/Event.antt =====
-- The canonical event that enters the orchestrator and what applying one changed (orchestrator.rs,
-- lines 236 to 332).
use morpho_research_os.Prelude.{ℕ, String, Option, none, some, List, []}
use morpho_research_os.Env.{Env}
use morpho_research_os.Orchestrator.TaskStatus.{TaskStatus}

pub record CanonicalEvent (Value : Type 0) : Type 0 where
  pub run_id : String
  pub task_id : Option String
  pub event_type : String
  pub payload : Value

-- `counts` lists the entries of the ordered map in the order of its keys.
pub record RunRollup : Type 0 where
  pub run_id : String
  pub previous_status : String
  pub status : String
  pub counts : List (String × ℕ)

pub record ApplyOutcome : Type 0 where
  pub task_id : Option String
  pub from_status : Option TaskStatus
  pub to_status : Option TaskStatus
  pub unblocked_dependents : List String
  pub failed_dependents : List String
  pub run_rollup : Option RunRollup

-- `ApplyOutcome::default()`.
abbrev pub no_outcome : ApplyOutcome
no_outcome = record {
  task_id = none;
  from_status = none;
  to_status = none;
  unblocked_dependents = [];
  failed_dependents = [];
  run_rollup = none;
}

abbrev pub task_outcome : String → TaskStatus → Option TaskStatus → ApplyOutcome
task_outcome id from to = record no_outcome {
  task_id = some id;
  from_status = some from;
  to_status = to;
}

module _ ⦃env : Env⦄ where
  open env use {Value, as_str, get as json_get}

  unfoldable pub payload_str : CanonicalEvent Value → String → Option String
  payload_str event key = elim (json_get event.payload key) [ none ↦ none | some v ↦ as_str v ]

  unfoldable pub resolve_task_id : CanonicalEvent Value → Option String
  unfolding payload_str
  resolve_task_id event = elim event.task_id [
    | some id ↦ some id
    | none ↦ payload_str event "task_id"
  ]
