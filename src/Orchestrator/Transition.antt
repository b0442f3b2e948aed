-- ===== src/Orchestrator/Transition.antt =====
-- Task-side helpers: loading, transitions and the reference columns (orchestrator.rs, lines 502 to
-- 584).
pub mod Laws
use morpho_research_os.Prelude.{
  String, Bool, Option, none, some, List, [], ◌∷◌, ◌⊎◌, inl, inr, format, if◌then◌else◌, not,
}
use morpho_research_os.Errors.{
  CoreError, Result, ok, err, Action, database, pure, lift, ok_or, ◌>>=◌, ◌>>◌,
}
use morpho_research_os.Env.{Env}
use morpho_research_os.Repositories.Tables.{Db, TaskRecord}
use morpho_research_os.Repositories.Tasks
use morpho_research_os.Orchestrator.TaskStatus.{TaskStatus, eq, as_str, parse, can_transition}
use morpho_research_os.Orchestrator.RunStatus
use morpho_research_os.Orchestrator.RunStatus.{RunStatus}
use morpho_research_os.Orchestrator.Event.{CanonicalEvent, resolve_task_id, payload_str}

unfoldable pub load_task : String → Action Db TaskRecord
load_task id db = (ok_or (Tasks.get id db) (Tasks.not_found id), db)

unfoldable pub parse_task_status : String → Result TaskStatus
parse_task_status value =
    ok_or (parse value) (database (format ("unknown task status '" ∷ value ∷ "'" ∷ [])))

unfoldable pub parse_run_status : String → Result RunStatus
parse_run_status value =
    ok_or (RunStatus.parse value) (database (format ("unknown run status '" ∷ value ∷ "'" ∷ [])))

module _ ⦃env : Env⦄ where
  open env use {Value, to_string, is_null, get as json_get}

  unfoldable pub require_task_id : CanonicalEvent Value → Result String
  require_task_id event = ok_or (resolve_task_id event) (
      database
        (format ("event '" ∷ event.event_type ∷ "' carries no task_id (envelope or payload)" ∷ [])))

  unfoldable pub json_to_string : Value → Result String
  json_to_string value = elim (to_string value) [
    | inl e ↦ err (database (format ("serializing event payload failed: " ∷ e ∷ [])))
    | inr s ↦ ok s
  ]

  -- `payload.get(key).filter(|v| !v.is_null())`.
  unfoldable pub payload_value : CanonicalEvent Value → String → Option Value
  payload_value event key = elim (json_get event.payload key) [
    | none ↦ none
    | some v ↦ if is_null v then none else some v
  ]

  unfoldable pub transition_task : String → TaskStatus → Action Db (TaskStatus × Option TaskStatus)
  transition_task id target = do
    task ← load_task id
    from ← lift (parse_task_status task.status)
    lift (can_transition from target)
    if eq from target
        then pure (from, none)
        else do Tasks.update_status id (as_str target); pure (from, some target)

  unfoldable pub persist_result_ref : CanonicalEvent Value → String → Action Db (Unit {0})
  persist_result_ref event id = elim (payload_str event "result_ref") [
    | none ↦ pure tt
    | some result_ref ↦ (do Tasks.set_result id result_ref; pure tt)
  ]

  unfoldable pub persist_error_ref : CanonicalEvent Value → String → Action Db (Unit {0})
  persist_error_ref event id = elim (payload_str event "error_ref") [
    | some error_ref ↦ (do Tasks.set_error id error_ref; pure tt)
    | none ↦ elim (payload_value event "error") [
      | none ↦ pure tt
      | some error ↦ (do detail ← lift (json_to_string error); Tasks.set_error id detail; pure tt)
    ]
  ]
