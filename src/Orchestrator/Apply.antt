-- ===== src/Orchestrator/Apply.antt =====
-- Applying one event (orchestrator.rs, lines 334 to 500).
use morpho_research_os.Prelude.{
  String, Bool, false, Option, none, some, [], ◌∷◌, inl, inr, str_eq, format, if◌then◌else◌,
}
use morpho_research_os.Errors.{Result, ok, err, Action, database, pure, lift, ◌>>=◌, ◌>>◌}
use morpho_research_os.Env.{Env}
use morpho_research_os.Repositories.Tables.{Db, NewEvent}
use morpho_research_os.Repositories.Transaction.{with_write_tx}
use morpho_research_os.Repositories.Tasks
use morpho_research_os.Repositories.Events
use morpho_research_os.Orchestrator.TaskStatus
use morpho_research_os.Orchestrator.TaskStatus.{TaskStatus}
use morpho_research_os.Orchestrator.RunStatus.{RunStatus}
use morpho_research_os.Orchestrator.Event.{
  CanonicalEvent, ApplyOutcome, no_outcome, task_outcome, payload_str,
}
use morpho_research_os.Orchestrator.Transition.{
  load_task, parse_task_status, json_to_string, require_task_id, transition_task, payload_value,
  persist_result_ref, persist_error_ref,
}
use morpho_research_os.Orchestrator.Gating.{ensure_startable, unblock_dependents}
use morpho_research_os.Orchestrator.Cascade.{cascade_dependency_failure}
use morpho_research_os.Orchestrator.Rollup.{rollup_run}
use morpho_research_os.Orchestrator.RunEvent.{run_event}

-- The arms of the `match` on the event type.
pub data EventKind : Type 0 where
  task_created task_started task_progress task_completed task_failed task_skipped : EventKind
  task_cancelled review_requested : EventKind
  run_level : RunStatus → EventKind
  unprojected : EventKind

unfoldable pub event_kind : String → EventKind
event_kind t =
    if str_eq t "task.created"
    then task_created
    else if str_eq t "task.started"
    then task_started
    else if str_eq t "task.progress"
    then task_progress
    else if str_eq t "task.checkpoint"
    then task_progress
    else if str_eq t "task.completed"
    then task_completed
    else if str_eq t "review.resolved"
    then task_completed
    else if str_eq t "task.failed"
    then task_failed
    else if str_eq t "task.skipped"
    then task_skipped
    else if str_eq t "task.cancelled"
    then task_cancelled
    else if str_eq t "review.requested"
    then review_requested
    else if str_eq t "run.started"
    then run_level RunStatus.running
    else if str_eq t "run.paused"
    then run_level RunStatus.paused
    else if str_eq t "run.completed"
    then run_level RunStatus.completed
    else if str_eq t "run.failed"
    then run_level RunStatus.failed
    else if str_eq t "run.cancelled"
    then run_level RunStatus.cancelled
    else unprojected

module _ ⦃env : Env⦄ where
  open env use {Value, to_string}

  unfoldable pub cancel_task : CanonicalEvent Value → String → Action Db ApplyOutcome
  cancel_task event id = do
    (from, to) ← transition_task id TaskStatus.cancelled
    elim to [
      | none ↦ pure (task_outcome id from none)
      | some t ↦ (do
        rollup ← rollup_run event.run_id
        pure (record (task_outcome id from (some t)) { run_rollup = rollup }))
    ]

  unfoldable pub start_task : CanonicalEvent Value → String → Action Db ApplyOutcome
  start_task event id = do
    ensure_startable id
    (from, to) ← transition_task id TaskStatus.running
    elim to [
      | none ↦ pure (task_outcome id from none)
      | some t ↦ (do
        (if TaskStatus.eq from TaskStatus.failed
            then (do Tasks.record_retry id; Tasks.clear_error id; pure tt)
            else pure tt)
        rollup ← rollup_run event.run_id
        pure (record (task_outcome id from (some t)) { run_rollup = rollup }))
    ]

  unfoldable pub checkpoint_task : CanonicalEvent Value → String → Action Db ApplyOutcome
  checkpoint_task event id = do
    task ← load_task id
    from ← lift (parse_task_status task.status)
    elim (payload_value event "checkpoint") [
      | none ↦ pure (task_outcome id from none)
      | some checkpoint ↦ (do
        detail ← lift (json_to_string checkpoint)
        Tasks.set_checkpoint id detail
        pure (task_outcome id from none))
    ]

  unfoldable pub complete_task : CanonicalEvent Value → String → Action Db ApplyOutcome
  complete_task event id = do
    (from, to) ← transition_task id TaskStatus.completed
    elim to [
      | none ↦ pure (task_outcome id from none)
      | some t ↦ (do
        persist_result_ref event id
        Tasks.clear_checkpoint id
        unblocked ← unblock_dependents id
        rollup ← rollup_run event.run_id
        pure (record (task_outcome id from (some t)) {
          unblocked_dependents = unblocked;
          run_rollup = rollup;
        }))
    ]

  unfoldable pub fail_task : CanonicalEvent Value → String → Action Db ApplyOutcome
  fail_task event id = do
    (from, to) ← transition_task id TaskStatus.failed
    elim to [
      | none ↦ pure (task_outcome id from none)
      | some t ↦ (do
        persist_error_ref event id
        failed_ids ← cascade_dependency_failure id
        rollup ← rollup_run event.run_id
        pure (record (task_outcome id from (some t)) {
          failed_dependents = failed_ids;
          run_rollup = rollup;
        }))
    ]

  -- `payload_str("reason").or_else(|| payload_str("skip_reason"))`.
  abbrev skip_reason : CanonicalEvent Value → Option String
  skip_reason event = elim (payload_str event "reason") [
    | some reason ↦ some reason
    | none ↦ payload_str event "skip_reason"
  ]

  abbrev is_cancelled_outcome : CanonicalEvent Value → Bool
  is_cancelled_outcome event = elim (payload_str event "outcome") [
    | some o ↦ str_eq o "cancelled"
    | none ↦ false
  ]

  unfoldable pub persist_skip_reason : CanonicalEvent Value → String → Action Db (Unit {0})
  persist_skip_reason event id = elim (skip_reason event) [
    | none ↦ pure tt
    | some reason ↦ (do Tasks.set_skip_reason id reason; pure tt)
  ]

  unfoldable pub skip_task : CanonicalEvent Value → String → Action Db ApplyOutcome
  skip_task event id = if is_cancelled_outcome event then cancel_task event id else do
    (from, to) ← transition_task id TaskStatus.skipped
    elim to [
      | none ↦ pure (task_outcome id from none)
      | some t ↦ (do
        persist_skip_reason event id
        unblocked ← unblock_dependents id
        rollup ← rollup_run event.run_id
        pure (record (task_outcome id from (some t)) {
          unblocked_dependents = unblocked;
          run_rollup = rollup;
        }))
    ]

  unfoldable pub review_task : CanonicalEvent Value → String → Action Db ApplyOutcome
  review_task event id = do
    (from, to) ← transition_task id TaskStatus.needs_review
    elim to [
      | none ↦ pure (task_outcome id from none)
      | some t ↦ (do
        persist_result_ref event id
        rollup ← rollup_run event.run_id
        pure (record (task_outcome id from (some t)) { run_rollup = rollup }))
    ]

  unfoldable pub create_task : CanonicalEvent Value → String → Action Db ApplyOutcome
  create_task event id = do
    (from, to) ← transition_task id TaskStatus.pending
    pure (task_outcome id from to)

  -- The arms of the `match`.
  unfoldable pub project : EventKind → CanonicalEvent Value → Action Db ApplyOutcome
  project task_created event = do id ← lift (require_task_id event); create_task event id
  project task_started event = do id ← lift (require_task_id event); start_task event id
  project task_progress event = do id ← lift (require_task_id event); checkpoint_task event id
  project task_completed event = do id ← lift (require_task_id event); complete_task event id
  project task_failed event = do id ← lift (require_task_id event); fail_task event id
  project task_skipped event = do id ← lift (require_task_id event); skip_task event id
  project task_cancelled event = do id ← lift (require_task_id event); cancel_task event id
  project review_requested event = do id ← lift (require_task_id event); review_task event id
  project (run_level target) event = run_event event target
  project unprojected event = pure no_outcome

  unfoldable pub apply_in_tx : CanonicalEvent Value → Action Db ApplyOutcome
  unfolding project event_kind
  apply_in_tx event = project (event_kind event.event_type) event

  unfoldable pub apply_event : CanonicalEvent Value → Action Db ApplyOutcome
  unfolding apply_in_tx with_write_tx
  apply_event event = with_write_tx (apply_in_tx event)

  -- The text of an event's payload, for the log.
  unfoldable pub payload_text : Value → Result String
  payload_text payload = elim (to_string payload) [
    | inl e ↦ err (database (format ("serialize event payload failed: " ∷ e ∷ [])))
    | inr s ↦ ok s
  ]

  unfoldable pub commit_local_event : CanonicalEvent Value → Action Db (Unit {0})
  unfolding apply_in_tx with_write_tx payload_text
  commit_local_event event = with_write_tx (do
    payload ← lift (payload_text event.payload)
    let new : NewEvent = record {
      run_id = event.run_id;
      task_id = event.task_id;
      event_type = event.event_type;
      payload = payload;
    }
    Events.append new
    apply_in_tx event
    pure tt)
