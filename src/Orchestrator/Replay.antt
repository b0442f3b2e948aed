-- ===== src/Orchestrator/Replay.antt =====
-- Redelivered events change nothing, and events that the transition table refuses change nothing.
use morpho_research_os.Prelude.{String, Option, none, some, ◌≡◌, refl, arith}
use morpho_research_os.Errors.{CoreError, ok, err, ◌>>=◌}
use morpho_research_os.Env.{Env}
use morpho_research_os.Repositories.Tables.{Db, TaskRecord}
use morpho_research_os.Repositories.Transaction.{with_write_tx}
use morpho_research_os.Repositories.Tasks
use morpho_research_os.Orchestrator.TaskStatus.{
  TaskStatus, pending, completed, failed, cancelled, needs_review, parse, can_transition,
}
use morpho_research_os.Orchestrator.TaskStatus.Laws.{eq_refl}
use morpho_research_os.Orchestrator.Event.{CanonicalEvent, task_outcome, resolve_task_id}
use morpho_research_os.Orchestrator.Transition.{
  load_task, parse_task_status, require_task_id, transition_task,
}
use morpho_research_os.Orchestrator.Apply.{
  EventKind, task_created, task_completed, task_failed, task_cancelled, review_requested,
  event_kind, create_task, complete_task, fail_task, cancel_task, review_task, project, apply_in_tx,
  apply_event,
}

-- The status that an event reports, for the events that report one and are not gated.
abbrev pub reported : EventKind → Option TaskStatus
reported task_created = some pending
reported task_completed = some completed
reported task_failed = some failed
reported task_cancelled = some cancelled
reported review_requested = some needs_review
reported _ = none

self_legal : (s : TaskStatus) → can_transition s s ≡ ok tt
unfolding can_transition
self_legal s = ground arith

module _ ⦃env : Env⦄ where
  open env use {Value}

  transition_task-replay :
      (id : String) (target : TaskStatus) (db : Db) {t : TaskRecord}
      → Tasks.get id db ≡ some t
      → parse t.status ≡ some target
      → transition_task id target db ≡ (ok (target, none), db)
  unfolding transition_task load_task parse_task_status ◌>>=◌
  transition_task-replay id target db found parsed =
      rw found (rw parsed (rw (self_legal target) (rw (eq_refl target) refl)))

  transition_task-refused :
      (id : String) (target from : TaskStatus) (db : Db) {t : TaskRecord} {e : CoreError}
      → Tasks.get id db ≡ some t
      → parse t.status ≡ some from
      → can_transition from target ≡ err e
      → transition_task id target db ≡ (err e, db)
  unfolding transition_task load_task parse_task_status ◌>>=◌
  transition_task-refused id target from db found parsed refused =
      rw found (rw parsed (rw refused refl))

  -- A transition with no change ends the handler; one that is refused too.
  project-replay :
      (kind : EventKind) (event : CanonicalEvent Value) (db : Db) (id : String)
      {target : TaskStatus}
      → reported kind ≡ some target
      → resolve_task_id event ≡ some id
      → transition_task id target db ≡ (ok (target, none), db)
      → project kind event db ≡ (ok (task_outcome id target none), db)
  unfolding project create_task complete_task fail_task cancel_task review_task require_task_id
      ◌>>=◌
  project-replay task_created event db id r i h = ground arith
  project-replay task_completed event db id r i h = ground arith
  project-replay task_failed event db id r i h = ground arith
  project-replay task_cancelled event db id r i h = ground arith
  project-replay review_requested event db id r i h = ground arith
  project-replay _ event db id r i h = cc

  project-refused :
      (kind : EventKind) (event : CanonicalEvent Value) (db : Db) (id : String)
      {target : TaskStatus} {e : CoreError}
      → reported kind ≡ some target
      → resolve_task_id event ≡ some id
      → transition_task id target db ≡ (err e, db)
      → project kind event db ≡ (err e, db)
  unfolding project create_task complete_task fail_task cancel_task review_task require_task_id
      ◌>>=◌
  project-refused task_created event db id r i h = ground arith
  project-refused task_completed event db id r i h = ground arith
  project-refused task_failed event db id r i h = ground arith
  project-refused task_cancelled event db id r i h = ground arith
  project-refused review_requested event db id r i h = ground arith
  project-refused _ event db id r i h = cc

  -- For the events task.created, task.completed, review.resolved, task.failed, task.cancelled and
  -- review.requested: an event that reports the status that its stored task already has is accepted
  -- with no transition, and the database stays as it is, the clock and the event log included.
  pub apply_event-replay :
      (event : CanonicalEvent Value) (db : Db) (id : String) (target : TaskStatus) (t : TaskRecord)
      → reported (event_kind event.event_type) ≡ some target
      → resolve_task_id event ≡ some id
      → Tasks.get id db ≡ some t
      → parse t.status ≡ some target
      → apply_event event db ≡ (ok (task_outcome id target none), db)
  unfolding apply_event apply_in_tx with_write_tx
  apply_event-replay event db id target t r i found parsed = rw (
      project-replay (event_kind event.event_type) event db id r i
        (transition_task-replay id target db found parsed))

  -- For the events task.created, task.completed, review.resolved, task.failed, task.cancelled and
  -- review.requested: an event that reports a status which the transition table refuses after the
  -- status of its stored task is rejected with the error of the table, and the database stays as it is.
  pub apply_event-refused :
      (event : CanonicalEvent Value) (db : Db) (id : String) (from target : TaskStatus)
      (t : TaskRecord) (e : CoreError)
      → reported (event_kind event.event_type) ≡ some target
      → resolve_task_id event ≡ some id
      → Tasks.get id db ≡ some t
      → parse t.status ≡ some from
      → can_transition from target ≡ err e
      → apply_event event db ≡ (err e, db)
  unfolding apply_event apply_in_tx with_write_tx
  apply_event-refused event db id from target t e r i found parsed refused = rw (
      project-refused (event_kind event.event_type) event db id r i
        (transition_task-refused id target from db found parsed refused))
