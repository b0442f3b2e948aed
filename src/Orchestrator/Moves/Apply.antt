-- ===== src/Orchestrator/Moves/Apply.antt =====
-- Every event moves the tables as the orchestrator may: the theorems about one event and about any
-- sequence of events.
use morpho_research_os.Prelude.{String, Option, none, some}
use morpho_research_os.Errors.{Action, pure, lift, ◌>>=◌, ◌>>◌}
use morpho_research_os.Env.{Env}
use morpho_research_os.Keeps.{Keeps, Keeps-pure, Keeps-bind, Keeps-lift, Keeps-option}
use morpho_research_os.Repositories.Tables.{Db}
use morpho_research_os.Repositories.Tasks
use morpho_research_os.Orchestrator.TaskStatus.{TaskStatus}
use morpho_research_os.Orchestrator.Event.{CanonicalEvent, ApplyOutcome, task_outcome}
use morpho_research_os.Orchestrator.Transition.{transition_task, payload_value, json_to_string}
use morpho_research_os.Orchestrator.Apply.{
  EventKind, task_created, task_started, task_progress, task_completed, task_failed, task_skipped,
  task_cancelled, review_requested, run_level, unprojected, event_kind, create_task, start_task,
  checkpoint_task, complete_task, fail_task, skip_task, cancel_task, review_task,
  persist_skip_reason, project, apply_in_tx,
}
use morpho_research_os.Orchestrator.Moves.{Moves, Moves-preorder}
use morpho_research_os.Orchestrator.Moves.Writes.{
  set_checkpoint-Keeps, clear_checkpoint-Keeps, clear_error-Keeps, set_skip_reason-Keeps,
  record_retry-Keeps,
}
use morpho_research_os.Orchestrator.Moves.Steps.{
  move_rules, load_task-Keeps, transition_task-Keeps, persist_result_ref-Keeps,
  persist_error_ref-Keeps,
}
use morpho_research_os.Orchestrator.Moves.Parts.{
  ensure_startable-Keeps, unblock_dependents-Keeps, cascade_dependency_failure-Keeps,
  rollup_run-Keeps,
}
use morpho_research_os.Orchestrator.Moves.RunEvents.{run_event-Keeps}

module _ ⦃env : Env⦄ where
  open env use {Value}

  -- A transition, and the rest of the handler if the status changed.
  Keeps-transition :
      (id : String) (target : TaskStatus)
      (f : TaskStatus × Option TaskStatus → Action Db ApplyOutcome)
      → ((from : TaskStatus) → Keeps Moves (f (from, none)))
      → ((from to : TaskStatus) → Keeps Moves (f (from, some to)))
      → Keeps Moves (transition_task id target >>= f)
  Keeps-transition id target f kn ks =
      Keeps-bind Moves-preorder _ _ (transition_task-Keeps id target) (λ (from, to). go from to)
    where
      go : (from : TaskStatus) (to : Option TaskStatus) → Keeps Moves (f (from, to))
      go from none = kn from
      go from (some t) = ks from t

  ruleset handler_rules = (
    move_rules, Keeps-transition, rollup_run-Keeps, unblock_dependents-Keeps,
    cascade_dependency_failure-Keeps, persist_result_ref-Keeps, persist_error_ref-Keeps,
    ensure_startable-Keeps, clear_checkpoint-Keeps, clear_error-Keeps, record_retry-Keeps,
  )

  cancel_task-Keeps :
      (event : CanonicalEvent Value) (id : String) → Keeps Moves (cancel_task event id)
  unfolding cancel_task
  cancel_task-Keeps event id = search handler_rules depth 8

  start_task-Keeps :
      (event : CanonicalEvent Value) (id : String) → Keeps Moves (start_task event id)
  unfolding start_task
  start_task-Keeps event id = search handler_rules depth 12

  complete_task-Keeps :
      (event : CanonicalEvent Value) (id : String) → Keeps Moves (complete_task event id)
  unfolding complete_task
  complete_task-Keeps event id = search handler_rules depth 12

  fail_task-Keeps : (event : CanonicalEvent Value) (id : String) → Keeps Moves (fail_task event id)
  unfolding fail_task
  fail_task-Keeps event id = search handler_rules depth 12

  review_task-Keeps :
      (event : CanonicalEvent Value) (id : String) → Keeps Moves (review_task event id)
  unfolding review_task
  review_task-Keeps event id = search handler_rules depth 12

  create_task-Keeps :
      (event : CanonicalEvent Value) (id : String) → Keeps Moves (create_task event id)
  unfolding create_task
  create_task-Keeps event id = search handler_rules depth 12

  persist_skip_reason-Keeps :
      (event : CanonicalEvent Value) (id : String) → Keeps Moves (persist_skip_reason event id)
  unfolding persist_skip_reason
  persist_skip_reason-Keeps event id =
      Keeps-option _ (pure tt) (λ v. Tasks.set_skip_reason id v >> pure tt)
        (Keeps-pure Moves-preorder tt) (λ v. search (move_rules, set_skip_reason-Keeps))

  skip_task-Keeps : (event : CanonicalEvent Value) (id : String) → Keeps Moves (skip_task event id)
  unfolding skip_task
  skip_task-Keeps event id =
      search (handler_rules, cancel_task-Keeps, persist_skip_reason-Keeps) depth 12

  checkpoint_task-Keeps :
      (event : CanonicalEvent Value) (id : String) → Keeps Moves (checkpoint_task event id)
  unfolding checkpoint_task
  checkpoint_task-Keeps event id = Keeps-bind Moves-preorder _ _ (load_task-Keeps id) λ task.
      Keeps-bind Moves-preorder _ _ (Keeps-lift Moves-preorder _) λ from.
        Keeps-option (payload_value event "checkpoint") (pure (task_outcome id from none))
          (λ v. lift (json_to_string v) >>= λ d.
            Tasks.set_checkpoint id d >> pure (task_outcome id from none))
          (Keeps-pure Moves-preorder _) (λ v. search (move_rules, set_checkpoint-Keeps))

  project-Keeps :
      (kind : EventKind) (event : CanonicalEvent Value) → Keeps Moves (project kind event)
  unfolding project
  project-Keeps task_created event = search (move_rules, create_task-Keeps)
  project-Keeps task_started event = search (move_rules, start_task-Keeps)
  project-Keeps task_progress event = search (move_rules, checkpoint_task-Keeps)
  project-Keeps task_completed event = search (move_rules, complete_task-Keeps)
  project-Keeps task_failed event = search (move_rules, fail_task-Keeps)
  project-Keeps task_skipped event = search (move_rules, skip_task-Keeps)
  project-Keeps task_cancelled event = search (move_rules, cancel_task-Keeps)
  project-Keeps review_requested event = search (move_rules, review_task-Keeps)
  project-Keeps (run_level target) event = run_event-Keeps event target
  project-Keeps unprojected event = search move_rules

  pub apply_in_tx-Keeps : (event : CanonicalEvent Value) → Keeps Moves (apply_in_tx event)
  unfolding apply_in_tx
  apply_in_tx-Keeps event = project-Keeps (event_kind event.event_type) event
