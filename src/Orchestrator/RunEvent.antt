-- ===== src/Orchestrator/RunEvent.antt =====
-- Run-level events (orchestrator.rs, lines 774 to 816).
use morpho_research_os.Prelude.{Bool, not, List, [], ◌∷◌, if◌then◌else◌}
use morpho_research_os.Errors.{Action, pure, gets, lift, ok_or, ◌>>=◌, ◌>>◌}
use morpho_research_os.Env.{Env}
use morpho_research_os.Repositories.Tables.{Db, TaskRecord, RunRecord}
use morpho_research_os.Repositories.Tasks
use morpho_research_os.Repositories.Tasks.{list_for_run}
use morpho_research_os.Repositories.Runs
use morpho_research_os.Orchestrator.TaskStatus
use morpho_research_os.Orchestrator.TaskStatus.{TaskStatus}
use morpho_research_os.Orchestrator.RunStatus
use morpho_research_os.Orchestrator.RunStatus.{RunStatus, can_transition_run}
use morpho_research_os.Orchestrator.Event.{CanonicalEvent, ApplyOutcome, no_outcome}
use morpho_research_os.Orchestrator.Transition.{parse_task_status, parse_run_status}

module _ ⦃env : Env⦄ where
  open env use {Value}

  -- The three loops over the run's tasks: those whose status passes `test` get the status `to`.
  unfoldable pub move_tasks :
      (TaskStatus → Bool) → TaskStatus → List TaskRecord → Action Db (Unit {0})
  move_tasks test to [] = pure tt
  move_tasks test to (task ∷ tasks) = do
    status ← lift (parse_task_status task.status)
    (if test status
        then (do Tasks.update_status task.id (TaskStatus.as_str to); pure tt)
        else pure tt)
    move_tasks test to tasks

  -- The `match` on the target.
  unfoldable pub adjust_tasks : RunRecord → RunStatus → Action Db (Unit {0})
  unfolding move_tasks
  adjust_tasks run RunStatus.running = do
    Tasks.claim_for_run run.plan_id run.id
    tasks ← gets (list_for_run run.id)
    move_tasks (λ s. TaskStatus.eq s TaskStatus.paused) TaskStatus.running tasks
  adjust_tasks run RunStatus.paused = do
    tasks ← gets (list_for_run run.id)
    move_tasks (λ s. TaskStatus.eq s TaskStatus.running) TaskStatus.paused tasks
  adjust_tasks run RunStatus.cancelled = do
    tasks ← gets (list_for_run run.id)
    move_tasks (λ s. not (TaskStatus.is_terminal s)) TaskStatus.cancelled tasks
  adjust_tasks run _ = pure tt

  unfoldable pub run_event : CanonicalEvent Value → RunStatus → Action Db ApplyOutcome
  unfolding adjust_tasks
  run_event event target = do
    found ← gets (Runs.get event.run_id)
    run ← lift (ok_or found (Runs.not_found event.run_id))
    current ← lift (parse_run_status run.status)
    lift (can_transition_run current target)
    (if RunStatus.eq current target
        then pure tt
        else (do Runs.update_status run.id (RunStatus.as_str target); pure tt))
    adjust_tasks run target
    pure no_outcome
