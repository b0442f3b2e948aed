-- ===== src/Tests.antt =====
-- The theorems applied to the sample project.
mod Sample
mod Supervision
mod Upgrade
mod Vaulting
mod Ingesting
mod Deciding
use mathlib.Core.Option
use morpho_research_os.Prelude.{
  ◌+◌, ◌++◌, arith, any, ℕ, zero, suc, String, Bool, true, false, Option, none, some, List, [], ◌∷◌,
  ◌≡◌, refl, ◌⊎◌, inl, inr, ◌==◌, if◌then◌else◌, ◌↔◌, ◌≢◌, str_eq, find, is_empty, map, format, All,
  All-select,
}
use morpho_research_os.Errors.{CoreError, core_error, ErrorCode, Result, ok, err, is_ok}
use morpho_research_os.Env.{Env}
use morpho_research_os.Repositories.Rows.{Distinct}
use morpho_research_os.Repositories.Tables.{
  Db, TaskRecord, TaskDependencyRecord, RunRecord, EventRecord, NewEvent,
}
use morpho_research_os.Repositories.Tasks
use morpho_research_os.Repositories.Tasks.{task_key, dependencies_of}
use morpho_research_os.Repositories.Runs
use morpho_research_os.Repositories.Runs.Laws.{written}
use morpho_research_os.Repositories.Events.{append, latest_sequence}
use morpho_research_os.Repositories.Events.Log.{IsLog, append-IsLog, append_total}
use morpho_research_os.Orchestrator.TaskStatus
use morpho_research_os.Orchestrator.TaskStatus.{TaskStatus, can_transition}
use morpho_research_os.Orchestrator.TaskStatus.Laws.{
  parse_iff, can_transition-cancelled, can_transition-skipped, Reaches, here, step,
  Reaches-of_terminal, Reaches-completed,
}
use morpho_research_os.Orchestrator.RunStatus
use morpho_research_os.Orchestrator.RunStatus.{RunStatus, can_transition_run}
use morpho_research_os.Orchestrator.RunStatus.Laws.{parse_run_iff}
use morpho_research_os.Orchestrator.Event.{
  CanonicalEvent, ApplyOutcome, task_outcome, resolve_task_id,
}
use morpho_research_os.Orchestrator.Gating.Laws.{IsSatisfied}
use morpho_research_os.Orchestrator.Gating.Start.{started-All}
use morpho_research_os.Orchestrator.Moves.{Changes}
use morpho_research_os.Orchestrator.Apply.{apply_in_tx, apply_event, event_kind, task_started}
use morpho_research_os.Orchestrator.Projection.{apply_all, apply_all-Changes, terminal_stays}
use morpho_research_os.Orchestrator.Replay.{apply_event-replay, apply_event-refused}
use morpho_research_os.Orchestrator.Rollup.{rollup_target, settle}
use morpho_research_os.Orchestrator.Rollup.Laws.{IsDone, rollup_completed_iff}
use morpho_research_os.Errors.{◌>>=◌}
use morpho_research_os.Prelude.{order_by}
use morpho_research_os.Orchestrator.Transition.{
  require_task_id, load_task, parse_task_status, parse_run_status, transition_task,
}
use morpho_research_os.Orchestrator.Gating.{ensure_startable, condition_satisfied}
use morpho_research_os.Orchestrator.Apply.{start_task}
use morpho_research_os.Orchestrator.Rollup.{rollup_run, tally}
use morpho_research_os.Orchestrator.Apply.{commit_local_event}
use morpho_research_os.Orchestrator.Commit.{IsLogged, IsProjected, commit-whole_or_not}
use morpho_research_os.Repositories.Transaction.Atomic.{SameTables}
use morpho_research_os.Repositories.Runs.{list_terminal_undelivered}
use morpho_research_os.Recovery.{converge_worker_lost_run, already_converged}
use morpho_research_os.Recovery.Laws.{worker_lost-again}
use morpho_research_os.Orchestrator.Cascade.{cascade_loop, cascade_start, cascade_fuel}
use morpho_research_os.Orchestrator.Cascade.Fuel.{cascade_loop-enough}
use morpho_research_os.Orchestrator.Cascade.{
  cascade_dependency_failure, visit_dependents, visit_dependent, fail_dependent,
}
use morpho_research_os.Orchestrator.Cascade.Closed.{IsClosed}
use morpho_research_os.Orchestrator.Cascade.Reach.{direct, cascade-IsClosed}
use morpho_research_os.Orchestrator.Transition.{json_to_string}
use morpho_research_os.Repositories.Tasks.{dependents_of}
use morpho_research_os.Env.{PrintsJson}
use morpho_research_os.Orchestrator.Commit.{commit_unprojected}
use morpho_research_os.Prelude.{format, map}
use morpho_research_os.Tests.Sample.{Json, example_env, task, run, project_db, event}

terminal_stays_example :
    (t' : TaskRecord) × (Tasks.get "task-1" (
        apply_all
          (event "task.started" "task-2" ∷ event "run.cancelled" "" ∷ [])
          (project_db "COMPLETED" "running"))
      ≡ some t')
    × (t'.status ≡ "COMPLETED")
unfolding Tasks.get TaskStatus.parse TaskStatus.is_terminal
terminal_stays_example =
    terminal_stays (event "task.started" "task-2" ∷ event "run.cancelled" "" ∷ [])
      (project_db "COMPLETED" "running") "task-1" (task "task-1" "COMPLETED" (some "run-1"))
      TaskStatus.completed (((refl, tt), (tt, tt))) refl refl refl

apply_all-Changes_example : Changes (project_db "RUNNING" "running") (
    apply_all
      (event "task.completed" "task-1" ∷ event "task.started" "task-2" ∷ [])
      (project_db "RUNNING" "running"))
apply_all-Changes_example =
    apply_all-Changes (event "task.completed" "task-1" ∷ event "task.started" "task-2" ∷ [])
      (project_db "RUNNING" "running") (((refl, tt), (tt, tt)))

apply_event-replay_example :
    apply_event (event "task.completed" "task-1") (project_db "COMPLETED" "running")
    ≡ (ok (task_outcome "task-1" TaskStatus.completed none), project_db "COMPLETED" "running")
unfolding event_kind resolve_task_id Tasks.get TaskStatus.parse
apply_event-replay_example =
    apply_event-replay (event "task.completed" "task-1") (project_db "COMPLETED" "running") "task-1"
      TaskStatus.completed (task "task-1" "COMPLETED" (some "run-1")) refl refl refl refl

-- The error of the table for COMPLETED -> FAILED.
abbrev illegal : CoreError
illegal =
    core_error ErrorCode.database_error "Illegal task state transition."
      (format ("illegal task transition " ∷ "COMPLETED" ∷ " -> " ∷ "FAILED" ∷ [])) false

apply_event-refused_example :
    apply_event (event "task.failed" "task-1") (project_db "COMPLETED" "running")
    ≡ (err illegal, project_db "COMPLETED" "running")
unfolding event_kind resolve_task_id Tasks.get TaskStatus.parse can_transition
apply_event-refused_example =
    apply_event-refused (event "task.failed" "task-1") (project_db "COMPLETED" "running") "task-1"
      TaskStatus.completed TaskStatus.failed (task "task-1" "COMPLETED" (some "run-1")) illegal refl
      refl refl refl refl

abbrev note : NewEvent
note = record { run_id = "run-1"; task_id = none; event_type = "plan.approved"; payload = "{}" }

abbrev outcome : ApplyOutcome
outcome = record (task_outcome "task-2" TaskStatus.pending (some TaskStatus.running)) {
  run_rollup = some (record {
    run_id = "run-1";
    previous_status = "running";
    status = "running";
    counts = ("COMPLETED", 1) ∷ ("RUNNING", 1) ∷ [];
  });
}

started-All_example :
    All
      (IsSatisfied (project_db "COMPLETED" "running"))
      (dependencies_of "task-2" (project_db "COMPLETED" "running"))
unfolding event_kind resolve_task_id apply_in_tx ◌>>=◌ require_task_id start_task ensure_startable
    dependencies_of order_by load_task Tasks.get parse_task_status TaskStatus.parse
    condition_satisfied TaskStatus.eq transition_task can_transition rollup_run rollup_target settle
    tally RunStatus.eq RunStatus.parse RunStatus.as_str Runs.get parse_run_status Tasks.list_for_run
    Tasks.update_status TaskStatus.is_run_settled
started-All_example =
    started-All (event "task.started" "task-2") "task-2" (project_db "COMPLETED" "running") outcome
      refl refl refl

append-IsLog_example : IsLog (append note (append note (project_db "RUNNING" "running")).1).1.events
append-IsLog_example =
    append-IsLog note (append note (project_db "RUNNING" "running")).1
      (append-IsLog note (project_db "RUNNING" "running") tt)

append_total_example :
    (e : EventRecord) × ((append note (project_db "RUNNING" "running")).0 ≡ ok e)
    × ((append note (project_db "RUNNING" "running")).1.events ≡ [] ++ e ∷ [])
    × (e.sequence ≡ latest_sequence "run-1" (project_db "RUNNING" "running") + 1)
    × (e.run_id ≡ "run-1")
    × (e.payload ≡ "{}")
unfolding Runs.get
append_total_example = append_total note (project_db "RUNNING" "running") refl refl (inl refl)

rollup_completed_iff_example :
    (rollup_target (TaskStatus.completed ∷ TaskStatus.skipped ∷ []) ≡ some RunStatus.completed)
    ↔ All IsDone (TaskStatus.completed ∷ TaskStatus.skipped ∷ [])
rollup_completed_iff_example = rollup_completed_iff (TaskStatus.completed ∷ TaskStatus.skipped ∷ [])

commit-whole_or_not_example :
    ((e : CoreError) × ((commit_local_event
          (event "task.completed" "task-1")
          (project_db "RUNNING" "running")).0
        ≡ err e)
      × SameTables
          (project_db "RUNNING" "running")
          (commit_local_event (event "task.completed" "task-1") (project_db "RUNNING" "running")).1)
    ⊎ (((commit_local_event (event "task.completed" "task-1") (project_db "RUNNING" "running")).0
          ≡ ok tt)
        × IsLogged
            (event "task.completed" "task-1")
            (project_db "RUNNING" "running")
            (commit_local_event
              (event "task.completed" "task-1")
              (project_db "RUNNING" "running")).1
        × IsProjected
            (event "task.completed" "task-1")
            (project_db "RUNNING" "running")
            (commit_local_event
              (event "task.completed" "task-1")
              (project_db "RUNNING" "running")).1)
commit-whole_or_not_example =
    commit-whole_or_not (event "task.completed" "task-1") (project_db "RUNNING" "running")
      (((refl, tt), (tt, tt)))

worker_lost-again_example :
    converge_worker_lost_run "run-1" "lost again"
      (converge_worker_lost_run "run-1" "lost" (project_db "COMPLETED" "completed")).1
    ≡ (
      ok already_converged,
      (converge_worker_lost_run "run-1" "lost" (project_db "COMPLETED" "completed")).1,
    )
unfolding Runs.get
worker_lost-again_example =
    worker_lost-again "run-1" "lost" "lost again" (project_db "COMPLETED" "completed")
      (run "completed") refl refl

cascade_loop-enough_example :
    cascade_loop
      (cascade_fuel (project_db "FAILED" "running") + 5)
      "task-1"
      (cascade_start "task-1")
      (project_db "FAILED" "running")
    ≡ cascade_loop
        (cascade_fuel (project_db "FAILED" "running"))
        "task-1"
        (cascade_start "task-1")
        (project_db "FAILED" "running")
cascade_loop-enough_example =
    cascade_loop-enough 5 "task-1" (project_db "FAILED" "running") (((refl, tt), (tt, tt)))

cascade-IsClosed_example :
    IsClosed (cascade_dependency_failure "task-1" (project_db "FAILED" "running")).1 "task-2"
unfolding cascade_dependency_failure cascade_loop visit_dependents visit_dependent fail_dependent
    dependents_of order_by load_task Tasks.get parse_task_status TaskStatus.parse TaskStatus.eq
    TaskStatus.as_str Tasks.update_status Tasks.set_error ◌>>=◌ json_to_string
cascade-IsClosed_example =
    cascade-IsClosed "task-1" "task-2" (project_db "FAILED" "running") ("task-2" ∷ [])
      (((refl, tt), (tt, tt))) refl (direct refl)

abbrev example_json : PrintsJson example_env
example_json = record {
  print = λ v. format (map (λ p. p.1) v);
  prints = λ v. refl;
  parses = λ v. refl;
}

commit_unprojected_example :
    (commit_local_event
      (record (event "plan.approved" "") { task_id = none })
      (project_db "RUNNING" "running")).0
    ≡ ok tt
unfolding event_kind Runs.get
commit_unprojected_example =
    commit_unprojected example_json (record (event "plan.approved" "") { task_id = none })
      (project_db "RUNNING" "running") (run "running") refl refl (inl refl)
