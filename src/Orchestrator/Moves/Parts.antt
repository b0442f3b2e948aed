-- ===== src/Orchestrator/Moves/Parts.antt =====
-- Gating, the cascade, the rollup and the run events move the tables as the orchestrator may.
use morpho_research_os.Prelude.{
  ℕ, zero, suc, String, false, Option, none, some, List, [], ◌∷◌, ◌≡◌, refl,
}
use morpho_research_os.Errors.{ok, pure}
use morpho_research_os.Env.{Env}
use morpho_research_os.Keeps.{
  Keeps, bind_at, bind_lift_at, if_at, Keeps-pure, Keeps-bind, Keeps-gets, Keeps-lift, Keeps-if,
  Keeps-list,
}
use morpho_research_os.Repositories.Tables.{Db, TaskRecord, TaskDependencyRecord}
use morpho_research_os.Repositories.Tasks
use morpho_research_os.Repositories.Tasks.{dependencies_of, dependents_of}
use morpho_research_os.Orchestrator.TaskStatus
use morpho_research_os.Orchestrator.TaskStatus.{TaskStatus, can_transition, pending, failed}
use morpho_research_os.Orchestrator.TaskStatus.Laws.{eq→≡}
use morpho_research_os.Orchestrator.RunStatus.{RunStatus}
use morpho_research_os.Orchestrator.Transition.{parse_task_status}
use morpho_research_os.Orchestrator.Gating.{
  collect_blocking, ensure_startable, all_satisfied, dependencies_satisfied, collect_unblocked,
  unblock_dependents,
}
use morpho_research_os.Orchestrator.Cascade.{
  Cascade, is_seen, fail_dependent, visit_dependent, visit_dependents, cascade_loop,
  cascade_dependency_failure,
}
use morpho_research_os.Orchestrator.Rollup.{settle, rollup_run}
use morpho_research_os.Orchestrator.Moves.{Moves, Moves-preorder}
use morpho_research_os.Orchestrator.Moves.Writes.{set_error-Keeps}
use morpho_research_os.Orchestrator.Moves.RunWrites.{update_run_status-Keeps}
use morpho_research_os.Orchestrator.Moves.Steps.{
  move_rules, load_task-Keeps, bind_load_at, update_loaded,
}

collect_blocking-Keeps :
    (deps : List TaskDependencyRecord) (blocking : List String)
    → Keeps Moves (collect_blocking deps blocking)
unfolding collect_blocking
collect_blocking-Keeps [] blocking = search move_rules
collect_blocking-Keeps (dep ∷ deps) blocking =
    let rest = collect_blocking-Keeps deps in search (move_rules, rest) depth 8

pub ensure_startable-Keeps : (id : String) → Keeps Moves (ensure_startable id)
unfolding ensure_startable
ensure_startable-Keeps id = search (move_rules, collect_blocking-Keeps)

all_satisfied-Keeps : (deps : List TaskDependencyRecord) → Keeps Moves (all_satisfied deps)
unfolding all_satisfied
all_satisfied-Keeps [] = search move_rules
all_satisfied-Keeps (dep ∷ deps) = Keeps-bind Moves-preorder _ _ (load_task-Keeps _) λ upstream.
    Keeps-bind Moves-preorder _ _ (Keeps-lift Moves-preorder _) λ status.
      Keeps-bind Moves-preorder _ _ (Keeps-lift Moves-preorder _)
        λ met. Keeps-if met _ _ (all_satisfied-Keeps deps) (Keeps-pure Moves-preorder false)

dependencies_satisfied-Keeps : (id : String) → Keeps Moves (dependencies_satisfied id)
unfolding dependencies_satisfied
dependencies_satisfied-Keeps id = search (move_rules, all_satisfied-Keeps)

collect_unblocked-Keeps :
    (deps : List TaskDependencyRecord) (unblocked : List String)
    → Keeps Moves (collect_unblocked deps unblocked)
unfolding collect_unblocked
collect_unblocked-Keeps [] unblocked = search move_rules
collect_unblocked-Keeps (dep ∷ deps) unblocked =
    let rest = collect_unblocked-Keeps deps in
    search (move_rules, dependencies_satisfied-Keeps, rest) depth 8

pub unblock_dependents-Keeps : (id : String) → Keeps Moves (unblock_dependents id)
unfolding unblock_dependents
unblock_dependents-Keeps id = search (move_rules, collect_unblocked-Keeps)

legal_failure : can_transition pending failed ≡ ok tt
unfolding can_transition
legal_failure = refl

module _ ⦃env : Env⦄ where
  fail_dependent_at :
      (root id : String) (db : Db) {t : TaskRecord}
      → Tasks.get id db ≡ some t
      → parse_task_status t.status ≡ ok pending
      → Moves db (fail_dependent root id db).1
  unfolding fail_dependent
  fail_dependent_at root id db loaded parsed =
      bind_at Moves-preorder _ _ db (update_loaded id failed db loaded parsed legal_failure) (λ _ _.
        bind_lift_at Moves-preorder _ _ _ λ detail _.
          bind_at Moves-preorder _ _ _ ((set_error-Keeps id detail).at _)
            (λ _ _. (Keeps-pure Moves-preorder _).at _))

  pub visit_dependent-Keeps :
      (root : String) (dep : TaskDependencyRecord) (c : Cascade)
      → Keeps Moves (visit_dependent root dep c)
  unfolding visit_dependent
  visit_dependent-Keeps root dep c = record {
    at = λ db.
        if_at Moves-preorder (is_seen dep.task_id c.seen) _ _ db
          (λ _. (Keeps-pure Moves-preorder _).at db)
          λ _. bind_load_at dep.task_id _ db λ t loaded.
            bind_lift_at Moves-preorder (parse_task_status t.status) _ db λ status parsed.
              if_at Moves-preorder (TaskStatus.eq status pending) _ _ db
                (λ e.
                  bind_at Moves-preorder _ _ db
                    (fail_dependent_at root dep.task_id db loaded
                      (rw (eq→≡ status pending e) at parsed))
                    (λ _ _. (Keeps-pure Moves-preorder _).at _))
                (λ _. (Keeps-pure Moves-preorder _).at db);
  }

  pub visit_dependents-Keeps :
      (root : String) (deps : List TaskDependencyRecord) (c : Cascade)
      → Keeps Moves (visit_dependents root deps c)
  unfolding visit_dependents
  visit_dependents-Keeps root [] c = search move_rules
  visit_dependents-Keeps root (dep ∷ deps) c =
      let rest = visit_dependents-Keeps root deps in
      search (move_rules, visit_dependent-Keeps, rest)

  cascade_loop-Keeps :
      (fuel : ℕ) (root : String) (c : Cascade) → Keeps Moves (cascade_loop fuel root c)
  unfolding cascade_loop
  cascade_loop-Keeps zero root c = search move_rules
  cascade_loop-Keeps (suc fuel) root c =
      Keeps-list c.queue (pure c) _ (Keeps-pure Moves-preorder c) λ current rest.
        Keeps-bind Moves-preorder _ _ (Keeps-gets Moves-preorder _) λ deps.
          Keeps-bind Moves-preorder _ _ (visit_dependents-Keeps root deps _)
            λ c'. cascade_loop-Keeps fuel root c'

  pub cascade_dependency_failure-Keeps : (id : String) → Keeps Moves (cascade_dependency_failure id)
  unfolding cascade_dependency_failure
  cascade_dependency_failure-Keeps id = search (move_rules, cascade_loop-Keeps)

  settle-Keeps :
      (run_id : String) (current : RunStatus) (target : Option RunStatus)
      → Keeps Moves (settle run_id current target)
  unfolding settle
  settle-Keeps run_id current none = search (move_rules, update_run_status-Keeps)
  settle-Keeps run_id current (some t) = search (move_rules, update_run_status-Keeps)

  pub rollup_run-Keeps : (run_id : String) → Keeps Moves (rollup_run run_id)
  unfolding rollup_run
  rollup_run-Keeps run_id = search (move_rules, settle-Keeps) depth 12
