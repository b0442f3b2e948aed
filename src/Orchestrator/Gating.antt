-- ===== src/Orchestrator/Gating.antt =====
-- Dependency gating (orchestrator.rs, lines 586 to 665).
pub mod Laws
pub mod Start
use morpho_research_os.Prelude.{
  String, Bool, true, false, not, ◌||◌, List, [], ◌∷◌, ◌++◌, str_eq, format, join, if◌then◌else◌,
  is_empty,
}
use morpho_research_os.Errors.{
  ErrorCode, CoreError, Result, ok, err, Action, database, core_error, pure, raise, gets, lift,
  ◌>>=◌, ◌>>◌,
}
use morpho_research_os.Repositories.Tables.{Db, TaskRecord, TaskDependencyRecord}
use morpho_research_os.Repositories.Tasks.{dependencies_of, dependents_of}
use morpho_research_os.Orchestrator.TaskStatus.{TaskStatus, pending, completed, skipped, eq, as_str}
use morpho_research_os.Orchestrator.Transition.{load_task, parse_task_status}

unfoldable pub condition_satisfied : String → TaskStatus → Result Bool
condition_satisfied condition upstream_status =
    if str_eq condition "completed"
    then ok (eq upstream_status completed)
    else if str_eq condition "completed-or-skipped"
    then ok (eq upstream_status completed || eq upstream_status skipped)
    else err (database (format ("unknown dependency condition '" ∷ condition ∷ "'" ∷ [])))

-- The loop of `ensure_startable`: `blocking` collects the unsatisfied dependencies.
unfoldable pub collect_blocking : List TaskDependencyRecord → List String → Action Db (List String)
collect_blocking [] blocking = pure blocking
collect_blocking (dep ∷ deps) blocking = do
  upstream ← load_task dep.depends_on_task_id
  status ← lift (parse_task_status upstream.status)
  met ← lift (condition_satisfied dep.condition status)
  collect_blocking deps (
      if met
      then blocking
      else (blocking ++ format (dep.depends_on_task_id ∷ "=" ∷ as_str status ∷ []) ∷ []))

unfoldable pub ensure_startable : String → Action Db (Unit {0})
unfolding collect_blocking
ensure_startable task_id = do
  deps ← gets (dependencies_of task_id)
  blocking ← collect_blocking deps []
  if is_empty blocking
      then pure tt
      else raise (
          core_error ErrorCode.task_dependency_failed
            "This task cannot run because an upstream task has not finished."
            (format (
              "task '"
              ∷ task_id
              ∷ "' blocked by unsatisfied dependencies: "
              ∷ join ", " blocking
              ∷ []))
            false)

-- The loop of `dependencies_satisfied`, left at the first dependency that is not satisfied.
unfoldable pub all_satisfied : List TaskDependencyRecord → Action Db Bool
all_satisfied [] = pure true
all_satisfied (dep ∷ deps) = do
  upstream ← load_task dep.depends_on_task_id
  status ← lift (parse_task_status upstream.status)
  met ← lift (condition_satisfied dep.condition status)
  if met then all_satisfied deps else pure false

unfoldable pub dependencies_satisfied : String → Action Db Bool
unfolding all_satisfied
dependencies_satisfied task_id = do deps ← gets (dependencies_of task_id); all_satisfied deps

-- The loop of `unblock_dependents`.
unfoldable pub collect_unblocked : List TaskDependencyRecord → List String → Action Db (List String)
collect_unblocked [] unblocked = pure unblocked
collect_unblocked (dep ∷ deps) unblocked = do
  dependent ← load_task dep.task_id
  status ← lift (parse_task_status dependent.status)
  ready ← (if eq status pending then dependencies_satisfied dep.task_id else pure false)
  collect_unblocked deps (if ready then (unblocked ++ dep.task_id ∷ []) else unblocked)

unfoldable pub unblock_dependents : String → Action Db (List String)
unfolding collect_unblocked
unblock_dependents task_id = do deps ← gets (dependents_of task_id); collect_unblocked deps []
