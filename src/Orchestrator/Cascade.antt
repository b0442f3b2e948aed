-- ===== src/Orchestrator/Cascade.antt =====
-- The cascade of a final failure (orchestrator.rs, lines 667 to 700).
pub mod Visit
pub mod Closed
pub mod Grown
pub mod Fuel
pub mod Reach
use morpho_research_os.Prelude.{
  ℕ, zero, suc, String, Bool, List, [], ◌∷◌, ◌++◌, str_eq, any, length, if◌then◌else◌,
}
use morpho_research_os.Errors.{ErrorCode, display, Action, pure, gets, lift, ◌>>=◌, ◌>>◌}
use morpho_research_os.Env.{Env}
use morpho_research_os.Repositories.Tables.{Db, TaskDependencyRecord}
use morpho_research_os.Repositories.Tasks
use morpho_research_os.Repositories.Tasks.{dependents_of}
use morpho_research_os.Orchestrator.TaskStatus.{pending, failed, eq, as_str}
use morpho_research_os.Orchestrator.Transition.{load_task, parse_task_status, json_to_string}

-- The variables of the loop. The head of `queue` is the end of the vector, where `push` adds and
-- `pop` takes; `seen` is a set, held as a list.
pub record Cascade : Type 0 where
  pub failed_ids : List String
  pub seen : List String
  pub queue : List String

abbrev pub is_seen : String → List String → Bool
is_seen id seen = any (λ s. str_eq s id) seen

module _ ⦃env : Env⦄ where
  open env use {object, text}

  -- One PENDING dependent becomes FAILED with its error reference.
  unfoldable pub fail_dependent : String → String → Action Db (Unit {0})
  fail_dependent failed_task_id id = do
    Tasks.update_status id (as_str failed)
    detail ← lift (
        json_to_string (
          object (
            ("code", text (display ErrorCode.task_dependency_failed))
            ∷ ("upstream", text failed_task_id)
            ∷ [])))
    Tasks.set_error id detail
    pure tt

  -- The body of the `for` loop.
  unfoldable pub visit_dependent : String → TaskDependencyRecord → Cascade → Action Db Cascade
  unfolding fail_dependent
  visit_dependent failed_task_id dep c =
      let id = dep.task_id in
      if is_seen id c.seen then pure c else do
        dependent ← load_task id
        status ← lift (parse_task_status dependent.status)
        if eq status pending
            then (do
              fail_dependent failed_task_id id
              pure (record c {
                failed_ids = c.failed_ids ++ id ∷ [];
                seen = id ∷ c.seen;
                queue = id ∷ c.queue;
              }))
            else pure (record c { seen = id ∷ c.seen; queue = id ∷ c.queue })

  unfoldable pub visit_dependents : String → List TaskDependencyRecord → Cascade → Action Db Cascade
  unfolding visit_dependent
  visit_dependents failed_task_id [] c = pure c
  visit_dependents failed_task_id (dep ∷ deps) c = do
    c' ← visit_dependent failed_task_id dep c
    visit_dependents failed_task_id deps c'

  -- The `while` loop, on fuel: every round takes one task from the queue.
  unfoldable pub cascade_loop : ℕ → String → Cascade → Action Db Cascade
  unfolding visit_dependents
  cascade_loop zero failed_task_id c = pure c
  cascade_loop (suc fuel) failed_task_id c = elim c.queue [
    | [] ↦ pure c
    | current ∷ rest ↦ (do
      deps ← gets (dependents_of current)
      c' ← visit_dependents failed_task_id deps (record c { queue = rest })
      cascade_loop fuel failed_task_id c')
  ]

  abbrev pub cascade_start : String → Cascade
  cascade_start failed_task_id = record { failed_ids = []; seen = []; queue = failed_task_id ∷ [] }

  -- A task is queued at most once for each dependency row, and the failed task once more.
  abbrev pub cascade_fuel : Db → ℕ
  cascade_fuel db = suc (suc (length db.dependencies))

  unfoldable pub cascade_dependency_failure : String → Action Db (List String)
  unfolding cascade_loop
  cascade_dependency_failure failed_task_id = do
    fuel ← gets cascade_fuel
    c ← cascade_loop fuel failed_task_id (cascade_start failed_task_id)
    pure c.failed_ids
