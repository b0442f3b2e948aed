-- ===== src/Orchestrator/Gating/Start.antt =====
-- `task.started` is accepted only for a task whose dependencies are satisfied.
use morpho_research_os.Prelude.{String, some, ◌≡◌, arith, All}
use morpho_research_os.Errors.{ok, lift_bind_ok, bind_ok}
use morpho_research_os.Env.{Env}
use morpho_research_os.Repositories.Tables.{Db}
use morpho_research_os.Repositories.Tasks.{dependencies_of}
use morpho_research_os.Orchestrator.Event.{CanonicalEvent, ApplyOutcome, resolve_task_id}
use morpho_research_os.Orchestrator.Transition.{require_task_id}
use morpho_research_os.Orchestrator.Gating.{ensure_startable}
use morpho_research_os.Orchestrator.Gating.Laws.{IsSatisfied, ensure_startable-All}
use morpho_research_os.Orchestrator.Apply.{
  task_started, event_kind, start_task, project, apply_in_tx,
}

module _ ⦃env : Env⦄ where
  open env use {Value}

  required :
      (event : CanonicalEvent Value) {id j : String}
      → resolve_task_id event ≡ some id
      → require_task_id event ≡ ok j
      → id ≡ j
  unfolding require_task_id
  required event i h = ground arith

  start_task-All :
      (event : CanonicalEvent Value) (id : String) (db : Db) {o : ApplyOutcome}
      → (start_task event id db).0 ≡ ok o
      → All (IsSatisfied db) (dependencies_of id db)
  unfolding start_task
  start_task-All event id db h =
      let (_, startable, _) = bind_ok (ensure_startable id) _ db h in
      ensure_startable-All id db startable

  -- When `task.started` is accepted, every dependency of the task is satisfied: its upstream task is
  -- stored, and is completed, or skipped under the condition that lets a skipped task count.
  pub started-All :
      (event : CanonicalEvent Value) (id : String) (db : Db) (o : ApplyOutcome)
      → event_kind event.event_type ≡ task_started
      → resolve_task_id event ≡ some id
      → (apply_in_tx event db).0 ≡ ok o
      → All (IsSatisfied db) (dependencies_of id db)
  unfolding apply_in_tx project
  started-All event id db o k i h =
      let h₁ : (project task_started event db).0 ≡ ok o = rw k at h in
      let (j, need, h₂) = lift_bind_ok (require_task_id event) (start_task event) db h₁ in
      rw (required event i need) (start_task-All event j db h₂)
