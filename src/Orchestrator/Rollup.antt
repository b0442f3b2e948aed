-- ===== src/Orchestrator/Rollup.antt =====
-- The rollup of a run's status from its tasks (orchestrator.rs, lines 702 to 772).
pub mod Laws
use morpho_research_os.Prelude.{
  ℕ, ◌+◌, String, Bool, not, ◌&&◌, Option, none, some, List, [], ◌∷◌, str_eq, str_leb, any, all,
  if◌then◌else◌, is_empty,
}
use morpho_research_os.Errors.{
  Result, ok, err, Action, database, pure, gets, lift, ok_or, ◌>>=◌, ◌>>◌,
}
use morpho_research_os.Env.{Env}
use morpho_research_os.Repositories.Tables.{Db, TaskRecord, RunRecord}
use morpho_research_os.Repositories.Tasks.{list_for_run}
use morpho_research_os.Repositories.Runs
use morpho_research_os.Orchestrator.TaskStatus
use morpho_research_os.Orchestrator.TaskStatus.{TaskStatus, is_run_settled}
use morpho_research_os.Orchestrator.RunStatus
use morpho_research_os.Orchestrator.RunStatus.{RunStatus, can_transition_run}
use morpho_research_os.Orchestrator.Event.{RunRollup}
use morpho_research_os.Orchestrator.Transition.{parse_task_status, parse_run_status}

-- `statuses.contains(&s)`.
abbrev pub has : TaskStatus → List TaskStatus → Bool
has s statuses = any (λ t. TaskStatus.eq t s) statuses

unfoldable pub rollup_target : List TaskStatus → Option RunStatus
rollup_target statuses =
    if has TaskStatus.needs_review statuses
    then some RunStatus.needs_review
    else if not (all is_run_settled statuses)
    then none
    else if has TaskStatus.failed statuses
    then some RunStatus.failed
    else if has TaskStatus.cancelled statuses
    then some RunStatus.cancelled
    else some RunStatus.completed

-- `*counts.entry(key).or_insert(0) += 1` on the ordered map.
unfoldable pub bump : String → List (String × ℕ) → List (String × ℕ)
bump key [] = (key, 1) ∷ []
bump key ((k, n) ∷ rest) =
    let later = bump key rest in
    if str_eq k key
    then (k, n + 1) ∷ rest
    else if str_leb k key
    then (k, n) ∷ later
    else (key, 1) ∷ (k, n) ∷ rest

-- The loop of `rollup_run` over the tasks: the counts, and the statuses in order.
unfoldable pub tally :
    List TaskRecord → List (String × ℕ) → Result (List (String × ℕ) × List TaskStatus)
unfolding bump
tally [] counts = ok (counts, [])
tally (task ∷ tasks) counts = elim (parse_task_status task.status) [
  | err e ↦ err e
  | ok status ↦ elim (tally tasks (bump (TaskStatus.as_str status) counts)) [
    | err e ↦ err e
    | ok r ↦ ok (r.0, status ∷ r.1)
  ]
]

module _ ⦃env : Env⦄ where
  -- The `match` on the target: it writes the run's status and returns the final one.
  unfoldable pub settle : String → RunStatus → Option RunStatus → Action Db RunStatus
  settle run_id current (some target) = if RunStatus.eq target current then pure target else do
    lift (can_transition_run current target)
    Runs.update_status run_id (RunStatus.as_str target)
    pure target
  settle run_id current none =
      let final_status =
        if RunStatus.eq current RunStatus.paused then RunStatus.paused else RunStatus.running in
      if not (RunStatus.eq current RunStatus.running) && not (RunStatus.eq current RunStatus.paused)
      then (do Runs.update_status run_id (RunStatus.as_str RunStatus.running); pure final_status)
      else pure final_status

  unfoldable pub rollup_run : String → Action Db (Option RunRollup)
  unfolding settle
  rollup_run run_id = do
    tasks ← gets (list_for_run run_id)
    if is_empty tasks then pure none else do
      tallied ← lift (tally tasks [])
      found ← gets (Runs.get run_id)
      run ← lift (ok_or found (Runs.not_found run_id))
      current ← lift (parse_run_status run.status)
      final_status ← settle run_id current (rollup_target tallied.1)
      pure (
          some (record {
            run_id = run_id;
            previous_status = RunStatus.as_str current;
            status = RunStatus.as_str final_status;
            counts = tallied.0;
          }))
