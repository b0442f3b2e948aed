-- ===== src/Repositories/Tasks.antt =====
-- Task reads and status updates (repositories/tasks.rs).
pub mod Laws
use morpho_research_os.Prelude.{
  ℕ, suc, ◌+◌, String, Bool, true, false, ◌&&◌, ◌||◌, Option, none, some, List, [], ◌∷◌, ◌==◌, map,
  str_eq, str_leb, ltb, select, find, any, length, format, if◌then◌else◌, order_by,
}
use morpho_research_os.Errors.{CoreError, ok, err, Action, database, ok_or}
use morpho_research_os.Env.{Env}
use morpho_research_os.Repositories.Rows.{row, modify}
use morpho_research_os.Repositories.Tables.{Db, TaskRecord, TaskDependencyRecord}

-- `TASK_STATES` (repositories/plans.rs).
abbrev pub task_states : List String
task_states =
    "PENDING" ∷ "PLANNING" ∷ "RUNNING" ∷ "PAUSED" ∷ "VALIDATING" ∷ "NEEDS_REVIEW" ∷ "COMPLETED"
    ∷ "FAILED" ∷ "CANCELLED" ∷ "SKIPPED" ∷ []

abbrev pub task_key : TaskRecord → String
task_key t = t.id

unfoldable pub get : String → Db → Option TaskRecord
unfolding row
get id db = row task_key id db.tasks

unfoldable pub get_by_idempotency_key : String → Db → Option TaskRecord
get_by_idempotency_key key db = find (λ t. str_eq t.idempotency_key key) db.tasks

abbrev pub not_found : String → CoreError
not_found id = database (format ("task '" ∷ id ∷ "' not found" ∷ []))

-- The error of a query for one row that finds none.
abbrev pub no_rows : CoreError
no_rows = database "Query returned no rows"

unfoldable pub tx_immediate_get : String → Action Db TaskRecord
unfolding get
tx_immediate_get id db = (ok_or (get id db) no_rows, db)

-- `ORDER BY created_at, id`.
abbrev pub task_leb : TaskRecord → TaskRecord → Bool
task_leb a b = ltb a.created_at b.created_at || (a.created_at == b.created_at && str_leb a.id b.id)

abbrev pub in_run : String → TaskRecord → Bool
in_run run_id t = elim t.run_id [ none ↦ false | some r ↦ str_eq r run_id ]

unfoldable pub list_for_run : String → Db → List TaskRecord
list_for_run run_id db = order_by task_leb (select (in_run run_id) db.tasks)

unfoldable pub dependencies_of : String → Db → List TaskDependencyRecord
dependencies_of task_id db =
    order_by (λ a b. str_leb a.depends_on_task_id b.depends_on_task_id)
      (select (λ d. str_eq d.task_id task_id) db.dependencies)

unfoldable pub dependents_of : String → Db → List TaskDependencyRecord
dependents_of task_id db =
    order_by (λ a b. str_leb a.task_id b.task_id)
      (select (λ d. str_eq d.depends_on_task_id task_id) db.dependencies)

-- The rows that a run may claim: unassigned and PENDING tasks of its plan.
abbrev pub is_claimable : String → TaskRecord → Bool
is_claimable plan_id t =
    str_eq t.plan_id plan_id
    && elim t.run_id [ none ↦ true | some _ ↦ false ]
    && str_eq t.status "PENDING"

module _ ⦃env : Env⦄ where
  open env use {clock}

  -- `UPDATE tasks SET ..., updated_at = now WHERE id = ?1`, its count of rows, and the row after.
  unfoldable pub update_row : String → (TaskRecord → TaskRecord) → Action Db TaskRecord
  unfolding row modify tx_immediate_get
  update_row id f db =
      let now = clock db.reads in
      let db' = record db {
        tasks = modify task_key id (λ t. record (f t) { updated_at = now }) db.tasks;
        reads = suc db.reads;
      } in
      elim (get id db) [ none ↦ (err (not_found id), db') | some _ ↦ tx_immediate_get id db' ]

  unfoldable pub set_title_and_description : String → String → String → Action Db TaskRecord
  unfolding update_row
  set_title_and_description id title description =
      update_row id (λ t. record t { title = title; description = description })

  unfoldable pub update_status : String → String → Action Db TaskRecord
  unfolding update_row
  update_status id status db =
      let updated = update_row id (λ t. record t { status = status }) db in
      if any (λ s. str_eq s status) task_states
      then updated
      else (err (database (format ("unknown task status '" ∷ status ∷ "'" ∷ []))), db)

  unfoldable pub record_retry : String → Action Db TaskRecord
  unfolding update_row
  record_retry id = update_row id (λ t. record t { retry_count = t.retry_count + 1 })

  unfoldable pub set_checkpoint : String → String → Action Db TaskRecord
  unfolding update_row
  set_checkpoint id checkpoint = update_row id (λ t. record t { checkpoint = some checkpoint })

  unfoldable pub clear_checkpoint : String → Action Db TaskRecord
  unfolding update_row
  clear_checkpoint id = update_row id (λ t. record t { checkpoint = none })

  unfoldable pub set_result : String → String → Action Db TaskRecord
  unfolding update_row
  set_result id result_ref = update_row id (λ t. record t { result_ref = some result_ref })

  unfoldable pub clear_result : String → Action Db TaskRecord
  unfolding update_row
  clear_result id = update_row id (λ t. record t { result_ref = none })

  unfoldable pub set_error : String → String → Action Db TaskRecord
  unfolding update_row
  set_error id error_ref = update_row id (λ t. record t { error_ref = some error_ref })

  unfoldable pub clear_error : String → Action Db TaskRecord
  unfolding update_row
  clear_error id = update_row id (λ t. record t { error_ref = none })

  unfoldable pub set_skip_reason : String → String → Action Db TaskRecord
  unfolding update_row
  set_skip_reason id reason = update_row id (λ t. record t { skip_reason = some reason })

  unfoldable pub claim_for_run : String → String → Action Db ℕ
  claim_for_run plan_id run_id db =
      let now = clock db.reads in
      (
        ok (length (select (is_claimable plan_id) db.tasks)),
        record db {
          tasks =
              map
                (λ t.
                  if is_claimable plan_id t
                  then record t { run_id = some run_id; updated_at = now }
                  else t)
                db.tasks;
          reads = suc db.reads;
        },
      )
