-- ===== src/Repositories/Runs.antt =====
-- Run reads and updates (repositories/runs.rs).
pub mod Laws
use morpho_research_os.Prelude.{
  ℕ, suc, String, Bool, ◌&&◌, ◌||◌, Option, none, some, List, [], ◌∷◌, ◌==◌, str_eq, str_leb, ltb,
  select, any, format, if◌then◌else◌, order_by,
}
use morpho_research_os.Errors.{CoreError, Result, ok, err, Action, database, ok_or, ◌>>=◌, pure}
use morpho_research_os.Env.{Env}
use morpho_research_os.Repositories.Rows.{row, modify}
use morpho_research_os.Repositories.Tables.{Db, RunRecord}

abbrev pub run_states : List String
run_states = "running" ∷ "paused" ∷ "needs_review" ∷ "completed" ∷ "failed" ∷ "cancelled" ∷ []

abbrev pub terminal_states : List String
terminal_states = "completed" ∷ "failed" ∷ "cancelled" ∷ []

abbrev pub delivery_states : List String
delivery_states = "pending" ∷ "delivered" ∷ "failed" ∷ "unknown" ∷ []

-- `slice.contains(&value)`, and SQL's `value IN (...)`.
abbrev pub contains : List String → String → Bool
contains states value = any (λ s. str_eq s value) states

abbrev pub run_key : RunRecord → String
run_key r = r.id

unfoldable pub get : String → Db → Option RunRecord
unfolding row
get id db = row run_key id db.runs

abbrev pub not_found : String → CoreError
not_found id = database (format ("run '" ∷ id ∷ "' not found" ∷ []))

abbrev pub no_rows : CoreError
no_rows = database "Query returned no rows"

unfoldable pub tx_immediate_get : String → Action Db RunRecord
unfolding get
tx_immediate_get id db = (ok_or (get id db) no_rows, db)

-- `ORDER BY created_at, id`.
abbrev pub run_leb : RunRecord → RunRecord → Bool
run_leb a b = ltb a.created_at b.created_at || (a.created_at == b.created_at && str_leb a.id b.id)

unfoldable pub list_for_project : String → Db → List RunRecord
list_for_project project_id db =
    order_by run_leb (select (λ r. str_eq r.project_id project_id) db.runs)

abbrev last : List RunRecord → Option RunRecord
last [] = none
last (r ∷ []) = some r
last (r ∷ s ∷ rest) = last (s ∷ rest)

unfoldable pub latest_for_project : String → Db → Option RunRecord
unfolding list_for_project
latest_for_project project_id db = last (list_for_project project_id db)

unfoldable pub list_terminal_undelivered : Db → List RunRecord
list_terminal_undelivered db = order_by run_leb (
    select
      (λ r.
        contains terminal_states r.status && contains ("pending" ∷ "failed" ∷ []) r.delivery_status)
      db.runs)

module _ ⦃env : Env⦄ where
  open env use {clock}

  -- `UPDATE runs SET ..., updated_at = now WHERE id = ?1`; `f` is given the reading of the clock.
  unfoldable pub update_row : String → (ℕ → RunRecord → RunRecord) → Action Db (Unit {0})
  unfolding row modify get
  update_row id f db =
      let now = clock db.reads in
      let db' = record db {
        runs = modify run_key id (λ r. record (f now r) { updated_at = now }) db.runs;
        reads = suc db.reads;
      } in
      elim (get id db) [ none ↦ (err (not_found id), db') | some _ ↦ (ok tt, db') ]

  unfoldable pub set_worker_job : String → String → Action Db (Unit {0})
  unfolding update_row
  set_worker_job id job_id = update_row id (λ _ r. record r { worker_job_id = some job_id })

  unfoldable pub set_delivery_status : String → String → Action Db (Unit {0})
  unfolding update_row
  set_delivery_status id delivery_status db =
      let updated = update_row id (λ _ r. record r { delivery_status = delivery_status }) db in
      if contains delivery_states delivery_status
      then updated
      else (err (database (format ("unknown delivery status '" ∷ delivery_status ∷ "'" ∷ []))), db)

  unfoldable pub update_status : String → String → Action Db RunRecord
  unfolding update_row tx_immediate_get ◌>>=◌
  update_status id status db =
      let stamped = λ (now : ℕ) (r : RunRecord). record r {
        status = status;
        finished_at = if contains terminal_states status then some now else none;
      } in
      let updated = (update_row id stamped >>= λ _. tx_immediate_get id) db in
      if contains run_states status
      then updated
      else (err (database (format ("unknown run status '" ∷ status ∷ "'" ∷ []))), db)
