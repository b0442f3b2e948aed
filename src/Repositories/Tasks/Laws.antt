-- ===== src/Repositories/Tasks/Laws.antt =====
-- What an update of a task leaves in the table (repositories/tasks.rs).
use morpho_research_os.Prelude.{suc, String, true, some, ◌≡◌, refl, eq_iff, str_eq, any}
use morpho_research_os.Errors.{ok}
use morpho_research_os.Env.{Env}
use morpho_research_os.Repositories.Rows.{modify, row-modify}
use morpho_research_os.Repositories.Tables.{Db, TaskRecord}
use morpho_research_os.Repositories.Tasks
use morpho_research_os.Repositories.Tasks.{task_key, task_states}

module _ ⦃env : Env⦄ where
  -- The row that an update writes, and the tables after it.
  abbrev pub changed : (TaskRecord → TaskRecord) → Db → TaskRecord → TaskRecord
  changed f db t = record (f t) { updated_at = env.clock db.reads }

  abbrev pub after : String → (TaskRecord → TaskRecord) → Db → Db
  after id f db = record db {
    tasks = modify task_key id (changed f db) db.tasks;
    reads = suc db.reads;
  }

  pub get-after :
      (id : String) (f : TaskRecord → TaskRecord) (db : Db) {t : TaskRecord}
      → ((x : TaskRecord) → (f x).id ≡ x.id)
      → Tasks.get id db ≡ some t
      → Tasks.get id (after id f db) ≡ some (changed f db t)
  unfolding Tasks.get
  get-after id f db k found =
      let e = row-modify task_key (changed f db) id id db.tasks k in
      rw (e, (eq_iff id id).1 refl, found) refl

  pub update_row_found :
      (id : String) (f : TaskRecord → TaskRecord) (db : Db) {t : TaskRecord}
      → ((x : TaskRecord) → (f x).id ≡ x.id)
      → Tasks.get id db ≡ some t
      → Tasks.update_row id f db ≡ (ok (changed f db t), after id f db)
  unfolding Tasks.update_row Tasks.tx_immediate_get
  update_row_found id f db k found =
      let kept = get-after id f db k found in rw (found, kept, Tasks.update_row)

  abbrev pub to_status : String → TaskRecord → TaskRecord
  to_status status t = record t { status = status }

  pub update_status_found :
      (id status : String) (db : Db) {t : TaskRecord}
      → any (λ s. str_eq s status) task_states ≡ true
      → Tasks.get id db ≡ some t
      → Tasks.update_status id status db
        ≡ (ok (changed (to_status status) db t), after id (to_status status) db)
  unfolding Tasks.update_status
  update_status_found id status db known found =
      let p = update_row_found id (to_status status) db (λ _. refl) found in rw (known, p)
