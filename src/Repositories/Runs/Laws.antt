-- ===== src/Repositories/Runs/Laws.antt =====
-- What a write of a run's status leaves in the table (repositories/runs.rs).
use morpho_research_os.Prelude.{ℕ, suc, String, true, none, some, ◌≡◌, refl, eq_iff, if◌then◌else◌}
use morpho_research_os.Errors.{ok, ◌>>=◌}
use morpho_research_os.Env.{Env}
use morpho_research_os.Repositories.Rows.{modify, row-modify}
use morpho_research_os.Repositories.Tables.{Db, RunRecord}
use morpho_research_os.Repositories.Runs
use morpho_research_os.Repositories.Runs.{
  run_key, contains, run_states, terminal_states, delivery_states,
}

module _ ⦃env : Env⦄ where
  -- The row that an update writes, and the tables after it.
  abbrev pub changed : (ℕ → RunRecord → RunRecord) → Db → RunRecord → RunRecord
  changed f db r = record (f (env.clock db.reads) r) { updated_at = env.clock db.reads }

  abbrev pub after : String → (ℕ → RunRecord → RunRecord) → Db → Db
  after id f db = record db {
    runs = modify run_key id (changed f db) db.runs;
    reads = suc db.reads;
  }

  pub get-after :
      (id : String) (f : ℕ → RunRecord → RunRecord) (db : Db) {r : RunRecord}
      → ((n : ℕ) (x : RunRecord) → (f n x).id ≡ x.id)
      → Runs.get id db ≡ some r
      → Runs.get id (after id f db) ≡ some (changed f db r)
  unfolding Runs.get
  get-after id f db k found =
      let e = row-modify run_key (changed f db) id id db.runs (k (env.clock db.reads)) in
      rw (e, (eq_iff id id).1 refl, found) refl

  pub update_row_found :
      (id : String) (f : ℕ → RunRecord → RunRecord) (db : Db) {r : RunRecord}
      → Runs.get id db ≡ some r
      → Runs.update_row id f db ≡ (ok tt, after id f db)
  unfolding Runs.update_row
  update_row_found id f db found = rw (found, Runs.update_row)

  abbrev pub stamp : String → ℕ → RunRecord → RunRecord
  stamp status now r = record r {
    status = status;
    finished_at = if contains terminal_states status then some now else none;
  }

  abbrev pub deliver : String → ℕ → RunRecord → RunRecord
  deliver delivery_status now r = record r { delivery_status = delivery_status }

  -- The row that `Runs::update_status` writes.
  abbrev pub written : String → Db → RunRecord → RunRecord
  written status = changed (stamp status)

  -- A write of a known status to a run that is there.
  pub update_status_found :
      (id status : String) (db : Db) {r : RunRecord}
      → contains run_states status ≡ true
      → Runs.get id db ≡ some r
      → Runs.update_status id status db ≡ (ok (written status db r), after id (stamp status) db)
  unfolding Runs.update_status Runs.tx_immediate_get ◌>>=◌
  update_status_found id status db known found =
      let p = update_row_found id (stamp status) db found in
      let q = get-after id (stamp status) db (λ _ _. refl) found in rw (known, p, q)

  pub set_delivery_status_found :
      (id status : String) (db : Db) {r : RunRecord}
      → contains delivery_states status ≡ true
      → Runs.get id db ≡ some r
      → Runs.set_delivery_status id status db ≡ (ok tt, after id (deliver status) db)
  unfolding Runs.set_delivery_status
  set_delivery_status_found id status db known found =
      let p = update_row_found id (deliver status) db found in rw (known, p)
