-- ===== src/Orchestrator/Moves/RunWrites.antt =====
-- The write of a run's status moves the tables as the orchestrator may.
use morpho_research_os.Prelude.{
  ℕ, suc, String, Bool, true, false, none, some, ◌≡◌, refl, inl, inr, Bool-cases, Option-cases,
  if◌then◌else◌,
}
use morpho_research_os.Env.{Env}
use morpho_research_os.Keeps.{Keeps, bind_at}
use morpho_research_os.Repositories.Rows.{Rows-refl, Rows-modify, modify}
use morpho_research_os.Repositories.Tables.{Db, RunRecord}
use morpho_research_os.Repositories.Runs
use morpho_research_os.Repositories.Runs.{run_key}
use morpho_research_os.Orchestrator.Moves.{
  TaskMoves-refl, RunMoves, RunMoves-refl, Moves, Moves-refl, Moves-preorder, is_some,
}

-- What `Runs::update_status` does to one row.
abbrev stamped : String → ℕ → RunRecord → RunRecord
stamped status now r = record r {
  status = status;
  finished_at = if Runs.contains Runs.terminal_states status then some now else none;
}

stamp-if : (b : Bool) (n : ℕ) → is_some (if b then some n else none) ≡ b
stamp-if true n = refl
stamp-if false n = refl

stamped-RunMoves :
    (status : String) (n : ℕ) (r : RunRecord)
    → RunMoves r (record (stamped status n r) { updated_at = n })
stamped-RunMoves status n r = record {
  id = refl;
  project_id = refl;
  plan_id = refl;
  worker_job_id = refl;
  delivery_status = refl;
  stamp = λ _. stamp-if (Runs.contains Runs.terminal_states status) n;
}

module _ ⦃env : Env⦄ where
  run_row-Moves :
      (id : String) (f : ℕ → RunRecord → RunRecord) (db : Db)
      → ((n : ℕ) (r : RunRecord) → RunMoves r (record (f n r) { updated_at = n }))
      → Moves db (Runs.update_row id f db).1
  unfolding Runs.update_row
  run_row-Moves id f db h = elim (Option-cases (Runs.get id db)) [
    | inl e ↦ rw (e, Runs.update_row) moves
    | inr (r, e) ↦ rw (e, Runs.update_row) moves
  ]
    where
      moves : Moves db (record db {
        runs =
            modify run_key id
              (λ r. record (f (env.clock db.reads) r) { updated_at = env.clock db.reads })
              db.runs;
        reads = suc db.reads;
      })
      moves = record {
        at_distinct = λ _. record {
          tasks = Rows-refl TaskMoves-refl db.tasks;
          runs = Rows-modify run_key _ id db.runs RunMoves-refl (λ r _. h (env.clock db.reads) r);
          dependencies = refl;
          events = refl;
        };
      }

  -- The write of a run's status stamps the end of the run, or clears the stamp.
  pub update_run_status-Keeps : (id status : String) → Keeps Moves (Runs.update_status id status)
  unfolding Runs.update_status
  update_run_status-Keeps id status = record {
    at = λ db. elim (Bool-cases (Runs.contains Runs.run_states status)) [
      | inl e ↦ rw e (
          bind_at Moves-preorder (Runs.update_row id (stamped status))
            (λ _. Runs.tx_immediate_get id) db
            (run_row-Moves id (stamped status) db (stamped-RunMoves status)) (λ _ _. Moves-refl _))
      | inr e ↦ rw e (Moves-refl db)
    ];
  }
