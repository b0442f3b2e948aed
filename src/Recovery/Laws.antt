-- ===== src/Recovery/Laws.antt =====
-- What the convergence of lost runs guarantees.
use morpho_research_os.Prelude.{
  String, true, false, some, [], ◌∷◌, ◌≡◌, refl, ◌⊎◌, inl, inr, str_eq, Bool-cases,
}
use morpho_research_os.Errors.{ok, ◌>>=◌}
use morpho_research_os.Env.{Env}
use morpho_research_os.Repositories.Tables.{Db, RunRecord}
use morpho_research_os.Repositories.Transaction.{with_write_tx}
use morpho_research_os.Repositories.Runs
use morpho_research_os.Repositories.Runs.{
  contains, run_key, terminal_states, list_terminal_undelivered,
}
use morpho_research_os.Repositories.Runs.Laws.{after, deliver, get-after, set_delivery_status_found}
use morpho_research_os.Recovery.{already_converged, delivery_failed, converge_worker_lost_run}

module _ ⦃env : Env⦄ where
  open env use {Value}

  -- A run for which there is nothing left to do.
  converged :
      (run_id reason : String) (db : Db) {r : RunRecord}
      → Runs.get run_id db ≡ some r
      → contains ("running" ∷ "paused" ∷ []) r.status ≡ false
      → (str_eq r.status "needs_review" ≡ true) ⊎ (str_eq r.delivery_status "pending" ≡ false)
      → converge_worker_lost_run run_id reason db ≡ (ok already_converged, db)
  unfolding converge_worker_lost_run ◌>>=◌
  converged run_id reason db found idle (inl parked) = rw found (rw idle (rw parked refl))
  converged run_id reason db {r} found idle (inr told) =
      elim (Bool-cases (str_eq r.status "needs_review")) [
        | inl parked ↦ rw found (rw idle (rw parked refl))
        | inr finished ↦ rw found (rw idle (rw finished (rw told refl)))
      ]

  -- A finished run whose delivery is pending.
  converges :
      (run_id reason : String) (db : Db) {r : RunRecord}
      → Runs.get run_id db ≡ some r
      → contains ("running" ∷ "paused" ∷ []) r.status ≡ false
      → str_eq r.status "needs_review" ≡ false
      → str_eq r.delivery_status "pending" ≡ true
      → converge_worker_lost_run run_id reason db
        ≡ (ok delivery_failed, after run_id (deliver "failed") db)
  unfolding converge_worker_lost_run with_write_tx ◌>>=◌
  converges run_id reason db found idle finished waiting =
      let written = set_delivery_status_found run_id "failed" db refl found in
      rw found (rw idle (rw finished (rw waiting (rw written refl))))

  -- For a stored run that is neither running nor paused: whatever a first detection of its lost worker did, a
  -- second one answers that it is converged and leaves the database as the first left it.
  pub worker_lost-again :
      (run_id reason again : String) (db : Db) (run : RunRecord)
      → Runs.get run_id db ≡ some run
      → contains ("running" ∷ "paused" ∷ []) run.status ≡ false
      → converge_worker_lost_run run_id again (converge_worker_lost_run run_id reason db).1
        ≡ (ok already_converged, (converge_worker_lost_run run_id reason db).1)
  worker_lost-again run_id reason again db run found idle =
      elim (Bool-cases (str_eq run.status "needs_review")) [
        | inl parked ↦
            let same = converged run_id reason db found idle (inl parked) in
            rw same (converged run_id again db found idle (inl parked))
        | inr finished ↦ elim (Bool-cases (str_eq run.delivery_status "pending")) [
          | inr told ↦
              let same = converged run_id reason db found idle (inr told) in
              rw same (converged run_id again db found idle (inr told))
          | inl waiting ↦
              let first = converges run_id reason db found idle finished waiting in
              let kept = get-after run_id (deliver "failed") db (λ _ _. refl) found in
              rw first
                (converged run_id again (after run_id (deliver "failed") db) kept idle (inr refl))
        ]
      ]
