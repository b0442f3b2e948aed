-- ===== src/Pump.antt =====
-- The event pump (apps/desktop/src-tauri/src/state.rs): one cycle of it, in its phases. Each phase
-- holds one lock at a time; the cycle is modelled without other threads between its phases, and no
-- lock is poisoned.
pub mod Cycle
pub mod Batch
pub mod Emission
pub mod Tracking
use Prim.Native.Nat.{max}
use morpho_research_os.Prelude.{
  ℕ, ◌+◌, String, Bool, true, false, ◌&&◌, not, leb, ltb, Option, none, some, List, [], ◌∷◌, ◌++◌,
  str_eq, format, select, order_by, map, if◌then◌else◌, length,
}
use morpho_research_os.Errors.{
  CoreError, Result, ok, err, Action, database, pure, lift, ◌>>=◌, ◌>>◌,
}
use morpho_research_os.Env.{Env}
use morpho_research_os.Repositories.Tables.{Db, NewEvent, EventRecord}
use morpho_research_os.Repositories.Transaction.{with_write_tx}
use morpho_research_os.Repositories.Events
use morpho_research_os.Repositories.Runs
use morpho_research_os.Repositories.Runs.{contains}
use morpho_research_os.Orchestrator.Apply.{apply_in_tx, payload_text}
use morpho_research_os.Recovery.{
  ResearchEvent, canonical, WorkerLostOutcome, cancelled, delivery_failed, already_converged,
  converge_worker_lost_run, now_unix_ms,
}
use morpho_research_os.Worker.Outside.{Outside}
use morpho_research_os.Worker.Jobs.{
  Supervisor, tick_delivery_cooldowns, active_job_ids, projection_stalled, run_of_job,
  acknowledge_events, acknowledged_cursor, note_projection_success, note_projection_failure,
  mark_results_pending, jobs_with_pending_results, note_delivery_failure, retire_job,
  pending_interruptions, confirm_interruption_converged,
}
use morpho_research_os.Worker.Start.{Sup}
use morpho_research_os.Worker.Calls.{poll_events, fetch_job_results, research_event}

abbrev pub is_terminal_job_event : String → Bool
is_terminal_job_event event_type =
    contains ("job.completed" ∷ "job.needs_review" ∷ "job.failed" ∷ "job.cancelled" ∷ []) event_type

-- One job's part of `fetched`.
pub record Fetched (Value : Type 0) : Type 0 where
  pub job_id : String
  pub run_id : String
  pub events : List (ResearchEvent Value)

-- What phase B found for one job: its entries of `acknowledgements`, of `projection_failures` and of
-- `terminal_jobs`.
pub record Outcome : Type 0 where
  pub job_id : String
  pub acknowledged : ℕ
  pub failed : Option CoreError
  pub terminal_jobs : List String

abbrev pub nothing_more : String → ℕ → Option CoreError → Outcome
nothing_more job_id acknowledged failed = record {
  job_id = job_id;
  acknowledged = acknowledged;
  failed = failed;
  terminal_jobs = [];
}

-- The ingestion of a job's results (`ResultIngestion::ingest` of ingestion.rs), as the pump calls it:
-- the project, the job and the run it is bound to, and the results.
pub record Ingestion (env : Env) : Type 1 where
  pub Stats : Type 0
  pub ingest : String → String → String → env.Value → Action Db Stats

module _ ⦃env : Env⦄ where
  open env use {Value}

  unfoldable pub persist_and_project : ResearchEvent Value → Action Db (Unit {0})
  unfolding payload_text apply_in_tx
  persist_and_project event = do
    payload ← lift (payload_text event.payload)
    let new : NewEvent = record {
      run_id = event.run_id;
      task_id = event.task_id;
      event_type = event.event_type;
      payload = payload;
    }
    Events.append new
    apply_in_tx (canonical event)
    pure tt

  -- The loop over one job's events, which stops at the first that fails. `rest` is what the events
  -- after this one come to.
  abbrev pub batch_step :
      String → ℕ → ResearchEvent Value → Outcome × Db → Result (Unit {0}) × Db → Outcome × Db
  batch_step job_id acknowledged event rest (ok _, db) = (
    record rest.0 {
      terminal_jobs =
          if is_terminal_job_event event.event_type
          then job_id ∷ rest.0.terminal_jobs
          else rest.0.terminal_jobs;
    },
    rest.1,
  )
  batch_step job_id acknowledged event rest (err e, db) =
      (nothing_more job_id acknowledged (some e), db)

  unfoldable pub project_batch : String → ℕ → List (ResearchEvent Value) → Db → Outcome × Db
  project_batch job_id acknowledged [] db = (nothing_more job_id acknowledged none, db)
  project_batch job_id acknowledged (event ∷ events) db =
      let done = with_write_tx (persist_and_project event) db in
      let rest = project_batch job_id (max acknowledged event.sequence) events done.1 in
      batch_step job_id acknowledged event rest done

  -- Phase B.
  unfoldable pub project_each : List (Fetched Value) → Db → List Outcome × Db
  project_each [] db = ([], db)
  project_each (job ∷ jobs) db =
      let done = project_batch job.job_id 0 job.events db in
      let rest = project_each jobs done.1 in (done.0 ∷ rest.0, rest.1)

  unfoldable pub persist_delivery_failure : String → Db → Db
  persist_delivery_failure run_id db =
      (with_write_tx (Runs.set_delivery_status run_id "failed") db).1

-- Phase C, its three loops.
module _ {World Transport : Type 0} where
  unfoldable pub acknowledge_each :
      List Outcome → Supervisor World Transport → Supervisor World Transport
  unfolding acknowledge_events note_projection_success
  acknowledge_each [] s = s
  acknowledge_each (o ∷ os) s = acknowledge_each os (
      if ltb 0 o.acknowledged
      then note_projection_success o.job_id (acknowledge_events o.job_id o.acknowledged s)
      else s)

  unfoldable pub account_each :
      List Outcome → Supervisor World Transport → Supervisor World Transport
  unfolding note_projection_failure
  account_each [] s = s
  account_each (o ∷ os) s =
      account_each os (elim o.failed [ none ↦ s | some e ↦ (note_projection_failure o.job_id s).1 ])

  abbrev pub mark_jobs : List String → Supervisor World Transport → Supervisor World Transport
  mark_jobs [] s = s
  mark_jobs (id ∷ ids) s = mark_jobs ids (mark_results_pending id s)

  unfoldable pub mark_each : List Outcome → Supervisor World Transport → Supervisor World Transport
  unfolding mark_results_pending
  mark_each [] s = s
  mark_each (o ∷ os) s = mark_each os (mark_jobs o.terminal_jobs s)

  unfoldable pub account : List Outcome → Supervisor World Transport → Supervisor World Transport
  unfolding acknowledge_each account_each mark_each
  account os s = mark_each os (account_each os (acknowledge_each os s))

  -- The events of one job that are emitted: those at or below the cursor.
  unfoldable pub emitted_of :
      {Value : Type 0} → Fetched Value → Supervisor World Transport → List (ResearchEvent Value)
  unfolding acknowledged_cursor
  emitted_of job s = select (λ e. leb e.sequence (acknowledged_cursor job.job_id s)) job.events

  unfoldable pub emit_each :
      {Value : Type 0}
      → List (Fetched Value)
      → Supervisor World Transport
      → List (ResearchEvent Value)
  unfolding emitted_of
  emit_each [] s = []
  emit_each (job ∷ jobs) s = emitted_of job s ++ emit_each jobs s
