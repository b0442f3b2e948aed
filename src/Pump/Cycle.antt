-- ===== src/Pump/Cycle.antt =====
-- The whole cycle of the pump (state.rs): `pump_cycle` in its five phases.
use morpho_research_os.Prelude.{
  String, ◌&&◌, leb, Option, none, some, List, [], ◌∷◌, ◌++◌, str_eq, select, order_by,
  if◌then◌else◌, format,
}
use morpho_research_os.Errors.{Result, ok, err, Action, database, lift, gets, ok_or, ◌>>=◌}
use morpho_research_os.Env.{Env}
use morpho_research_os.Repositories.Tables.{Db}
use morpho_research_os.Repositories.Runs
use morpho_research_os.Repositories.Runs.{contains}
use morpho_research_os.Recovery.{
  ResearchEvent, WorkerLostOutcome, cancelled, converge_worker_lost_run, now_unix_ms,
}
use morpho_research_os.Worker.Outside.{Outside}
use morpho_research_os.Worker.Jobs.{
  tick_delivery_cooldowns, active_job_ids, projection_stalled, run_of_job,
  jobs_with_pending_results, note_delivery_failure, retire_job, pending_interruptions,
  confirm_interruption_converged,
}
use morpho_research_os.Worker.Start.{Sup}
use morpho_research_os.Worker.Calls.{poll_events, fetch_job_results, research_event}
use morpho_research_os.Pump.{
  Fetched, Ingestion, project_each, account, emit_each, persist_delivery_failure,
}

module _ ⦃env : Env⦄ ⦃out : Outside env⦄ where
  open env use {Value, object}
  open out use {from_str}

  -- The two states that the locks guard, and the events emitted so far in the cycle.
  pub record Core : Type 0 where
    pub sup : Sup
    pub db : Db
    pub emitted : List (ResearchEvent Value)

  -- What one job's poll adds to what the jobs after it fetched.
  abbrev pub fetch_step :
      String
      → Option String
      → Result (List (ResearchEvent Value))
      → List (Fetched Value) × Sup
      → List (Fetched Value) × Sup
  fetch_step id run (err _) rest = rest
  fetch_step id none (ok events) rest = rest
  fetch_step id (some run_id) (ok events) rest =
      (record { job_id = id; run_id = run_id; events = events } ∷ rest.0, rest.1)

  -- Phase A.
  unfoldable pub fetch_each : List String → Sup → List (Fetched Value) × Sup
  fetch_each [] s = ([], s)
  fetch_each (id ∷ ids) s =
      let polled = poll_events id s in
      let rest = fetch_each ids polled.1 in
      let skipped = fetch_each ids s in
      if projection_stalled id s
      then skipped
      else fetch_step id (run_of_job id polled.1) polled.0 rest

  unfoldable pub fetch : Sup → List (Fetched Value) × Sup
  fetch s = let ticked = tick_delivery_cooldowns s in fetch_each (active_job_ids ticked) ticked

  -- The phases A to C, and the emission of what is acknowledged.
  unfoldable pub consume : Core → Core
  consume c =
      let fetched = fetch c.sup in
      let projected = project_each fetched.0 c.db in
      let sup = account projected.0 fetched.1 in
      record { sup = sup; db = projected.1; emitted = c.emitted ++ emit_each fetched.0 sup }

  unfoldable pub terminal_run_event : String → Db → Option (ResearchEvent Value) × Db
  terminal_run_event run_id db =
      let rows =
        order_by (λ a b. leb b.sequence a.sequence)
          (select
            (λ e.
              str_eq e.run_id run_id
              && contains ("run.completed" ∷ "run.failed" ∷ "run.cancelled" ∷ []) e.event_type)
            db.events) in
      elim rows [
        | [] ↦ (none, db)
        | row ∷ _ ↦
            (let payload : Value = elim (from_str row.payload) [ none ↦ object [] | some v ↦ v ] in
              let read = now_unix_ms db in
              elim read.0 [
                | ok now ↦ (
                  some (research_event run_id none row.sequence now row.event_type payload),
                  read.1,
                )
                | err _ ↦ (none, read.1)
              ])
      ]

  -- A failed delivery is counted, and made durable when the budget is spent.
  unfoldable pub fail_delivery_of : String → String → Core → Core
  fail_delivery_of job_id run_id c =
      let noted = note_delivery_failure job_id c.sup in
      record c {
        sup = noted.1;
        db = if noted.0 then c.db else persist_delivery_failure run_id c.db;
      }

  abbrev emit :
      Option (ResearchEvent Value) → List (ResearchEvent Value) → List (ResearchEvent Value)
  emit none emitted = emitted
  emit (some event) emitted = emitted ++ event ∷ []

  module _ (ingestion : Ingestion env) where
    open ingestion use {Stats, ingest}

    unfoldable pub ingest_job_results : String → String → Value → Action Db Stats
    ingest_job_results job_id run_id results = do
      found ← gets (Runs.get run_id)
      run ← lift (
          ok_or found
            (database (format ("run '" ∷ run_id ∷ "' not found for result ingestion" ∷ []))))
      ingest run.project_id job_id run_id results

    -- The job is retired once its results are ingested, and the closing event is emitted again.
    abbrev pub deliver_ingested : String → String → Core → Result Stats × Db → Core
    deliver_ingested job_id run_id c (err _, db) =
        fail_delivery_of job_id run_id (record c { db = db })
    deliver_ingested job_id run_id c (ok _, db) =
        let closing = terminal_run_event run_id db in
        record { sup = retire_job job_id c.sup; db = closing.1; emitted = emit closing.0 c.emitted }

    abbrev pub deliver_fetched : String → String → Core → Result Value → Core
    deliver_fetched job_id run_id c (err _) = fail_delivery_of job_id run_id c
    deliver_fetched job_id run_id c (ok results) =
        deliver_ingested job_id run_id c (ingest_job_results job_id run_id results c.db)

    -- Phase D for one job.
    unfoldable pub deliver : String → String → Core → Core
    deliver job_id run_id c =
        let results = fetch_job_results job_id c.sup in
        deliver_fetched job_id run_id (record c { sup = results.1 }) results.0

    unfoldable pub deliver_each : List (String × String) → Core → Core
    deliver_each [] c = c
    deliver_each ((job_id, run_id) ∷ jobs) c = deliver_each jobs (deliver job_id run_id c)

  -- The jobs of phase D, each with its run.
  unfoldable pub delivery_jobs : List String → Sup → List (String × String)
  delivery_jobs [] s = []
  delivery_jobs (id ∷ ids) s =
      let rest = delivery_jobs ids s in
      elim (run_of_job id s) [ none ↦ rest | some run_id ↦ (id, run_id) ∷ rest ]

  abbrev pub converge_step : String → Core → Result (WorkerLostOutcome Value) × Db → Core
  converge_step job_id c (err _, db) = record c { db = db }
  converge_step job_id c (ok (cancelled event), db) = record {
    sup = confirm_interruption_converged job_id c.sup;
    db = db;
    emitted = c.emitted ++ event ∷ [];
  }
  converge_step job_id c (ok _, db) = record c {
    sup = confirm_interruption_converged job_id c.sup;
    db = db;
  }

  -- Phase E for one interrupted job.
  unfoldable pub converge : String → String → Core → Core
  converge job_id run_id c = converge_step job_id c (
      converge_worker_lost_run run_id
        "the worker process died mid-execution; the run cannot continue" c.db)

  unfoldable pub converge_each : List (String × String) → Core → Core
  converge_each [] c = c
  converge_each ((job_id, run_id) ∷ jobs) c = converge_each jobs (converge job_id run_id c)

  -- One cycle. The answer of the code is the number of the events emitted.
  unfoldable pub pump_cycle : Ingestion env → Core → Core
  pump_cycle ingestion c =
      let consumed = consume (record c { emitted = [] }) in
      let jobs = delivery_jobs (jobs_with_pending_results consumed.sup) consumed.sup in
      let delivered = deliver_each ingestion jobs consumed in
      converge_each (pending_interruptions delivered.sup) delivered
