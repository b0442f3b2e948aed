-- ===== src/Recovery.antt =====
-- Startup recovery and the convergence of runs whose worker is gone (recovery.rs).
pub mod Laws
use morpho_research_os.Prelude.{
  ℕ, suc, String, Bool, true, false, ◌||◌, ◌&&◌, ◌==◌, Option, none, some, List, [], ◌∷◌, ◌++◌, inl,
  inr, str_eq, str_leb, ltb, format, select, order_by, is_empty, if◌then◌else◌,
}
use morpho_research_os.Errors.{Result, ok, err, Action, database, pure, gets, lift, ◌>>=◌, ◌>>◌}
use morpho_research_os.Env.{Env}
use morpho_research_os.Repositories.Tables.{Db, NewEvent, RunRecord}
use morpho_research_os.Repositories.Transaction.{with_write_tx}
use morpho_research_os.Repositories.Events
use morpho_research_os.Repositories.Runs
use morpho_research_os.Repositories.Runs.{contains, run_leb, list_terminal_undelivered}
use morpho_research_os.Orchestrator.Event.{CanonicalEvent}
use morpho_research_os.Orchestrator.Apply.{apply_in_tx}

-- `ResearchEvent` (ipc.rs) without its constant schema name. `ResearchEvent::new` redacts the
-- payload; the payloads made here are flat objects with the keys `reason`, `worker_job_id`,
-- `results_undelivered` and `execution_status`, none of them sensitive, which it leaves as they are.
pub record ResearchEvent (Value : Type 0) : Type 0 where
  pub run_id : String
  pub task_id : Option String
  pub sequence : ℕ
  pub timestamp_ms : ℕ
  pub event_type : String
  pub payload : Value

-- `CanonicalEvent::from`.
abbrev pub canonical : {Value : Type 0} → ResearchEvent Value → CanonicalEvent Value
canonical event = record {
  run_id = event.run_id;
  task_id = event.task_id;
  event_type = event.event_type;
  payload = event.payload;
}

pub record RecoveryReport : Type 0 where
  pub interrupted_runs_cancelled : List String
  pub parked_review_runs : List String
  pub delivery_converged_runs : List String

-- `RecoveryReport::is_empty`.
unfoldable pub report_is_empty : RecoveryReport → Bool
report_is_empty r = is_empty r.interrupted_runs_cancelled && is_empty r.parked_review_runs

pub data WorkerLostOutcome (Value : Type 0) : Type 0 where
  cancelled : ResearchEvent Value → WorkerLostOutcome Value
  delivery_failed already_converged : WorkerLostOutcome Value

abbrev pub in_flight : RunRecord → Bool
in_flight run = contains ("running" ∷ "paused" ∷ "needs_review" ∷ []) run.status

-- The query of `converge_interrupted_runs`.
unfoldable pub list_in_flight : Db → List RunRecord
list_in_flight db = order_by run_leb (select in_flight db.runs)

module _ ⦃env : Env⦄ where
  open env use {Value, clock, null, text, flag, object, to_string}

  unfoldable pub now_unix_ms : Action Db ℕ
  now_unix_ms db = (ok (clock db.reads), record db { reads = suc db.reads })

  -- The payload's text, where `what` names it in the error.
  unfoldable pub payload_text : String → Value → Result String
  payload_text what payload = elim (to_string payload) [
    | inl e ↦ err (database (format ("serialize " ∷ what ∷ " failed: " ∷ e ∷ [])))
    | inr s ↦ ok s
  ]

  abbrev pub job_value : Option String → Value
  job_value none = null
  job_value (some job) = text job

  -- `worker_job_id` of the run, if it can be read.
  unfoldable pub job_of : String → Db → Option String
  job_of run_id db = elim (Runs.get run_id db) [ none ↦ none | some run ↦ run.worker_job_id ]

  -- The transaction that both kinds of convergence run: the log row, its projection, and the failed
  -- delivery. It returns the number of the log row.
  unfoldable pub converge_tx : String → ResearchEvent Value → Action Db ℕ
  unfolding payload_text
  converge_tx what event = with_write_tx (do
    payload ← lift (payload_text what event.payload)
    logged ← Events.append (record {
      run_id = event.run_id;
      task_id = event.task_id;
      event_type = event.event_type;
      payload = payload;
    })
    apply_in_tx (canonical event)
    Runs.set_delivery_status event.run_id "failed"
    pure logged.sequence)

  unfoldable pub converge_cancelled_run : String → String → Action Db (ResearchEvent Value)
  unfolding converge_tx now_unix_ms job_of
  converge_cancelled_run run_id reason = do
    worker_job_id ← gets (job_of run_id)
    now ← now_unix_ms
    let event : ResearchEvent Value = record {
      run_id = run_id;
      task_id = none;
      sequence = 0;
      timestamp_ms = now;
      event_type = "run.cancelled";
      payload = object (
          ("reason", text reason)
          ∷ ("worker_job_id", job_value worker_job_id)
          ∷ ("results_undelivered", flag true)
          ∷ []);
    }
    sequence ← converge_tx "recovery payload" event
    pure (record event { sequence = sequence })

  unfoldable pub converge_worker_lost_run : String → String → Action Db (WorkerLostOutcome Value)
  unfolding converge_cancelled_run
  converge_worker_lost_run run_id reason = do
    found ← gets (Runs.get run_id)
    elim found [
      | none ↦ pure already_converged
      | some run ↦
          if contains ("running" ∷ "paused" ∷ []) run.status
          then (do event ← converge_cancelled_run run_id reason; pure (cancelled event))
          else if str_eq run.status "needs_review"
          then pure already_converged
          else if str_eq run.delivery_status "pending"
          then (do with_write_tx (Runs.set_delivery_status run_id "failed"); pure delivery_failed)
          else pure already_converged
    ]

  -- The note that a run's results were lost.
  unfoldable pub delivery_note : RunRecord → ℕ → ResearchEvent Value
  delivery_note run now = record {
    run_id = run.id;
    task_id = none;
    sequence = 0;
    timestamp_ms = now;
    event_type = "run.result_delivery_failed";
    payload = object (
        (
          "reason",
          text
              "core restarted before the run's results were delivered; the worker process died with them",
        )
        ∷ ("worker_job_id", job_value run.worker_job_id)
        ∷ ("execution_status", text run.status)
        ∷ []);
  }

  -- The loop of `converge_undelivered_runs`.
  unfoldable pub converge_each : List String → List RunRecord → Action Db (List String)
  unfolding converge_tx now_unix_ms delivery_note
  converge_each already_cancelled [] = pure []
  converge_each already_cancelled (run ∷ runs) =
      let rest = converge_each already_cancelled runs in
      if contains already_cancelled run.id then rest else do
        now ← now_unix_ms
        converge_tx "delivery-note payload" (delivery_note run now)
        converged ← rest
        pure (run.id ∷ converged)

  unfoldable pub converge_undelivered_runs : List String → Action Db (List String)
  unfolding converge_each list_terminal_undelivered
  converge_undelivered_runs already_cancelled = do
    runs ← gets list_terminal_undelivered
    converge_each already_cancelled runs

  -- The loop of `converge_interrupted_runs`: the runs it cancelled and those it parked.
  unfoldable pub cancel_each : List RunRecord → Action Db (List String × List String)
  unfolding converge_cancelled_run
  cancel_each [] = pure ([], [])
  cancel_each (run ∷ runs) =
      let rest = cancel_each runs in
      if str_eq run.status "needs_review"
      then (do (done, parked) ← rest; pure (done, run.id ∷ parked))
      else do
        converge_cancelled_run run.id
            "core restarted while the run was in flight; the worker process died with it"
        (done, parked) ← rest
        pure (run.id ∷ done, parked)

  unfoldable pub converge_interrupted_runs : Action Db RecoveryReport
  unfolding cancel_each converge_undelivered_runs list_in_flight
  converge_interrupted_runs = do
    rows ← gets list_in_flight
    (done, parked) ← cancel_each rows
    delivery ← converge_undelivered_runs done
    pure (record {
      interrupted_runs_cancelled = done;
      parked_review_runs = parked;
      delivery_converged_runs = delivery;
    })
