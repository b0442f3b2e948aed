-- ===== src/Worker/Calls.antt =====
-- The calls that go to the worker (worker/mod.rs): each starts it first where it must.
use morpho_research_os.Prelude.{
  ℕ, String, true, false, ltb, Option, List, [], ◌∷◌, format, if◌then◌else◌, lookup, adjust, insert,
}
use morpho_research_os.Errors.{
  CoreError, Action, database, ok_or, pure, raise, gets, lift, ◌>>=◌, ◌>>◌,
}
use morpho_research_os.Env.{Env}
use morpho_research_os.Redaction.{redact_json}
use morpho_research_os.Recovery.{ResearchEvent}
use morpho_research_os.Worker.Outside.{Outside, JobRequest, JobAck, WorkerEvent}
use morpho_research_os.Worker.Jobs.{ActiveJob, acknowledged_cursor}
use morpho_research_os.Worker.Start.{Sup, worker_unavailable, outside, update, ensure_started}

abbrev pub no_transport : CoreError
no_transport = worker_unavailable "no transport attached" false

-- The job as it is tracked when it is submitted.
abbrev pub submitted : {Value : Type 0} → JobRequest Value → String → ActiveJob
submitted request id = record {
  job_id = id;
  run_id = request.run_id;
  task_id = request.task_id;
  cancelling = false;
  results_pending = false;
  delivery_attempts = 0;
  delivery_failed = false;
  delivery_cooldown = 0;
  projection_attempts = 0;
  projection_stalled = false;
}

module _ ⦃env : Env⦄ ⦃out : Outside env⦄ where
  open env use {Value}
  open out use {
    World, Transport, post_job, get_status, post_cancel, get_events, get_results, now_ms, tree,
    of_tree,
  }

  -- The worker, started if needed, and the transport to it.
  unfoldable pub attached : Action Sup Transport
  unfolding ensure_started
  attached = do
    ensure_started
    transport ← gets (λ s. s.transport)
    lift (ok_or transport no_transport)

  unfoldable pub submit_job : JobRequest Value → Action Sup JobAck
  unfolding attached outside update
  submit_job request = do
    transport ← attached
    ack ← outside (post_job transport request)
    if ack.accepted
        then (do
          update (λ s. record s {
            active_jobs = insert ack.job_id (submitted request ack.job_id) s.active_jobs;
          })
          pure ack)
        else raise (
            worker_unavailable (format ("job " ∷ request.job_id ∷ " not accepted by worker" ∷ []))
              true)

  unfoldable pub job_status : String → Action Sup Value
  unfolding attached outside
  job_status id = do transport ← attached; outside (get_status transport id)

  unfoldable pub cancel_job : String → Action Sup (Unit {0})
  unfolding attached outside update
  cancel_job id = do
    transport ← attached
    outside (post_cancel transport id)
    update (λ s. record s {
      active_jobs = adjust id (λ job. record job { cancelling = true }) s.active_jobs;
    })

  unfoldable pub fetch_job_results : String → Action Sup Value
  unfolding attached outside
  fetch_job_results id = do transport ← attached; outside (get_results transport id)

  -- `ResearchEvent::new`.
  unfoldable pub research_event :
      String → Option String → ℕ → ℕ → String → Value → ResearchEvent Value
  unfolding redact_json
  research_event run_id task_id sequence timestamp_ms event_type payload = record {
    run_id = run_id;
    task_id = task_id;
    sequence = sequence;
    timestamp_ms = timestamp_ms;
    event_type = event_type;
    payload = of_tree (redact_json (tree payload));
  }

  -- The loop of `poll_events`, which drops what is at or below the cursor.
  unfoldable pub forward : ActiveJob → ℕ → ℕ → List (WorkerEvent Value) → List (ResearchEvent Value)
  unfolding research_event
  forward job last now [] = []
  forward job last now (e ∷ events) =
      let rest = forward job last now events in
      if ltb last e.sequence
      then research_event job.run_id job.task_id e.sequence now e.event_type e.payload ∷ rest
      else rest

  abbrev pub not_active : String → CoreError
  not_active id = database (format ("job '" ∷ id ∷ "' is not active" ∷ []))

  unfoldable pub poll_events : String → Action Sup (List (ResearchEvent Value))
  unfolding ensure_started outside forward acknowledged_cursor
  poll_events id = do
    ensure_started
    found ← gets (λ s. lookup id s.active_jobs)
    job ← lift (ok_or found (not_active id))
    cursor ← gets (acknowledged_cursor id)
    attached_to ← gets (λ s. s.transport)
    transport ← lift (ok_or attached_to no_transport)
    raw_events ← outside (get_events transport id cursor)
    now ← gets (λ s. now_ms s.world)
    last ← gets (acknowledged_cursor id)
    pure (forward job last now raw_events)
