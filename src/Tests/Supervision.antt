-- ===== src/Tests/Supervision.antt =====
-- The theorems on the supervisor, the pump and redaction applied to a worker that always answers.
use Prim.Native.Nat.{min}
use morpho_research_os.Prelude.{
  ℕ, ◌+◌, ◌*◌, ◌^◌, ◌≤◌, ◌<◌, String, true, false, none, some, List, [], ◌∷◌, ◌≡◌, refl, ◌⊎◌, ◌↔◌,
  arith, All, Every,
}
use morpho_research_os.Errors.{ok, ◌>>=◌}
use morpho_research_os.Recovery.{ResearchEvent}
use morpho_research_os.Redaction.{Json, Fields, text, object, end, field, redact_json}
use morpho_research_os.Redaction.Laws.{IsClean, redact_json-IsClean}
use morpho_research_os.Worker.Backoff.{default_policy, delay_for_attempt}
use morpho_research_os.Worker.Backoff.Laws.{delay_for_attempt-bounds}
use morpho_research_os.Worker.Outside.{Outside}
use morpho_research_os.Worker.Jobs.{
  ActiveJob, stopped, ready, delivery_failed, delivery_attempts, acknowledge_events,
  acknowledged_cursor,
}
use morpho_research_os.Worker.Jobs.Budget.{IsPaced, cycles, delivery-rearms}
use morpho_research_os.Worker.Start.{Sup, start_loop, ensure_started, shutdown}
use morpho_research_os.Worker.Calls.{poll_events, submitted}
use morpho_research_os.Worker.Advances.{is_tracked}
use morpho_research_os.Worker.Tracked.{submit_job-tracked}
use morpho_research_os.Worker.Steps.{
  done, then_step, stopping, ensuring, Steps-IsPaced, poll_events-acknowledged,
}
use morpho_research_os.Worker.Start.{is_serving, bury}
use morpho_research_os.Worker.Outside.{JobRequest, JobAck}
use morpho_research_os.Worker.Calls.{submit_job}
use morpho_research_os.Worker.Outcome.{IsSettled, ensure_started-enough, ensure_started-IsSettled}
use morpho_research_os.Pump.{Fetched, Ingestion, project_each, account, emit_each}
use morpho_research_os.Pump.Batch.{IsAppended}
use morpho_research_os.Pump.Emission.{emit_each-IsAppended}
use morpho_research_os.Pump.Cycle.{Core, deliver, pump_cycle}
use morpho_research_os.Pump.Tracking.{
  IsIngested, WasIngested, consumed, due_deliveries, deliver-tracked, pump_cycle-tracked,
}
use morpho_research_os.Tests.Sample
use morpho_research_os.Tests.Sample.{example_env, project_db}

abbrev to_fields : Sample.Json → Fields
to_fields [] = end
to_fields ((key, value) ∷ rest) = field key (text value) (to_fields rest)

abbrev of_fields : Fields → Sample.Json
of_fields end = []
of_fields (field key (text value) rest) = (key, value) ∷ of_fields rest
of_fields (field key value rest) = (key, "") ∷ of_fields rest

abbrev of_tree : Json → Sample.Json
of_tree (object fields) = of_fields fields
of_tree _ = []

-- A worker that is always there; the world counts the milliseconds slept.
instance abbrev example_outside : Outside example_env
example_outside = record {
  World = ℕ;
  Transport = Unit {0};
  factory = λ w. (ok tt, w);
  spawn = λ _ _ w. (ok tt, w);
  health = λ _ w. (ok (record { status = "ok"; protocol_version = "1.0" }), w);
  version =
      λ _ w. (ok (record { worker_version = "1"; protocol_min = "1.0"; protocol_max = "1.2" }), w);
  post_job = λ _ r w. (ok (record { job_id = r.job_id; accepted = true }), w);
  get_status = λ _ _ w. (ok [], w);
  post_cancel = λ _ _ w. (ok tt, w);
  get_events = λ _ id cursor w. (
    ok (
        record { job_id = id; sequence = cursor + 1; event_type = "run.started"; payload = [] }
        ∷ []),
    w,
  );
  get_results = λ _ _ w. (ok [], w);
  stop = λ _ w. (ok tt, w);
  is_alive = λ _ _. true;
  sleep_ms = λ ms w. w + ms;
  now_ms = λ w. w;
  new_token = λ w. ("token", w);
  tree = λ v. object (to_fields v);
  of_tree = of_tree;
  from_str = λ _. none;
}

abbrev first : String
first = "job-1"

abbrev second : String
second = "job-2"

abbrev fresh : Sup
fresh = record {
  transport = none;
  policy = default_policy;
  state = stopped;
  restart_attempts = 0;
  active_jobs = [];
  interrupted_jobs = [];
  event_cursors = [];
  spawned_tokens = [];
  world = 0;
}

abbrev job : ActiveJob
job =
    submitted {Value = Sample.Json}
      (record {
        job_id = "job-1";
        run_id = "run-1";
        task_id = none;
        kind = "research_run";
        params = [];
        approve_plan = true;
        plan = none;
      })
      "job-1"

abbrev paused_job : ActiveJob
paused_job = record job { delivery_attempts = 8; delivery_failed = true; delivery_cooldown = 3 }

-- The supervisor with one job, its worker attached.
abbrev with_job : ActiveJob → Sup
with_job j = record fresh { transport = some tt; state = ready; active_jobs = ("job-1", j) ∷ [] }

delay_for_attempt-bounds_example :
    (delay_for_attempt default_policy 2 ≤ 8000)
    × (delay_for_attempt default_policy 2 ≤ delay_for_attempt default_policy 5)
    × (2 ≤ 16 → delay_for_attempt default_policy 2 ≡ min (250 * 2 ^ 2) 8000)
delay_for_attempt-bounds_example =
    delay_for_attempt-bounds default_policy 2 5 (omega arith) (omega arith)

redact_json-IsClean_example :
    IsClean (redact_json (object (field "X-Api-Key" (text "k") end)))
    × ((redact_json (object (field "X-Api-Key" (text "k") end))
          ≡ object (field "X-Api-Key" (text "k") end))
        ↔ IsClean (object (field "X-Api-Key" (text "k") end)))
redact_json-IsClean_example = redact_json-IsClean (object (field "X-Api-Key" (text "k") end))

delivery-rearms_example :
    ((n : ℕ) → n < 3 → delivery_failed "job-1" (cycles n (with_job paused_job)) ≡ true)
    × (delivery_failed "job-1" (cycles 3 (with_job paused_job)) ≡ false)
    × (delivery_attempts "job-1" (cycles 3 (with_job paused_job)) ≡ 0)
delivery-rearms_example =
    delivery-rearms "job-1" (with_job paused_job) paused_job refl refl (omega arith)

ensure_started-enough_example : ensure_started fresh ≡ start_loop 9 (bury fresh)
unfolding is_serving
ensure_started-enough_example = ensure_started-enough 9 fresh refl (omega arith)

ensure_started-IsSettled_example : IsSettled (ensure_started fresh)
ensure_started-IsSettled_example = ensure_started-IsSettled fresh

abbrev request : JobRequest Sample.Json
request = record {
  job_id = "job-1";
  run_id = "run-1";
  task_id = none;
  kind = "research_run";
  params = [];
  approve_plan = true;
  plan = none;
}

abbrev accepted : JobAck
accepted = record { job_id = "job-1"; accepted = true }

submit_job-tracked_example :
    (is_tracked "job-1"
        (shutdown (submit_job request fresh).1).1.active_jobs
        (shutdown (submit_job request fresh).1).1.interrupted_jobs
      ≡ true)
    ⊎ (first ≡ second)
unfolding submit_job ◌>>=◌
submit_job-tracked_example =
    submit_job-tracked (λ id. id ≡ second) request fresh {ack = accepted} refl
      (then_step stopping done)

Steps-IsPaced_example :
    Every IsPaced (shutdown (ensure_started fresh).1).1.active_jobs
    × ((shutdown (ensure_started fresh).1).1.restart_attempts ≤ 3)
Steps-IsPaced_example =
    Steps-IsPaced (λ _. Unit {0}) {s = fresh} (then_step ensuring (then_step stopping done)) refl
      (omega arith)

abbrev sent : ℕ → ResearchEvent Sample.Json
sent n = record {
  run_id = "run-1";
  task_id = none;
  sequence = n;
  timestamp_ms = 0;
  event_type = "run.started";
  payload = [];
}

poll_events-acknowledged_example :
    All (λ (e : ResearchEvent Sample.Json). 4 < e.sequence) (sent 5 ∷ [])
unfolding poll_events ◌>>=◌ acknowledge_events
poll_events-acknowledged_example =
    poll_events-acknowledged (λ _. Unit {0}) "job-1" 4 (with_job job)
      (acknowledge_events "job-1" 4 (with_job job)) done refl

abbrev fetched : List (Fetched Sample.Json)
fetched = record { job_id = "job-1"; run_id = "run-1"; events = sent 1 ∷ sent 2 ∷ [] } ∷ []

emit_each-IsAppended_example :
    IsAppended
      (project_db "RUNNING" "running")
      (project_each fetched (project_db "RUNNING" "running")).1
      (emit_each fetched
        (account (project_each fetched (project_db "RUNNING" "running")).0 (with_job job)))
unfolding acknowledged_cursor
emit_each-IsAppended_example =
    emit_each-IsAppended fetched (with_job job) (project_db "RUNNING" "running") (tt, tt)
      ((omega arith, (omega arith, tt)), tt) ((refl, tt), (tt, tt))

abbrev accepting : Ingestion example_env
accepting = record { Stats = Unit {0}; ingest = λ _ _ _ _ db. (ok tt, db) }

abbrev core : Core
core = record { sup = with_job job; db = project_db "RUNNING" "running"; emitted = [] }

deliver-tracked_example :
    (is_tracked "job-1"
        (deliver accepting "job-1" "run-1" core).sup.active_jobs
        (deliver accepting "job-1" "run-1" core).sup.interrupted_jobs
      ≡ true)
    ⊎ ((first ≡ first) × IsIngested accepting "job-1" "run-1" core)
deliver-tracked_example = deliver-tracked accepting "job-1" "run-1" core "job-1" refl

pump_cycle-tracked_example :
    (is_tracked "job-1"
        (pump_cycle accepting core).sup.active_jobs
        (pump_cycle accepting core).sup.interrupted_jobs
      ≡ true)
    ⊎ WasIngested accepting (due_deliveries (consumed core)) "job-1" (consumed core)
pump_cycle-tracked_example = pump_cycle-tracked accepting core "job-1" refl
