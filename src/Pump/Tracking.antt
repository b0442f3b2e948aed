-- ===== src/Pump/Tracking.antt =====
-- What a cycle of the pump does to the supervisor: which jobs it retires.
use mathlib.Core.Path.{subst}
use morpho_research_os.Prelude.{
  ◌≡◌, refl, sym, ◌⊎◌, inl, inr, true, false, List, [], ◌∷◌, Option, none, some, String,
  if◌then◌else◌, ltb,
}
use morpho_research_os.Errors.{CoreError, Result, ok, err}
use morpho_research_os.Env.{Env}
use morpho_research_os.Repositories.Tables.{Db}
use morpho_research_os.Worker.Outside.{Outside}
use morpho_research_os.Recovery.{
  ResearchEvent, WorkerLostOutcome, cancelled, delivery_failed, already_converged,
  converge_worker_lost_run,
}
use morpho_research_os.Worker.Jobs.{
  active_job_ids, projection_stalled, run_of_job, tick_delivery_cooldowns, mark_results_pending,
  acknowledge_events, note_projection_success, note_projection_failure, jobs_with_pending_results,
  pending_interruptions,
}
use morpho_research_os.Worker.Start.{Sup}
use morpho_research_os.Worker.Calls.{poll_events, fetch_job_results}
use morpho_research_os.Worker.Advances.{is_tracked}
use morpho_research_os.Worker.Steps.{
  Step, Steps, done, then_step, fetching, retiring, polling, ticking, pending, undelivered,
  unprojected, projected, acknowledging, converging, Steps-tracked,
}
use morpho_research_os.Pump.{
  Fetched, Outcome, Ingestion, project_each, acknowledge_each, account_each, mark_jobs, mark_each,
  account,
}
use morpho_research_os.Pump.Cycle.{
  Core, fetch_step, deliver_fetched, deliver_ingested, converge_step, fetch_each, fetch, consume,
  fail_delivery_of, ingest_job_results, deliver, deliver_each, delivery_jobs, converge,
  converge_each, pump_cycle,
}

module _ ⦃env : Env⦄ ⦃out : Outside env⦄ where
  open env use {Value}

  one-Step : {gone : String → Type 0} {s t : Sup} → Step gone s t → Steps gone s t
  one-Step h = then_step h done

  Steps-trans :
      {gone : String → Type 0} {s t u : Sup} → Steps gone s t → Steps gone t u → Steps gone s u
  Steps-trans done k = k
  Steps-trans (then_step h rest) k = then_step h (Steps-trans rest k)

  sup_of_step :
      (id : String) (run : Option String) (r : Result (List (ResearchEvent Value)))
      (rest : List (Fetched Value) × Sup)
      → (fetch_step id run r rest).1 ≡ rest.1
  sup_of_step id run (err _) rest = refl
  sup_of_step id none (ok _) rest = refl
  sup_of_step id (some _) (ok _) rest = refl

  module _ {gone : String → Type 0} where
    fetch_each-Steps : (ids : List String) (s : Sup) → Steps gone s (fetch_each ids s).1
    unfolding fetch_each
    fetch_each-Steps [] s = done
    fetch_each-Steps (id ∷ ids) s =
        let polled = poll_events id s in
        let rest = fetch_each ids polled.1 in
        let added = fetch_step id (run_of_job id polled.1) polled.0 rest in
        let kept = sup_of_step id (run_of_job id polled.1) polled.0 rest in
        let fetched : Steps gone s added.1 =
          subst (Steps gone s) (sym kept)
            (then_step (polling id) (fetch_each-Steps ids polled.1)) in
        let skipped = fetch_each-Steps ids s in
        elim (projection_stalled id s)
          as (λ b. Steps gone s (if b then fetch_each ids s else added).1) [
            | true ↦ skipped
            | false ↦ fetched
          ]

    acknowledge_each-Steps : (os : List Outcome) (s : Sup) → Steps gone s (acknowledge_each os s)
    unfolding acknowledge_each
    acknowledge_each-Steps [] s = done
    acknowledge_each-Steps (o ∷ os) s =
        let marked = acknowledge_events o.job_id o.acknowledged s in
        let noted = note_projection_success o.job_id marked in
        let went : Steps gone s (acknowledge_each os noted) =
          then_step (acknowledging o.job_id o.acknowledged)
            (then_step (projected o.job_id) (acknowledge_each-Steps os noted)) in
        let stayed = acknowledge_each-Steps os s in
        elim (ltb 0 o.acknowledged)
          as (λ b. Steps gone s (acknowledge_each os (if b then noted else s))) [
            | true ↦ went
            | false ↦ stayed
          ]

    account_each-Steps : (os : List Outcome) (s : Sup) → Steps gone s (account_each os s)
    unfolding account_each
    account_each-Steps [] s = done
    account_each-Steps (o ∷ os) s =
        let next : Option CoreError → Sup =
          λ f. elim f [ none ↦ s | some e ↦ (note_projection_failure o.job_id s).1 ] in
        let stayed = account_each-Steps os s in
        let noted = account_each-Steps os (note_projection_failure o.job_id s).1 in
        elim o.failed as (λ f. Steps gone s (account_each os (next f))) [
          | none ↦ stayed
          | some e ↦ then_step (unprojected o.job_id) noted
        ]

    mark_jobs-Steps : (ids : List String) (s : Sup) → Steps gone s (mark_jobs ids s)
    mark_jobs-Steps [] s = done
    mark_jobs-Steps (id ∷ ids) s =
        then_step (pending id) (mark_jobs-Steps ids (mark_results_pending id s))

    mark_each-Steps : (os : List Outcome) (s : Sup) → Steps gone s (mark_each os s)
    unfolding mark_each
    mark_each-Steps [] s = done
    mark_each-Steps (o ∷ os) s =
        Steps-trans (mark_jobs-Steps o.terminal_jobs s)
          (mark_each-Steps os (mark_jobs o.terminal_jobs s))

    consume-Steps : (c : Core) → Steps gone c.sup (consume c).sup
    unfolding consume fetch account
    consume-Steps c =
        let ticked = tick_delivery_cooldowns c.sup in
        let fetched = fetch_each (active_job_ids ticked) ticked in
        let os = (project_each fetched.0 c.db).0 in
        then_step ticking (
          Steps-trans (fetch_each-Steps (active_job_ids ticked) ticked) (
            Steps-trans (acknowledge_each-Steps os fetched.1) (
              Steps-trans (account_each-Steps os (acknowledge_each os fetched.1))
                (mark_each-Steps os (account_each os (acknowledge_each os fetched.1))))))

    converge_step-Steps :
        (id : String) (c : Core) (r : Result (WorkerLostOutcome Value)) (db : Db)
        → Steps gone c.sup (converge_step id c (r, db)).sup
    converge_step-Steps id c (err _) db = done
    converge_step-Steps id c (ok (cancelled event)) db = one-Step (converging id)
    converge_step-Steps id c (ok delivery_failed) db = one-Step (converging id)
    converge_step-Steps id c (ok already_converged) db = one-Step (converging id)

    converge_each-Steps :
        (jobs : List (String × String)) (c : Core) → Steps gone c.sup (converge_each jobs c).sup
    unfolding converge_each converge
    converge_each-Steps [] c = done
    converge_each-Steps ((id, run) ∷ jobs) c =
        let outcome =
          converge_worker_lost_run run
            "the worker process died mid-execution; the run cannot continue" c.db in
        Steps-trans (converge_step-Steps id c outcome.0 outcome.1)
          (converge_each-Steps jobs (converge_step id c outcome))

    fail_delivery_of-Steps :
        (id run : String) (c : Core) → Steps gone c.sup (fail_delivery_of id run c).sup
    unfolding fail_delivery_of
    fail_delivery_of-Steps id run c = one-Step (undelivered id)

  -- The pump after it consumed the events of a cycle, and the deliveries that are due then.
  abbrev pub consumed : Core → Core
  consumed c = consume (record c { emitted = [] })

  abbrev pub due_deliveries : Core → List (String × String)
  due_deliveries c = delivery_jobs (jobs_with_pending_results c.sup) c.sup

  module _ (ingestion : Ingestion env) where
    open ingestion use {Stats}

    -- The results that were fetched for a job were ingested.
    abbrev pub IsIngested : String → String → Core → Type 0
    IsIngested id run c =
        (results : Value) × (stats : Stats) × ((fetch_job_results id c.sup).0 ≡ ok results)
        × ((ingest_job_results ingestion id run results c.db).0 ≡ ok stats)

    abbrev OnlyIngested : String → String → Core → String → Type 0
    OnlyIngested id run c j = (id ≡ j) × IsIngested id run c

    deliver_ingested-Steps :
        (id run : String) (c : Core) (r : Result Stats) (db : Db) {gone : String → Type 0}
        → ((stats : Stats) → r ≡ ok stats → gone id)
        → Steps gone c.sup (deliver_ingested ingestion id run c (r, db)).sup
    deliver_ingested-Steps id run c (err _) db h =
        fail_delivery_of-Steps id run (record c { db = db })
    deliver_ingested-Steps id run c (ok stats) db h = one-Step (retiring id (h stats refl))

    deliver_fetched-Steps :
        (id run : String) (c : Core) (r : Result Value) {gone : String → Type 0}
        → ((results : Value) (stats : Stats)
            → r ≡ ok results
            → (ingest_job_results ingestion id run results c.db).0 ≡ ok stats
            → gone id)
        → Steps gone c.sup (deliver_fetched ingestion id run c r).sup
    deliver_fetched-Steps id run c (err _) h = fail_delivery_of-Steps id run c
    deliver_fetched-Steps id run c (ok results) h =
        let ingested = ingest_job_results ingestion id run results c.db in
        deliver_ingested-Steps id run c ingested.0 ingested.1 (λ stats. h results stats refl)

    deliver-Steps :
        (id run : String) (c : Core)
        → Steps (OnlyIngested id run c) c.sup (deliver ingestion id run c).sup
    unfolding deliver
    deliver-Steps id run c =
        let results = fetch_job_results id c.sup in
        then_step (fetching id) (
          deliver_fetched-Steps id run (record c { sup = results.1 }) results.0
            (λ value stats e f. (refl, (value, stats, e, f))))

    -- Delivering the results of a job forgets no job: what was tracked before is tracked after it,
    -- unless it is this very job, its results were fetched and their ingestion succeeded.
    pub deliver-tracked :
        (id run : String) (c : Core) (j : String)
        → is_tracked j c.sup.active_jobs c.sup.interrupted_jobs ≡ true
        → (is_tracked j
              (deliver ingestion id run c).sup.active_jobs
              (deliver ingestion id run c).sup.interrupted_jobs
            ≡ true)
          ⊎ ((id ≡ j) × IsIngested id run c)
    deliver-tracked id run c j h =
        Steps-tracked (OnlyIngested id run c) j (deliver-Steps id run c) h

    -- Of these deliveries, made in turn, one was of this job, and when its turn came its results were
    -- fetched and ingested.
    abbrev pub WasIngested : List (String × String) → String → Core → Type 0
    WasIngested [] j c = ⊥
    WasIngested ((id, run) ∷ jobs) j c =
        ((id ≡ j) × IsIngested id run c) ⊎ WasIngested jobs j (deliver ingestion id run c)

    deliver_each-tracked :
        (jobs : List (String × String)) (c : Core) (j : String)
        → is_tracked j c.sup.active_jobs c.sup.interrupted_jobs ≡ true
        → (is_tracked j
              (deliver_each ingestion jobs c).sup.active_jobs
              (deliver_each ingestion jobs c).sup.interrupted_jobs
            ≡ true)
          ⊎ WasIngested jobs j c
    unfolding deliver_each
    deliver_each-tracked [] c j h = inl h
    deliver_each-tracked ((id, run) ∷ jobs) c j h = elim (deliver-tracked id run c j h) [
      | inr once ↦ inr (inl once)
      | inl kept ↦ elim (deliver_each-tracked jobs (deliver ingestion id run c) j kept) [
        | inl still ↦ inl still
        | inr then_once ↦ inr (inr then_once)
      ]
    ]

    -- A whole cycle of the pump forgets no job: what was tracked before it is tracked after it, unless
    -- it is one of the deliveries that were due once the events were consumed, and at its turn its
    -- results were fetched and their ingestion succeeded.
    pub pump_cycle-tracked :
        (c : Core) (j : String)
        → is_tracked j c.sup.active_jobs c.sup.interrupted_jobs ≡ true
        → (is_tracked j
              (pump_cycle ingestion c).sup.active_jobs
              (pump_cycle ingestion c).sup.interrupted_jobs
            ≡ true)
          ⊎ WasIngested (due_deliveries (consumed c)) j (consumed c)
    unfolding pump_cycle
    pump_cycle-tracked c j h =
        let jobs = due_deliveries (consumed c) in
        let delivered = deliver_each ingestion jobs (consumed c) in
        let kept = Steps-tracked (λ _. ⊥) j (consume-Steps (record c { emitted = [] })) h in
        let converging_kept =
          Steps-tracked (λ _. ⊥) j
            (converge_each-Steps (pending_interruptions delivered.sup) delivered) in
        elim kept [
          | inr never ↦ absurd never
          | inl before ↦ elim (deliver_each-tracked jobs (consumed c) j before) [
            | inr once ↦ inr once
            | inl after ↦ elim (converging_kept after) [
              | inr never ↦ absurd never
              | inl still ↦ inl still
            ]
          ]
        ]
