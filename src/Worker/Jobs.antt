-- ===== src/Worker/Jobs.antt =====
-- The supervisor's state and its bookkeeping of jobs (worker/mod.rs). The counters are `u32` and
-- `u64`; each counts attempts one by one and is taken not to overflow.
pub mod Budget
use morpho_research_os.Prelude.{
  ℕ, suc, ◌-◌, String, Bool, true, false, not, ◌&&◌, ◌==◌, ltb, leb, Option, none, some, List, [],
  ◌∷◌, ◌++◌, map, any, select, str_eq, if◌then◌else◌, lookup, adjust, remove, insert, keys, values,
}
use morpho_research_os.Worker.Backoff.{RestartPolicy}

pub data SupervisorState : Type 0 where
  stopped ready exhausted : SupervisorState

pub record ActiveJob : Type 0 where
  pub job_id : String
  pub run_id : String
  pub task_id : Option String
  pub cancelling : Bool
  pub results_pending : Bool
  pub delivery_attempts : ℕ
  pub delivery_failed : Bool
  pub delivery_cooldown : ℕ
  pub projection_attempts : ℕ
  pub projection_stalled : Bool

abbrev pub max_delivery_attempts : ℕ
max_delivery_attempts = 8

abbrev pub max_projection_attempts : ℕ
max_projection_attempts = 6

abbrev pub delivery_rearm_cycles : ℕ
delivery_rearm_cycles = 8

pub record InterruptedJob : Type 0 where
  pub job_id : String
  pub run_id : String
  pub converged : Bool

-- `world` is the state of the factory, the clock, the sleeper and the processes.
pub record Supervisor (World Transport : Type 0) : Type 0 where
  pub transport : Option Transport
  pub policy : RestartPolicy
  pub state : SupervisorState
  pub restart_attempts : ℕ
  pub active_jobs : List (String × ActiveJob)
  pub interrupted_jobs : List InterruptedJob
  pub event_cursors : List (String × ℕ)
  pub spawned_tokens : List String
  pub world : World

-- The failed attempts of a job.
abbrev pub fail_delivery : ActiveJob → ActiveJob
fail_delivery job =
    let attempts = suc job.delivery_attempts in
    if leb max_delivery_attempts attempts
    then record job {
      delivery_attempts = attempts;
      delivery_failed = true;
      delivery_cooldown = delivery_rearm_cycles;
    }
    else record job { delivery_attempts = attempts }

abbrev pub fail_projection : ActiveJob → ActiveJob
fail_projection job =
    let attempts = suc job.projection_attempts in
    if leb max_projection_attempts attempts
    then record job { projection_attempts = attempts; projection_stalled = true }
    else record job { projection_attempts = attempts }

-- The body of the loop of `tick_delivery_cooldowns`.
abbrev pub tick : ActiveJob → ActiveJob
tick job =
    let left = job.delivery_cooldown - 1 in
    if job.delivery_failed && ltb 0 job.delivery_cooldown
    then (if left == 0
        then record job { delivery_cooldown = left; delivery_failed = false; delivery_attempts = 0 }
        else record job { delivery_cooldown = left })
    else job

-- `iter_mut().find(..)` of `confirm_interruption_converged`.
abbrev pub converge_first : String → List InterruptedJob → List InterruptedJob
converge_first id [] = []
converge_first id (job ∷ jobs) =
    let rest = converge_first id jobs in
    if str_eq job.job_id id then record job { converged = true } ∷ jobs else job ∷ rest

-- The loop of `mark_jobs_interrupted`.
abbrev pub record_interrupted :
    List (String × ActiveJob) → List InterruptedJob → List InterruptedJob
record_interrupted [] done = done
record_interrupted ((id, job) ∷ jobs) done =
    let lost : InterruptedJob = record { job_id = id; run_id = job.run_id; converged = false } in
    let known = record_interrupted jobs done in
    let grown = record_interrupted jobs (done ++ lost ∷ []) in
    if any (λ other. str_eq other.job_id id) done then known else grown

module _ {World Transport : Type 0} where
  unfoldable pub interrupted_jobs : Supervisor World Transport → List String
  interrupted_jobs s = map (λ job. job.job_id) s.interrupted_jobs

  unfoldable pub pending_interruptions : Supervisor World Transport → List (String × String)
  pending_interruptions s =
      map (λ job. (job.job_id, job.run_id)) (select (λ job. not job.converged) s.interrupted_jobs)

  unfoldable pub confirm_interruption_converged :
      String → Supervisor World Transport → Supervisor World Transport
  confirm_interruption_converged id s = record s {
    interrupted_jobs = converge_first id s.interrupted_jobs;
  }

  unfoldable pub active_job_ids : Supervisor World Transport → List String
  active_job_ids s = keys s.active_jobs

  unfoldable pub retire_job : String → Supervisor World Transport → Supervisor World Transport
  retire_job id s = record s { active_jobs = remove id s.active_jobs }

  unfoldable pub mark_results_pending :
      String → Supervisor World Transport → Supervisor World Transport
  mark_results_pending id s = record s {
    active_jobs = adjust id (λ job. record job { results_pending = true }) s.active_jobs;
  }

  unfoldable pub tick_delivery_cooldowns : Supervisor World Transport → Supervisor World Transport
  tick_delivery_cooldowns s = record s { active_jobs = map (λ e. (e.0, tick e.1)) s.active_jobs }

  unfoldable pub jobs_with_pending_results : Supervisor World Transport → List String
  jobs_with_pending_results s =
      map (λ job. job.job_id)
        (select (λ job. job.results_pending && not job.delivery_failed) (values s.active_jobs))

  -- The answer, and the state after it.
  unfoldable pub note_delivery_failure :
      String → Supervisor World Transport → Bool × Supervisor World Transport
  note_delivery_failure id s = elim (lookup id s.active_jobs) [
    | none ↦ (false, s)
    | some job ↦ (
      not (fail_delivery job).delivery_failed,
      record s { active_jobs = adjust id fail_delivery s.active_jobs },
    )
  ]

  unfoldable pub delivery_attempts : String → Supervisor World Transport → ℕ
  delivery_attempts id s = elim (lookup id s.active_jobs) [
    | none ↦ 0
    | some job ↦ job.delivery_attempts
  ]

  unfoldable pub delivery_failed : String → Supervisor World Transport → Bool
  delivery_failed id s = elim (lookup id s.active_jobs) [
    | none ↦ false
    | some job ↦ job.delivery_failed
  ]

  unfoldable pub note_projection_failure :
      String → Supervisor World Transport → Bool × Supervisor World Transport
  note_projection_failure id s = elim (lookup id s.active_jobs) [
    | none ↦ (false, s)
    | some job ↦ (
      not (fail_projection job).projection_stalled,
      record s { active_jobs = adjust id fail_projection s.active_jobs },
    )
  ]

  unfoldable pub projection_stalled : String → Supervisor World Transport → Bool
  projection_stalled id s = elim (lookup id s.active_jobs) [
    | none ↦ false
    | some job ↦ job.projection_stalled
  ]

  unfoldable pub note_projection_success :
      String → Supervisor World Transport → Supervisor World Transport
  note_projection_success id s = record s {
    active_jobs = adjust id (λ job. record job { projection_attempts = 0 }) s.active_jobs;
  }

  unfoldable pub run_of_job : String → Supervisor World Transport → Option String
  run_of_job id s = elim (lookup id s.active_jobs) [ none ↦ none | some job ↦ some job.run_id ]

  unfoldable pub is_cancelling : String → Supervisor World Transport → Bool
  is_cancelling id s = elim (lookup id s.active_jobs) [ none ↦ false | some job ↦ job.cancelling ]

  unfoldable pub acknowledged_cursor : String → Supervisor World Transport → ℕ
  acknowledged_cursor id s = elim (lookup id s.event_cursors) [ none ↦ 0 | some n ↦ n ]

  unfoldable pub acknowledge_events :
      String → ℕ → Supervisor World Transport → Supervisor World Transport
  unfolding acknowledged_cursor
  acknowledge_events id through s =
      let last = acknowledged_cursor id s in
      record s {
        event_cursors = insert id (if ltb last through then through else last) s.event_cursors;
      }

  unfoldable pub mark_jobs_interrupted : Supervisor World Transport → Supervisor World Transport
  mark_jobs_interrupted s = record s {
    active_jobs = [];
    interrupted_jobs = record_interrupted s.active_jobs s.interrupted_jobs;
  }
