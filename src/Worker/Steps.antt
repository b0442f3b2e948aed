-- ===== src/Worker/Steps.antt =====
-- The histories of the supervisor: any of its operations in turn, each with any outcome.
use mathlib.Core.Path.{subst}
use morpho_research_os.Prelude.{
  ℕ, ◌≤◌, ◌<◌, ◌≡◌, ◌⊎◌, inl, inr, Bool, true, false, Bool-cases, arith, List, [], ◌∷◌, Option, not,
  adjust, none, some, String, if◌then◌else◌, lookup, Every, All, ltb, ltb→lt, lookup-insert, eq_iff,
}
use morpho_research_os.Errors.{ok, ok_or, bind_ok, lift_bind_ok, gets_bind_ok, pure_ok}
use morpho_research_os.Env.{Env}
use morpho_research_os.Recovery.{ResearchEvent}
use morpho_research_os.Worker.Outside.{Outside, JobRequest, WorkerEvent}
use morpho_research_os.Worker.Jobs.{
  ActiveJob, retire_job, mark_results_pending, tick_delivery_cooldowns, note_delivery_failure,
  note_projection_failure, note_projection_success, acknowledge_events, acknowledged_cursor,
  confirm_interruption_converged, fail_delivery, fail_projection,
}
use morpho_research_os.Worker.Jobs.Budget.{IsPaced, IsPaced-fail_delivery, IsPaced-fail_projection}
use morpho_research_os.Worker.Start.{Sup, outside, ensure_started, shutdown}
use morpho_research_os.Worker.Calls.{
  submit_job, job_status, cancel_job, fetch_job_results, poll_events, forward, not_active,
  no_transport,
}
use morpho_research_os.Worker.Advances.{
  Advances, Advances-preorder, Advances-adjust, Advances-remove, Advances-tick, Advances-converge,
  Advances-acknowledge, is_tracked,
}
use morpho_research_os.Worker.Advances.Calls.{
  ensure_started-Keeps, shutdown-Keeps, submit_job-Keeps, job_status-Keeps, cancel_job-Keeps,
  fetch_job_results-Keeps, poll_events-Keeps, Adv-outside,
}

module _ ⦃env : Env⦄ ⦃out : Outside env⦄ where
  open env use {Value}
  open out use {post_job, get_events, now_ms}

  -- One operation; only the jobs that are `gone` may be retired.
  pub data Step (gone : String → Type 0) (s : Sup) : Sup → Type 0 where
    ensuring : Step gone s (ensure_started s).1
    submitting : (r : JobRequest Value) → Step gone s (submit_job r s).1
    asking : (id : String) → Step gone s (job_status id s).1
    cancelling : (id : String) → Step gone s (cancel_job id s).1
    polling : (id : String) → Step gone s (poll_events id s).1
    fetching : (id : String) → Step gone s (fetch_job_results id s).1
    stopping : Step gone s (shutdown s).1
    retiring : (id : String) → gone id → Step gone s (retire_job id s)
    pending : (id : String) → Step gone s (mark_results_pending id s)
    ticking : Step gone s (tick_delivery_cooldowns s)
    undelivered : (id : String) → Step gone s (note_delivery_failure id s).1
    unprojected : (id : String) → Step gone s (note_projection_failure id s).1
    projected : (id : String) → Step gone s (note_projection_success id s)
    acknowledging : (id : String) (n : ℕ) → Step gone s (acknowledge_events id n s)
    converging : (id : String) → Step gone s (confirm_interruption_converged id s)

  pub data Steps (gone : String → Type 0) : Sup → Sup → Type 0 where
    done : {s : Sup} → Steps gone s s
    then_step : {s t u : Sup} → Step gone s t → Steps gone t u → Steps gone s u

  module _ (gone : String → Type 0) where
    undelivered-Advances : (id : String) (s : Sup) → Advances gone s (note_delivery_failure id s).1
    unfolding note_delivery_failure
    undelivered-Advances id s =
        let noted : Sup = record s { active_jobs = adjust id fail_delivery s.active_jobs } in
        let after : Option ActiveJob → Bool × Sup = λ o. elim o [
          | none ↦ (false, s)
          | some job ↦ (not (fail_delivery job).delivery_failed, noted)
        ] in
        let counted = Advances-adjust id fail_delivery s IsPaced-fail_delivery in
        elim (lookup id s.active_jobs) as (λ o. Advances gone s (after o).1) [
          | none ↦ Advances-preorder.R_refl s
          | some job ↦ counted
        ]

    unprojected-Advances :
        (id : String) (s : Sup) → Advances gone s (note_projection_failure id s).1
    unfolding note_projection_failure
    unprojected-Advances id s =
        let noted : Sup = record s { active_jobs = adjust id fail_projection s.active_jobs } in
        let after : Option ActiveJob → Bool × Sup = λ o. elim o [
          | none ↦ (false, s)
          | some job ↦ (not (fail_projection job).projection_stalled, noted)
        ] in
        let counted = Advances-adjust id fail_projection s IsPaced-fail_projection in
        elim (lookup id s.active_jobs) as (λ o. Advances gone s (after o).1) [
          | none ↦ Advances-preorder.R_refl s
          | some job ↦ counted
        ]

    pending-Advances : (id : String) (s : Sup) → Advances gone s (mark_results_pending id s)
    unfolding mark_results_pending
    pending-Advances id s =
        Advances-adjust id _ s
          (λ job h. record { trying = h.trying; paused = h.paused; projecting = h.projecting })

    projected-Advances : (id : String) (s : Sup) → Advances gone s (note_projection_success id s)
    unfolding note_projection_success
    projected-Advances id s =
        Advances-adjust id _ s
          (λ job h. record { trying = h.trying; paused = h.paused; projecting = λ _. omega arith })

    retiring-Advances : (id : String) (s : Sup) → gone id → Advances gone s (retire_job id s)
    unfolding retire_job
    retiring-Advances id s g = Advances-remove id s g

    Step-Advances : (s t : Sup) → Step gone s t → Advances gone s t
    Step-Advances s _ ensuring = (ensure_started-Keeps gone).at s
    Step-Advances s _ (submitting r) = (submit_job-Keeps gone r).at s
    Step-Advances s _ (asking id) = (job_status-Keeps gone id).at s
    Step-Advances s _ (cancelling id) = (cancel_job-Keeps gone id).at s
    Step-Advances s _ (polling id) = (poll_events-Keeps gone id).at s
    Step-Advances s _ (fetching id) = (fetch_job_results-Keeps gone id).at s
    Step-Advances s _ stopping = (shutdown-Keeps gone).at s
    Step-Advances s _ (retiring id g) = retiring-Advances id s g
    Step-Advances s _ (pending id) = pending-Advances id s
    Step-Advances s _ ticking = Advances-tick s
    Step-Advances s _ (undelivered id) = undelivered-Advances id s
    Step-Advances s _ (unprojected id) = unprojected-Advances id s
    Step-Advances s _ (projected id) = projected-Advances id s
    Step-Advances s _ (acknowledging id n) = Advances-acknowledge id n s
    Step-Advances s _ (converging id) = Advances-converge id s

    Steps-Advances : {s t : Sup} → Steps gone s t → Advances gone s t
    Steps-Advances {s} done = Advances-preorder.R_refl s
    Steps-Advances {s} (then_step {t = u} st rest) =
        Advances-preorder.R_trans s u _ (Step-Advances s u st) (Steps-Advances rest)

  -- A tracked job stays tracked whatever operations follow, unless it is retired.
  pub Steps-tracked :
      (gone : String → Type 0) (id : String) {s t : Sup}
      → Steps gone s t
      → is_tracked id s.active_jobs s.interrupted_jobs ≡ true
      → (is_tracked id t.active_jobs t.interrupted_jobs ≡ true) ⊎ gone id
  Steps-tracked gone id h k = (Steps-Advances gone h).tracked id k

  -- After any operations on a supervisor without jobs that has attempts to spare, every delivery that
  -- is not paused has attempts to spare, every paused one between one and eight cycles to wait, every
  -- job that is not parked has projection attempts to spare, and the restarts are within the policy.
  pub Steps-IsPaced :
      (gone : String → Type 0) {s t : Sup}
      → Steps gone s t
      → s.active_jobs ≡ []
      → s.restart_attempts ≤ s.policy.max_restarts
      → Every IsPaced t.active_jobs × (t.restart_attempts ≤ s.policy.max_restarts)
  Steps-IsPaced gone {s} {t} h e k =
      let kept = Steps-Advances gone h in
      let start : Every IsPaced s.active_jobs = rw e tt in
      (
        kept.paced start,
        subst (λ p. t.restart_attempts ≤ p.max_restarts) kept.policy_kept (kept.within k),
      )

  All-forward :
      (job : ActiveJob) (last now : ℕ) (events : List (WorkerEvent Value))
      → All (λ (e : ResearchEvent Value). last < e.sequence) (forward job last now events)
  unfolding forward
  All-forward job last now [] = tt
  All-forward job last now (e ∷ events) =
      let rest = All-forward job last now events in
      elim (Bool-cases (ltb last e.sequence)) [
        | inl lt ↦ rw lt (ltb→lt last e.sequence lt, rest)
        | inr lt ↦ rw lt rest
      ]

  cursor-acknowledge :
      (id : String) (n : ℕ) (s : Sup) → n ≤ acknowledged_cursor id (acknowledge_events id n s)
  unfolding acknowledge_events acknowledged_cursor
  cursor-acknowledge id n s = ground (
    arith,
    eq_iff id id,
    lookup-insert id id (if ltb (acknowledged_cursor id s) n then n else acknowledged_cursor id s)
        s.event_cursors,
  )

  All-weaken :
      (m n : ℕ) (events : List (ResearchEvent Value))
      → m ≤ n
      → All (λ e. n < e.sequence) events
      → All (λ e. m < e.sequence) events
  All-weaken m n [] h k = tt
  All-weaken m n (e ∷ events) h k = (omega (arith, k.0), All-weaken m n events h k.1)

  -- A poll that succeeds forwards what the worker sent after a cursor that is no less than the one
  -- before it.
  poll_ok :
      (id : String) (s : Sup) {events : List (ResearchEvent Value)}
      → (poll_events id s).0 ≡ ok events
      → (last : ℕ) × (acknowledged_cursor id s ≤ last) × All (λ e. last < e.sequence) events
  unfolding poll_events
  poll_ok id s h =
      let (_, _, h₁) = bind_ok ensure_started _ s h in
      let s₁ = (ensure_started s).1 in
      let h₂ = gets_bind_ok (λ t. lookup id t.active_jobs) _ s₁ h₁ in
      let (job, _, h₃) = lift_bind_ok (ok_or (lookup id s₁.active_jobs) (not_active id)) _ s₁ h₂ in
      let h₄ = gets_bind_ok (acknowledged_cursor id) _ s₁ h₃ in
      let h₅ = gets_bind_ok (λ t. t.transport) _ s₁ h₄ in
      let (transport, _, h₆) = lift_bind_ok (ok_or s₁.transport no_transport) _ s₁ h₅ in
      let sent = outside (get_events transport id (acknowledged_cursor id s₁)) in
      let (raw, _, h₇) = bind_ok sent _ s₁ h₆ in
      let s₂ = (sent s₁).1 in
      let h₈ = gets_bind_ok (λ t. now_ms t.world) _ s₂ h₇ in
      let h₉ = gets_bind_ok (acknowledged_cursor id) _ s₂ h₈ in
      let last = acknowledged_cursor id s₂ in
      let started = (ensure_started-Keeps (λ _. Unit {0})).at s in
      let polled =
        (Adv-outside (λ _. Unit {0}) (get_events transport id (acknowledged_cursor id s₁))).at s₁ in
      (
        last,
        omega (arith, started.cursors id, polled.cursors id),
        subst (All (λ e. last < e.sequence))
            (pure_ok (forward job last (now_ms s₂.world) raw) s₂ h₉)
            (All-forward job last (now_ms s₂.world) raw),
      )

  -- Once a number is acknowledged for a job, whatever operations follow, a poll of the job that
  -- succeeds forwards only events with greater numbers.
  pub poll_events-acknowledged :
      (gone : String → Type 0) (id : String) (n : ℕ) (s t : Sup)
      {events : List (ResearchEvent Value)}
      → Steps gone (acknowledge_events id n s) t
      → (poll_events id t).0 ≡ ok events
      → All (λ e. n < e.sequence) events
  poll_events-acknowledged gone id n s t {events} h k =
      let (last, le, after) = poll_ok id t k in
      let kept = (Steps-Advances gone h).cursors id in
      All-weaken n last events (omega (arith, le, kept, cursor-acknowledge id n s)) after
