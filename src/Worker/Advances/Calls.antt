-- ===== src/Worker/Advances/Calls.antt =====
-- What starting the worker and the calls to it keep.
use morpho_research_os.Prelude.{
  ℕ, zero, suc, ◌-◌, ◌≤◌, refl, inl, inr, true, false, Bool-cases, arith, Option, none, some,
  String, if◌then◌else◌, leb, adjust, insert,
}
use morpho_research_os.Errors.{Result, ok, err, Action, ◌>>=◌}
use morpho_research_os.Env.{Env}
use morpho_research_os.Keeps.{
  Keeps, Keeps-pure, Keeps-raise, Keeps-gets, Keeps-lift, Keeps-bind, Keeps-if,
}
use morpho_research_os.Worker.Outside.{Outside, JobRequest}
use morpho_research_os.Worker.Jobs.{
  ActiveJob, mark_jobs_interrupted, SupervisorState, stopped, ready, exhausted,
}
use morpho_research_os.Worker.Jobs.Budget.{IsPaced}
use morpho_research_os.Worker.Quiet.{Quiet, Quiet-outside, attempt-Quiet}
use morpho_research_os.Worker.Start.{
  Sup, outside, update, start_worker, back_off, start_round, start_loop, bury, ensure_started,
  shutdown, is_ready, is_serving,
}
use morpho_research_os.Worker.Calls.{
  attached, submit_job, submitted, job_status, cancel_job, fetch_job_results, poll_events,
}
use morpho_research_os.Worker.Advances.{
  Advances, Advances-preorder, Advances-same, Advances-frame, Advances-adjust, Advances-insert,
  Advances-interrupt,
}

module _ ⦃env : Env⦄ ⦃out : Outside env⦄ (gone : String → Type 0) where
  open env use {Value}
  open out use {World, Transport}

  abbrev Adv : Sup → Sup → Type 0
  Adv = Advances gone

  Advances-Quiet : (s t : Sup) → Quiet s t → Adv s t
  Advances-Quiet s t q = Advances-same s t q.policy q.cursors q.active q.interrupted q.attempts

  pub Adv-outside : {A : Type 0} (m : Action World A) → Keeps Adv (outside m)
  Adv-outside m = record { at = λ s. Advances-Quiet s _ ((Quiet-outside m).at s) }

  Adv-adjust :
      (id : String) (f : ActiveJob → ActiveJob)
      → ((job : ActiveJob) → IsPaced job → IsPaced (f job))
      → Keeps Adv (update (λ s. record s { active_jobs = adjust id f s.active_jobs }))
  unfolding update
  Adv-adjust id f h = record { at = λ s. Advances-adjust id f s h }

  Adv-insert :
      (id : String) (job : ActiveJob)
      → IsPaced job
      → Keeps Adv (update (λ s. record s { active_jobs = insert id job s.active_jobs }))
  unfolding update
  Adv-insert id job h = record { at = λ s. Advances-insert id job s h }

ruleset call_rules = (
  Advances-preorder, Keeps-pure, Keeps-raise, Keeps-gets, Keeps-lift, Keeps-bind, Keeps-if,
  Adv-outside,
)

module _ ⦃env : Env⦄ ⦃out : Outside env⦄ (gone : String → Type 0) where
  open env use {Value}
  open out use {World, Transport, stop}

  -- Only the state and the count of attempts change, and the count stays within the budget.
  advances_count :
      (s : Sup) (n : ℕ) (state : SupervisorState)
      → (s.restart_attempts ≤ s.policy.max_restarts → n ≤ s.policy.max_restarts)
      → Adv gone s (record s { restart_attempts = n; state = state })
  advances_count s n state h = Advances-frame s _ refl refl (λ p. p) h (λ id t. inl t)

  -- A round of the loop after an attempt that the budget has room for.
  start_round-Advances :
      (rest : Sup → Result (Unit {0}) × Sup) (r : Result (Unit {0})) (s : Sup)
      → suc s.restart_attempts ≤ s.policy.max_restarts
      → ((t : Sup) → Adv gone t (rest t).1)
      → Adv gone s (start_round rest (r, s)).1
  start_round-Advances rest (ok _) s h k = advances_count s 0 ready (λ _. omega arith)
  start_round-Advances rest (err e) s h k =
      let next : Sup = record s { restart_attempts = suc s.restart_attempts } in
      let again =
        Advances-preorder.R_trans s next _ (advances_count s _ s.state (λ _. h)) (k next) in
      elim e.retryable
        as (λ b. Adv gone s (if b then rest next else (err e, record s { state = exhausted })).1) [
          | true ↦ again
          | false ↦ advances_count s s.restart_attempts exhausted (λ w. w)
        ]

  start_loop-Advances : (fuel : ℕ) (s : Sup) → Adv gone s (start_loop fuel s).1
  unfolding start_loop
  start_loop-Advances zero s = advances_count s s.restart_attempts exhausted (λ w. w)
  start_loop-Advances (suc fuel) s =
      let q = attempt-Quiet s in
      let tried = start_worker (back_off s) in
      let ih = start_loop-Advances fuel in
      elim (Bool-cases (leb s.policy.max_restarts s.restart_attempts)) [
        | inl e ↦ rw e (advances_count s s.restart_attempts exhausted (λ w. w))
        | inr e ↦ rw e (
            let room : suc tried.1.restart_attempts ≤ tried.1.policy.max_restarts =
              rw (q.attempts, q.policy) (ground arith) in
            Advances-preorder.R_trans s tried.1 _ (Advances-Quiet gone s tried.1 q)
              (start_round-Advances (start_loop fuel) tried.0 tried.1 room ih))
      ]

  bury-Advances : (s : Sup) → Adv gone s (bury s)
  unfolding bury
  bury-Advances s =
      let marked = mark_jobs_interrupted s in
      let gone_state : Sup = record marked { transport = none; state = stopped } in
      let lost =
        Advances-preorder.R_trans s marked gone_state (Advances-interrupt s)
          (Advances-same marked gone_state refl refl refl refl refl) in
      let same = Advances-preorder.R_refl s in
      elim s.transport
        as (λ o.
          Adv gone s (elim o [ none ↦ s | some t ↦ if is_ready s.state then gone_state else s ])) [
            | none ↦ same
            | some t ↦ elim (is_ready s.state) as (λ b. Adv gone s (if b then gone_state else s)) [
              | true ↦ lost
              | false ↦ same
            ]
          ]

  pub ensure_started-Keeps : Keeps (Adv gone) ensure_started
  unfolding ensure_started
  ensure_started-Keeps = record {
    at = λ s. elim (Bool-cases (is_serving s)) [
      | inl e ↦ rw e (Advances-preorder.R_refl s)
      | inr e ↦ rw e (
          Advances-preorder.R_trans s (bury s) _ (bury-Advances s) (
            start_loop-Advances (suc (s.policy.max_restarts - (bury s).restart_attempts)) (bury s)))
    ];
  }

  clear-Keeps : Keeps (Adv gone) (update (λ s. record s { state = stopped; restart_attempts = 0 }))
  unfolding update
  clear-Keeps = record { at = λ s. advances_count s 0 stopped (λ _. omega arith) }

  pub shutdown-Keeps : Keeps (Adv gone) shutdown
  unfolding shutdown
  shutdown-Keeps = record {
    at = λ s.
        let marked = mark_jobs_interrupted s in
        let left : Sup = record marked { transport = none } in
        let reset : Action Sup (Unit {0}) =
          update (λ t. record t { state = stopped; restart_attempts = 0 }) in
        let stopping : Option Transport → Result (Unit {0}) × Sup =
          λ o. elim o [ none ↦ reset marked | some t ↦ (outside (stop t) >>= λ _. reset) left ] in
        let lost = Advances-interrupt s in
        let halted = λ (t : Transport).
          Keeps-bind Advances-preorder (outside (stop t)) (λ _. reset) (Adv-outside gone (stop t))
            (λ _. clear-Keeps) in
        elim s.transport as (λ o. Adv gone s (stopping o).1) [
          | none ↦ Advances-preorder.R_trans s marked _ lost (clear-Keeps.at marked)
          | some t ↦ Advances-preorder.R_trans s marked _ lost (
              Advances-preorder.R_trans marked left _
                (Advances-same marked left refl refl refl refl refl) ((halted t).at left))
        ];
  }

  attached-Keeps : Keeps (Adv gone) attached
  unfolding attached
  attached-Keeps = search (call_rules, ensure_started-Keeps) depth 10

  pub job_status-Keeps : (id : String) → Keeps (Adv gone) (job_status id)
  unfolding job_status
  job_status-Keeps id = search (call_rules, attached-Keeps) depth 10

  pub fetch_job_results-Keeps : (id : String) → Keeps (Adv gone) (fetch_job_results id)
  unfolding fetch_job_results
  fetch_job_results-Keeps id = search (call_rules, attached-Keeps) depth 10

  cancelling-Keeps :
      (id : String)
      → Keeps (Adv gone) (
          update (λ s. record s {
            active_jobs = adjust id (λ job. record job { cancelling = true }) s.active_jobs;
          }))
  cancelling-Keeps id =
      Adv-adjust gone id (λ job. record job { cancelling = true })
        (λ job h. record { trying = h.trying; paused = h.paused; projecting = h.projecting })

  pub cancel_job-Keeps : (id : String) → Keeps (Adv gone) (cancel_job id)
  unfolding cancel_job
  cancel_job-Keeps id = search (call_rules, attached-Keeps, cancelling-Keeps) depth 10

  submitted-Keeps :
      (r : JobRequest Value) (id : String)
      → Keeps
          (Adv gone)
          (update (λ s. record s { active_jobs = insert id (submitted r id) s.active_jobs }))
  submitted-Keeps r id =
      Adv-insert gone id (submitted r id)
        (record { trying = λ _. omega arith; paused = λ e. cc; projecting = λ _. omega arith })

  pub submit_job-Keeps : (r : JobRequest Value) → Keeps (Adv gone) (submit_job r)
  unfolding submit_job
  submit_job-Keeps r = search (call_rules, attached-Keeps, submitted-Keeps) depth 12

  pub poll_events-Keeps : (id : String) → Keeps (Adv gone) (poll_events id)
  unfolding poll_events
  poll_events-Keeps id = search (call_rules, ensure_started-Keeps) depth 20
