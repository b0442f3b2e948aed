-- ===== src/Worker/Tracked.antt =====
-- A submitted job stays on the supervisor's record.
use mathlib.Core.Path.{subst}
use morpho_research_os.Prelude.{
  ◌≡◌, ◌⊎◌, inl, inr, true, Bool-cases, arith, [], ◌∷◌, String, if◌then◌else◌, lookup-insert,
  eq_iff, insert, format, ap, sym, ◌∙◌,
}
use morpho_research_os.Errors.{Action, pure, raise, ◌>>=◌, ◌>>◌, bind_ok_at, ok}
use morpho_research_os.Env.{Env}
use morpho_research_os.Worker.Outside.{Outside, JobRequest, JobAck}
use morpho_research_os.Worker.Start.{Sup, outside, update, worker_unavailable}
use morpho_research_os.Worker.Calls.{submitted, attached, submit_job}
use morpho_research_os.Worker.Advances.{is_tracked}
use morpho_research_os.Worker.Steps.{Steps, Steps-tracked}

module _ ⦃env : Env⦄ ⦃out : Outside env⦄ where
  open env use {Value}
  open out use {post_job}

  -- What `submit_job` does with the worker's answer.
  abbrev on_answer : JobRequest Value → JobAck → Action Sup JobAck
  on_answer request ack =
      if ack.accepted
      then (do
        update (λ s. record s {
          active_jobs = insert ack.job_id (submitted request ack.job_id) s.active_jobs;
        })
        pure ack)
      else raise (
          worker_unavailable (format ("job " ∷ request.job_id ∷ " not accepted by worker" ∷ []))
            true)

  abbrev IsTracked : String → Sup → Type 0
  IsTracked id s = is_tracked id s.active_jobs s.interrupted_jobs ≡ true

  on_answer-IsTracked :
      (request : JobRequest Value) (answer : JobAck) (s : Sup) {ack : JobAck}
      → (on_answer request answer s).0 ≡ ok ack
      → IsTracked ack.job_id (on_answer request answer s).1
  unfolding ◌>>=◌ update
  on_answer-IsTracked request answer s {ack} h = elim (Bool-cases answer.accepted) [
    | inr e ↦ (let k = rw e at h in cc)
    | inl e ↦
        (let same : answer ≡ ack = (let k = rw e at h in ground arith) in
          let job = submitted request answer.job_id in
          let found = lookup-insert answer.job_id answer.job_id job s.active_jobs in
          rw (e, ← same) (ground (arith, found, eq_iff answer.job_id answer.job_id)))
  ]

  submitted-IsTracked :
      (request : JobRequest Value) (s : Sup) {ack : JobAck}
      → (submit_job request s).0 ≡ ok ack
      → IsTracked ack.job_id (submit_job request s).1
  unfolding submit_job
  submitted-IsTracked request s {ack} h =
      let (transport, _, e₁) = bind_ok_at attached _ s h in
      let s₁ = (attached s).1 in
      let sent = outside (post_job transport request) in
      let h₁ = ap (λ r. r.0) (sym e₁) ∙ h in
      let (answer, _, e₂) = bind_ok_at sent (on_answer request) s₁ h₁ in
      let h₂ = ap (λ r. r.0) (sym e₂) ∙ h₁ in
      subst (λ r. IsTracked ack.job_id r.1) (sym (e₁ ∙ e₂))
        (on_answer-IsTracked request answer (sent s₁).1 h₂)

  -- A job that the worker accepted when it was submitted is never forgotten: whatever operations
  -- follow, it is active, or on the record of the jobs that a dead worker lost, unless the pump has
  -- retired it.
  pub submit_job-tracked :
      (gone : String → Type 0) (request : JobRequest Value) (s : Sup) {t : Sup} {ack : JobAck}
      → (submit_job request s).0 ≡ ok ack
      → Steps gone (submit_job request s).1 t
      → (is_tracked ack.job_id t.active_jobs t.interrupted_jobs ≡ true) ⊎ gone ack.job_id
  submit_job-tracked gone request s {t} {ack} h steps =
      Steps-tracked gone ack.job_id steps (submitted-IsTracked request s h)
