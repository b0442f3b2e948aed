-- ===== src/Worker/Quiet.antt =====
-- What an attempt to start the worker leaves alone.
use morpho_research_os.Prelude.{
  ◌≡◌, ◌∙◌, refl, Bool-cases, inl, inr, [], ◌∷◌, ◌++◌, some, String, ltb,
}
use morpho_research_os.Errors.{Action}
use morpho_research_os.Env.{Env}
use morpho_research_os.Keeps.{
  Keeps, IsPreorder, Keeps-pure, Keeps-raise, Keeps-gets, Keeps-lift, Keeps-bind, Keeps-if,
}
use morpho_research_os.Worker.Outside.{Outside}
use morpho_research_os.Worker.Jobs.{Supervisor}
use morpho_research_os.Worker.Start.{Sup, outside, update, check, start_worker, back_off}

-- The policy, the cursors, the jobs and the count of attempts are as they were.
pub record Quiet {World Transport : Type 0} (s t : Supervisor World Transport) : Type 0 where
  pub policy : t.policy ≡ s.policy
  pub cursors : t.event_cursors ≡ s.event_cursors
  pub active : t.active_jobs ≡ s.active_jobs
  pub interrupted : t.interrupted_jobs ≡ s.interrupted_jobs
  pub attempts : t.restart_attempts ≡ s.restart_attempts

abbrev pub quiet :
    {World Transport : Type 0} {s t : Supervisor World Transport}
    → (t.policy ≡ s.policy)
    → (t.event_cursors ≡ s.event_cursors)
    → (t.active_jobs ≡ s.active_jobs)
    → (t.interrupted_jobs ≡ s.interrupted_jobs)
    → (t.restart_attempts ≡ s.restart_attempts)
    → Quiet s t
quiet p c a i n = record { policy = p; cursors = c; active = a; interrupted = i; attempts = n }

Quiet-preorder : {World Transport : Type 0} → IsPreorder {S = Supervisor World Transport} Quiet
Quiet-preorder = record {
  R_refl = λ s. quiet refl refl refl refl refl;
  R_trans = λ s t u a b.
      quiet (b.policy ∙ a.policy) (b.cursors ∙ a.cursors) (b.active ∙ a.active)
        (b.interrupted ∙ a.interrupted) (b.attempts ∙ a.attempts);
}

pub Quiet-outside :
    {World Transport A : Type 0} (m : Action World A)
    → Keeps {S = Supervisor World Transport} Quiet (outside m)
unfolding outside
Quiet-outside m = record { at = λ s. quiet refl refl refl refl refl }

attach-Quiet :
    {World Transport : Type 0} (t : Transport)
    → Keeps {S = Supervisor World Transport} Quiet (update (λ s. record s { transport = some t }))
unfolding update
attach-Quiet t = record { at = λ s. quiet refl refl refl refl refl }

token-Quiet :
    {World Transport : Type 0} (token : String)
    → Keeps {S = Supervisor World Transport} Quiet
        (update (λ s. record s { spawned_tokens = s.spawned_tokens ++ token ∷ [] }))
unfolding update
token-Quiet token = record { at = λ s. quiet refl refl refl refl refl }

ruleset start_rules = (
  Quiet-preorder, Keeps-pure, Keeps-raise, Keeps-gets, Keeps-lift, Keeps-bind, Keeps-if,
  Quiet-outside, attach-Quiet, token-Quiet,
)

module _ ⦃env : Env⦄ ⦃out : Outside env⦄ where
  open out use {Transport}

  check-Quiet : (t : Transport) → Keeps Quiet (check t)
  unfolding check
  check-Quiet t = search start_rules depth 10

  start_worker-Quiet : Keeps Quiet start_worker
  unfolding start_worker
  start_worker-Quiet = search (start_rules, check-Quiet) depth 16

  back_off-Quiet : (s : Sup) → Quiet s (back_off s)
  unfolding back_off
  back_off-Quiet s = elim (Bool-cases (ltb 0 s.restart_attempts)) [
    | inl e ↦ rw e (quiet refl refl refl refl refl)
    | inr e ↦ rw e (quiet refl refl refl refl refl)
  ]

  -- An attempt with the wait before it.
  pub attempt-Quiet : (s : Sup) → Quiet s (start_worker (back_off s)).1
  attempt-Quiet s =
      Quiet-preorder.R_trans s (back_off s) _ (back_off-Quiet s)
        (start_worker-Quiet.at (back_off s))
