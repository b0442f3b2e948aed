-- ===== src/Worker/Advances.antt =====
-- What every operation of the supervisor keeps, as a relation between the states before and after it.
pub mod Calls
use mathlib.Core.Option
use mathlib.Core.Path.{subst}
use morpho_research_os.Prelude.{
  ℕ, ◌≤◌, ◌≡◌, ◌∙◌, ap, refl, ◌⊎◌, inl, inr, Bool, true, false, ◌||◌, arith, List, [], ◌∷◌, ◌++◌,
  map, String, lookup, Option, none, some, if◌then◌else◌, any, str_eq, eq_iff, Every, adjust,
  insert, remove, lookup-adjust, lookup-insert, keys, Every-adjust, Every-insert, Every-remove,
  lookup-remove, lookup-map, Every-map, Bool-cases, ltb,
}
use morpho_research_os.Keeps.{IsPreorder}
use morpho_research_os.Worker.Backoff.{RestartPolicy}
use morpho_research_os.Worker.Jobs.{
  ActiveJob, InterruptedJob, Supervisor, acknowledged_cursor, mark_jobs_interrupted,
  record_interrupted, converge_first, tick, tick_delivery_cooldowns, acknowledge_events,
  confirm_interruption_converged,
}
use morpho_research_os.Worker.Jobs.Budget.{IsPaced, IsPaced-tick}

abbrev pub is_some : {A : Type 0} → Option A → Bool
is_some none = false
is_some (some _) = true

abbrev pub interrupted_in : String → List InterruptedJob → Bool
interrupted_in id jobs = any (λ job. str_eq job.job_id id) jobs

-- The job is active, or on the record of the jobs that a dead worker lost.
abbrev pub is_tracked : String → List (String × ActiveJob) → List InterruptedJob → Bool
is_tracked id active lost = is_some (lookup id active) || interrupted_in id lost

is_some-adjust :
    (j k : String) (f : ActiveJob → ActiveJob) (m : List (String × ActiveJob))
    → is_some (lookup k (adjust j f m)) ≡ is_some (lookup k m)
is_some-adjust j k f m = ground (arith, lookup-adjust j k f m)

tracked-insert :
    (id k : String) (job : ActiveJob) (m : List (String × ActiveJob)) (lost : List InterruptedJob)
    → is_tracked k m lost ≡ true
    → is_tracked k (insert id job m) lost ≡ true
tracked-insert id k job m lost h = ground (arith, lookup-insert id k job m)

tracked-remove :
    (id k : String) (m : List (String × ActiveJob)) (lost : List InterruptedJob)
    → is_tracked k m lost ≡ true
    → (is_tracked k (remove id m) lost ≡ true) ⊎ (id ≡ k)
tracked-remove id k m lost h = elim (Bool-cases (str_eq id k)) [
  | inl e ↦ inr ((eq_iff id k).0 e)
  | inr e ↦ inl (ground (arith, lookup-remove id k m))
]

tracked-tick :
    (k : String) (m : List (String × ActiveJob)) (lost : List InterruptedJob)
    → is_tracked k m lost ≡ true
    → is_tracked k (map (λ e. (e.0, tick e.1)) m) lost ≡ true
tracked-tick k m lost h =
    let same : is_some (Option.map tick (lookup k m)) ≡ is_some (lookup k m) = ground arith in
    rw (lookup-map tick k m, same) h

interrupted_in-append :
    (k : String) (jobs more : List InterruptedJob)
    → interrupted_in k (jobs ++ more) ≡ (interrupted_in k jobs || interrupted_in k more)
interrupted_in-append k [] more = refl
interrupted_in-append k (job ∷ jobs) more = ground (arith, interrupted_in-append k jobs more)

-- Every job that was active is on the record, and every job that was on it stays.
recorded :
    (k : String) (m : List (String × ActiveJob)) (lost : List InterruptedJob)
    → is_tracked k m lost ≡ true
    → interrupted_in k (record_interrupted m lost) ≡ true
recorded k [] lost h = h
recorded k ((id, job) ∷ m) lost h =
    let new : InterruptedJob = record { job_id = id; run_id = job.run_id; converged = false } in
    let known = recorded k m lost in
    let grown = recorded k m (lost ++ new ∷ []) in
    elim (Bool-cases (interrupted_in id lost)) [
      | inl e ↦ rw e (known (ground (arith, eq_iff id k)))
      | inr e ↦ rw e (grown (ground (arith, interrupted_in-append k lost (new ∷ []))))
    ]

interrupted_in-converge_first :
    (k id : String) (lost : List InterruptedJob)
    → interrupted_in k (converge_first id lost) ≡ interrupted_in k lost
interrupted_in-converge_first k id [] = refl
interrupted_in-converge_first k id (job ∷ lost) =
    ground (arith, interrupted_in-converge_first k id lost)

module _ {World Transport : Type 0} where
  -- The policy stays, cursors never move back, retry budgets hold if they held, and a job that is
  -- tracked stays tracked, unless it is among the `gone`.
  pub record Advances (gone : String → Type 0) (s t : Supervisor World Transport) : Type 0 where
    pub policy_kept : t.policy ≡ s.policy
    pub cursors : (id : String) → acknowledged_cursor id s ≤ acknowledged_cursor id t
    pub paced : Every IsPaced s.active_jobs → Every IsPaced t.active_jobs
    pub within :
        s.restart_attempts ≤ s.policy.max_restarts → t.restart_attempts ≤ t.policy.max_restarts
    pub tracked :
        (id : String)
        → is_tracked id s.active_jobs s.interrupted_jobs ≡ true
        → (is_tracked id t.active_jobs t.interrupted_jobs ≡ true) ⊎ gone id

  module _ {gone : String → Type 0} where
    pub Advances-preorder : IsPreorder (Advances gone)
    Advances-preorder = record {
      R_refl = λ s. record {
        policy_kept = refl;
        cursors = λ id. omega arith;
        paced = λ h. h;
        within = λ h. h;
        tracked = λ id h. inl h;
      };
      R_trans = λ s t u a b. record {
        policy_kept = b.policy_kept ∙ a.policy_kept;
        cursors = λ id. omega (arith, a.cursors id, b.cursors id);
        paced = λ h. b.paced (a.paced h);
        within = λ h. b.within (a.within h);
        tracked = λ id h. elim (a.tracked id h) [ inl k ↦ b.tracked id k | inr g ↦ inr g ];
      };
    }

    -- The cursors are as they were.
    Advances-frame :
        (s t : Supervisor World Transport)
        → t.policy ≡ s.policy
        → t.event_cursors ≡ s.event_cursors
        → (Every IsPaced s.active_jobs → Every IsPaced t.active_jobs)
        → (s.restart_attempts ≤ s.policy.max_restarts → t.restart_attempts ≤ t.policy.max_restarts)
        → ((id : String)
            → is_tracked id s.active_jobs s.interrupted_jobs ≡ true
            → (is_tracked id t.active_jobs t.interrupted_jobs ≡ true) ⊎ gone id)
        → Advances gone s t
    unfolding acknowledged_cursor
    Advances-frame s t p c paced within tracked = record {
      policy_kept = p;
      cursors = λ id.
          let same = ap {B = ℕ} (λ m. elim (lookup id m) [ none ↦ 0 | some n ↦ n ]) c in
          omega (arith, same);
      paced = paced;
      within = within;
      tracked = tracked;
    }

    -- Neither the policy, the cursors, the jobs nor the attempts have changed.
    pub Advances-same :
        (s t : Supervisor World Transport)
        → t.policy ≡ s.policy
        → t.event_cursors ≡ s.event_cursors
        → t.active_jobs ≡ s.active_jobs
        → t.interrupted_jobs ≡ s.interrupted_jobs
        → t.restart_attempts ≡ s.restart_attempts
        → Advances gone s t
    Advances-same s t p c a i n =
        Advances-frame s t p c (λ h. rw a h) (λ h. rw (p, n) h) (λ id h. inl (rw (a, i) h))

    -- One job has changed, in a way that keeps its budgets.
    pub Advances-adjust :
        (id : String) (f : ActiveJob → ActiveJob) (s : Supervisor World Transport)
        → ((job : ActiveJob) → IsPaced job → IsPaced (f job))
        → Advances gone s (record s { active_jobs = adjust id f s.active_jobs })
    Advances-adjust id f s h =
        Advances-frame s _ refl refl (Every-adjust IsPaced id f s.active_jobs h) (λ w. w)
          (λ k t. inl (rw (is_some-adjust id k f s.active_jobs) t))

    pub Advances-insert :
        (id : String) (job : ActiveJob) (s : Supervisor World Transport)
        → IsPaced job
        → Advances gone s (record s { active_jobs = insert id job s.active_jobs })
    Advances-insert id job s h =
        Advances-frame s _ refl refl (Every-insert IsPaced id job s.active_jobs h) (λ w. w)
          (λ k t. inl (tracked-insert id k job s.active_jobs s.interrupted_jobs t))

    pub Advances-remove :
        (id : String) (s : Supervisor World Transport)
        → gone id
        → Advances gone s (record s { active_jobs = remove id s.active_jobs })
    Advances-remove id s g =
        Advances-frame s _ refl refl (Every-remove IsPaced id s.active_jobs) (λ w. w)
          (λ k t. elim (tracked-remove id k s.active_jobs s.interrupted_jobs t) [
            | inl still ↦ inl still
            | inr e ↦ inr (subst gone e g)
          ])

    pub Advances-tick :
        (s : Supervisor World Transport) → Advances gone s (tick_delivery_cooldowns s)
    unfolding tick_delivery_cooldowns
    Advances-tick s =
        Advances-frame s _ refl refl (Every-map IsPaced tick s.active_jobs IsPaced-tick) (λ w. w)
          (λ k t. inl (tracked-tick k s.active_jobs s.interrupted_jobs t))

    pub Advances-interrupt :
        (s : Supervisor World Transport) → Advances gone s (mark_jobs_interrupted s)
    unfolding mark_jobs_interrupted
    Advances-interrupt s =
        Advances-frame s _ refl refl (λ h. tt) (λ w. w)
          (λ k t. inl (recorded k s.active_jobs s.interrupted_jobs t))

    pub Advances-converge :
        (id : String) (s : Supervisor World Transport)
        → Advances gone s (confirm_interruption_converged id s)
    unfolding confirm_interruption_converged
    Advances-converge id s =
        Advances-frame s _ refl refl (λ h. h) (λ w. w)
          (λ k t. inl (rw (interrupted_in-converge_first k id s.interrupted_jobs) t))

    pub Advances-acknowledge :
        (id : String) (through : ℕ) (s : Supervisor World Transport)
        → Advances gone s (acknowledge_events id through s)
    unfolding acknowledge_events acknowledged_cursor
    Advances-acknowledge id through s = record {
      policy_kept = refl;
      cursors = λ k. ground (
        arith,
        eq_iff id k,
        lookup-insert id k
            (if ltb (acknowledged_cursor id s) through then through else acknowledged_cursor id s)
            s.event_cursors,
      );
      paced = λ h. h;
      within = λ h. h;
      tracked = λ k t. inl t;
    }
