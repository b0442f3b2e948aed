-- ===== src/Worker/Jobs/Budget.antt =====
-- The retry budgets of a job: what each operation keeps, and when a paused delivery is armed again.
use mathlib.Core.Option
use mathlib.Core.Path.{subst}
use Prim.Native.Nat.{◌≤◌, ◌<◌}
use morpho_research_os.Prelude.{
  ℕ, zero, suc, ◌-◌, ◌≡◌, refl, true, false, arith, String, lookup, lookup-map, none, some, ap, sym,
  ◌∙◌,
}
use morpho_research_os.Worker.Jobs.{
  ActiveJob, Supervisor, fail_delivery, fail_projection, tick, tick_delivery_cooldowns,
  delivery_failed, delivery_attempts,
}

-- A job tries again with attempts to spare, or it is paused with its attempts spent and some cycles
-- to wait; and it has projection attempts to spare, or it is parked.
pub record IsPaced (job : ActiveJob) : Type 0 where
  pub trying : job.delivery_failed ≡ false → job.delivery_attempts < 8
  pub paused :
      job.delivery_failed ≡ true
      → (8 ≤ job.delivery_attempts) × (0 < job.delivery_cooldown) × (job.delivery_cooldown ≤ 8)
  pub projecting : job.projection_stalled ≡ false → job.projection_attempts < 6

pub IsPaced-fail_delivery : (job : ActiveJob) → IsPaced job → IsPaced (fail_delivery job)
IsPaced-fail_delivery job h = record {
  trying = λ e. ground arith;
  paused = λ e. ground arith;
  projecting = λ e. ground arith;
}

pub IsPaced-fail_projection : (job : ActiveJob) → IsPaced job → IsPaced (fail_projection job)
IsPaced-fail_projection job h = record {
  trying = λ e. ground arith;
  paused = λ e. ground arith;
  projecting = λ e. ground arith;
}

pub IsPaced-tick : (job : ActiveJob) → IsPaced job → IsPaced (tick job)
IsPaced-tick job h = record {
  trying = λ e. ground arith;
  paused = λ e. ground arith;
  projecting = λ e. ground arith;
}

-- So many pump cycles pass.
abbrev pub cycles :
    {World Transport : Type 0} → ℕ → Supervisor World Transport → Supervisor World Transport
cycles zero s = s
cycles (suc n) s = cycles n (tick_delivery_cooldowns s)

tick_waits :
    (job : ActiveJob)
    → job.delivery_failed ≡ true
    → 1 < job.delivery_cooldown
    → ((tick job).delivery_failed ≡ true)
      × ((tick job).delivery_cooldown ≡ job.delivery_cooldown - 1)
tick_waits job h k = (ground arith, ground arith)

tick_rearms :
    (job : ActiveJob)
    → job.delivery_failed ≡ true
    → job.delivery_cooldown ≡ 1
    → ((tick job).delivery_failed ≡ false) × ((tick job).delivery_attempts ≡ 0)
tick_rearms job h k = (ground arith, ground arith)

module _ {World Transport : Type 0} where
  lookup-tick :
      (id : String) (s : Supervisor World Transport) {job : ActiveJob}
      → lookup id s.active_jobs ≡ some job
      → lookup id (tick_delivery_cooldowns s).active_jobs ≡ some (tick job)
  unfolding tick_delivery_cooldowns
  lookup-tick id s h = lookup-map tick id s.active_jobs ∙ ap (Option.map tick) h

  -- What the queries answer for a job that is tracked.
  answers :
      (id : String) (s : Supervisor World Transport) {job : ActiveJob}
      → lookup id s.active_jobs ≡ some job
      → (delivery_failed id s ≡ job.delivery_failed)
        × (delivery_attempts id s ≡ job.delivery_attempts)
  unfolding delivery_failed delivery_attempts
  answers id s h = (
    ap (λ o. elim o [ none ↦ false | some j ↦ j.delivery_failed ]) h,
    ap (λ o. elim o [ none ↦ 0 | some j ↦ j.delivery_attempts ]) h,
  )

  paused_until :
      (c n : ℕ) (id : String) (s : Supervisor World Transport) {job : ActiveJob}
      → lookup id s.active_jobs ≡ some job
      → job.delivery_failed ≡ true
      → job.delivery_cooldown ≡ c
      → n < c
      → delivery_failed id (cycles n s) ≡ true
  paused_until c zero id s h f e k = (answers id s h).0 ∙ f
  paused_until c (suc n) id s {job} h f e k =
      let (failed, left) = tick_waits job f (omega arith) in
      paused_until (c - 1) n id (tick_delivery_cooldowns s) (lookup-tick id s h) failed
        (left ∙ ap (λ m. m - 1) e) (omega arith)

  armed_after :
      (c : ℕ) (id : String) (s : Supervisor World Transport) {job : ActiveJob}
      → lookup id s.active_jobs ≡ some job
      → job.delivery_failed ≡ true
      → job.delivery_cooldown ≡ suc c
      → (delivery_failed id (cycles (suc c) s) ≡ false)
        × (delivery_attempts id (cycles (suc c) s) ≡ 0)
  armed_after zero id s {job} h f e =
      let (failed, attempts) = tick_rearms job f e in
      let (failed_is, attempts_are) = answers id (tick_delivery_cooldowns s) (lookup-tick id s h) in
      (failed_is ∙ failed, attempts_are ∙ attempts)
  armed_after (suc c) id s {job} h f e =
      let (failed, left) = tick_waits job f (omega arith) in
      armed_after c id (tick_delivery_cooldowns s) (lookup-tick id s h) failed (omega arith)

  -- A job whose delivery is paused stays paused for exactly as many pump cycles as its cool-down
  -- counts, and is then armed again with no attempts used, when nothing else changes it meanwhile.
  pub delivery-rearms :
      (id : String) (s : Supervisor World Transport) (job : ActiveJob)
      → lookup id s.active_jobs ≡ some job
      → job.delivery_failed ≡ true
      → 0 < job.delivery_cooldown
      → ((n : ℕ) → n < job.delivery_cooldown → delivery_failed id (cycles n s) ≡ true)
        × (delivery_failed id (cycles job.delivery_cooldown s) ≡ false)
        × (delivery_attempts id (cycles job.delivery_cooldown s) ≡ 0)
  delivery-rearms id s job h f k =
      let e : job.delivery_cooldown ≡ suc (job.delivery_cooldown - 1) = omega arith in
      let (armed, attempts) =
        subst
          (λ n. (delivery_failed id (cycles n s) ≡ false) × (delivery_attempts id (cycles n s) ≡ 0))
          (sym e) (armed_after (job.delivery_cooldown - 1) id s h f e) in
      (λ n lt. paused_until job.delivery_cooldown n id s h f refl lt, armed, attempts)
