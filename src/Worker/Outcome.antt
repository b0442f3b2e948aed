-- ===== src/Worker/Outcome.antt =====
-- How starting the worker ends.
use morpho_research_os.Prelude.{
  ℕ, zero, suc, ◌-◌, ◌≤◌, ◌<◌, ◌≡◌, refl, inl, inr, true, false, Bool-cases, arith, Option, none,
  some, if◌then◌else◌, leb, sym, ◌&&◌,
}
use morpho_research_os.Errors.{CoreError, Result, ok, err}
use morpho_research_os.Env.{Env}
use morpho_research_os.Keeps.{Ensures, Ensures-raise, Ensures-bind, Ensures-if}
use morpho_research_os.Worker.Outside.{Outside}
use morpho_research_os.Worker.Jobs.{SupervisorState, stopped, ready, exhausted}
use morpho_research_os.Worker.Quiet.{attempt-Quiet}
use morpho_research_os.Worker.Start.{
  Sup, start_worker, back_off, start_round, start_loop, bury, ensure_started, is_serving, is_ready,
  check, update,
}

module _ ⦃env : Env⦄ ⦃out : Outside env⦄ where
  open out use {World, Transport, is_alive}

  -- The answer and the state after a start: served by a worker with no failed attempts counted, or
  -- given up with an error that says not to retry.
  pub data IsSettled : Result (Unit {0}) × Sup → Type 0 where
    served :
        {s : Sup}
        → s.state ≡ ready
        → ((t : Transport) × (s.transport ≡ some t))
        → IsSettled (ok tt, s)
    given_up :
        {s : Sup} {e : CoreError} → s.state ≡ exhausted → e.retryable ≡ false → IsSettled (err e, s)

  start_round-agree :
      (f g : Sup → Result (Unit {0}) × Sup) (r : Result (Unit {0})) (s : Sup)
      → f (record s { restart_attempts = suc s.restart_attempts })
        ≡ g (record s { restart_attempts = suc s.restart_attempts })
      → start_round f (r, s) ≡ start_round g (r, s)
  start_round-agree f g (ok _) s h = refl
  start_round-agree f g (err e) s h = rw h refl

  -- The loop does the same with any more fuel, once it has more than there are attempts left.
  start_loop-enough :
      (n m : ℕ) (s : Sup)
      → s.policy.max_restarts - s.restart_attempts < n
      → n ≤ m
      → start_loop m s ≡ start_loop n s
  unfolding start_loop
  start_loop-enough zero m s h k = ground arith
  start_loop-enough (suc n) zero s h k = ground arith
  start_loop-enough (suc n) (suc m) s h k =
      let q = attempt-Quiet s in
      let tried = start_worker (back_off s) in
      let next : Sup = record tried.1 { restart_attempts = suc tried.1.restart_attempts } in
      let ih = start_loop-enough n m next in
      elim (Bool-cases (leb s.policy.max_restarts s.restart_attempts)) [
        | inl e ↦ rw e refl
        | inr e ↦
            let left : next.policy.max_restarts - next.restart_attempts < n =
              rw (q.attempts, q.policy) (ground arith) in
            rw e (
              start_round-agree (start_loop m) (start_loop n) tried.0 tried.1
                (ih left (omega arith)))
      ]

  -- Burying a dead worker leaves the counter of restarts and the policy.
  bury_budget :
      (s : Sup) → ((bury s).restart_attempts ≡ s.restart_attempts) × ((bury s).policy ≡ s.policy)
  unfolding bury
  bury_budget s = ground arith

  -- Starting a worker that does not serve is the loop of starts with any number of rounds that is
  -- greater than the restarts left: the loop ends by the code's own test, never for want of rounds.
  pub ensure_started-enough :
      (m : ℕ) (s : Sup)
      → is_serving s ≡ false
      → s.policy.max_restarts - s.restart_attempts < m
      → ensure_started s ≡ start_loop m (bury s)
  unfolding ensure_started bury
  ensure_started-enough m s idle h =
      let rounds = suc (s.policy.max_restarts - (bury s).restart_attempts) in
      let (attempts, policy) = bury_budget s in
      rw idle (
        sym (
          start_loop-enough rounds m (bury s) (rw (attempts, policy) (omega arith))
            (rw attempts (omega (arith, h)))))

  abbrev HasTransport : Sup → Type 0
  HasTransport s = (t : Transport) × (s.transport ≡ some t)

  attach-Ensures :
      (t : Transport) → Ensures HasTransport (update (λ s. record s { transport = some t }))
  unfolding update
  attach-Ensures t = record { after = λ s a h. (t, refl) }

  start_worker-Ensures : Ensures HasTransport start_worker
  unfolding start_worker check
  start_worker-Ensures = search (Ensures-raise, Ensures-bind, Ensures-if, attach-Ensures) depth 16

  start_round-IsSettled :
      (rest : Sup → Result (Unit {0}) × Sup) (r : Result (Unit {0})) (s : Sup)
      → ((t : Sup) → IsSettled (rest t))
      → (r ≡ ok tt → HasTransport s)
      → IsSettled (start_round rest (r, s))
  start_round-IsSettled rest (ok _) s h k = served refl (k refl)
  start_round-IsSettled rest (err e) s h k =
      let next : Sup = record s { restart_attempts = suc s.restart_attempts } in
      let again = h next in
      (elim e.retryable
          as (λ b.
            b ≡ e.retryable
            → IsSettled (if b then rest next else (err e, record s { state = exhausted }))) [
              | true ↦ λ _. again
              | false ↦ λ c. given_up refl (sym c)
            ])
        refl

  start_loop-IsSettled : (n : ℕ) (s : Sup) → IsSettled (start_loop n s)
  unfolding start_loop
  start_loop-IsSettled zero s = given_up refl refl
  start_loop-IsSettled (suc n) s =
      let tried = start_worker (back_off s) in
      let ih = start_loop-IsSettled n in
      elim (Bool-cases (leb s.policy.max_restarts s.restart_attempts)) [
        | inl e ↦ rw e (given_up refl refl)
        | inr e ↦ rw e (
            start_round-IsSettled (start_loop n) tried.0 tried.1 ih
              (λ h. start_worker-Ensures.after (back_off s) tt h))
      ]

  ready_of_test : (state : SupervisorState) → is_ready state ≡ true → state ≡ ready
  ready_of_test stopped h = cc
  ready_of_test ready h = refl
  ready_of_test exhausted h = cc

  -- With this transport, a worker that serves.
  serving_with :
      (o : Option Transport) (s : Sup)
      → s.transport ≡ o
      → (elim o [ none ↦ false | some t ↦ is_ready s.state && is_alive t s.world ]) ≡ true
      → (s.state ≡ ready) × HasTransport s
  serving_with none s e h = cc
  serving_with (some t) s e h = (ready_of_test s.state (ground arith), (t, e))

  serving : (s : Sup) → is_serving s ≡ true → (s.state ≡ ready) × HasTransport s
  unfolding is_serving
  serving s h = serving_with s.transport s refl h

  -- Starting the worker either succeeds, ready and with a transport attached, or gives up with an error
  -- that says not to retry.
  pub ensure_started-IsSettled : (s : Sup) → IsSettled (ensure_started s)
  unfolding ensure_started
  ensure_started-IsSettled s = elim (Bool-cases (is_serving s)) [
    | inl e ↦ rw e (served (serving s e).0 (serving s e).1)
    | inr e ↦
        rw e
          (start_loop-IsSettled (suc (s.policy.max_restarts - (bury s).restart_attempts)) (bury s))
  ]
