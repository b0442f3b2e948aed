-- ===== src/Worker/Start.antt =====
-- Starting and stopping the worker (worker/mod.rs): `ensure_started`, `start_worker` and `shutdown`.
use morpho_research_os.Prelude.{
  ℕ, zero, suc, ◌-◌, String, Bool, true, false, ◌&&◌, ltb, leb, none, some, [], ◌∷◌, ◌++◌, str_eq,
  format, if◌then◌else◌, decimal,
}
use morpho_research_os.Errors.{
  CoreError, core_error, ErrorCode, display, Result, ok, err, Action, raise, ◌>>=◌, ◌>>◌,
}
use morpho_research_os.Env.{Env}
use morpho_research_os.Worker.Outside.{Outside, WorkerVersionInfo}
use morpho_research_os.Worker.Backoff.{delay_for_attempt}
use morpho_research_os.Worker.Version.{protocol_compatible, worker_protocol_version}
use morpho_research_os.Worker.Jobs.{
  SupervisorState, stopped, ready, exhausted, Supervisor, mark_jobs_interrupted,
}

-- `WORKER_NOT_AVAILABLE`.
abbrev pub worker_unavailable : String → Bool → CoreError
worker_unavailable detail retryable =
    core_error ErrorCode.worker_not_available "The research worker is not available." detail
      retryable

-- The note that `map_err` makes of a failed factory; an error prints as its code and message.
abbrev pub factory_failed : {A : Type 0} → Result A → Result A
factory_failed (ok a) = ok a
factory_failed (err e) = err (
    worker_unavailable
      (format ("transport factory failed: " ∷ display e.code ∷ ": " ∷ e.user_message ∷ [])) true)

abbrev pub unhealthy : String → CoreError
unhealthy status = worker_unavailable (format ("health status '" ∷ status ∷ "'" ∷ [])) true

abbrev pub incompatible : WorkerVersionInfo → CoreError
incompatible v =
    core_error ErrorCode.worker_not_available
      "The research worker version is not compatible with this app."
      (format (
        "protocol incompatible: worker supports [" ∷ v.protocol_min ∷ ", " ∷ v.protocol_max
        ∷ "], core speaks " ∷ worker_protocol_version ∷ []))
      false

abbrev pub budget_exhausted : ℕ → CoreError
budget_exhausted attempts =
    worker_unavailable
      (format ("restart budget exhausted after " ∷ decimal attempts ∷ " attempts" ∷ [])) false

abbrev pub is_ready : SupervisorState → Bool
is_ready ready = true
is_ready _ = false

module _ {World Transport : Type 0} where
  -- What the code calls behind its traits changes the world only.
  unfoldable pub outside : {A : Type 0} → Action World A → Action (Supervisor World Transport) A
  outside m s = let done = m s.world in (done.0, record s { world = done.1 })

  unfoldable pub update :
      (Supervisor World Transport → Supervisor World Transport)
      → Action (Supervisor World Transport) (Unit {0})
  update f s = (ok tt, f s)

module _ ⦃env : Env⦄ ⦃out : Outside env⦄ where
  open out use {
    World, Transport, factory, spawn, health, version, stop, is_alive, sleep_ms, new_token,
  }

  abbrev pub Sup : Type 0
  Sup = Supervisor World Transport

  abbrev create : Action World Transport
  create w = let made = factory w in (factory_failed made.0, made.1)

  abbrev draw : Action World String
  draw w = let drawn = new_token w in (ok drawn.0, drawn.1)

  -- The version gate, and the worker is attached.
  unfoldable pub check : Transport → Action Sup (Unit {0})
  unfolding outside update protocol_compatible
  check transport = do
    v ← outside (version transport)
    if protocol_compatible v.protocol_min v.protocol_max
        then update (λ s. record s { transport = some transport })
        else raise (incompatible v)

  unfoldable pub start_worker : Action Sup (Unit {0})
  unfolding outside update check
  start_worker = do
    transport ← outside create
    token ← outside draw
    outside (spawn transport token)
    update (λ s. record s { spawned_tokens = s.spawned_tokens ++ token ∷ [] })
    status ← outside (health transport)
    if str_eq status.status "ok" then check transport else raise (unhealthy status.status)

  -- The wait before another attempt.
  unfoldable pub back_off : Sup → Sup
  unfolding delay_for_attempt
  back_off s =
      if ltb 0 s.restart_attempts
      then record s {
        world = sleep_ms (delay_for_attempt s.policy (s.restart_attempts - 1)) s.world;
      }
      else s

  -- The loop of `ensure_started`; each round ends it or counts an attempt. `rest` goes on with it.
  abbrev pub start_round :
      (Sup → Result (Unit {0}) × Sup) → Result (Unit {0}) × Sup → Result (Unit {0}) × Sup
  start_round rest (ok _, s) = (ok tt, record s { restart_attempts = 0; state = ready })
  start_round rest (err e, s) =
      let again = rest (record s { restart_attempts = suc s.restart_attempts }) in
      if e.retryable then again else (err e, record s { state = exhausted })

  unfoldable pub start_loop : ℕ → Action Sup (Unit {0})
  unfolding start_worker back_off
  start_loop zero s = (err (budget_exhausted s.restart_attempts), record s { state = exhausted })
  start_loop (suc fuel) s =
      let round = start_round (start_loop fuel) (start_worker (back_off s)) in
      if leb s.policy.max_restarts s.restart_attempts
      then (err (budget_exhausted s.restart_attempts), record s { state = exhausted })
      else round

  -- Whether the worker that was ready still runs.
  unfoldable pub is_serving : Sup → Bool
  is_serving s = elim s.transport [ none ↦ false | some t ↦ is_ready s.state && is_alive t s.world ]

  -- The account of a process that died under the supervisor.
  unfoldable pub bury : Sup → Sup
  unfolding mark_jobs_interrupted
  bury s = elim s.transport [
    | none ↦ s
    | some t ↦
        if is_ready s.state
        then record (mark_jobs_interrupted s) { transport = none; state = stopped }
        else s
  ]

  unfoldable pub ensure_started : Action Sup (Unit {0})
  unfolding start_loop is_serving bury
  ensure_started s =
      if is_serving s
      then (ok tt, s)
      else (let dead = bury s in
          start_loop (suc (s.policy.max_restarts - dead.restart_attempts)) dead)

  -- `transport.take()` and the reset.
  unfoldable pub shutdown : Action Sup (Unit {0})
  unfolding outside update mark_jobs_interrupted
  shutdown s =
      let marked = mark_jobs_interrupted s in
      let gone = record marked { transport = none } in
      let reset : Action Sup (Unit {0}) =
        update (λ t. record t { state = stopped; restart_attempts = 0 }) in
      elim marked.transport [
        | none ↦ reset marked
        | some t ↦ (outside (stop t) >>= λ _. reset) gone
      ]
