-- ===== src/Orchestrator/Cascade/Visit.antt =====
-- What one visit of the cascade does to its variables.
use morpho_research_os.Prelude.{String, true, false, ◌∷◌, ◌≡◌, arith, ◌⊎◌, inl, inr, Bool-cases}
use morpho_research_os.Errors.{ok, ◌>>=◌, bind_ok, lift_bind_ok}
use morpho_research_os.Env.{Env}
use morpho_research_os.Repositories.Tables.{Db, TaskDependencyRecord}
use morpho_research_os.Orchestrator.TaskStatus.{pending, eq}
use morpho_research_os.Orchestrator.Transition.{parse_task_status}
use morpho_research_os.Orchestrator.Transition.Laws.{load_bind_ok}
use morpho_research_os.Orchestrator.Cascade.{Cascade, is_seen, fail_dependent, visit_dependent}

-- A visit skips a task that was seen, and queues any other once.
abbrev pub IsVisited : String → Cascade → Cascade → Type 0
IsVisited id c c' =
    ((is_seen id c.seen ≡ true) × (c' ≡ c))
    ⊎ ((is_seen id c.seen ≡ false) × (c'.queue ≡ id ∷ c.queue) × (c'.seen ≡ id ∷ c.seen))

module _ ⦃env : Env⦄ where
  pub visit_dependent_visits :
      (root : String) (dep : TaskDependencyRecord) (c : Cascade) (db : Db) {c' : Cascade}
      → (visit_dependent root dep c db).0 ≡ ok c'
      → IsVisited dep.task_id c c'
  unfolding visit_dependent
  visit_dependent_visits root dep c db h = elim (Bool-cases (is_seen dep.task_id c.seen)) [
    | inl old ↦ (let k = rw old at h in inl (old, unfold ◌>>=◌ in ground arith))
    | inr new ↦
        (let k = rw new at h in
          let (t, found, h₁) = load_bind_ok dep.task_id _ db k in
          let (s, parsed, h₂) = lift_bind_ok (parse_task_status t.status) _ db h₁ in
          elim (Bool-cases (eq s pending)) [
            | inl waiting ↦
                (let h₃ = rw waiting at h₂ in
                  let (_, failed, h₄) = bind_ok (fail_dependent root dep.task_id) _ db h₃ in
                  inr (new, unfold ◌>>=◌ in ground arith, unfold ◌>>=◌ in ground arith))
            | inr other ↦
                (let h₃ = rw other at h₂ in
                  inr (new, unfold ◌>>=◌ in ground arith, unfold ◌>>=◌ in ground arith))
          ])
  ]
