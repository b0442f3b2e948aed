-- ===== src/Orchestrator/Cascade/Fuel.antt =====
-- The loop of the cascade ends: each round takes a task from the queue, and a task is queued only
-- while a dependency row of it was not seen.
use morpho_research_os.Prelude.{
  ℕ, zero, suc, ◌+◌, ◌≤◌, ◌<◌, String, true, false, List, [], ◌∷◌, ◌≡◌, refl, arith, inl, inr,
  str_eq, eq_iff, any, length, if◌then◌else◌, All, All-select,
}
use morpho_research_os.Prelude.Order.{All-order_by}
use morpho_research_os.Errors.{ok, ◌>>=◌, bind_ok, Result-cases}
use morpho_research_os.Env.{Env}
use morpho_research_os.Repositories.Rows.{Distinct}
use morpho_research_os.Repositories.Tables.{Db, TaskDependencyRecord}
use morpho_research_os.Repositories.Tasks.{task_key, dependents_of}
use morpho_research_os.Orchestrator.Moves.{Distinct-Changes}
use morpho_research_os.Orchestrator.Moves.Parts.{visit_dependents-Keeps}
use morpho_research_os.Orchestrator.Cascade.{
  Cascade, is_seen, visit_dependent, visit_dependents, cascade_loop, cascade_start, cascade_fuel,
}
use morpho_research_os.Orchestrator.Cascade.Visit.{IsVisited, visit_dependent_visits}

-- How many dependency rows have a dependent that was not seen.
abbrev pub unseen : List TaskDependencyRecord → List String → ℕ
unseen [] seen = 0
unseen (d ∷ ds) seen =
    let rest = unseen ds seen in if is_seen d.task_id seen then rest else suc rest

abbrev pub measure : List TaskDependencyRecord → Cascade → ℕ
measure deps c = length c.queue + unseen deps c.seen

-- The id is the dependent of one of the rows.
abbrev pub HasRow : List TaskDependencyRecord → TaskDependencyRecord → Type 0
HasRow deps dep = any (λ d. str_eq d.task_id dep.task_id) deps ≡ true

unseen_more :
    (ds : List TaskDependencyRecord) (id : String) (seen : List String)
    → unseen ds (id ∷ seen) ≤ unseen ds seen
unseen_more [] id seen = omega arith
unseen_more (d ∷ ds) id seen = ground (arith, unseen_more ds id seen)

unseen_less :
    (ds : List TaskDependencyRecord) (id : String) (seen : List String)
    → any (λ d. str_eq d.task_id id) ds ≡ true
    → is_seen id seen ≡ false
    → suc (unseen ds (id ∷ seen)) ≤ unseen ds seen
unseen_less [] id seen h k = cc
unseen_less (d ∷ ds) id seen h k = ground (
  arith,
  unseen_less ds id seen,
  unseen_more ds id seen,
  eq_iff d.task_id id,
  eq_iff id d.task_id,
)

measure_of_visited :
    (deps : List TaskDependencyRecord) (dep : TaskDependencyRecord) (c c' : Cascade)
    → HasRow deps dep
    → IsVisited dep.task_id c c'
    → measure deps c' ≤ measure deps c
measure_of_visited deps dep c c' row (inl (old, same)) = rw same (omega arith)
measure_of_visited deps dep c c' row (inr (new, queue, seen)) =
    rw queue (rw seen (omega (arith, unseen_less deps dep.task_id c.seen row new)))

HasRow-weaken :
    (d : TaskDependencyRecord) (ds xs : List TaskDependencyRecord)
    → All (HasRow ds) xs
    → All (HasRow (d ∷ ds)) xs
HasRow-weaken d ds [] h = tt
HasRow-weaken d ds (x ∷ xs) h = (ground arith, HasRow-weaken d ds xs h.1)

rows_of_self : (ds : List TaskDependencyRecord) → All (HasRow ds) ds
rows_of_self [] = tt
rows_of_self (d ∷ ds) =
    (ground (arith, eq_iff d.task_id d.task_id), HasRow-weaken d ds ds (rows_of_self ds))

pub dependents-HasRow : (id : String) (db : Db) → All (HasRow db.dependencies) (dependents_of id db)
unfolding dependents_of
dependents-HasRow id db =
    All-order_by _ (HasRow db.dependencies) _
      (All-select (HasRow db.dependencies) _ db.dependencies (rows_of_self db.dependencies))

module _ ⦃env : Env⦄ where
  pub measure-visit_dependents :
      (all : List TaskDependencyRecord) (root : String) (deps : List TaskDependencyRecord)
      (c : Cascade) (db : Db) {c' : Cascade}
      → All (HasRow all) deps
      → (visit_dependents root deps c db).0 ≡ ok c'
      → measure all c' ≤ measure all c
  unfolding visit_dependents
  measure-visit_dependents all root [] c db rows h = unfold ◌>>=◌ in ground arith
  measure-visit_dependents all root (dep ∷ deps) c db {c'} rows h =
      let (c₁, first, rest) = bind_ok (visit_dependent root dep c) _ db h in
      let one =
        measure_of_visited all dep c c₁ rows.0 (visit_dependent_visits root dep c db first) in
      let more = measure-visit_dependents all root deps c₁ _ rows.1 rest in omega (arith, one, more)

  -- One round, where the rounds after it agree.
  round-same :
      (m n : ℕ) (root current : String) (rest : List String) (c : Cascade) (db : Db)
      → c.queue ≡ current ∷ rest
      → Distinct task_key db.tasks
      → measure db.dependencies c < suc m
      → measure db.dependencies c < suc n
      → ((c₁ : Cascade) (db₁ : Db)
          → Distinct task_key db₁.tasks
          → measure db₁.dependencies c₁ < m
          → measure db₁.dependencies c₁ < n
          → cascade_loop m root c₁ db₁ ≡ cascade_loop n root c₁ db₁)
      → cascade_loop (suc m) root c db ≡ cascade_loop (suc n) root c db
  unfolding cascade_loop
  round-same m n root current rest c db e d h k ih =
      let c₀ : Cascade = record c { queue = rest } in
      let deps = dependents_of current db in
      elim (Result-cases (visit_dependents root deps c₀ db).0) [
        | inr (x, failed) ↦ unfold ◌>>=◌ in rw e (rw failed refl)
        | inl (c₁, done) ↦
            (let db₁ = (visit_dependents root deps c₀ db).1 in
              let changes = ((visit_dependents-Keeps root deps c₀).at db).at_distinct d in
              let less =
                measure-visit_dependents db.dependencies root deps c₀ db
                  (dependents-HasRow current db) done in
              let shorter : measure db.dependencies c ≡ suc (measure db.dependencies c₀) =
                rw e (omega arith) in
              let same =
                ih c₁ db₁ (Distinct-Changes changes d)
                  (rw changes.dependencies (omega (arith, h, less, shorter)))
                  (rw changes.dependencies (omega (arith, k, less, shorter))) in
              unfold ◌>>=◌ in rw e (rw done same))
      ]

  -- Two amounts of fuel above the measure give the same run.
  loop-same :
      (m n : ℕ) (root : String) (c : Cascade) (db : Db)
      → Distinct task_key db.tasks
      → measure db.dependencies c < m
      → measure db.dependencies c < n
      → cascade_loop m root c db ≡ cascade_loop n root c db
  unfolding cascade_loop
  loop-same zero n root c db d h k = ground arith
  loop-same (suc m) zero root c db d h k = ground arith
  loop-same (suc m) (suc n) root c db d h k = let ih = loop-same m n root in go c.queue refl ih
    where
      go :
          (q : List String)
          → c.queue ≡ q
          → ((c₁ : Cascade) (db₁ : Db)
              → Distinct task_key db₁.tasks
              → measure db₁.dependencies c₁ < m
              → measure db₁.dependencies c₁ < n
              → cascade_loop m root c₁ db₁ ≡ cascade_loop n root c₁ db₁)
          → cascade_loop (suc m) root c db ≡ cascade_loop (suc n) root c db
      go [] e ih = rw e refl
      go (current ∷ rest) e ih = round-same m n root current rest c db e d h k ih

  pub unseen_none : (ds : List TaskDependencyRecord) → unseen ds [] ≡ length ds
  unseen_none [] = refl
  unseen_none (d ∷ ds) = ground (arith, unseen_none ds)

  -- The fuel of the cascade is enough: with any more of it the loop does the same, errors included,
  -- where the ids of the stored tasks are distinct.
  pub cascade_loop-enough :
      (more : ℕ) (root : String) (db : Db)
      → Distinct task_key db.tasks
      → cascade_loop (cascade_fuel db + more) root (cascade_start root) db
        ≡ cascade_loop (cascade_fuel db) root (cascade_start root) db
  cascade_loop-enough more root db d =
      let n = unseen_none db.dependencies in
      loop-same (cascade_fuel db + more) (cascade_fuel db) root (cascade_start root) db d
        (omega (arith, n)) (omega (arith, n))
