-- ===== src/Orchestrator/Gating/Laws.antt =====
-- A task starts only after its dependencies.
use morpho_research_os.Prelude.{
  String, Bool, true, false, some, List, [], ◌∷◌, ◌++◌, ◌≡◌, refl, arith, ◌⊎◌, ◌∙◌, ap, eq_iff,
  is_empty, All, if◌then◌else◌,
}
use morpho_research_os.Errors.{ok, ◌>>=◌, lift_bind_ok, bind_ok, gets_bind_ok, if_raise_ok}
use morpho_research_os.Repositories.Tables.{Db, TaskRecord, TaskDependencyRecord}
use morpho_research_os.Repositories.Tasks
use morpho_research_os.Repositories.Tasks.{dependencies_of}
use morpho_research_os.Orchestrator.TaskStatus.{TaskStatus, parse, completed, skipped, eq}
use morpho_research_os.Orchestrator.Transition.{parse_task_status}
use morpho_research_os.Orchestrator.Transition.Laws.{parse_of_ok, load_bind_ok}
use morpho_research_os.Orchestrator.Gating.{condition_satisfied, collect_blocking, ensure_startable}

-- The upstream task of a dependency exists and is completed, or skipped where the condition lets
-- a skipped task count.
abbrev pub IsSatisfied : Db → TaskDependencyRecord → Type 0
IsSatisfied db dep =
    (t : TaskRecord) × (s : TaskStatus) × (Tasks.get dep.depends_on_task_id db ≡ some t)
    × (parse t.status ≡ some s)
    × ((s ≡ completed) ⊎ ((s ≡ skipped) × (dep.condition ≡ "completed-or-skipped")))

condition_met :
    (condition : String) (s : TaskStatus)
    → condition_satisfied condition s ≡ ok true
    → (s ≡ completed) ⊎ ((s ≡ skipped) × (condition ≡ "completed-or-skipped"))
unfolding condition_satisfied eq
condition_met condition s h =
    ground (arith, eq_iff condition "completed", eq_iff condition "completed-or-skipped")

collect_blocking-All :
    (deps : List TaskDependencyRecord) (acc b : List String) (db : Db)
    → (collect_blocking deps acc db).0 ≡ ok b
    → is_empty b ≡ true
    → (is_empty acc ≡ true) × All (IsSatisfied db) deps
unfolding collect_blocking
collect_blocking-All [] acc b db h e = (unfold ◌>>=◌ in ground arith, tt)
collect_blocking-All (dep ∷ deps) acc b db h e =
    let (t, found, h₁) = load_bind_ok dep.depends_on_task_id _ db h in
    let (s, parsed, h₂) = lift_bind_ok (parse_task_status t.status) _ db h₁ in
    let (met, checked, h₃) = lift_bind_ok (condition_satisfied dep.condition s) _ db h₂ in
    let (none_before, rest) = collect_blocking-All deps _ b db h₃ e in
    let (is_met, empty) = split met acc _ none_before in
    (
      empty,
      (
        (
          t,
          s,
          found,
          parse_of_ok t.status parsed,
          condition_met dep.condition s (checked ∙ ap ok is_met),
        ),
        rest,
      ),
    )
  where
    split :
        (met : Bool) (acc : List String) (entry : String)
        → is_empty (if met then acc else acc ++ entry ∷ []) ≡ true
        → (met ≡ true) × (is_empty acc ≡ true)
    split true acc entry k = (refl, k)
    split false [] entry k = cc
    split false (x ∷ xs) entry k = cc

-- A task is startable only when every one of its dependencies is satisfied.
pub ensure_startable-All :
    (id : String) (db : Db)
    → (ensure_startable id db).0 ≡ ok tt
    → All (IsSatisfied db) (dependencies_of id db)
unfolding ensure_startable
ensure_startable-All id db h =
    let h₁ = gets_bind_ok (dependencies_of id) _ db h in
    let (b, collected, h₂) = bind_ok (collect_blocking (dependencies_of id db) []) _ db h₁ in
    (collect_blocking-All (dependencies_of id db) [] b db collected
      (if_raise_ok (is_empty b) _ _ _ h₂)).1
