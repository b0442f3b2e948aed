-- ===== src/Orchestrator/Cascade/Reach.antt =====
-- The cascade reaches every task downstream of the failed one.
use mathlib.Core.Path.{subst}
use morpho_research_os.Prelude.{
  ℕ, zero, suc, ◌<◌, String, true, false, List, [], ◌∷◌, ◌≡◌, refl, sym, ◌∙◌, arith, ◌⊎◌, inl, inr,
  str_eq, eq_iff, Bool-cases, All,
}
use morpho_research_os.Errors.{ok, ◌>>=◌, bind_ok, gets_bind_ok}
use morpho_research_os.Env.{Env}
use morpho_research_os.Repositories.Rows.{Distinct}
use morpho_research_os.Repositories.Tables.{Db, TaskDependencyRecord}
use morpho_research_os.Repositories.Tasks.{task_key, dependents_of}
use morpho_research_os.Orchestrator.Moves.{Distinct-Changes}
use morpho_research_os.Orchestrator.Moves.Parts.{visit_dependents-Keeps}
use morpho_research_os.Orchestrator.Cascade.{
  Cascade, is_seen, visit_dependents, cascade_loop, cascade_start, cascade_fuel,
  cascade_dependency_failure,
}
use morpho_research_os.Orchestrator.Cascade.Closed.{IsClosed}
use morpho_research_os.Orchestrator.Cascade.Grown.{IsEdge, edge_seen, Grown, AllClosed, visits_grow}
use morpho_research_os.Orchestrator.Cascade.Fuel.{
  HasRow, measure, measure-visit_dependents, dependents-HasRow, unseen_none,
}

-- A task that waits for the failed one, directly or through other tasks in whatever state.
pub data Downstream (deps : List TaskDependencyRecord) (root : String) : String → Type 0 where
  direct : {y : String} → IsEdge deps root y → Downstream deps root y
  through : {x y : String} → Downstream deps root x → IsEdge deps x y → Downstream deps root y

abbrev IsReached : String → Cascade → String → Type 0
IsReached root c x = (str_eq x root ≡ true) ⊎ (is_seen x c.seen ≡ true)

-- Before each round: what was seen is closed, and a reached task is queued or all who wait for it
-- were seen.
record Inv (deps : List TaskDependencyRecord) (root : String) (c : Cascade) (db : Db) : Type 0 where
  distinct : Distinct task_key db.tasks
  same : db.dependencies ≡ deps
  closed : AllClosed db c
  edges :
      (x y : String)
      → IsReached root c x
      → IsEdge deps x y
      → (is_seen x c.queue ≡ true) ⊎ (is_seen y c.seen ≡ true)

-- The edges after a round on `current`.
round_edges :
    (deps : List TaskDependencyRecord) (root current : String) (rest : List String) (c c₁ : Cascade)
    → c.queue ≡ current ∷ rest
    → Grown (record c { queue = rest }) c₁
    → ((y : String) → IsEdge deps current y → is_seen y c₁.seen ≡ true)
    → ((x y : String)
        → IsReached root c x
        → IsEdge deps x y
        → (is_seen x c.queue ≡ true) ⊎ (is_seen y c.seen ≡ true))
    → (x y : String) → IsReached root c₁ x
    → IsEdge deps x y
    → (is_seen x c₁.queue ≡ true) ⊎ (is_seen y c₁.seen ≡ true)
round_edges deps root current rest c c₁ e grown done edges x y reached edge =
    elim (Bool-cases (str_eq current x)) [
      | inl this ↦
          inr (done y (subst (λ z. IsEdge deps z y) (sym ((eq_iff current x).0 this)) edge))
      | inr other ↦ elim reached [
        | inl is_root ↦ go other (edges x y (inl is_root) edge)
        | inr seen ↦ elim (grown.fresh x seen) [
          | inr queued ↦ inl queued
          | inl before ↦ go other (edges x y (inr before) edge)
        ]
      ]
    ]
  where
    go :
        str_eq current x ≡ false
        → (is_seen x c.queue ≡ true) ⊎ (is_seen y c.seen ≡ true)
        → (is_seen x c₁.queue ≡ true) ⊎ (is_seen y c₁.seen ≡ true)
    go other (inr before) = inr (grown.seen y before)
    go other (inl queued) = inl (grown.queue x (let k = rw e at queued in ground arith))

module _ ⦃env : Env⦄ where
  round-Inv :
      (root current : String) (rest : List String) (c c₁ : Cascade) (db : Db)
      (deps : List TaskDependencyRecord)
      → Inv deps root c db
      → c.queue ≡ current ∷ rest
      → (visit_dependents root (dependents_of current db) (record c { queue = rest }) db).0 ≡ ok c₁
      → Inv deps root c₁
          (visit_dependents root (dependents_of current db) (record c { queue = rest }) db).1
  round-Inv root current rest c c₁ db deps inv e done =
      let c₀ : Cascade = record c { queue = rest } in
      let next = dependents_of current db in
      let changes = ((visit_dependents-Keeps root next c₀).at db).at_distinct inv.distinct in
      let (grown, all, closed) = visits_grow root next c₀ db inv.distinct done inv.closed in
      record {
        distinct = Distinct-Changes changes inv.distinct;
        same = changes.dependencies ∙ inv.same;
        closed = closed;
        edges =
            round_edges deps root current rest c c₁ e grown
              (λ y edge. edge_seen current y c₁.seen db all (rw inv.same edge)) inv.edges;
      }

  -- A round that succeeds goes on from the variables after its visits.
  round_ok :
      (n : ℕ) (root current : String) (rest : List String) (c : Cascade) (db : Db) {c' : Cascade}
      → c.queue ≡ current ∷ rest
      → (cascade_loop (suc n) root c db).0 ≡ ok c'
      → (c₁ : Cascade) × ((visit_dependents root
            (dependents_of current db)
            (record c { queue = rest })
            db).0
          ≡ ok c₁)
        × (cascade_loop (suc n) root c db
            ≡ cascade_loop n root c₁
                (visit_dependents root (dependents_of current db) (record c { queue = rest }) db).1)
  unfolding cascade_loop
  round_ok n root current rest c db e h =
      let c₀ : Cascade = record c { queue = rest } in
      let k = rw e at h in
      let k₁ = gets_bind_ok (dependents_of current) _ db k in
      let (c₁, done, more) =
        bind_ok (visit_dependents root (dependents_of current db) c₀) _ db k₁ in
      (c₁, done, unfold ◌>>=◌ in rw e (rw done refl))

  less_after :
      (root current : String) (rest : List String) (c c₁ : Cascade) (db : Db)
      (deps : List TaskDependencyRecord) (n : ℕ)
      → c.queue ≡ current ∷ rest
      → db.dependencies ≡ deps
      → (visit_dependents root (dependents_of current db) (record c { queue = rest }) db).0 ≡ ok c₁
      → measure deps c < suc n
      → measure deps c₁ < n
  less_after root current rest c c₁ db deps n e same done less =
      let c₀ : Cascade = record c { queue = rest } in
      let rows =
        subst (λ d. All (HasRow d) (dependents_of current db)) same
          (dependents-HasRow current db) in
      let down = measure-visit_dependents deps root (dependents_of current db) c₀ db rows done in
      let shorter : measure deps c ≡ suc (measure deps c₀) = rw e (omega arith) in
      omega (arith, less, down, shorter)

  last_round :
      (n : ℕ) (root : String) (c : Cascade) (db : Db) (deps : List TaskDependencyRecord)
      (c' : Cascade)
      → c.queue ≡ []
      → Inv deps root c db
      → (cascade_loop (suc n) root c db).0 ≡ ok c'
      → Inv deps root c' (cascade_loop (suc n) root c db).1 × (c'.queue ≡ [])
  unfolding cascade_loop ◌>>=◌
  last_round n root c db deps c' e inv h =
      let k = rw e at h in let same : c ≡ c' = ground arith in rw e (rw (← same) (inv, e))

  -- The loop ends with an empty queue.
  loop-Inv :
      (n : ℕ) (root : String) (c : Cascade) (db : Db) (deps : List TaskDependencyRecord)
      (c' : Cascade)
      → measure deps c < n
      → Inv deps root c db
      → (cascade_loop n root c db).0 ≡ ok c'
      → Inv deps root c' (cascade_loop n root c db).1 × (c'.queue ≡ [])
  loop-Inv zero root c db deps c' less inv h = ground arith
  loop-Inv (suc n) root c db deps c' less inv h =
      let ih = loop-Inv n root in
      go c.queue refl (λ c₁ db₁ less₁ inv₁ h₁. ih c₁ db₁ deps c' less₁ inv₁ h₁)
    where
      go :
          (q : List String)
          → c.queue ≡ q
          → ((c₁ : Cascade) (db₁ : Db)
              → measure deps c₁ < n
              → Inv deps root c₁ db₁
              → (cascade_loop n root c₁ db₁).0 ≡ ok c'
              → Inv deps root c' (cascade_loop n root c₁ db₁).1 × (c'.queue ≡ []))
          → Inv deps root c' (cascade_loop (suc n) root c db).1 × (c'.queue ≡ [])
      go [] e ih = last_round n root c db deps c' e inv h
      go (current ∷ rest) e ih =
          let (c₁, done, run) = round_ok n root current rest c db e h in
          rw run (
            ih c₁ _ (less_after root current rest c c₁ db deps n e inv.same done less)
              (round-Inv root current rest c c₁ db deps inv e done) (rw run at h))

  -- Everything downstream was seen when the queue is empty.
  Downstream-seen :
      (deps : List TaskDependencyRecord) (root : String) (c : Cascade) (db : Db)
      → Inv deps root c db
      → c.queue ≡ []
      → {y : String} → Downstream deps root y
      → is_seen y c.seen ≡ true
  Downstream-seen deps root c db inv e {y} (direct edge) =
      elim (inv.edges root y (inl ((eq_iff root root).1 refl)) edge) [
        | inl queued ↦ (let k = rw e at queued in cc)
        | inr seen ↦ seen
      ]
  Downstream-seen deps root c db inv e {y} (through {x} down edge) =
      elim (inv.edges x y (inr (Downstream-seen deps root c db inv e down)) edge) [
        | inl queued ↦ (let k = rw e at queued in cc)
        | inr seen ↦ seen
      ]

  start-Inv :
      (root : String) (db : Db)
      → Distinct task_key db.tasks
      → Inv db.dependencies root (cascade_start root) db
  start-Inv root db d = record {
    distinct = d;
    same = refl;
    closed = λ y h. cc;
    edges = λ x y reached edge. elim reached [
      | inl is_root ↦ inl (ground (arith, eq_iff x root, eq_iff root x))
      | inr none_seen ↦ cc
    ];
  }

  -- After a cascade that succeeds, every task downstream of the failed one, through tasks in whatever
  -- state, is stored with a status other than PENDING. The ids of the stored tasks are distinct.
  pub cascade-IsClosed :
      (root y : String) (db : Db) (ids : List String)
      → Distinct task_key db.tasks
      → (cascade_dependency_failure root db).0 ≡ ok ids
      → Downstream db.dependencies root y
      → IsClosed (cascade_dependency_failure root db).1 y
  unfolding cascade_dependency_failure
  cascade-IsClosed root y db ids d h down =
      let k = gets_bind_ok cascade_fuel _ db h in
      let loop = cascade_loop (cascade_fuel db) root (cascade_start root) in
      let (c, looped, _) = bind_ok loop _ db k in
      let count = unseen_none db.dependencies in
      let (inv, finished) =
        loop-Inv (cascade_fuel db) root (cascade_start root) db db.dependencies c
          (omega (arith, count)) (start-Inv root db d) looped in
      let after : (cascade_dependency_failure root db).1 ≡ (loop db).1 =
        unfold ◌>>=◌ in rw looped refl in
      rw after (inv.closed y (Downstream-seen db.dependencies root c (loop db).1 inv finished down))
