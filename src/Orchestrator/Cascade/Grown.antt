-- ===== src/Orchestrator/Cascade/Grown.antt =====
-- How the queue and the set of seen tasks grow while the dependents of one task are visited.
use morpho_research_os.Prelude.{
  String, true, ◌&&◌, List, [], ◌∷◌, ◌≡◌, refl, ◌∙◌, arith, ◌⊎◌, inl, inr, str_eq, eq_iff, any,
  select, any-order_by, All, Bool-cases,
}
use morpho_research_os.Errors.{ok, ◌>>=◌, bind_ok}
use morpho_research_os.Env.{Env}
use morpho_research_os.Repositories.Rows.{Distinct}
use morpho_research_os.Repositories.Tables.{Db, TaskDependencyRecord}
use morpho_research_os.Repositories.Tasks.{task_key, dependents_of}
use morpho_research_os.Orchestrator.Moves.{Changes, Distinct-Changes}
use morpho_research_os.Orchestrator.Moves.Parts.{visit_dependent-Keeps}
use morpho_research_os.Orchestrator.Cascade.{Cascade, is_seen, visit_dependent, visit_dependents}
use morpho_research_os.Orchestrator.Cascade.Visit.{IsVisited, visit_dependent_visits}
use morpho_research_os.Orchestrator.Cascade.Closed.{
  IsClosed, Changes-IsClosed, visit_dependent-IsClosed,
}

-- A dependency row makes the second task wait for the first.
abbrev pub IsEdge : List TaskDependencyRecord → String → String → Type 0
IsEdge deps x y = any (λ d. str_eq d.depends_on_task_id x && str_eq d.task_id y) deps ≡ true

any_edge :
    (x y : String) (deps : List TaskDependencyRecord)
    → any (λ d. str_eq d.task_id y) (select (λ d. str_eq d.depends_on_task_id x) deps)
      ≡ any (λ d. str_eq d.depends_on_task_id x && str_eq d.task_id y) deps
any_edge x y [] = refl
any_edge x y (d ∷ ds) = ground (arith, any_edge x y ds)

seen_of_All :
    (y : String) (seen : List String) (deps : List TaskDependencyRecord)
    → any (λ d. str_eq d.task_id y) deps ≡ true
    → All (λ d. is_seen d.task_id seen ≡ true) deps
    → is_seen y seen ≡ true
seen_of_All y seen [] h all = cc
seen_of_All y seen (d ∷ ds) h (one, rest) = elim (Bool-cases (str_eq d.task_id y)) [
  | inl e ↦ rw (← (eq_iff d.task_id y).0 e) one
  | inr e ↦ seen_of_All y seen ds (rw e at h) rest
]

-- Once the dependents of a task were seen, every task that waits for it was.
pub edge_seen :
    (x y : String) (seen : List String) (db : Db)
    → All (λ d. is_seen d.task_id seen ≡ true) (dependents_of x db)
    → IsEdge db.dependencies x y
    → is_seen y seen ≡ true
unfolding dependents_of
edge_seen x y seen db all edge =
    seen_of_All y seen (dependents_of x db)
      (any-order_by _ _ _ ∙ any_edge x y db.dependencies ∙ edge) all

pub record Grown (c c' : Cascade) : Type 0 where
  pub seen : (y : String) → is_seen y c.seen ≡ true → is_seen y c'.seen ≡ true
  pub queue : (y : String) → is_seen y c.queue ≡ true → is_seen y c'.queue ≡ true
  pub fresh :
      (y : String)
      → is_seen y c'.seen ≡ true
      → (is_seen y c.seen ≡ true) ⊎ (is_seen y c'.queue ≡ true)

Grown-refl : (c : Cascade) → Grown c c
Grown-refl c = record { seen = λ y h. h; queue = λ y h. h; fresh = λ y h. inl h }

Grown-trans : {a b c : Cascade} → Grown a b → Grown b c → Grown a c
Grown-trans g h = record {
  seen = λ y k. h.seen y (g.seen y k);
  queue = λ y k. h.queue y (g.queue y k);
  fresh = λ y k. elim (h.fresh y k) [
    | inr queued ↦ inr queued
    | inl before ↦ elim (g.fresh y before) [
      | inl old ↦ inl old
      | inr queued ↦ inr (h.queue y queued)
    ]
  ];
}

Grown-visited : (id : String) (c c' : Cascade) → IsVisited id c c' → Grown c c'
Grown-visited id c c' (inl (old, e)) = rw e (Grown-refl c)
Grown-visited id c c' (inr (new, queue, seen)) = record {
  seen = λ y h. rw seen (ground arith);
  queue = λ y h. rw queue (ground arith);
  fresh = λ y h. rw queue (let k = rw seen at h in ground arith);
}

seen_visited : (id : String) (c c' : Cascade) → IsVisited id c c' → is_seen id c'.seen ≡ true
seen_visited id c c' (inl (old, e)) = rw e old
seen_visited id c c' (inr (new, queue, seen)) = rw seen (ground (arith, eq_iff id id))

-- Every task that was seen is closed.
abbrev pub AllClosed : Db → Cascade → Type 0
AllClosed db c = (y : String) → is_seen y c.seen ≡ true → IsClosed db y

pub AllClosed-Changes :
    {db db' : Db} (c : Cascade) → Changes db db' → AllClosed db c → AllClosed db' c
AllClosed-Changes c changes closed y h = Changes-IsClosed y changes (closed y h)

module _ ⦃env : Env⦄ where
  visit-AllClosed :
      (root : String) (dep : TaskDependencyRecord) (c c' : Cascade) (db : Db)
      → Distinct task_key db.tasks
      → (visit_dependent root dep c db).0 ≡ ok c'
      → IsVisited dep.task_id c c'
      → AllClosed db c
      → AllClosed (visit_dependent root dep c db).1 c'
  visit-AllClosed root dep c c' db d done (inl (old, e)) closed y h =
      Changes-IsClosed y (((visit_dependent-Keeps root dep c).at db).at_distinct d)
        (closed y (rw e at h))
  visit-AllClosed root dep c c' db d done (inr (new, queue, seen)) closed y h =
      elim (Bool-cases (str_eq dep.task_id y)) [
        | inl this ↦
            rw (← (eq_iff dep.task_id y).0 this) (visit_dependent-IsClosed root dep c db done new)
        | inr other ↦
            (let k = rw seen at h in
              Changes-IsClosed y (((visit_dependent-Keeps root dep c).at db).at_distinct d)
                (closed y (ground arith)))
      ]

  -- The visits of all dependents of a task.
  pub visits_grow :
      (root : String) (deps : List TaskDependencyRecord) (c : Cascade) (db : Db) {c' : Cascade}
      → Distinct task_key db.tasks
      → (visit_dependents root deps c db).0 ≡ ok c'
      → AllClosed db c
      → Grown c c'
        × All (λ d. is_seen d.task_id c'.seen ≡ true) deps
        × AllClosed (visit_dependents root deps c db).1 c'
  unfolding visit_dependents
  visits_grow root [] c db {c'} d h closed =
      let e : c ≡ c' = unfold ◌>>=◌ in ground arith in
      unfold ◌>>=◌ in rw (← e) (Grown-refl c, tt, closed)
  visits_grow root (dep ∷ deps) c db {c'} d h closed =
      let (c₁, first, rest) = bind_ok (visit_dependent root dep c) _ db h in
      let visited = visit_dependent_visits root dep c db first in
      let changes = ((visit_dependent-Keeps root dep c).at db).at_distinct d in
      let now = visit-AllClosed root dep c c₁ db d first visited closed in
      let run : (visit_dependents root (dep ∷ deps) c db).1
          ≡ (visit_dependents root deps c₁ (visit_dependent root dep c db).1).1 =
        unfold ◌>>=◌ in rw first refl in
      let (grown, all, later) =
        visits_grow root deps c₁ (visit_dependent root dep c db).1 (Distinct-Changes changes d) rest
          now in
      (
        Grown-trans (Grown-visited dep.task_id c c₁ visited) grown,
        (grown.seen dep.task_id (seen_visited dep.task_id c c₁ visited), all),
        rw run later,
      )
