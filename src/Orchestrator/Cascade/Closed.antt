-- ===== src/Orchestrator/Cascade/Closed.antt =====
-- A task that the cascade visits is not PENDING afterwards, and stays so.
use mathlib.Core.Path.{subst}
use morpho_research_os.Prelude.{
  ◌++◌, String, false, some, [], ◌∷◌, ◌≡◌, refl, sym, ◌∙◌, arith, inl, inr, str_eq, Bool-cases,
}
use morpho_research_os.Errors.{
  Result, ok, err, ◌>>=◌, ◌>>◌, pure, lift, lift_bind_ok, state_of_pure,
}
use morpho_research_os.Env.{Env}
use morpho_research_os.Repositories.Rows.{row-Rows}
use morpho_research_os.Repositories.Tables.{Db, TaskRecord, TaskDependencyRecord}
use morpho_research_os.Repositories.Tasks
use morpho_research_os.Repositories.Tasks.{task_key}
use morpho_research_os.Repositories.Tasks.Laws.{
  changed, after, get-after, update_row_found, to_status, update_status_found,
}
use morpho_research_os.Orchestrator.TaskStatus.{
  TaskStatus, pending, eq, parse, as_str, can_transition,
}
use morpho_research_os.Orchestrator.TaskStatus.Laws.{
  Reaches, here, step, as_str-parse, eq→≡, eq_refl,
}
use morpho_research_os.Orchestrator.Transition.{load_task, parse_task_status}
use morpho_research_os.Orchestrator.Transition.Laws.{load_bind_ok, parse_of_ok}
use morpho_research_os.Orchestrator.Moves.{StatusMoves, same, moved, Changes}
use morpho_research_os.Orchestrator.Cascade.{Cascade, is_seen, fail_dependent, visit_dependent}

-- The task is stored, and its status is not PENDING.
abbrev pub IsClosed : Db → String → Type 0
IsClosed db id = (t : TaskRecord) × (Tasks.get id db ≡ some t) × (str_eq t.status "PENDING" ≡ false)

pending_after : (a : TaskStatus) → can_transition a pending ≡ ok tt → a ≡ pending
unfolding can_transition
pending_after a h = ground arith

Reaches-pending : {a b : TaskStatus} → Reaches a b → b ≡ pending → a ≡ pending
Reaches-pending here e = e
Reaches-pending {a} (step {b = m} h p) e =
    let k : m ≡ pending = Reaches-pending p e in pending_after a (rw k at h)

pending_text : (a : TaskStatus) → str_eq (as_str a) "PENDING" ≡ eq a pending
unfolding as_str eq
pending_text pending = refl
pending_text _ = refl

-- A stored status is PENDING when it reads as that.
parse_pending : (s : String) (a : TaskStatus) → parse s ≡ some a → str_eq s "PENDING" ≡ eq a pending
parse_pending s a p = rw (sym (as_str-parse s a p)) (pending_text a)

Reaches-closed : {a b : TaskStatus} → Reaches a b → eq a pending ≡ false → eq b pending ≡ false
Reaches-closed {a} {b} path h = elim (Bool-cases (eq b pending)) [
  | inr not_so ↦ not_so
  | inl is ↦
      (let e : a ≡ pending = Reaches-pending path (eq→≡ b pending is) in
        ground (arith, eq_refl pending, h, e))
]

StatusMoves-closed :
    {s t : String} → StatusMoves s t → str_eq s "PENDING" ≡ false → str_eq t "PENDING" ≡ false
StatusMoves-closed (same e) h = rw e h
StatusMoves-closed {s} {t} (moved b c p q path) h =
    parse_pending t c q ∙ Reaches-closed path (sym (parse_pending s b p) ∙ h)

pub Changes-IsClosed :
    {db db' : Db} (id : String) → Changes db db' → IsClosed db id → IsClosed db' id
unfolding Tasks.get
Changes-IsClosed id changes (t, found, h) =
    let (t', found', moves) = row-Rows task_key (λ x y m. m.id) id changes.tasks found in
    (t', found', StatusMoves-closed moves.status h)

load_of_get :
    (id : String) (db : Db) {t : TaskRecord}
    → Tasks.get id db ≡ some t
    → load_task id db ≡ (ok t, db)
unfolding load_task ◌>>=◌
load_of_get id db found = rw found refl

module _ ⦃env : Env⦄ where
  abbrev with_error : String → TaskRecord → TaskRecord
  with_error detail t = record t { error_ref = some detail }

  detail-IsClosed :
      (r : Result String) (id : String) (db : Db)
      → IsClosed db id
      → IsClosed ((lift r >>= λ d. Tasks.set_error id d >> pure tt) db).1 id
  unfolding ◌>>=◌ Tasks.set_error
  detail-IsClosed (err e) id db closed = closed
  detail-IsClosed (ok d) id db (t, found, h) =
      let set = update_row_found id (with_error d) db (λ _. refl) found in
      let kept = get-after id (with_error d) db (λ _. refl) found in
      rw set (changed (with_error d) db t, kept, h)

  fail_dependent-IsClosed :
      (root id : String) (db : Db) {t : TaskRecord}
      → Tasks.get id db ≡ some t
      → IsClosed (fail_dependent root id db).1 id
  unfolding fail_dependent ◌>>=◌ as_str
  fail_dependent-IsClosed root id db {t} found =
      let first = update_status_found id "FAILED" db refl found in
      let kept = get-after id (to_status "FAILED") db (λ _. refl) found in
      rw first (
        detail-IsClosed _ id (after id (to_status "FAILED") db)
          (changed (to_status "FAILED") db t, kept, refl))

  loaded-IsClosed :
      (root : String) (dep : TaskDependencyRecord) (c : Cascade) (db : Db) (t : TaskRecord)
      (s : TaskStatus)
      → is_seen dep.task_id c.seen ≡ false
      → Tasks.get dep.task_id db ≡ some t
      → parse_task_status t.status ≡ ok s
      → IsClosed (visit_dependent root dep c db).1 dep.task_id
  unfolding visit_dependent ◌>>=◌
  loaded-IsClosed root dep c db t s new found parsed =
      let loaded = load_of_get dep.task_id db found in
      elim (Bool-cases (eq s pending)) [
        | inl waiting ↦
            (let c' : Cascade = record c {
              failed_ids = c.failed_ids ++ dep.task_id ∷ [];
              seen = dep.task_id ∷ c.seen;
              queue = dep.task_id ∷ c.queue;
            } in
              let kept = state_of_pure (fail_dependent root dep.task_id) c' db in
              let closed : IsClosed ((fail_dependent root dep.task_id >> pure c') db).1
                  dep.task_id =
                subst (λ d. IsClosed d dep.task_id) (sym kept)
                  (fail_dependent-IsClosed root dep.task_id db found) in
              rw new (rw loaded (rw parsed (rw waiting closed))))
        | inr other ↦
            (let closed : IsClosed db dep.task_id =
                (t, found, parse_pending t.status s (parse_of_ok t.status parsed) ∙ other) in
              rw new (rw loaded (rw parsed (rw other closed))))
      ]

  -- A visit of a task that was not seen closes it.
  pub visit_dependent-IsClosed :
      (root : String) (dep : TaskDependencyRecord) (c : Cascade) (db : Db) {c' : Cascade}
      → (visit_dependent root dep c db).0 ≡ ok c'
      → is_seen dep.task_id c.seen ≡ false
      → IsClosed (visit_dependent root dep c db).1 dep.task_id
  unfolding visit_dependent
  visit_dependent-IsClosed root dep c db h new =
      let k = rw new at h in
      let (t, found, h₁) = load_bind_ok dep.task_id _ db k in
      let (s, parsed, _) = lift_bind_ok (parse_task_status t.status) _ db h₁ in
      loaded-IsClosed root dep c db t s new found parsed
