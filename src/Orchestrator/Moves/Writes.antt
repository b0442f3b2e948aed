-- ===== src/Orchestrator/Moves/Writes.antt =====
-- Each write of the repositories moves the tables as the orchestrator may.
use morpho_research_os.Prelude.{
  ℕ, suc, ◌+◌, String, true, Option, none, some, List, [], ◌∷◌, ◌≡◌, refl, sym, ◌∙◌, arith, inl,
  inr, Bool-cases, Option-cases, any, ap, map, if◌then◌else◌, str_eq,
}
use morpho_research_os.Env.{Env}
use morpho_research_os.Keeps.{Keeps}
use morpho_research_os.Repositories.Rows.{Rows, end, next, Rows-refl, Rows-modify, modify}
use morpho_research_os.Repositories.Tables.{Db, TaskRecord}
use morpho_research_os.Repositories.Tasks
use morpho_research_os.Repositories.Tasks.{task_key}
use morpho_research_os.Orchestrator.TaskStatus
use morpho_research_os.Orchestrator.TaskStatus.{TaskStatus, can_transition}
use morpho_research_os.Orchestrator.Moves.{
  StatusMoves, same, TaskMoves, TaskMoves-refl, RunMoves-refl, Moves,
}

touch : (n : ℕ) {t u : TaskRecord} → TaskMoves t u → TaskMoves t (record u { updated_at = n })
touch n h = record {
  id = h.id;
  plan_id = h.plan_id;
  section_id = h.section_id;
  title = h.title;
  task_type = h.task_type;
  idempotency_key = h.idempotency_key;
  retry_count = h.retry_count;
  run_id = h.run_id;
  status = h.status;
}

-- The columns that `TaskMoves` speaks of.
abbrev columns :
    TaskRecord
    → (String × String × Option String × String × String × String × ℕ × Option String × String)
columns t = (
  t.id, t.plan_id, t.section_id, t.title, t.task_type, t.idempotency_key, t.retry_count, t.run_id,
  t.status,
)

TaskMoves-columns : (t u : TaskRecord) → columns u ≡ columns t → TaskMoves t u
TaskMoves-columns t u e = record {
  id = ap (λ c. c.0) e;
  plan_id = ap (λ c. c.1) e;
  section_id = ap (λ c. c.2) e;
  title = ap (λ c. c.3) e;
  task_type = ap (λ c. c.4) e;
  idempotency_key = ap (λ c. c.5) e;
  retry_count = let n : t.retry_count ≡ u.retry_count = sym (ap (λ c. c.6) e) in omega arith;
  run_id = λ r h. ap (λ c. c.7) e ∙ h;
  status = same (ap (λ c. c.8) e);
}

TaskMoves-status :
    (t : TaskRecord) (s : String) → StatusMoves t.status s → TaskMoves t (record t { status = s })
TaskMoves-status t s h = record {
  id = refl;
  plan_id = refl;
  section_id = refl;
  title = refl;
  task_type = refl;
  idempotency_key = refl;
  retry_count = omega arith;
  run_id = λ r e. e;
  status = h;
}

TaskMoves-retry : (t : TaskRecord) → TaskMoves t (record t { retry_count = t.retry_count + 1 })
TaskMoves-retry t = record {
  id = refl;
  plan_id = refl;
  section_id = refl;
  title = refl;
  task_type = refl;
  idempotency_key = refl;
  retry_count = omega arith;
  run_id = λ r e. e;
  status = same refl;
}

-- Every status is one that the repository accepts.
pub known : (s : TaskStatus) → any (λ x. str_eq x (TaskStatus.as_str s)) Tasks.task_states ≡ true
unfolding TaskStatus.as_str
known TaskStatus.pending = refl
known _ = refl

-- What `claim_for_run` does to one row.
abbrev claim : String → String → ℕ → TaskRecord → TaskRecord
claim plan_id run_id now t =
    if Tasks.is_claimable plan_id t then record t { run_id = some run_id; updated_at = now } else t

claim_unassigned :
    (plan_id r : String) (t : TaskRecord)
    → Tasks.is_claimable plan_id t ≡ true
    → t.run_id ≡ some r
    → ⊥
claim_unassigned plan_id r t h e = ground arith

claim-TaskMoves :
    (plan_id run_id : String) (now : ℕ) (t : TaskRecord) → TaskMoves t (claim plan_id run_id now t)
claim-TaskMoves plan_id run_id now t = elim (Bool-cases (Tasks.is_claimable plan_id t)) [
  | inl e ↦ rw e (record {
    id = refl;
    plan_id = refl;
    section_id = refl;
    title = refl;
    task_type = refl;
    idempotency_key = refl;
    retry_count = omega arith;
    run_id = λ r a. absurd (claim_unassigned plan_id r t e a);
    status = same refl;
  })
  | inr e ↦ rw e (TaskMoves-refl t)
]

claim-Rows :
    (plan_id run_id : String) (now : ℕ) (ts : List TaskRecord)
    → Rows TaskMoves ts (map (claim plan_id run_id now) ts)
claim-Rows plan_id run_id now [] = end
claim-Rows plan_id run_id now (t ∷ ts) =
    next (claim-TaskMoves plan_id run_id now t) (claim-Rows plan_id run_id now ts)

module _ ⦃env : Env⦄ where
  pub update_row-Moves :
      (id : String) (f : TaskRecord → TaskRecord) (db : Db)
      → ((t : TaskRecord) → Tasks.get id db ≡ some t → TaskMoves t (f t))
      → Moves db (Tasks.update_row id f db).1
  unfolding Tasks.update_row
  update_row-Moves id f db h = elim (Option-cases (Tasks.get id db)) [
    | inl e ↦ rw (e, Tasks.update_row) moves
    | inr (t, e) ↦ rw (e, Tasks.update_row) moves
  ]
    where
      moves : Moves db (record db {
        tasks = modify task_key id (λ t. record (f t) { updated_at = env.clock db.reads }) db.tasks;
        reads = suc db.reads;
      })
      moves = record {
        at_distinct = λ _. record {
          tasks = Rows-modify task_key _ id db.tasks TaskMoves-refl (λ t e. touch _ (h t e));
          runs = Rows-refl RunMoves-refl db.runs;
          dependencies = refl;
          events = refl;
        };
      }

  -- A write that changes none of the columns of `TaskMoves`.
  pub update_row-Keeps :
      (id : String) (f : TaskRecord → TaskRecord)
      → ((t : TaskRecord) → TaskMoves t (f t))
      → Keeps Moves (Tasks.update_row id f)
  update_row-Keeps id f h = record { at = λ db. update_row-Moves id f db (λ t _. h t) }

  plain_write :
      (id : String) (f : TaskRecord → TaskRecord)
      → ((t : TaskRecord) → columns (f t) ≡ columns t)
      → Keeps Moves (Tasks.update_row id f)
  plain_write id f h = update_row-Keeps id f (λ t. TaskMoves-columns t (f t) (h t))

  pub set_checkpoint-Keeps : (id v : String) → Keeps Moves (Tasks.set_checkpoint id v)
  unfolding Tasks.set_checkpoint
  set_checkpoint-Keeps id v = plain_write id (λ t. record t { checkpoint = some v }) (λ t. refl)

  pub clear_checkpoint-Keeps : (id : String) → Keeps Moves (Tasks.clear_checkpoint id)
  unfolding Tasks.clear_checkpoint
  clear_checkpoint-Keeps id = plain_write id (λ t. record t { checkpoint = none }) (λ t. refl)

  pub set_result-Keeps : (id v : String) → Keeps Moves (Tasks.set_result id v)
  unfolding Tasks.set_result
  set_result-Keeps id v = plain_write id (λ t. record t { result_ref = some v }) (λ t. refl)

  pub set_error-Keeps : (id v : String) → Keeps Moves (Tasks.set_error id v)
  unfolding Tasks.set_error
  set_error-Keeps id v = plain_write id (λ t. record t { error_ref = some v }) (λ t. refl)

  pub clear_error-Keeps : (id : String) → Keeps Moves (Tasks.clear_error id)
  unfolding Tasks.clear_error
  clear_error-Keeps id = plain_write id (λ t. record t { error_ref = none }) (λ t. refl)

  pub set_skip_reason-Keeps : (id v : String) → Keeps Moves (Tasks.set_skip_reason id v)
  unfolding Tasks.set_skip_reason
  set_skip_reason-Keeps id v = plain_write id (λ t. record t { skip_reason = some v }) (λ t. refl)

  pub record_retry-Keeps : (id : String) → Keeps Moves (Tasks.record_retry id)
  unfolding Tasks.record_retry
  record_retry-Keeps id =
      update_row-Keeps id (λ t. record t { retry_count = t.retry_count + 1 }) TaskMoves-retry

  -- A status write moves the tables as it moves the row that it is about.
  pub update_status-Moves :
      (id : String) (target : TaskStatus) (db : Db)
      → ((t : TaskRecord)
          → Tasks.get id db ≡ some t
          → StatusMoves t.status (TaskStatus.as_str target))
      → Moves db (Tasks.update_status id (TaskStatus.as_str target) db).1
  unfolding Tasks.update_status
  update_status-Moves id target db h =
      rw (known target) (update_row-Moves id _ db (λ t e. TaskMoves-status t _ (h t e)))

  pub claim_for_run-Keeps :
      (plan_id run_id : String) → Keeps Moves (Tasks.claim_for_run plan_id run_id)
  unfolding Tasks.claim_for_run
  claim_for_run-Keeps plan_id run_id = record {
    at = λ db. record {
      at_distinct = λ _. record {
        tasks = claim-Rows plan_id run_id (env.clock db.reads) db.tasks;
        runs = Rows-refl RunMoves-refl db.runs;
        dependencies = refl;
        events = refl;
      };
    };
  }
