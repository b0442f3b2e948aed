-- ===== src/Orchestrator/Moves/RunEvents.antt =====
-- Run events move the tables as the orchestrator may.
use morpho_research_os.Prelude.{
  String, Bool, true, false, not, some, List, [], ◌∷◌, ◌≡◌, refl, arith, str_eq, All, All-select,
  if◌then◌else◌, Option-cases, inl, inr, ◌∙◌,
}
use morpho_research_os.Prelude.Order.{All-order_by}
use morpho_research_os.Errors.{ok, pure, gets, ◌>>=◌, ◌>>◌, state_of_pure}
use morpho_research_os.Env.{Env}
use morpho_research_os.Keeps.{
  Keeps, bind_at, bind_lift_at, bind_gets_at, if_at, Keeps-pure, Keeps-bind,
}
use morpho_research_os.Repositories.Rows.{row, row-modify, modify, Distinct}
use morpho_research_os.Repositories.Rows.Fresh.{rows_found, Distinct-select, Distinct-order_by}
use morpho_research_os.Repositories.Tables.{Db, TaskRecord, RunRecord}
use morpho_research_os.Repositories.Tasks
use morpho_research_os.Repositories.Tasks.{task_key, list_for_run}
use morpho_research_os.Orchestrator.TaskStatus
use morpho_research_os.Orchestrator.TaskStatus.{TaskStatus, can_transition}
use morpho_research_os.Orchestrator.RunStatus.{RunStatus}
use morpho_research_os.Orchestrator.Event.{CanonicalEvent}
use morpho_research_os.Orchestrator.Transition.{parse_task_status}
use morpho_research_os.Orchestrator.RunEvent.{move_tasks, adjust_tasks, run_event}
use morpho_research_os.Orchestrator.Moves.{Moves, Moves-preorder}
use morpho_research_os.Orchestrator.Moves.Writes.{known, claim_for_run-Keeps}
use morpho_research_os.Orchestrator.Moves.RunWrites.{update_run_status-Keeps}
use morpho_research_os.Orchestrator.Moves.Steps.{move_rules, update_loaded}

-- The rows of the list are the rows that the table holds under their ids.
abbrev Found : Db → List TaskRecord → Type 0
Found db ts = All (λ t. Tasks.get t.id db ≡ some t) ts

list_for_run-Found :
    (run_id : String) (db : Db)
    → Distinct task_key db.tasks
    → Found db (list_for_run run_id db) × Distinct task_key (list_for_run run_id db)
unfolding list_for_run Tasks.get
list_for_run-Found run_id db d = (
  All-order_by _ _ _ (All-select _ _ db.tasks (rows_found task_key db.tasks d)),
  Distinct-order_by task_key _ _ (Distinct-select task_key _ db.tasks d),
)

resume_legal :
    (s : TaskStatus)
    → TaskStatus.eq s TaskStatus.paused ≡ true
    → can_transition s TaskStatus.running ≡ ok tt
unfolding can_transition
resume_legal s h = ground arith

pause_legal :
    (s : TaskStatus)
    → TaskStatus.eq s TaskStatus.running ≡ true
    → can_transition s TaskStatus.paused ≡ ok tt
unfolding can_transition
pause_legal s h = ground arith

cancel_legal :
    (s : TaskStatus)
    → not (TaskStatus.is_terminal s) ≡ true
    → can_transition s TaskStatus.cancelled ≡ ok tt
unfolding can_transition TaskStatus.is_terminal
cancel_legal s h = ground arith

module _ ⦃env : Env⦄ where
  open env use {Value}

  -- A write under another id leaves a row alone.
  get-update_row :
      (id j : String) (f : TaskRecord → TaskRecord) (db : Db)
      → ((t : TaskRecord) → (f t).id ≡ t.id)
      → str_eq id j ≡ false
      → Tasks.get j (Tasks.update_row id f db).1 ≡ Tasks.get j db
  unfolding Tasks.update_row
  get-update_row id j f db k n = elim (Option-cases (Tasks.get id db)) [
    | inl e ↦ rw (e, Tasks.update_row) other
    | inr (t, e) ↦ rw (e, Tasks.update_row) other
  ]
    where
      other :
          row task_key j
            (modify task_key id (λ t. record (f t) { updated_at = env.clock db.reads }) db.tasks)
          ≡ row task_key j db.tasks
      other = row-modify task_key _ id j db.tasks k ∙ (rw n)

  get-update_status :
      (id j : String) (to : TaskStatus) (db : Db)
      → str_eq id j ≡ false
      → Tasks.get j (Tasks.update_status id (TaskStatus.as_str to) db).1 ≡ Tasks.get j db
  unfolding Tasks.update_status
  get-update_status id j to db n =
      rw (known to)
        (get-update_row id j (λ t. record t { status = TaskStatus.as_str to }) db (λ t. refl) n)

  Found-update_status :
      (id : String) (to : TaskStatus) (db : Db) (ts : List TaskRecord)
      → All (λ t. str_eq id t.id ≡ false) ts
      → Found db ts
      → Found (Tasks.update_status id (TaskStatus.as_str to) db).1 ts
  Found-update_status id to db [] n f = tt
  Found-update_status id to db (t ∷ ts) n f =
      (get-update_status id t.id to db n.0 ∙ f.0, Found-update_status id to db ts n.1 f.1)

  -- The loop over a run's tasks, when the table allows the step for every status that is moved.
  move_tasks-Moves :
      (test : TaskStatus → Bool) (to : TaskStatus)
      → ((s : TaskStatus) → test s ≡ true → can_transition s to ≡ ok tt)
      → (ts : List TaskRecord) (db : Db) → Found db ts
      → Distinct task_key ts
      → Moves db (move_tasks test to ts db).1
  unfolding move_tasks
  move_tasks-Moves test to legal [] db f d = (Keeps-pure Moves-preorder _).at db
  move_tasks-Moves test to legal (t ∷ ts) db f d =
      bind_lift_at Moves-preorder (parse_task_status t.status) _ db λ status parsed.
        bind_at Moves-preorder _ _ db
          (if_at Moves-preorder (test status) _ _ db
            (λ e.
              bind_at Moves-preorder _ _ db (update_loaded t.id to db f.0 parsed (legal status e))
                (λ _ _. (Keeps-pure Moves-preorder _).at _))
            (λ _. (Keeps-pure Moves-preorder _).at db))
          (λ _ _. move_tasks-Moves test to legal ts _ (later (test status)) d.1)
    where
      later :
          (b : Bool)
          → Found
              ((if b then (Tasks.update_status t.id (TaskStatus.as_str to) >> pure tt) else pure tt)
                db).1
              ts
      later true = rw state_of_pure (Found-update_status t.id to db ts d.0 f.1)
      later false = unfold ◌>>=◌ in f.1

  -- The loop over the tasks that a query has just returned.
  move_listed-Keeps :
      (run_id : String) (test : TaskStatus → Bool) (to : TaskStatus)
      → ((s : TaskStatus) → test s ≡ true → can_transition s to ≡ ok tt)
      → Keeps Moves (gets (list_for_run run_id) >>= move_tasks test to)
  move_listed-Keeps run_id test to legal = record {
    at = λ db. record {
      at_distinct = λ d.
          let (found, distinct) = list_for_run-Found run_id db d in
          (bind_gets_at Moves-preorder (list_for_run run_id) (move_tasks test to) db (
              move_tasks-Moves test to legal (list_for_run run_id db) db found
                distinct)).at_distinct
            d;
    };
  }

  adjust_tasks-Keeps :
      (run : RunRecord) (target : RunStatus) → Keeps Moves (adjust_tasks run target)
  unfolding adjust_tasks
  adjust_tasks-Keeps run RunStatus.running =
      Keeps-bind Moves-preorder _ _ (claim_for_run-Keeps run.plan_id run.id)
        (λ _. move_listed-Keeps run.id _ TaskStatus.running resume_legal)
  adjust_tasks-Keeps run RunStatus.paused = move_listed-Keeps run.id _ TaskStatus.paused pause_legal
  adjust_tasks-Keeps run RunStatus.cancelled =
      move_listed-Keeps run.id _ TaskStatus.cancelled cancel_legal
  adjust_tasks-Keeps run _ = Keeps-pure Moves-preorder tt

  pub run_event-Keeps :
      (event : CanonicalEvent Value) (target : RunStatus) → Keeps Moves (run_event event target)
  unfolding run_event
  run_event-Keeps event target =
      search (move_rules, update_run_status-Keeps, adjust_tasks-Keeps) depth 12
