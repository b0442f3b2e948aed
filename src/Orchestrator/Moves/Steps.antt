-- ===== src/Orchestrator/Moves/Steps.antt =====
-- The actions of the orchestrator move the tables as it may.
use morpho_research_os.Prelude.{String, none, some, ◌≡◌, sym, ◌∙◌}
use mathlib.Core.Option.{some-injective}
use mathlib.Core.Path.{subst}
use morpho_research_os.Errors.{ok, Action, pure, lift, ◌>>=◌, ◌>>◌}
use morpho_research_os.Env.{Env}
use morpho_research_os.Keeps.{
  Keeps, bind_at, bind_lift_at, bind_gets_at, if_at, Keeps-pure, Keeps-raise, Keeps-gets,
  Keeps-lift, Keeps-bind, Keeps-if, Keeps-option,
}
use morpho_research_os.Repositories.Tables.{Db, TaskRecord}
use morpho_research_os.Repositories.Tasks
use morpho_research_os.Orchestrator.TaskStatus
use morpho_research_os.Orchestrator.TaskStatus.{TaskStatus, can_transition}
use morpho_research_os.Orchestrator.TaskStatus.Laws.{here, step, parse-as_str}
use morpho_research_os.Orchestrator.Event.{CanonicalEvent, payload_str}
use morpho_research_os.Orchestrator.Transition.{
  load_task, parse_task_status, json_to_string, transition_task, persist_result_ref,
  persist_error_ref, payload_value,
}
use morpho_research_os.Orchestrator.Transition.Laws.{get_of_load, parse_of_ok}
use morpho_research_os.Orchestrator.Moves.{StatusMoves, moved, Moves, Moves-refl, Moves-preorder}
use morpho_research_os.Orchestrator.Moves.Writes.{
  update_status-Moves, set_result-Keeps, set_error-Keeps,
}

-- `load_task` reads.
pub load_task-Keeps : (id : String) → Keeps Moves (load_task id)
unfolding load_task
load_task-Keeps id = record { at = λ db. Moves-refl db }

pub ruleset move_rules = (
  Moves-preorder, Keeps-pure, Keeps-raise, Keeps-gets, Keeps-lift, Keeps-bind, Keeps-if,
  load_task-Keeps,
)

-- A step that the transition table accepts.
pub step-StatusMoves :
    (s : String) (a b : TaskStatus)
    → TaskStatus.parse s ≡ some a
    → can_transition a b ≡ ok tt
    → StatusMoves s (TaskStatus.as_str b)
step-StatusMoves s a b p h = moved a b p (parse-as_str b) (step h here)

pub bind_load_at :
    {A : Type 0} (id : String) (f : TaskRecord → Action Db A) (db : Db)
    → ((t : TaskRecord) → Tasks.get id db ≡ some t → Moves db (f t db).1)
    → Moves db ((load_task id >>= f) db).1
unfolding load_task
bind_load_at id f db k =
    bind_at Moves-preorder (load_task id) f db (Moves-refl db) (λ t e. k t (get_of_load id db e))

module _ ⦃env : Env⦄ where
  open env use {Value}

  -- The write of a status that the transition table accepts after the one that was loaded.
  pub update_loaded :
      (id : String) (target : TaskStatus) (db : Db) {t : TaskRecord} {from : TaskStatus}
      → Tasks.get id db ≡ some t
      → parse_task_status t.status ≡ ok from
      → can_transition from target ≡ ok tt
      → Moves db (Tasks.update_status id (TaskStatus.as_str target) db).1
  update_loaded id target db {t} {from} loaded parsed legal =
      update_status-Moves id target db λ u found.
        subst (λ x. StatusMoves x.status (TaskStatus.as_str target))
          (some-injective t u (sym loaded ∙ found))
          (step-StatusMoves t.status from target (parse_of_ok t.status parsed) legal)

  -- A task is moved only along the transition table.
  pub transition_task-Keeps :
      (id : String) (target : TaskStatus) → Keeps Moves (transition_task id target)
  unfolding transition_task
  transition_task-Keeps id target = record {
    at = λ db. bind_load_at id _ db λ t loaded.
        bind_lift_at Moves-preorder (parse_task_status t.status) _ db λ from parsed.
          bind_lift_at Moves-preorder (can_transition from target) _ db λ _ legal.
            if_at Moves-preorder (TaskStatus.eq from target) _ _ db
              (λ _. (Keeps-pure Moves-preorder _).at db)
              (λ _.
                bind_at Moves-preorder _ _ db (update_loaded id target db loaded parsed legal)
                  (λ _ _. (Keeps-pure Moves-preorder _).at _));
  }

  -- The reference columns.
  pub persist_result_ref-Keeps :
      (event : CanonicalEvent Value) (id : String) → Keeps Moves (persist_result_ref event id)
  unfolding persist_result_ref
  persist_result_ref-Keeps event id =
      Keeps-option (payload_str event "result_ref") (pure tt)
        (λ v. Tasks.set_result id v >> pure tt) (Keeps-pure Moves-preorder _)
        (λ v. search (move_rules, set_result-Keeps))

  pub persist_error_ref-Keeps :
      (event : CanonicalEvent Value) (id : String) → Keeps Moves (persist_error_ref event id)
  unfolding persist_error_ref
  persist_error_ref-Keeps event id =
      Keeps-option (payload_str event "error_ref")
        (elim (payload_value event "error") [ none ↦ pure tt | some error ↦ write_detail error ])
        (λ v. Tasks.set_error id v >> pure tt)
        (Keeps-option (payload_value event "error") (pure tt) write_detail
          (Keeps-pure Moves-preorder _) (λ v. search (move_rules, set_error-Keeps)))
        (λ v. search (move_rules, set_error-Keeps))
    where
      write_detail : Value → Action Db (Unit {0})
      write_detail error = lift (json_to_string error) >>= λ d. Tasks.set_error id d >> pure tt
