-- ===== src/Orchestrator/Projection.antt =====
-- What the orchestrator guarantees of one event and of any history of events.
use mathlib.Core.Option.{some-injective}
use morpho_research_os.Prelude.{String, true, some, List, [], ◌∷◌, ◌≡◌, sym, ◌∙◌, ap}
use morpho_research_os.Errors.{Result, ok, err}
use morpho_research_os.Env.{Env}
use morpho_research_os.Keeps.{Keeps}
use morpho_research_os.Repositories.Rows.{row-Rows, Distinct}
use morpho_research_os.Repositories.Tables.{Db, TaskRecord}
use morpho_research_os.Repositories.Transaction.{with_write_tx, end_tx}
use morpho_research_os.Repositories.Tasks
use morpho_research_os.Repositories.Tasks.{task_key}
use morpho_research_os.Orchestrator.TaskStatus.{TaskStatus, parse, is_terminal, as_str}
use morpho_research_os.Orchestrator.TaskStatus.Laws.{Reaches-of_terminal, as_str-parse}
use morpho_research_os.Orchestrator.Event.{CanonicalEvent, ApplyOutcome}
use morpho_research_os.Orchestrator.Apply.{apply_in_tx, apply_event}
use morpho_research_os.Orchestrator.Moves.{
  StatusMoves, same, moved, Moves, Moves-refl, Moves-trans, Changes,
}
use morpho_research_os.Orchestrator.Moves.Apply.{apply_in_tx-Keeps}

-- A terminal status that moves along the table is still the same status.
StatusMoves-of_terminal :
    {s t : String} {a : TaskStatus}
    → parse s ≡ some a
    → is_terminal a ≡ true
    → StatusMoves s t
    → t ≡ s
StatusMoves-of_terminal p h (same e) = e
StatusMoves-of_terminal {s} {t} {a} p h (moved b c q r path) =
    let e : a ≡ b = some-injective a b (sym p ∙ q) in
    let f : c ≡ b = Reaches-of_terminal (rw e at h) path in
    sym (as_str-parse t c r) ∙ ap as_str f ∙ as_str-parse s b q

module _ ⦃env : Env⦄ where
  open env use {Value}

  end_tx-Moves :
      (db after : Db) (r : Result ApplyOutcome) → Moves db after → Moves db (end_tx db (r, after)).1
  unfolding with_write_tx
  end_tx-Moves db after (ok a) m = m
  end_tx-Moves db after (err e) m = record {
    at_distinct = λ d.
        let c = (Moves-refl db).at_distinct d in
        record { tasks = c.tasks; runs = c.runs; dependencies = c.dependencies; events = c.events };
  }

  apply_event-Keeps : (event : CanonicalEvent Value) → Keeps Moves (apply_event event)
  unfolding apply_event with_write_tx
  apply_event-Keeps event = record {
    at = λ db.
        let (r, after) = apply_in_tx event db in
        end_tx-Moves db after r ((apply_in_tx-Keeps event).at db);
  }

  -- The database after the events were applied in turn, whether or not each was accepted.
  pub apply_all : List (CanonicalEvent Value) → Db → Db
  apply_all [] db = db
  apply_all (event ∷ events) db = apply_all events (apply_event event db).1

  apply_all-Moves :
      (events : List (CanonicalEvent Value)) (db : Db) → Moves db (apply_all events db)
  unfolding apply_all
  apply_all-Moves [] db = Moves-refl db
  apply_all-Moves (event ∷ events) db =
      Moves-trans db (apply_event event db).1 _ ((apply_event-Keeps event).at db)
        (apply_all-Moves events (apply_event event db).1)

  -- Applying any events in turn to tasks with distinct ids keeps the tasks in order, each with its
  -- identity, no fewer retries, the run that claimed it and its status unmoved or moved along accepted
  -- transitions. It keeps the dependencies, the event log, and the runs in order with what identifies
  -- them, their job and their delivery status; a run that has an end exactly if its status is terminal
  -- stays such a run, whatever becomes of its status.
  pub apply_all-Changes :
      (events : List (CanonicalEvent Value)) (db : Db)
      → Distinct task_key db.tasks
      → Changes db (apply_all events db)
  apply_all-Changes events db d = (apply_all-Moves events db).at_distinct d

  -- A task that is COMPLETED, CANCELLED or SKIPPED has the same status after any events are applied,
  -- whether or not each was accepted. The ids of the stored tasks are distinct.
  pub terminal_stays :
      (events : List (CanonicalEvent Value)) (db : Db) (id : String) (t : TaskRecord)
      (s : TaskStatus)
      → Distinct task_key db.tasks
      → Tasks.get id db ≡ some t
      → parse t.status ≡ some s
      → is_terminal s ≡ true
      → (t' : TaskRecord) × (Tasks.get id (apply_all events db) ≡ some t') × (t'.status ≡ t.status)
  unfolding Tasks.get
  terminal_stays events db id t s d found p h =
      let changes = apply_all-Changes events db d in
      let (t', found', moves) = row-Rows task_key (λ x y m. m.id) id changes.tasks found in
      (t', found', StatusMoves-of_terminal p h moves.status)
