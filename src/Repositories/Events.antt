-- ===== src/Repositories/Events.antt =====
-- The append-only event log (repositories/events.rs).
pub mod Log
use Prim.Native.Nat.{max}
use morpho_research_os.Prelude.{
  ℕ, suc, ◌+◌, String, Bool, true, false, ◌&&◌, Option, none, some, List, [], ◌∷◌, ◌++◌, ◌==◌,
  str_eq, ltb, leb, select, any, take, format, if◌then◌else◌, order_by,
}
use morpho_research_os.Errors.{CoreError, Result, ok, err, Action, database}
use morpho_research_os.Env.{Env}
use morpho_research_os.Repositories.Tables.{Db, NewEvent, EventRecord}
use morpho_research_os.Repositories.Tasks
use morpho_research_os.Repositories.Runs

-- `COALESCE(MAX(sequence), 0) ... WHERE run_id = ?1`.
unfoldable pub max_sequence : String → List EventRecord → ℕ
max_sequence run_id [] = 0
max_sequence run_id (e ∷ es) =
    let rest = max_sequence run_id es in
    if str_eq e.run_id run_id then max e.sequence rest else rest

unfoldable pub latest_sequence : String → Db → ℕ
unfolding max_sequence
latest_sequence run_id db = max_sequence run_id db.events

unfoldable pub list_after : String → ℕ → ℕ → Db → List EventRecord
list_after run_id after_sequence limit db = take limit (
    order_by (λ a b. leb a.sequence b.sequence)
      (select (λ e. str_eq e.run_id run_id && ltb after_sequence e.sequence) db.events))

-- The constraints of the table `events` at a new row: the run, and the task if there is one, are
-- rows of their tables, and no event of the run has the sequence number.
unfoldable pub violates : Db → EventRecord → Option CoreError
unfolding Runs.get Tasks.get
violates db e =
    if any (λ o. str_eq o.run_id e.run_id && o.sequence == e.sequence) db.events
    then some (database "UNIQUE constraint failed: events.run_id, events.sequence")
    else elim (Runs.get e.run_id db) [
      | none ↦ some (database "FOREIGN KEY constraint failed")
      | some _ ↦ elim e.task_id [
        | none ↦ none
        | some t ↦ elim (Tasks.get t db) [
          | none ↦ some (database "FOREIGN KEY constraint failed")
          | some _ ↦ none
        ]
      ]
    ]

module _ ⦃env : Env⦄ where
  open env use {clock, uuid, parse_error}

  unfoldable pub validate_payload : String → Result (Unit {0})
  validate_payload payload = elim (parse_error payload) [
    | none ↦ ok tt
    | some e ↦ err (database (format ("event payload is not valid JSON: " ∷ e ∷ [])))
  ]

  unfoldable pub append_with_sequence : NewEvent → ℕ → Action Db EventRecord
  unfolding validate_payload violates
  append_with_sequence new sequence db =
      let row : EventRecord = record {
        id = uuid db.drawn;
        run_id = new.run_id;
        task_id = new.task_id;
        sequence = sequence;
        event_type = new.event_type;
        payload = new.payload;
        created_at = clock db.reads;
      } in
      let db' = record db { reads = suc db.reads; drawn = suc db.drawn } in
      elim (validate_payload new.payload) [
        | err e ↦ (err e, db)
        | ok _ ↦ elim (violates db row) [
          | some e ↦ (err e, db')
          | none ↦ (ok row, record db' { events = db.events ++ row ∷ [] })
        ]
      ]

  unfoldable pub append : NewEvent → Action Db EventRecord
  unfolding append_with_sequence latest_sequence
  append new db = append_with_sequence new (latest_sequence new.run_id db + 1) db
