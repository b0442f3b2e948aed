-- ===== src/Orchestrator/Commit.antt =====
-- The atomic commit of a core-originated event: its log row and its projection.
use morpho_research_os.Prelude.{some, refl}
use morpho_research_os.Prelude.{
  ℕ, ◌+◌, String, [], ◌∷◌, ◌++◌, ◌≡◌, sym, ◌∙◌, ap, arith, ◌⊎◌, inl, inr,
}
use morpho_research_os.Errors.{
  CoreError, Result, ok, err, Action, ◌>>=◌, lift, pure, bind_ok, Result-cases, state_of_pure,
}
use morpho_research_os.Env.{Env, PrintsJson}
use morpho_research_os.Repositories.Rows.{Distinct}
use morpho_research_os.Repositories.Tables.{Db, NewEvent, EventRecord}
use morpho_research_os.Repositories.Transaction.{with_write_tx}
use morpho_research_os.Repositories.Transaction.Atomic.{
  SameTables, with_write_tx_err, with_write_tx_ok,
}
use morpho_research_os.Repositories.Tasks.{task_key}
use morpho_research_os.Repositories.Events
use morpho_research_os.Repositories.Events.{latest_sequence, append_with_sequence}
use morpho_research_os.Repositories.Runs
use morpho_research_os.Repositories.Events.Log.{HasTask, append_total}
use morpho_research_os.Repositories.Tables.{RunRecord}
use morpho_research_os.Orchestrator.Apply.{event_kind, unprojected, project}
use morpho_research_os.Orchestrator.Event.{CanonicalEvent, ApplyOutcome}
use morpho_research_os.Orchestrator.Moves.Apply.{apply_in_tx-Keeps}
use morpho_research_os.Orchestrator.Moves.{Distinct-Changes}
use morpho_research_os.Orchestrator.Apply.{apply_in_tx, payload_text, commit_local_event}

module _ ⦃env : Env⦄ where
  open env use {Value}

  append_ok :
      (new : NewEvent) (n : ℕ) (db : Db) {e : EventRecord}
      → (append_with_sequence new n db).0 ≡ ok e
      → ((append_with_sequence new n db).1.events ≡ db.events ++ e ∷ [])
        × ((append_with_sequence new n db).1.tasks ≡ db.tasks)
        × (e.run_id ≡ new.run_id)
        × (e.task_id ≡ new.task_id)
        × (e.event_type ≡ new.event_type)
        × (e.sequence ≡ n)
  unfolding append_with_sequence
  append_ok new n db h = grind arith

  -- The log row of a core event is the next of its run and carries its fields.
  abbrev pub IsLogged : CanonicalEvent Value → Db → Db → Type 0
  IsLogged event db db' =
      (e : EventRecord) × (db'.events ≡ db.events ++ e ∷ [])
      × (e.run_id ≡ event.run_id)
      × (e.task_id ≡ event.task_id)
      × (e.event_type ≡ event.event_type)
      × (e.sequence ≡ latest_sequence event.run_id db + 1)

  -- The row that is appended for a core event, its payload printed.
  abbrev pub log_row : CanonicalEvent Value → String → NewEvent
  log_row event payload = record {
    run_id = event.run_id;
    task_id = event.task_id;
    event_type = event.event_type;
    payload = payload;
  }

  -- The event was projected, with success, on the tables as they are once its row is appended, and
  -- what that made of them is what is stored.
  abbrev pub IsProjected : CanonicalEvent Value → Db → Db → Type 0
  IsProjected event db db' =
      (payload : String) × (e : EventRecord) × (o : ApplyOutcome) × (payload_text event.payload
        ≡ ok payload)
      × ((Events.append (log_row event payload) db).0 ≡ ok e)
      × (apply_in_tx event (Events.append (log_row event payload) db).1 ≡ (ok o, db'))

  -- The transaction once the payload is printed: the log row, then the projection.
  abbrev steps : CanonicalEvent Value → String → Action Db (Unit {0})
  steps event payload =
      Events.append (log_row event payload) >>= λ _. apply_in_tx event >>= λ _. pure tt

  steps_ok :
      (event : CanonicalEvent Value) (payload : String) (db : Db)
      → payload_text event.payload ≡ ok payload
      → Distinct task_key db.tasks
      → (steps event payload db).0 ≡ ok tt
      → IsLogged event db (steps event payload db).1
        × IsProjected event db (steps event payload db).1
        × Distinct task_key (steps event payload db).1.tasks
  unfolding Events.append
  steps_ok event payload db text d h =
      let new = log_row event payload in
      let (e, appended, h₁) = bind_ok (Events.append new) _ db h in
      let (grown, tasks, run, task, kind, number) =
        append_ok new (latest_sequence event.run_id db + 1) db appended in
      let (o, applied, _) = bind_ok (apply_in_tx event) _ (Events.append new db).1 h₁ in
      let moved = (apply_in_tx-Keeps event).at (Events.append new db).1 in
      let after : (steps event payload db).1 ≡ (apply_in_tx event (Events.append new db).1).1 =
        unfold ◌>>=◌ in
        rw appended (state_of_pure (apply_in_tx event) tt (Events.append new db).1) in
      let changed = moved.at_distinct (rw tasks d) in
      (
        (e, ap Db.events after ∙ changed.events ∙ grown, run, task, kind, number),
        (payload, e, o, text, appended, λ i. (applied i, sym after i)),
        rw after (Distinct-Changes changed (rw tasks d)),
      )

  body_ok :
      (event : CanonicalEvent Value) (r : Result String) (db : Db)
      → payload_text event.payload ≡ r
      → Distinct task_key db.tasks
      → ((lift r >>= steps event) db).0 ≡ ok tt
      → IsLogged event db ((lift r >>= steps event) db).1
        × IsProjected event db ((lift r >>= steps event) db).1
        × Distinct task_key ((lift r >>= steps event) db).1.tasks
  unfolding ◌>>=◌
  body_ok event (ok payload) db text d h = steps_ok event payload db text d h
  body_ok event (err e) db text d h = cc

  -- Committing a core event happens whole or not at all: either it fails and every table is as it was,
  -- or it succeeds, the event log has gained exactly one row, the next number of the run of the event,
  -- with its run, task and type, and what is stored is what its projection, which succeeded, makes of
  -- the tables with that row. The ids of the stored tasks are distinct.
  pub commit-whole_or_not :
      (event : CanonicalEvent Value) (db : Db)
      → Distinct task_key db.tasks
      → ((e : CoreError) × ((commit_local_event event db).0 ≡ err e)
          × SameTables db (commit_local_event event db).1)
        ⊎ (((commit_local_event event db).0 ≡ ok tt)
            × IsLogged event db (commit_local_event event db).1
            × IsProjected event db (commit_local_event event db).1)
  unfolding commit_local_event
  commit-whole_or_not event db d =
      let body = lift (payload_text event.payload) >>= steps event in
      elim (Result-cases (with_write_tx body db).0) [
        | inl (u, done) ↦
            (let same = with_write_tx_ok body db done in
              inr (
                done,
                rw same (body_ok event (payload_text event.payload) db refl d (rw same at done)).0,
                rw same (body_ok event (payload_text event.payload) db refl d (rw same at done)).1,
              ))
        | inr (e, failed) ↦ inl (e, failed, with_write_tx_err body db failed)
      ]

  -- The ids of the stored tasks stay distinct.
  pub commit-Distinct :
      (event : CanonicalEvent Value) (db : Db)
      → Distinct task_key db.tasks
      → Distinct task_key (commit_local_event event db).1.tasks
  unfolding commit_local_event
  commit-Distinct event db d =
      let body = lift (payload_text event.payload) >>= steps event in
      elim (Result-cases (with_write_tx body db).0) [
        | inl (u, done) ↦
            (let same = with_write_tx_ok body db done in
              rw same (body_ok event (payload_text event.payload) db refl d (rw same at done)).2)
        | inr (e, failed) ↦ rw (with_write_tx_err body db failed).tasks d
      ]

  printed : (json : PrintsJson env) (v : Value) → payload_text v ≡ ok (json.print v)
  unfolding payload_text
  printed json v = rw (json.prints v, payload_text)

  -- Committing a core event with no projection succeeds, for a run that exists and for no task or one
  -- that exists, where serde_json prints JSON.
  pub commit_unprojected :
      (json : PrintsJson env) (event : CanonicalEvent Value) (db : Db) (r : RunRecord)
      → event_kind event.event_type ≡ unprojected
      → Runs.get event.run_id db ≡ some r
      → HasTask db event.task_id
      → (commit_local_event event db).0 ≡ ok tt
  unfolding commit_local_event with_write_tx apply_in_tx project
  commit_unprojected json event db r kind run task =
      let new : NewEvent = record {
        run_id = event.run_id;
        task_id = event.task_id;
        event_type = event.event_type;
        payload = json.print event.payload;
      } in
      let (e, appended, _, _, _, _) = append_total new db (json.parses event.payload) run task in
      let p = printed json event.payload in unfold ◌>>=◌ in rw p (rw appended (rw kind refl))
