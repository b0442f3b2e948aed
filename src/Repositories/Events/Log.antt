-- ===== src/Repositories/Events/Log.antt =====
-- The event log of each run is numbered 1, 2, 3, ... in the order of appending.
use Prim.Native.Nat.{max}
use mathlib.Core.List.{append-nil, append_assoc}
use morpho_research_os.Prelude.{
  ℕ, suc, ◌+◌, ◌<◌, String, false, ◌&&◌, Option, none, some, List, [], ◌∷◌, ◌++◌, ◌==◌, ◌⊎◌, ◌≡◌,
  refl, arith, str_eq, eq_iff, any, if◌then◌else◌, inl, inr,
}
use morpho_research_os.Errors.{ok}
use morpho_research_os.Env.{Env}
use morpho_research_os.Repositories.Tables.{Db, NewEvent, EventRecord, RunRecord, TaskRecord}
use morpho_research_os.Repositories.Tasks
use morpho_research_os.Repositories.Runs
use morpho_research_os.Repositories.Events.{
  max_sequence, latest_sequence, violates, append_with_sequence, append,
}

-- How many events of a run the log holds.
abbrev pub count : String → List EventRecord → ℕ
count run_id [] = 0
count run_id (e ∷ es) =
    let rest = count run_id es in if str_eq e.run_id run_id then suc rest else rest

-- Read from the oldest event, after those in `before`: each one is numbered by how many of its run there are up to it.
abbrev IsNumbered : List EventRecord → List EventRecord → Type 0
IsNumbered before [] = Unit
IsNumbered before (e ∷ es) =
    (e.sequence ≡ suc (count e.run_id before)) × IsNumbered (before ++ e ∷ []) es

-- Every run's events are numbered from 1 without gaps, in the order of the log.
abbrev pub IsLog : List EventRecord → Type 0
IsLog = IsNumbered []

count-append :
    (r : String) (xs ys : List EventRecord) → count r (xs ++ ys) ≡ count r xs + count r ys
count-append r [] ys = omega arith
count-append r (x ∷ xs) ys = ground (arith, count-append r xs ys)

max_sequence-append :
    (r : String) (xs ys : List EventRecord)
    → max_sequence r (xs ++ ys) ≡ max (max_sequence r xs) (max_sequence r ys)
unfolding max_sequence
max_sequence-append r [] ys = omega arith
max_sequence-append r (x ∷ xs) ys = ground (arith, max_sequence-append r xs ys)

-- In a numbered log the highest number of a run is the count of its events.
max_sequence-count :
    (r : String) (before es : List EventRecord)
    → IsNumbered before es
    → max (count r before) (max_sequence r es) ≡ count r before + count r es
unfolding max_sequence
max_sequence-count r before [] h = omega arith
max_sequence-count r before (e ∷ es) h =
    let ih = max_sequence-count r (before ++ e ∷ []) es h.1 in
    ground (arith, ih, h.0, count-append r before (e ∷ []), eq_iff e.run_id r)

IsNumbered-append :
    (before es : List EventRecord) (e : EventRecord)
    → IsNumbered before es
    → e.sequence ≡ suc (count e.run_id (before ++ es))
    → IsNumbered before (es ++ e ∷ [])
IsNumbered-append before [] e h k = (rw append-nil at k, tt)
IsNumbered-append before (x ∷ xs) e h k =
    (h.0, IsNumbered-append (before ++ x ∷ []) xs e h.1 (rw append_assoc k))

latest_sequence-count :
    (r : String) (es : List EventRecord) → IsLog es → max_sequence r es ≡ count r es
latest_sequence-count r es h = omega (arith, max_sequence-count r [] es h)

-- No event of the run has the number after the highest.
next_is_free :
    (r : String) (n : ℕ) (es : List EventRecord)
    → max_sequence r es < n
    → any (λ o. str_eq o.run_id r && o.sequence == n) es ≡ false
unfolding max_sequence
next_is_free r n [] h = refl
next_is_free r n (e ∷ es) h = ground (arith, next_is_free r n es)

-- The task of an event, if it names one, exists.
abbrev pub HasTask : Db → Option String → Type 0
HasTask db task_id =
    (task_id ≡ none)
    ⊎ ((t : String) × (k : TaskRecord) × (task_id ≡ some t) × (Tasks.get t db ≡ some k))

violates-none :
    (db : Db) (e : EventRecord) {r : RunRecord}
    → Runs.get e.run_id db ≡ some r
    → HasTask db e.task_id
    → max_sequence e.run_id db.events < e.sequence
    → violates db e ≡ none
unfolding violates
violates-none db e run (inl none_named) free =
    ground (arith, next_is_free e.run_id e.sequence db.events)
violates-none db e run (inr (t, k, named, found)) free =
    ground (arith, next_is_free e.run_id e.sequence db.events)

module _ ⦃env : Env⦄ where
  -- The events after an append: one more, with the next number of its run, or the same.
  append_cases :
      (new : NewEvent) (n : ℕ) (db : Db)
      → ((append_with_sequence new n db).1.events ≡ db.events)
        ⊎ ((e : EventRecord) × ((append_with_sequence new n db).1.events ≡ db.events ++ e ∷ [])
            × (e.run_id ≡ new.run_id)
            × (e.sequence ≡ n))
  unfolding append_with_sequence
  append_cases new n db = grind arith

  -- Appending keeps the numbering of the log, whether it succeeds or fails.
  pub append-IsLog : (new : NewEvent) (db : Db) → IsLog db.events → IsLog (append new db).1.events
  unfolding append
  append-IsLog new db h = elim (append_cases new (latest_sequence new.run_id db + 1) db) [
    | inl e ↦ rw e h
    | inr (e, grown, run, number) ↦ rw grown (
        IsNumbered-append [] db.events e h
          (ground (arith, latest_sequence-count new.run_id db.events h)))
  ]

  -- An event with a JSON payload, of a run that exists and of no task or one that exists, is always
  -- appended at the end of the log, with the number after its run's latest.
  pub append_total :
      (new : NewEvent) (db : Db) {r : RunRecord}
      → env.parse_error new.payload ≡ none
      → Runs.get new.run_id db ≡ some r
      → HasTask db new.task_id
      → (e : EventRecord) × ((append new db).0 ≡ ok e)
        × ((append new db).1.events ≡ db.events ++ e ∷ [])
        × (e.sequence ≡ latest_sequence new.run_id db + 1)
        × (e.run_id ≡ new.run_id)
        × (e.payload ≡ new.payload)
  unfolding append
  append_total new db json run task =
      let e : EventRecord = record {
        id = env.uuid db.drawn;
        run_id = new.run_id;
        task_id = new.task_id;
        sequence = latest_sequence new.run_id db + 1;
        event_type = new.event_type;
        payload = new.payload;
        created_at = env.clock db.reads;
      } in
      let v : violates db e ≡ none = violates-none db e run task (omega arith) in
      (e, ground arith, ground arith, refl, refl, refl)
