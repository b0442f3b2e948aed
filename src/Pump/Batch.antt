-- ===== src/Pump/Batch.antt =====
-- Events are persisted before they are acknowledged and emitted: what the phases B and C and the
-- emission do with the events of one job.
use Prim.Native.Nat.{max}
use mathlib.Core.Path.{subst}
use mathlib.Core.List.{append-nil, append_assoc}
use morpho_research_os.Prelude.{
  ℕ, suc, ◌≤◌, ◌<◌, ◌≡◌, refl, sym, ap, ◌∙◌, ◌⊎◌, inl, inr, true, false, arith, List, [], ◌∷◌, ◌++◌,
  map, none, some, String, leb, select, take,
}
use morpho_research_os.Errors.{CoreError, Result, ok, err}
use morpho_research_os.Env.{Env}
use morpho_research_os.Repositories.Rows.{Distinct}
use morpho_research_os.Repositories.Tables.{Db, EventRecord}
use morpho_research_os.Repositories.Transaction.{with_write_tx}
use morpho_research_os.Repositories.Transaction.Atomic.{SameTables}
use morpho_research_os.Repositories.Tasks.{task_key}
use morpho_research_os.Orchestrator.Apply.{commit_local_event}
use morpho_research_os.Orchestrator.Commit.{
  commit-whole_or_not, commit-Distinct, IsLogged, IsProjected,
}
use morpho_research_os.Recovery.{ResearchEvent, canonical}
use morpho_research_os.Pump.{Outcome, persist_and_project, project_batch, batch_step, nothing_more}

-- The run and the type of an event, in the log and on the wire.
abbrev pub logged_as : EventRecord → String × String
logged_as row = (row.run_id, row.event_type)

module _ {Value : Type 0} where
  -- Each number is greater than the one before it, and the first than the cursor.
  abbrev pub Ascending : ℕ → List (ResearchEvent Value) → Type 0
  Ascending c [] = Unit
  Ascending c (e ∷ es) = (c < e.sequence) × Ascending e.sequence es

  select_none :
      (c m : ℕ) (events : List (ResearchEvent Value))
      → m ≤ c
      → Ascending c events
      → select (λ e. leb e.sequence m) events ≡ []
  select_none c m [] h a = refl
  select_none c m (e ∷ events) h a =
      let rest = select_none e.sequence m events (omega arith) a.1 in
      let above : leb e.sequence m ≡ false = ground arith in rw (above, rest) refl

  abbrev pub sent_as : ResearchEvent Value → String × String
  sent_as e = (e.run_id, e.event_type)

  -- The log has gained one row for each of the events, in their order.
  abbrev pub IsAppended : Db → Db → List (ResearchEvent Value) → Type 0
  IsAppended db db' events =
      (rows : List EventRecord) × (db'.events ≡ db.events ++ rows)
      × (map logged_as rows ≡ map sent_as events)

pair_eq : {A B : Type 0} {a c : A} {b d : B} → a ≡ c → b ≡ d → ◌≡◌ {A = A × B} (a, b) (c, d)
pair_eq e f = λ i. (e i, f i)

cong_cons : {A : Type 0} {x y : A} {xs ys : List A} → x ≡ y → xs ≡ ys → x ∷ xs ≡ y ∷ ys
cong_cons e f = λ i. e i ∷ f i

module _ ⦃env : Env⦄ where
  open env use {Value}

  -- The transaction of one event is the commit of the event that it carries.
  abbrev persisting : ResearchEvent Value → Db → Result (Unit {0}) × Db
  persisting e db = with_write_tx (persist_and_project e) db

  persisting-whole :
      (e : ResearchEvent Value) (db : Db)
      → Distinct task_key db.tasks
      → ((x : CoreError) × ((persisting e db).0 ≡ err x) × SameTables db (persisting e db).1)
        ⊎ (((persisting e db).0 ≡ ok tt)
            × IsLogged (canonical e) db (persisting e db).1
            × IsProjected (canonical e) db (persisting e db).1)
  unfolding persist_and_project commit_local_event
  persisting-whole e db d = commit-whole_or_not (canonical e) db d

  persisting-Distinct :
      (e : ResearchEvent Value) (db : Db)
      → Distinct task_key db.tasks
      → Distinct task_key (persisting e db).1.tasks
  unfolding persist_and_project commit_local_event
  persisting-Distinct e db d = commit-Distinct (canonical e) db d

  -- What phase B does with a batch whose numbers ascend from the cursor, where the number
  -- acknowledged so far is no greater than the cursor.
  pub record IsPrefix (c : ℕ) (events : List (ResearchEvent Value)) (db : Db) (done : Outcome × Db)
      : Type 0 where
    pub count : ℕ
    pub persisted : IsAppended db done.1 (take count events)
    pub covered :
        select (λ e. leb e.sequence (max c done.0.acknowledged)) events ≡ take count events
    pub complete : done.0.failed ≡ none → take count events ≡ events
    pub distinct : Distinct task_key done.1.tasks

  -- A batch that stops at once.
  IsPrefix-stop :
      (id : String) (a c : ℕ) (x : CoreError) (events : List (ResearchEvent Value)) (db db' : Db)
      → a ≤ c
      → Ascending c events
      → SameTables db db'
      → Distinct task_key db.tasks
      → IsPrefix c events db (nothing_more id a (some x), db')
  IsPrefix-stop id a c x events db db' h k same d = record {
    count = 0;
    persisted = ([], same.events ∙ sym (append-nil db.events), refl);
    covered = select_none c (max c a) events (omega arith) k;
    complete = λ e. cc;
    distinct = rw same.tasks d;
  }

  -- A first event that is logged, and the rest of its batch.
  IsPrefix-next :
      (id : String) (a c : ℕ) (e : ResearchEvent Value) (events : List (ResearchEvent Value))
      (db db' : Db) (rest : Outcome × Db)
      → c < e.sequence
      → IsLogged (canonical e) db db'
      → IsPrefix e.sequence events db' rest
      → e.sequence ≤ rest.0.acknowledged
      → IsPrefix c (e ∷ events) db (batch_step id a e rest (ok tt, db'))
  IsPrefix-next id a c e events db db' rest lt (row, grown, run, _, kind, _) h le =
      let (rows, more, same) = h.persisted in
      record {
        count = suc h.count;
        persisted = (
          row ∷ rows,
          more ∙ ap (λ log. log ++ rows) grown ∙ append_assoc db.events (row ∷ []) rows,
          cong_cons (pair_eq run kind) same,
        );
        covered =
            let top : max c rest.0.acknowledged ≡ max e.sequence rest.0.acknowledged =
              omega arith in
            let first : leb e.sequence (max e.sequence rest.0.acknowledged) ≡ true = ground arith in
            subst (λ m. select (λ x. leb x.sequence m) (e ∷ events) ≡ e ∷ take h.count events)
              (sym top) (rw first (cong_cons refl h.covered));
        complete = λ f. ap (λ es. e ∷ es) (h.complete f);
        distinct = h.distinct;
      }

  pub project_batch-IsPrefix :
      (id : String) (a c : ℕ) (events : List (ResearchEvent Value)) (db : Db)
      → a ≤ c
      → Ascending c events
      → Distinct task_key db.tasks
      → IsPrefix c events db (project_batch id a events db)
        × (a ≤ (project_batch id a events db).0.acknowledged)
  unfolding project_batch
  project_batch-IsPrefix id a c [] db h k d = (
    record {
      count = 0;
      persisted = ([], sym (append-nil db.events), refl);
      covered = refl;
      complete = λ _. refl;
      distinct = d;
    },
    omega arith,
  )
  project_batch-IsPrefix id a c (e ∷ events) db h k d =
      let done = persisting e db in
      let ih =
        project_batch-IsPrefix id (max a e.sequence) e.sequence events done.1 (omega arith) k.1
          (persisting-Distinct e db d) in
      let rest = project_batch id (max a e.sequence) events done.1 in
      let step : Result (Unit {0}) → Outcome × Db = λ r. batch_step id a e rest (r, done.1) in
      let Goal : Result (Unit {0}) → Type 0 =
        λ r. IsPrefix c (e ∷ events) db (step r) × (a ≤ (step r).0.acknowledged) in
      elim (persisting-whole e db d) [
        | inl (x, failed, same) ↦
            subst Goal (sym failed)
              (IsPrefix-stop id a c x (e ∷ events) db done.1 h k same d, omega arith)
        | inr (fine, logged, _) ↦ subst Goal (sym fine) (
          IsPrefix-next id a c e events db done.1 rest k.0 logged ih.0 (omega (arith, ih.1)),
          omega (arith, ih.1),
        )
      ]

  job_of_step :
      (id : String) (a : ℕ) (e : ResearchEvent Value) (rest : Outcome × Db)
      (done : Result (Unit {0}) × Db)
      → rest.0.job_id ≡ id
      → (batch_step id a e rest done).0.job_id ≡ id
  job_of_step id a e rest (ok _, db) h = h
  job_of_step id a e rest (err x, db) h = refl

  pub job_of_batch :
      (id : String) (a : ℕ) (events : List (ResearchEvent Value)) (db : Db)
      → (project_batch id a events db).0.job_id ≡ id
  unfolding project_batch
  job_of_batch id a [] db = refl
  job_of_batch id a (e ∷ events) db =
      job_of_step id a e _ (persisting e db)
        (job_of_batch id (max a e.sequence) events (persisting e db).1)
