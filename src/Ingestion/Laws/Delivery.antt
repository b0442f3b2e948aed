-- ===== src/Ingestion/Laws/Delivery.antt =====
-- What an ingestion leaves: nothing where it fails, the batch and the run's delivery where it succeeds.
use morpho_research_os.Prelude.{
  ℕ, String, true, ◌≡◌, refl, sym, ap, ◌∙◌, List, [], ◌∷◌, Option, none, some, All, eq_iff, ◌⊎◌,
  inl, inr, format, format,
}
use morpho_research_os.Errors.{Result, ok, err, database, ok_or_ok, bind_ok_at}
use morpho_research_os.Env.{Env}
use morpho_research_os.Repositories.Tables.{Db, RunRecord}
use morpho_research_os.Repositories.Transaction.Atomic.{SameTables}
use morpho_research_os.Repositories.Transaction.{rollback}
use morpho_research_os.Repositories.Rows.{row, modify}
use morpho_research_os.Repositories.Runs
use morpho_research_os.Repositories.Runs.{run_key}
use morpho_research_os.Repositories.Runs.Laws.{set_delivery_status_found, get-after, deliver, after}
use morpho_research_os.Repositories.Domain.{Domain}
use morpho_research_os.Repositories.Domain.Kept.{Kept-preorder}
use morpho_research_os.Ingestion.Wire.{
  IngestTarget, ParsedRecord, IngestStats, ResultsEnvelopeWire, Serde,
}
use morpho_research_os.Ingestion.State.{Batch, Outside, on_rows}
use morpho_research_os.Ingestion.Check.{and_then, check_all, batch_nodes, batch_claims}
use morpho_research_os.Ingestion.{
  Store, begin, roll_back, validate, check_envelope, write_each, link_each, on_core, write_batch,
  finish, write_checked, ingest, bound_to,
}
use morpho_research_os.Ingestion.Laws.Anchors.{
  Checked, Passes, Passes-and_then, Passes-err, check_ok,
}
use morpho_research_os.Ingestion.Laws.Writers.{Keeps-write_each, Keeps-link_each}
use morpho_research_os.Ingestion.Laws.Written.{IsWritten, gets_state, write_batch-IsWritten}
use morpho_research_os.Ingestion.Laws.Whole.{validate-Checked}

-- The research tables as they were, and the core's.
pub record Untouched (d d' : Domain) : Type 0 where
  pub core : SameTables d.core d'.core
  pub others : record d' { core = d.core } ≡ d

-- The run that the results are for, as the checks found it.
pub record IsTarget (target : IngestTarget) (d : Domain) (run : RunRecord) : Type 0 where
  pub found : Runs.get target.run_id d.core ≡ some run
  pub project : run.project_id ≡ target.project_id
  pub bound : run.worker_job_id ≡ some target.job_id

-- The run is marked as delivered, with no other change of the core's tables.
pub record Delivered (target : IngestTarget) (d d' : Domain) : Type 0 where
  pub run : RunRecord
  pub is_target : IsTarget target d run
  pub now : ℕ
  pub runs :
      d'.core.runs
      ≡ modify run_key target.run_id
          (λ r. record r { delivery_status = "delivered"; updated_at = now })
          d.core.runs
  pub delivered :
      Runs.get target.run_id d'.core
      ≡ some (record run { delivery_status = "delivered"; updated_at = now })
  pub tasks : d'.core.tasks ≡ d.core.tasks
  pub dependencies : d'.core.dependencies ≡ d.core.dependencies
  pub events : d'.core.events ≡ d.core.events

module _ ⦃env : Env⦄ ⦃serde : Serde env⦄ ⦃out : Outside⦄ where
  open env use {Value}

  -- What an ingestion comes to.
  abbrev pub Outcome : IngestTarget → Value → String → Store → Result IngestStats × Store → Type 0
  Outcome target results dir s (ok stats, s') =
      Delivered target s.rows s'.rows
      × ((parsed : List (ParsedRecord Value)) × (skipped : ℕ) × (validate target results s.rows
            ≡ ok (parsed, skipped))
          × IsWritten target dir s parsed skipped s'.rows)
  Outcome target results dir s (err e, s') = Untouched s.rows s'.rows

  bound_to_job : (job_id : String) (o : Option String) → bound_to job_id o ≡ true → o ≡ some job_id
  bound_to_job job_id none h = cc
  bound_to_job job_id (some bound) h = ap some ((eq_iff bound job_id).0 h)

  check_envelope-IsTarget :
      (target : IngestTarget) (d : Domain) (envelope : ResultsEnvelopeWire Value)
      → Passes (λ _. (run : RunRecord) × IsTarget target d run) (check_envelope target d envelope)
  unfolding check_envelope
  check_envelope-IsTarget target d envelope = Passes-and_then _ _ (λ _ _.
      Passes-and_then _ _ (λ _ _. Passes-and_then _ _ (λ run found. Passes-and_then _ _ (λ _ owned.
        record {
          holds = λ _ bound. (
            run,
            record {
              found = ok_or_ok _ _ found;
              project = (eq_iff run.project_id target.project_id).0 (check_ok _ _ owned);
              bound = bound_to_job target.job_id run.worker_job_id (check_ok _ _ bound);
            },
          );
        }))))

  -- The last step of the transaction on the core's tables.
  deliver_last :
      (target : IngestTarget) (s : Batch) {run : RunRecord}
      → Runs.get target.run_id s.rows.core ≡ some run
      → (on_rows (on_core (Runs.set_delivery_status target.run_id "delivered")) s).1.rows.core
        ≡ after target.run_id (deliver "delivered") s.rows.core
  unfolding on_rows
  deliver_last target s found =
      rw (set_delivery_status_found target.run_id "delivered" s.rows.core refl found)

  write_batch_delivers :
      (dir : String) (target : IngestTarget) (parsed : List (ParsedRecord Value)) (s : Batch)
      {run : RunRecord} {stats : IngestStats}
      → All Checked parsed
      → Runs.get target.run_id s.rows.core ≡ some run
      → (write_batch dir target parsed s).0 ≡ ok stats
      → (db : Db) × SameTables s.rows.core db
        × ((write_batch dir target parsed s).1.rows.core
            ≡ after target.run_id (deliver "delivered") db)
  unfolding write_batch Runs.get
  write_batch_delivers dir target parsed s {run = run} checked found h =
      let p = target.project_id in
      let (links, e1, p1) = bind_ok_at _ _ s h in
      let s1 = (write_each dir p (batch_nodes parsed) (batch_claims parsed) parsed [] s).1 in
      let k1 =
        (Keeps-write_each p dir (batch_nodes parsed) (batch_claims parsed) parsed [] checked).at
          s in
      let (u, e2, p2) = bind_ok_at _ _ s1 (ap (λ r. r.0) (sym p1) ∙ h) in
      let s2 = (link_each links s1).1 in
      let k2 = (Keeps-link_each p links).at s1 in
      let (u3, e3, p3) = bind_ok_at _ _ s2 (ap (λ r. r.0) (sym (p1 ∙ p2)) ∙ h) in
      let there : Runs.get target.run_id s2.rows.core ≡ some run =
        ap (row run_key target.run_id) (k2.core.runs ∙ k1.core.runs) ∙ found in
      (
        s2.rows.core,
        ((Kept-preorder p).R_trans s.rows s1.rows s2.rows k1 k2).core,
        ap (λ r. r.1.rows.core) (p1 ∙ p2 ∙ p3)
            ∙ ap (λ t. t.rows.core) (gets_state _ _)
            ∙ deliver_last target s2 there,
      )

  after-Delivered :
      (target : IngestTarget) (d d' : Domain) (run : RunRecord) (db : Db)
      → IsTarget target d run
      → SameTables d.core db
      → d'.core ≡ after target.run_id (deliver "delivered") db
      → Delivered target d d'
  unfolding Runs.get
  after-Delivered target d d' run db known same e = record {
    run = run;
    is_target = known;
    now = env.clock db.reads;
    runs = ap (λ c. c.runs) e ∙ ap (modify run_key target.run_id _) same.runs;
    delivered =
        ap (Runs.get target.run_id) e
        ∙ get-after target.run_id (deliver "delivered") db (λ _ _. refl)
            (ap (row run_key target.run_id) same.runs ∙ known.found);
    tasks = ap (λ c. c.tasks) e ∙ same.tasks;
    dependencies = ap (λ c. c.dependencies) e ∙ same.dependencies;
    events = ap (λ c. c.events) e ∙ same.events;
  }

  finish-Outcome :
      (target : IngestTarget) (results : Value) (dir : String) (s : Store)
      (parsed : List (ParsedRecord Value)) (skipped : ℕ) (done : Result IngestStats × Batch)
      → validate target results s.rows ≡ ok (parsed, skipped)
      → ((stats : IngestStats)
          → done.0 ≡ ok stats
          → Delivered target s.rows done.1.rows × IsWritten target dir s parsed skipped done.1.rows)
      → Outcome target results dir s (finish s done)
  unfolding roll_back rollback
  finish-Outcome target results dir s parsed skipped (ok stats, after) valid h =
      ((h stats refl).0, (parsed, skipped, valid, (h stats refl).1))
  finish-Outcome target results dir s parsed skipped (err e, after) valid h = record {
    core = record { tasks = refl; runs = refl; dependencies = refl; events = refl };
    others = refl;
  }

  validate-IsTarget :
      (target : IngestTarget) (results : Value) (d : Domain)
      → Passes (λ _. (run : RunRecord) × IsTarget target d run) (validate target results d)
  unfolding validate
  validate-IsTarget target results d = go (serde.read_envelope results)
    where
      go :
          (r : String ⊎ ResultsEnvelopeWire Value)
          → Passes
              (λ _. (run : RunRecord) × IsTarget target d run)
              (elim r as (λ _. Result (List (ParsedRecord Value) × ℕ)) [
                | inl message ↦ err (
                    database
                      (format ("worker results envelope failed validation: " ∷ message ∷ [])))
                | inr envelope ↦
                    and_then (check_envelope target d envelope) λ _. check_all envelope.records
              ])
      go (inl message) = Passes-err _
      go (inr envelope) =
          Passes-and_then _ _
            (λ u e. record { holds = λ _ _. (check_envelope-IsTarget target d envelope).holds u e })

  -- An ingestion happens whole or not at all. If it succeeds, the run it is for was stored, belongs
  -- to the project and is bound to the job of the results, and now is marked as delivered, with no
  -- other change of runs, tasks, dependencies and events; and the batch was accepted, each of its
  -- records and then each of their links was written with success, and the research tables are what
  -- these writes made of them: for each record of evidence, in order, a link of a stored claim with the
  -- evidence stored under the record's id in the project. If it fails, every table is as before.
  pub ingest-Outcome :
      (target : IngestTarget) (results : Value) (dir : String) (s : Store)
      → Outcome target results dir s (ingest target results dir s)
  unfolding ingest
  ingest-Outcome target results dir s = go (validate target results s.rows) refl
    where
      go :
          (r : Result (List (ParsedRecord Value) × ℕ))
          → validate target results s.rows ≡ r
          → Outcome target results dir s (write_checked dir target r s)
      go (err e) h = record {
        core = record { tasks = refl; runs = refl; dependencies = refl; events = refl };
        others = refl;
      }
      go (ok (parsed, skipped)) h =
          let (run, known) = (validate-IsTarget target results s.rows).holds (parsed, skipped) h in
          let checked = (validate-Checked target results s.rows).holds (parsed, skipped) h in
          let batch = write_batch dir target parsed (begin skipped s) in
          finish-Outcome target results dir s parsed skipped batch h (λ stats done.
            let (db, same, e) =
              write_batch_delivers dir target parsed (begin skipped s) checked known.found done in
            (
              after-Delivered target s.rows _ run db known same e,
              write_batch-IsWritten dir target parsed skipped s done,
            ))
