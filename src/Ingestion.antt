-- ===== src/Ingestion.antt =====
-- `ResultIngestion::ingest` (ingestion.rs): a job's results are validated, then written in one
-- transaction with the run's delivery status.
pub mod Wire
pub mod Check
pub mod State
pub mod Cache
pub mod Resolve
pub mod Write
pub mod Laws
use morpho_research_os.Prelude.{
  ℕ, String, Bool, true, false, not, Option, none, some, List, [], ◌∷◌, ◌++◌, ◌⊎◌, inl, inr, str_eq,
  format, remove, if◌then◌else◌,
}
use morpho_research_os.Errors.{
  CoreError, Result, ok, err, Action, database, ok_or, pure, raise, gets, lift, ◌>>=◌, ◌>>◌,
}
use morpho_research_os.Env.{Env}
use morpho_research_os.Repositories.Tables.{Db, RunRecord}
use morpho_research_os.Repositories.Transaction.{rollback}
use morpho_research_os.Repositories.Runs
use morpho_research_os.Repositories.Domain.{Domain}
use morpho_research_os.Repositories.Domain.Claims
use morpho_research_os.Ingestion.Wire.{
  IngestTarget, RecordWire, ResultsEnvelopeWire, ParsedRecord, source, source_content, node,
  relation, claim, evidence, IngestStats, Serde,
}
use morpho_research_os.Ingestion.Check.{
  results_schema_version, and_then, check, check_all, batch_nodes, batch_claims,
}
use morpho_research_os.Ingestion.State.{Batch, Outside, on_rows, attempt, ignoring}
use morpho_research_os.Ingestion.Cache.{failed_on}
use morpho_research_os.Ingestion.Write.{
  write_source, write_source_content, write_node, write_relation, write_claim, write_evidence, tell,
}

-- What an ingestion starts from and leaves: the database and the files.
pub record Store : Type 0 where
  pub rows : Domain
  pub files : List (String × List ℕ)
  pub turns : ℕ

abbrev pub no_stats : ℕ → IngestStats
no_stats skipped = record {
  sources = 0;
  source_contents = 0;
  nodes = 0;
  relations = 0;
  claims = 0;
  evidence = 0;
  skipped = skipped;
}

abbrev pub begin : ℕ → Store → Batch
begin skipped s = record {
  rows = s.rows;
  source_map = [];
  stats = no_stats skipped;
  published_files = [];
  files = s.files;
  turns = s.turns;
}

-- A rollback restores every table; what was read from the clock stays read.
unfoldable pub roll_back : Domain → Domain → Domain
unfolding rollback
roll_back before after = record before { core = rollback before.core after.core }

module _ ⦃out : Outside⦄ where
  -- The compensation: the files that the failed batch created are removed.
  unfoldable pub remove_each : List String → Batch → Batch
  remove_each [] s = s
  remove_each (path ∷ paths) s =
      remove_each paths (attempt (failed_on "removing" path) (remove path) s).1

module _ ⦃env : Env⦄ ⦃serde : Serde env⦄ ⦃out : Outside⦄ where
  open env use {Value}
  open serde use {read_envelope}

  abbrev pub bound_to : String → Option String → Bool
  bound_to job_id none = false
  bound_to job_id (some bound) = str_eq bound job_id

  -- The envelope, the job that it names, and the run that it is for. The message on the job that a run
  -- is bound to leaves out that job.
  unfoldable pub check_envelope :
      IngestTarget → Domain → ResultsEnvelopeWire Value → Result (Unit {0})
  check_envelope target d envelope =
      and_then
        (check (str_eq envelope.schema_version results_schema_version) (
          format (
            "unsupported worker results schema_version '" ∷ envelope.schema_version
            ∷ "' (this core speaks '1')" ∷ [])))
        λ _.
          and_then
            (check (str_eq envelope.job_id target.job_id) (
              format (
                "worker results envelope names job '" ∷ envelope.job_id
                ∷ "' but the core drained job '" ∷ target.job_id ∷ "'" ∷ [])))
            λ _.
              and_then (ok_or (Runs.get target.run_id d.core) (Runs.not_found target.run_id)) λ run.
                and_then
                  (check (str_eq run.project_id target.project_id) (
                    format (
                      "run '" ∷ target.run_id ∷ "' belongs to project '" ∷ run.project_id
                      ∷ "' but results were drained for project '" ∷ target.project_id ∷ "'" ∷ [])))
                  λ _. check (bound_to target.job_id run.worker_job_id) (
                    format (
                      "run '" ∷ target.run_id ∷ "' is not bound to worker job '" ∷ target.job_id
                      ∷ "'" ∷ []))

  -- Everything that is checked before the transaction.
  unfoldable pub validate : IngestTarget → Value → Domain → Result (List (ParsedRecord Value) × ℕ)
  validate target results d =
      elim (read_envelope results) as (λ _. Result (List (ParsedRecord Value) × ℕ)) [
        | inl message ↦
            err (database (format ("worker results envelope failed validation: " ∷ message ∷ [])))
        | inr envelope ↦ and_then (check_envelope target d envelope) λ _. check_all envelope.records
      ]

  abbrev pub no_link : Action Batch (Unit {0}) → Action Batch (List (String × String))
  no_link m = m >>= λ _. pure []

  -- One turn of the loop in the transaction, with the link that it defers.
  unfoldable pub write_record :
      String
      → String
      → List String
      → List String
      → ParsedRecord Value
      → Action Batch (List (String × String))
  write_record dir project_id nodes claims (source wire) = no_link (write_source project_id wire)
  write_record dir project_id nodes claims (source_content wire) =
      no_link (write_source_content dir wire)
  write_record dir project_id nodes claims (node wire) = no_link (write_node project_id claims wire)
  write_record dir project_id nodes claims (relation wire) =
      no_link (write_relation project_id nodes wire)
  write_record dir project_id nodes claims (claim wire) =
      no_link (write_claim project_id nodes wire)
  write_record dir project_id nodes claims (evidence wire) =
      write_evidence project_id claims wire >>= λ link. pure (link ∷ [])

  unfoldable pub write_each :
      String
      → String
      → List String
      → List String
      → List (ParsedRecord Value)
      → List (String × String)
      → Action Batch (List (String × String))
  write_each dir project_id nodes claims [] deferred = pure deferred
  write_each dir project_id nodes claims (r ∷ rs) deferred = do
    link ← write_record dir project_id nodes claims r
    write_each dir project_id nodes claims rs (deferred ++ link)

  unfoldable pub link_each : List (String × String) → Action Batch (Unit {0})
  link_each [] = pure tt
  link_each ((claim_id, evidence_id) ∷ links) = do
    on_rows (Claims.link claim_id evidence_id)
    link_each links

  -- An action on the core's tables.
  abbrev pub on_core : {A : Type 0} → Action Db A → Action Domain A
  on_core m d = let done = m d.core in (done.0, record d { core = done.1 })

  -- The body of the transaction.
  unfoldable pub write_batch :
      String → IngestTarget → List (ParsedRecord Value) → Action Batch IngestStats
  write_batch dir target parsed = do
    links ← write_each dir target.project_id (batch_nodes parsed) (batch_claims parsed) parsed []
    link_each links
    on_rows (on_core (Runs.set_delivery_status target.run_id "delivered"))
    gets (λ s. s.stats)

  -- The end of the transaction: what was written is kept, or rolled back and compensated.
  abbrev pub finish : Store → Result IngestStats × Batch → Result IngestStats × Store
  finish before (ok stats, after) =
      (ok stats, record { rows = after.rows; files = after.files; turns = after.turns })
  finish before (err e, after) =
      let compensated = remove_each after.published_files after in
      (
        err e,
        record {
          rows = roll_back before.rows after.rows;
          files = compensated.files;
          turns = compensated.turns;
        },
      )

  abbrev pub write_checked :
      String → IngestTarget → Result (List (ParsedRecord Value) × ℕ) → Action Store IngestStats
  write_checked dir target (err e) s = (err e, s)
  write_checked dir target (ok (parsed, skipped)) s =
      finish s (write_batch dir target parsed (begin skipped s))

  unfoldable pub ingest : IngestTarget → Value → String → Action Store IngestStats
  ingest target results dir s = write_checked dir target (validate target results s.rows) s
