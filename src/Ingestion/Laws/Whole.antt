-- ===== src/Ingestion/Laws/Whole.antt =====
-- What an ingestion leaves of the research tables, whether it succeeds or fails.
use morpho_research_os.Prelude.{ℕ, String, ◌≡◌, refl, List, [], ◌∷◌, All, ◌⊎◌, inl, inr, format}
use morpho_research_os.Errors.{Result, ok, err, Action, database}
use morpho_research_os.Env.{Env}
use morpho_research_os.Keeps.{Keeps, IsPreorder, Keeps-bind, Keeps-gets}
use morpho_research_os.Repositories.Tables.{Db}
use morpho_research_os.Repositories.Transaction.Atomic.{SameTables}
use morpho_research_os.Repositories.Runs.Laws.{after}
use morpho_research_os.Repositories.Domain.{Domain}
use morpho_research_os.Repositories.Domain.Kept.{Kept, Kept-refl, Kept-preorder, core-set-Kept}
use morpho_research_os.Ingestion.Wire.{
  IngestTarget, ParsedRecord, IngestStats, ResultsEnvelopeWire, Serde,
}
use morpho_research_os.Ingestion.State.{Batch, Outside, on_rows}
use morpho_research_os.Ingestion.Check.{and_then, check_all}
use morpho_research_os.Ingestion.{
  Store, begin, roll_back, validate, check_envelope, on_core, write_batch, finish, write_checked,
  ingest,
}
use morpho_research_os.Ingestion.Laws.{KeptRows}
use morpho_research_os.Ingestion.Laws.Anchors.{
  Checked, Passes, check_all-Checked, Passes-and_then, Passes-err,
}
use morpho_research_os.Ingestion.Laws.Writers.{Keeps-write_each, Keeps-link_each}

same_tables : (db : Db) → SameTables db db
same_tables db = record { tasks = refl; runs = refl; dependencies = refl; events = refl }

module _ (project_id : String) where
  -- The change of the research tables alone.
  abbrev KeptResults : Batch → Batch → Type 0
  KeptResults s s' = Kept project_id s.rows (record s'.rows { core = s.rows.core })

  of_rows : (s s' : Batch) → KeptRows project_id s s' → KeptResults s s'
  of_rows s s' h =
      core-set-Kept project_id s.rows s'.rows s.rows.core s.rows.core (same_tables s.rows.core) h

  KeptResults-preorder : IsPreorder KeptResults
  KeptResults-preorder = record {
    R_refl = λ s. Kept-refl project_id s.rows;
    R_trans = λ s t u h k.
        (Kept-preorder project_id).R_trans s.rows (record t.rows { core = s.rows.core }) _ h
          (core-set-Kept project_id t.rows (record u.rows { core = t.rows.core }) s.rows.core
            s.rows.core (same_tables s.rows.core) k);
  }

  pre : IsPreorder KeptResults
  pre = KeptResults-preorder

  Keeps-of_rows :
      {A : Type 0} (m : Action Batch A) → Keeps (KeptRows project_id) m → Keeps KeptResults m
  Keeps-of_rows m k = record { at = λ s. of_rows s (m s).1 (k.at s) }

module _ ⦃env : Env⦄ ⦃serde : Serde env⦄ ⦃out : Outside⦄ where
  open env use {Value}

  Keeps-on_core :
      (project_id : String) {A : Type 0} (m : Action Db A)
      → Keeps (KeptResults project_id) (on_rows (on_core m))
  unfolding on_rows
  Keeps-on_core project_id m = record { at = λ s. Kept-refl project_id s.rows }

  Keeps-write_batch :
      (dir : String) (target : IngestTarget) (parsed : List (ParsedRecord Value))
      → All Checked parsed
      → Keeps (KeptResults target.project_id) (write_batch dir target parsed)
  unfolding write_batch
  Keeps-write_batch dir target parsed h =
      let p = target.project_id in
      let pre = KeptResults-preorder p in
      Keeps-bind pre _ _ (Keeps-of_rows p _ (Keeps-write_each p dir _ _ parsed [] h)) (λ links.
        Keeps-bind pre _ _ (Keeps-of_rows p _ (Keeps-link_each p links))
          (λ _. Keeps-bind pre _ _ (Keeps-on_core p _) (λ _. Keeps-gets pre _)))

  finish-Kept :
      (p : String) (before : Store) (done : Result IngestStats × Batch)
      → Kept p before.rows (record done.1.rows { core = before.rows.core })
      → Kept p before.rows (record (finish before done).1.rows { core = before.rows.core })
  unfolding roll_back
  finish-Kept p before (ok stats, after) h = h
  finish-Kept p before (err e, after) h = Kept-refl p before.rows

  pub validate-Checked :
      (target : IngestTarget) (results : Value) (d : Domain)
      → Passes (λ found. All Checked found.0) (validate target results d)
  unfolding validate
  validate-Checked target results d = go (serde.read_envelope results)
    where
      go :
          (r : String ⊎ ResultsEnvelopeWire Value)
          → Passes
              (λ found. All Checked found.0)
              (elim r as (λ _. Result (List (ParsedRecord Value) × ℕ)) [
                | inl message ↦ err (
                    database
                      (format ("worker results envelope failed validation: " ∷ message ∷ [])))
                | inr envelope ↦
                    and_then (check_envelope target d envelope) λ _. check_all envelope.records
              ])
      go (inl message) = Passes-err _
      go (inr envelope) = Passes-and_then _ _ (λ _ _. check_all-Checked envelope.records)

  -- Whatever an ingestion does, and also where it fails, the tables of the research results keep their
  -- rows in order, where their ids were distinct before. Sources, nodes, relations, claims and evidence
  -- gain rows of the project of the results only, and their rows of other projects are untouched, as
  -- are all stored relations and evidence. A source, node or claim keeps what identifies it, a claim
  -- also what it states, and a content its id and its source. New evidence has a quote or a locator,
  -- and links are only added.
  pub ingest-Kept :
      (target : IngestTarget) (results : Value) (dir : String) (s : Store)
      → Kept target.project_id s.rows
          (record (ingest target results dir s).1.rows { core = s.rows.core })
  unfolding ingest
  ingest-Kept target results dir s = go (validate target results s.rows) refl
    where
      go :
          (r : Result (List (ParsedRecord Value) × ℕ))
          → validate target results s.rows ≡ r
          → Kept target.project_id s.rows
              (record (write_checked dir target r s).1.rows { core = s.rows.core })
      go (err e) h = Kept-refl target.project_id s.rows
      go (ok (parsed, skipped)) h =
          finish-Kept target.project_id s (write_batch dir target parsed (begin skipped s)) (
            (Keeps-write_batch dir target parsed
                ((validate-Checked target results s.rows).holds (parsed, skipped) h)).at
              (begin skipped s))
