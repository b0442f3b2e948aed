-- ===== src/Ingestion/Laws/Counted.antt =====
-- An accepted batch counts each of its records under its kind.
use mathlib.Core.Path.{subst}
use morpho_research_os.Prelude.{ℕ, String, ◌≡◌, refl, sym, ◌∙◌, map, List, [], arith, inr}
use morpho_research_os.Errors.{Result, ok, err, Action, gets, continue, ok-injective, ◌>>=◌}
use morpho_research_os.Env.{Env}
use morpho_research_os.Keeps.{Keeps-bind, Keeps-gets}
use morpho_research_os.Repositories.Domain.{Domain}
use morpho_research_os.Ingestion.Wire.{
  ParsedRecord, IngestTarget, Serde, IngestStats, ResultsEnvelopeWire,
}
use morpho_research_os.Ingestion.State.{Batch, Outside}
use morpho_research_os.Ingestion.{
  Store, no_stats, begin, finish, write_batch, write_checked, validate, ingest,
}
use morpho_research_os.Ingestion.Laws.Anchors.{Passes, Passes-and_then}
use morpho_research_os.Ingestion.Laws.Tally.{
  number, number_skipped, kinds_of, IsCounted, check_all-IsCounted,
}
use morpho_research_os.Ingestion.Laws.Counts.{
  count_all, pre, Adds, Adds-before, Adds-each, Keeps-on_rows, Keeps-link_each,
}

-- The counts of a batch of these kinds, with each record under its own, or skipped.
pub record IsTally (kinds : List String) (n : IngestStats) : Type 0 where
  pub sources : n.sources ≡ number "source" kinds
  pub source_contents : n.source_contents ≡ number "source-content" kinds
  pub nodes : n.nodes ≡ number "node" kinds
  pub relations : n.relations ≡ number "relation" kinds
  pub claims : n.claims ≡ number "claim" kinds
  pub evidence : n.evidence ≡ number "evidence" kinds
  pub skipped : n.skipped ≡ number_skipped kinds

-- A success answers with the counts of the state that it leaves.
record Answers (m : Action Batch IngestStats) : Type 0 where
  pub at : (s : Batch) (n : IngestStats) → (m s).0 ≡ ok n → (m s).1.stats ≡ n

Answers-bind :
    {A : Type 0} (m : Action Batch A) (f : A → Action Batch IngestStats)
    → ((a : A) → Answers (f a))
    → Answers (m >>= f)
unfolding ◌>>=◌
Answers-bind {A} m f k = record { at = λ s n. go (m s).0 (m s).1 n }
  where
    go :
        (r : Result A) (t : Batch) (n : IngestStats)
        → (continue r f t).0 ≡ ok n
        → (continue r f t).1.stats ≡ n
    go (ok a) t n h = (k a).at t n h
    go (err e) t n h = cc

Answers-gets : Answers (gets (λ s. s.stats))
unfolding ◌>>=◌
Answers-gets = record { at = λ s n h. ok-injective h }

module _ ⦃env : Env⦄ ⦃serde : Serde env⦄ ⦃out : Outside⦄ where
  open env use {Value}

  Answers-write_batch :
      (dir : String) (target : IngestTarget) (parsed : List (ParsedRecord Value))
      → Answers (write_batch dir target parsed)
  unfolding write_batch
  Answers-write_batch dir target parsed =
      Answers-bind _ _ (λ _. Answers-bind _ _ (λ _. Answers-bind _ _ (λ _. Answers-gets)))

  Adds-write_batch :
      (dir : String) (target : IngestTarget) (parsed : List (ParsedRecord Value))
      → Adds (count_all parsed) (write_batch dir target parsed)
  unfolding write_batch
  Adds-write_batch dir target parsed =
      Adds-before _ _ (Adds-each dir target.project_id _ _ parsed []) (λ links.
        Keeps-bind pre _ _ (Keeps-link_each links)
          (λ _. Keeps-bind pre _ _ (Keeps-on_rows _) (λ _. Keeps-gets pre _)))

  validate-IsCounted :
      (target : IngestTarget) (results : Value) (d : Domain) (envelope : ResultsEnvelopeWire Value)
      → serde.read_envelope results ≡ inr envelope
      → Passes (IsCounted (kinds_of envelope.records)) (validate target results d)
  unfolding validate
  validate-IsCounted target results d envelope read =
      rw (read, validate) (Passes-and_then _ _ (λ _ _. check_all-IsCounted envelope.records))

  -- The counts that a batch begins with, and what its records add.
  tally :
      (kinds : List String) (parsed : List (ParsedRecord Value)) (skipped : ℕ)
      → IsCounted kinds (parsed, skipped)
      → IsTally kinds (count_all parsed (no_stats skipped))
  tally kinds parsed skipped (grows, same) =
      let g = grows (no_stats skipped) in
      record {
        sources = omega (arith, g.sources);
        source_contents = omega (arith, g.source_contents);
        nodes = omega (arith, g.nodes);
        relations = omega (arith, g.relations);
        claims = omega (arith, g.claims);
        evidence = omega (arith, g.evidence);
        skipped = g.skipped ∙ same;
      }

  finish_ok :
      (s : Store) (done : Result IngestStats × Batch) {n : IngestStats}
      → (finish s done).0 ≡ ok n
      → done.0 ≡ ok n
  finish_ok s (ok n, after) h = h
  finish_ok s (err e, after) h = cc

  -- An ingestion that succeeds has counted each record of the batch under its own kind: each of the six
  -- counters is the number of the batch's records of its kind, and the seventh the number of those of a
  -- kind that stays with the worker.
  pub ingest-IsTally :
      (target : IngestTarget) (results : Value) (dir : String) (s : Store)
      (envelope : ResultsEnvelopeWire Value) (n : IngestStats)
      → serde.read_envelope results ≡ inr envelope
      → (ingest target results dir s).0 ≡ ok n
      → IsTally (map (λ r. r.kind) envelope.records) n
  unfolding ingest
  ingest-IsTally target results dir s envelope n read = go (validate target results s.rows) refl
    where
      go :
          (r : Result (List (ParsedRecord Value) × ℕ))
          → validate target results s.rows ≡ r
          → (write_checked dir target r s).0 ≡ ok n
          → IsTally (kinds_of envelope.records) n
      go (err e) _ h = cc
      go (ok (parsed, skipped)) valid h =
          let done = finish_ok s (write_batch dir target parsed (begin skipped s)) h in
          let counted =
            (validate-IsCounted target results s.rows envelope read).holds (parsed, skipped)
              valid in
          let added = (Adds-write_batch dir target parsed).at (begin skipped s) n done in
          let same = (Answers-write_batch dir target parsed).at (begin skipped s) n done in
          subst (IsTally (kinds_of envelope.records)) (sym added ∙ same)
            (tally (kinds_of envelope.records) parsed skipped counted)
