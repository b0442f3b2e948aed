-- ===== src/Ingestion/Laws/Tally.antt =====
-- What the records of an accepted batch are counted as.
use morpho_research_os.Prelude.{
  ℕ, suc, ◌+◌, String, ◌≡◌, refl, ap, List, [], ◌∷◌, Option, none, some, str_eq, map, arith,
  if◌then◌else◌,
}
use morpho_research_os.Env.{Env}
use morpho_research_os.Repositories.Runs.{contains}
use morpho_research_os.Ingestion.Wire.{
  ParsedRecord, source, source_content, node, relation, claim, evidence, Serde, IngestStats,
  RecordWire,
}
use morpho_research_os.Ingestion.State.{Outside}
use morpho_research_os.Ingestion.Check.{check_all, add_record, skipped_kinds}
use morpho_research_os.Ingestion.Laws.Anchors.{Passes, Passes-and_then, Passes-ok}
use morpho_research_os.Ingestion.Laws.Kinds.{kind_name, IsSkipped, IsNamed, check_record-IsNamed}
use morpho_research_os.Ingestion.Laws.Counts.{bump, count_all}

-- How many of the texts are this one, and how many are kinds that the worker keeps to itself.
abbrev pub number : String → List String → ℕ
number k [] = 0
number k (j ∷ js) = let rest = number k js in if str_eq j k then suc rest else rest

abbrev pub number_skipped : List String → ℕ
number_skipped [] = 0
number_skipped (j ∷ js) =
    let rest = number_skipped js in if contains skipped_kinds j then suc rest else rest

-- The counts grew by the records of these kinds, each under its own, and by no skipped one.
pub record Grows (kinds : List String) (n m : IngestStats) : Type 0 where
  pub sources : m.sources ≡ n.sources + number "source" kinds
  pub source_contents : m.source_contents ≡ n.source_contents + number "source-content" kinds
  pub nodes : m.nodes ≡ n.nodes + number "node" kinds
  pub relations : m.relations ≡ n.relations + number "relation" kinds
  pub claims : m.claims ≡ n.claims + number "claim" kinds
  pub evidence : m.evidence ≡ n.evidence + number "evidence" kinds
  pub skipped : m.skipped ≡ n.skipped

abbrev pub kinds_of : {V : Type 0} → List (RecordWire V) → List String
kinds_of rs = map (λ r. r.kind) rs

abbrev pub IsCounted : {V : Type 0} → List String → List (ParsedRecord V) × ℕ → Type 0
IsCounted kinds found =
    ((n : IngestStats) → Grows kinds n (count_all found.0 n)) × (found.1 ≡ number_skipped kinds)

grow_kept :
    {V : Type 0} (p : ParsedRecord V) (kinds : List String) (n m : IngestStats)
    → Grows kinds (bump p n) m
    → Grows (kind_name p ∷ kinds) n m
grow_kept (source _) kinds n m g = record {
  sources = omega (arith, g.sources);
  source_contents = g.source_contents;
  nodes = g.nodes;
  relations = g.relations;
  claims = g.claims;
  evidence = g.evidence;
  skipped = g.skipped;
}
grow_kept (source_content _) kinds n m g = record {
  sources = g.sources;
  source_contents = omega (arith, g.source_contents);
  nodes = g.nodes;
  relations = g.relations;
  claims = g.claims;
  evidence = g.evidence;
  skipped = g.skipped;
}
grow_kept (node _) kinds n m g = record {
  sources = g.sources;
  source_contents = g.source_contents;
  nodes = omega (arith, g.nodes);
  relations = g.relations;
  claims = g.claims;
  evidence = g.evidence;
  skipped = g.skipped;
}
grow_kept (relation _) kinds n m g = record {
  sources = g.sources;
  source_contents = g.source_contents;
  nodes = g.nodes;
  relations = omega (arith, g.relations);
  claims = g.claims;
  evidence = g.evidence;
  skipped = g.skipped;
}
grow_kept (claim _) kinds n m g = record {
  sources = g.sources;
  source_contents = g.source_contents;
  nodes = g.nodes;
  relations = g.relations;
  claims = omega (arith, g.claims);
  evidence = g.evidence;
  skipped = g.skipped;
}
grow_kept (evidence _) kinds n m g = record {
  sources = g.sources;
  source_contents = g.source_contents;
  nodes = g.nodes;
  relations = g.relations;
  claims = g.claims;
  evidence = omega (arith, g.evidence);
  skipped = g.skipped;
}

grow_skipped :
    (kind : String) (kinds : List String) (n m : IngestStats)
    → IsSkipped kind
    → Grows kinds n m
    → Grows (kind ∷ kinds) n m
grow_skipped kind kinds n m s g = record {
  sources = rw s.not_source g.sources;
  source_contents = rw s.not_content g.source_contents;
  nodes = rw s.not_node g.nodes;
  relations = rw s.not_relation g.relations;
  claims = rw s.not_claim g.claims;
  evidence = rw s.not_evidence g.evidence;
  skipped = g.skipped;
}

kept_number :
    {V : Type 0} (p : ParsedRecord V) (kinds : List String)
    → number_skipped (kind_name p ∷ kinds) ≡ number_skipped kinds
kept_number (source _) kinds = refl
kept_number (source_content _) kinds = refl
kept_number (node _) kinds = refl
kept_number (relation _) kinds = refl
kept_number (claim _) kinds = refl
kept_number (evidence _) kinds = refl

module _ ⦃env : Env⦄ ⦃serde : Serde env⦄ ⦃out : Outside⦄ where
  open env use {Value}

  -- One more record, kept or skipped.
  count_one :
      (kind : String) (kinds : List String) (p : Option (ParsedRecord Value))
      (found : List (ParsedRecord Value) × ℕ)
      → IsNamed kind p
      → IsCounted kinds found
      → IsCounted (kind ∷ kinds) (add_record p found)
  count_one kind kinds none (parsed, skipped) h (grows, same) =
      (λ n. grow_skipped kind kinds n (count_all parsed n) h (grows n), rw h.known (ap suc same))
  count_one kind kinds (some p) (parsed, skipped) h (grows, same) = (
    λ n. rw h (grow_kept p kinds n (count_all parsed (bump p n)) (grows (bump p n))),
    rw (h, kept_number p kinds) same,
  )

  pub check_all-IsCounted :
      (rs : List (RecordWire Value)) → Passes (IsCounted (kinds_of rs)) (check_all rs)
  unfolding check_all
  check_all-IsCounted [] = Passes-ok _ (
    λ n. record {
      sources = omega arith;
      source_contents = omega arith;
      nodes = omega arith;
      relations = omega arith;
      claims = omega arith;
      evidence = omega arith;
      skipped = refl;
    },
    refl,
  )
  check_all-IsCounted (r ∷ rs) = Passes-and_then _ _ (λ p e. Passes-and_then _ _ (λ found e'.
      Passes-ok _ (
        count_one r.kind (kinds_of rs) p found ((check_record-IsNamed r).holds p e)
          ((check_all-IsCounted rs).holds found e'))))
