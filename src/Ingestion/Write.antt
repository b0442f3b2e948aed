-- ===== src/Ingestion/Write.antt =====
-- The writers of one record (ingestion.rs), on the open transaction.
use morpho_research_os.Prelude.{
  suc, String, Bool, true, false, not, ◌&&◌, Option, none, some, List, [], ◌∷◌, ◌++◌, inl, inr,
  str_eq, any, format, insert, if◌then◌else◌,
}
use morpho_research_os.Prelude.Int.{ℤ, pos, ltb_ℤ}
use morpho_research_os.Errors.{
  Result, ok, err, Action, database, pure, raise, gets, lift, ◌>>=◌, ◌>>◌,
}
use morpho_research_os.Env.{Env}
use morpho_research_os.Ids.{parse_rfc3339_ms}
use morpho_research_os.Repositories.Domain.{Domain, SourceContentRecord, now_unix_ms}
use morpho_research_os.Repositories.Domain.Sources
use morpho_research_os.Repositories.Domain.Nodes
use morpho_research_os.Repositories.Domain.Relations
use morpho_research_os.Repositories.Domain.Claims
use morpho_research_os.Repositories.Domain.Evidence
use morpho_research_os.Ingestion.Wire.{
  SourceWire, SourceContentWire, NodeWire, RelationWire, ClaimWire, EvidenceWire,
  EvidenceLocatorWire, Serde,
}
use morpho_research_os.Ingestion.Check.{
  valid_source_type, capitalized_node_type, evidence_direction,
}
use morpho_research_os.Ingestion.State.{Batch, Outside, on_rows, count}
use morpho_research_os.Ingestion.Cache.{write_content_file}
use morpho_research_os.Ingestion.Resolve.{
  scoped_id, resolve_source, resolve_node, resolve_claim, stored_claim,
}

abbrev or_else : String → String → String
or_else text other = if str_eq text "" then other else text

-- `SELECT COUNT(*) FROM source_contents WHERE cache_path = ?1`, compared with 0.
abbrev pub cache_path_referenced : String → Domain → Bool
cache_path_referenced cache_path d = any (λ c. str_eq c.cache_path cache_path) d.contents

-- `HashMap::get(...)` of the batch's sources.
abbrev pub source_of : String → Action Batch String
source_of worker_id = do
  source_map ← gets (λ s. s.source_map)
  lift (resolve_source source_map worker_id)

abbrev pub node_of : String → List String → String → Action Batch String
node_of project_id batch_nodes worker_id = do
  d ← gets (λ s. s.rows)
  lift (resolve_node project_id worker_id batch_nodes d)

abbrev pub claim_of : String → List String → String → Action Batch String
claim_of project_id batch_claims worker_id = do
  d ← gets (λ s. s.rows)
  lift (resolve_claim project_id worker_id batch_claims d)

-- The loops over the ids of a node.
abbrev pub each : (String → Action Batch String) → List String → Action Batch (List String)
each f [] = pure []
each f (worker_id ∷ rest) = do id ← f worker_id; ids ← each f rest; pure (id ∷ ids)

abbrev pub tell : (Batch → Batch) → Action Batch (Unit {0})
tell f s = (ok tt, f s)

-- The first of the anchors that is there, the most precise first.
abbrev pub first_anchor : List (Option String) → String
first_anchor [] = ""
first_anchor (none ∷ rest) = first_anchor rest
first_anchor (some text ∷ rest) =
    let other = first_anchor rest in if str_eq text "" then other else text

abbrev pub flatten_locator : EvidenceLocatorWire → String
flatten_locator l = first_anchor (l.url_fragment ∷ l.section ∷ l.position ∷ [])

abbrev max_extracted : Option ℤ → List SourceContentRecord → Option ℤ
max_extracted best [] = best
max_extracted none (c ∷ cs) = max_extracted (some c.extracted_at) cs
max_extracted (some best) (c ∷ cs) =
    max_extracted (some (if ltb_ℤ best c.extracted_at then c.extracted_at else best)) cs

-- `SELECT MAX(extracted_at) FROM source_contents WHERE source_id = ?1`.
abbrev source_fetch : String → List SourceContentRecord → Option ℤ
source_fetch source_id [] = none
source_fetch source_id (c ∷ cs) =
    let rest = source_fetch source_id cs in
    if str_eq c.source_id source_id then max_extracted rest (c ∷ []) else rest

abbrev or_zero : Option ℤ → ℤ
or_zero none = pos 0
or_zero (some ms) = ms

abbrev pub evidence_retrieved_at : String → String → Domain → ℤ
evidence_retrieved_at core_source_id retrieved_at d =
    elim (parse_rfc3339_ms retrieved_at) as (λ _. ℤ) [
      | some epoch ↦
          if not (str_eq retrieved_at "")
          then epoch
          else or_zero (source_fetch core_source_id d.contents)
      | none ↦ or_zero (source_fetch core_source_id d.contents)
    ]

module _ ⦃env : Env⦄ ⦃serde : Serde env⦄ ⦃out : Outside⦄ where
  open env use {Value, get, is_null, null, text, object, to_string}
  open serde use {as_f64, in_unit, show}

  -- `epoch_ms`.
  abbrev pub epoch_ms : String → Action Domain ℤ
  epoch_ms value = elim (parse_rfc3339_ms value) as (λ _. Action Domain ℤ) [
    | some ms ↦ pure ms
    | none ↦ now_unix_ms >>= λ now. pure (pos now)
  ]

  -- The quality of a source, where the record has one.
  abbrev pub overall_of : Option Value → Option String
  overall_of none = none
  overall_of (some v) = as_f64 v

  unfoldable pub evaluate : String → Option Value → Action Batch (Unit {0})
  evaluate id none = pure tt
  evaluate id (some quality) =
      elim (overall_of (get quality "overall")) as (λ _. Action Batch (Unit {0})) [
        | none ↦ raise (database "source quality record lacks an overall score")
        | some overall ↦ on_rows (Sources.apply_evaluation in_unit id overall (show quality))
      ]

  unfoldable pub write_source : String → SourceWire Value → Action Batch (Unit {0})
  write_source project_id wire = do
    source_type ← lift (valid_source_type wire.source_type)
    stored ← on_rows (
        Sources.upsert_by_canonical_url (record {
          project_id = project_id;
          url = wire.url;
          canonical_url = wire.canonical_url;
          title = or_else wire.title wire.url;
          source_type = source_type;
        }))
    evaluate stored.0.id wire.quality
    tell (λ s. record s { source_map = insert wire.source_id stored.0.id s.source_map })
    tell (count (λ n. record n { sources = suc n.sources }))

  -- A file that the batch created is listed, unless a row refers to it.
  unfoldable pub note_published : String → Bool → Action Batch (Unit {0})
  note_published cache_path created = tell (λ s.
      if created && not (cache_path_referenced cache_path s.rows)
      then record s { published_files = s.published_files ++ cache_path ∷ [] }
      else s)

  unfoldable pub write_source_content : String → SourceContentWire → Action Batch (Unit {0})
  write_source_content dir wire = do
    core_source_id ← source_of wire.source_id
    let content_id = format ("sc:" ∷ core_source_id ∷ ":" ∷ wire.fingerprint ∷ [])
    stored ← write_content_file dir core_source_id wire.fingerprint wire.content wire.content_type
    note_published stored.0 stored.2
    extracted_at ← on_rows (epoch_ms wire.fetched_at)
    on_rows (
        Sources.upsert_content content_id (record {
          source_id = core_source_id;
          content_hash = wire.fingerprint;
          format = or_else wire.content_type "text/plain";
          cache_path = stored.0;
          byte_size = stored.1;
          extracted_at = extracted_at;
          content_class = wire.locator_base;
        }))
    tell (count (λ n. record n { source_contents = suc n.source_contents }))

  unfoldable pub write_node : String → List String → NodeWire → Action Batch (Unit {0})
  write_node project_id batch_claims wire = do
    mapped_sources ← each source_of wire.source_ids
    mapped_claims ← each (claim_of project_id batch_claims) wire.claim_ids
    node_type ← lift (capitalized_node_type wire.node_type)
    on_rows (
        Nodes.upsert_by_slug (record {
          id = some (scoped_id project_id wire.node_id);
          project_id = project_id;
          node_type = node_type;
          title = wire.title;
          slug = wire.node_id;
          summary = wire.summary;
          confidence = or_else wire.confidence "unverified";
          aliases = wire.aliases;
          tags = [];
          source_ids = mapped_sources;
          claim_ids = mapped_claims;
        }))
    tell (count (λ n. record n { nodes = suc n.nodes }))

  unfoldable pub write_relation : String → List String → RelationWire → Action Batch (Unit {0})
  write_relation project_id batch_nodes wire = do
    from ← node_of project_id batch_nodes wire.subject_node_id
    to ← node_of project_id batch_nodes wire.object_node_id
    on_rows (
        Relations.insert (record {
          id = some (scoped_id project_id wire.relation_id);
          project_id = project_id;
          from_node_id = from;
          to_node_id = to;
          relation_type = wire.predicate;
          confidence = or_else wire.confidence "unverified";
        }))
    tell (count (λ n. record n { relations = suc n.relations }))

  -- The id under which the claim is stored, or will be.
  abbrev pub claim_id_of : String → String → Domain → String
  claim_id_of project_id worker_id d = elim (stored_claim project_id worker_id d) as (λ _. String) [
    | some id ↦ id
    | none ↦ scoped_id project_id worker_id
  ]

  abbrev pub provenance_text : Value → String
  provenance_text v = if is_null v then "" else show v

  -- A claim that was stored before takes over the review's state.
  abbrev pub review_again : String → Bool → String → String → String → Action Domain (Unit {0})
  review_again id true project_id status confidence = pure tt
  review_again id false project_id status confidence =
      Claims.update_review_state id project_id status confidence

  unfoldable pub write_claim : String → List String → ClaimWire Value → Action Batch (Unit {0})
  write_claim project_id batch_nodes wire = do
    subject ← node_of project_id batch_nodes wire.subject_node_id
    core_id ← gets (λ s. claim_id_of project_id wire.claim_id s.rows)
    stored ← on_rows (
        Claims.insert (record {
          id = some core_id;
          project_id = project_id;
          subject = subject;
          predicate = wire.predicate;
          object_value = wire.object_value;
          scope = wire.scope;
          status = or_else wire.status "draft";
          confidence = or_else wire.confidence "unverified";
          provenance = provenance_text wire.provenance;
        }))
    on_rows (
        review_again stored.0.id stored.1 project_id (or_else wire.status "draft")
          (or_else wire.confidence "unverified"))
    tell (count (λ n. record n { claims = suc n.claims }))

  abbrev member : Option String → Value
  member none = null
  member (some t) = text t

  -- `serde_json::to_string(&json!({...}))`.
  abbrev pub locator_detail : EvidenceLocatorWire → Result String
  locator_detail l =
      elim (to_string (
          object (
            ("quote", member l.quote)
            ∷ ("section", member l.section)
            ∷ ("url_fragment", member l.url_fragment)
            ∷ ("position", member l.position)
            ∷ ("retrieved_at", text l.retrieved_at)
            ∷ [])))
        as (λ _. Result String) [
          | inl message ↦
              err (database (format ("serialize locator detail failed: " ∷ message ∷ [])))
          | inr detail ↦ ok detail
        ]

  abbrev pub quote_of : EvidenceLocatorWire → String
  quote_of l = elim l.quote as (λ _. String) [ none ↦ "" | some t ↦ t ]

  -- The ids of the claim and of the evidence, to be linked.
  unfoldable pub write_evidence :
      String → List String → EvidenceWire → Action Batch (String × String)
  write_evidence project_id batch_claims wire = do
    core_source_id ← source_of wire.source_id
    claim_id ← claim_of project_id batch_claims wire.claim_id
    detail ← lift (locator_detail wire.locator)
    retrieved_at ← gets (λ s. evidence_retrieved_at core_source_id wire.locator.retrieved_at s.rows)
    direction ← lift (evidence_direction wire.direction)
    on_rows (
        Evidence.insert (record {
          id = some (scoped_id project_id wire.evidence_id);
          project_id = project_id;
          source_id = core_source_id;
          quote = quote_of wire.locator;
          value = "";
          locator = flatten_locator wire.locator;
          locator_detail = detail;
          retrieved_at = retrieved_at;
          direction = direction;
        }))
    tell (count (λ n. record n { evidence = suc n.evidence }))
    pure (claim_id, scoped_id project_id wire.evidence_id)
