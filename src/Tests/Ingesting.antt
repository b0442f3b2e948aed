-- ===== src/Tests/Ingesting.antt =====
-- The theorems on ingestion, applied to a batch with one record of each kind.
use morpho_research_os.Prelude.{
  map, if◌then◌else◌, String, true, none, some, List, [], ◌∷◌, inr, ◌≡◌, refl, str_eq, format,
}
use morpho_research_os.Errors.{ok, ◌>>=◌}
use morpho_research_os.Repositories.Domain.{Domain}
use morpho_research_os.Ingestion.Wire.{
  IngestTarget, ResultsEnvelopeWire, RecordWire, SourceWire, SourceContentWire, NodeWire,
  RelationWire, ClaimWire, EvidenceWire, IngestStats, Serde,
}
use morpho_research_os.Ingestion.State.{Outside}
use morpho_research_os.Ids.{parse_rfc3339_ms}
use morpho_research_os.Vault.Hash.{as_bytes}
use morpho_research_os.Repositories.Rows.{row, modify}
use morpho_research_os.Repositories.Runs
use morpho_research_os.Repositories.Transaction.{rollback}
use morpho_research_os.Repositories.Domain
use morpho_research_os.Repositories.Domain.Sources
use morpho_research_os.Repositories.Domain.Nodes
use morpho_research_os.Repositories.Domain.Relations
use morpho_research_os.Repositories.Domain.Claims
use morpho_research_os.Repositories.Domain.Evidence
use morpho_research_os.Ingestion
use morpho_research_os.Ingestion.Wire
use morpho_research_os.Ingestion.Check
use morpho_research_os.Ingestion.State
use morpho_research_os.Ingestion.Cache
use morpho_research_os.Ingestion.Resolve
use morpho_research_os.Ingestion.Write
use morpho_research_os.Ingestion.{Store, ingest}
use morpho_research_os.Ingestion.Laws.Whole.{ingest-Kept}
use morpho_research_os.Ingestion.Laws.Delivery.{Outcome, ingest-Outcome}
use morpho_research_os.Repositories.Domain.Kept.{Kept}
use morpho_research_os.Ingestion.{begin}
use morpho_research_os.Ingestion.Cache.{write_content_file, file_name}
use morpho_research_os.Ingestion.Laws.Counted.{IsTally, ingest-IsTally}
use morpho_research_os.Ingestion.Laws.Intact.{IsStored, write_content_file-IsStored}
use morpho_research_os.Ingestion.Laws.Names.{IsPlain, IsPlain-file_name}
use morpho_research_os.Tests.Sample.{Json, example_env, run}

abbrev text_in : Json → String
text_in [] = ""
text_in ((key, value) ∷ v) = value

-- A member that is not part of the head is a record, under its kind.
abbrev records_in : Json → List (RecordWire Json)
records_in [] = []
records_in ((key, value) ∷ v) =
    if str_eq key "job_id"
    then records_in v
    else record { kind = key; payload = ("", value) ∷ [] } ∷ records_in v

abbrev source_in : Json → SourceWire Json
source_in v = record {
  source_id = text_in v;
  url = "https://example.org";
  canonical_url = "https://example.org";
  title = "";
  source_type = "paper";
  quality = none;
}

abbrev content_in : Json → SourceContentWire
content_in v = record {
  source_id = text_in v;
  content = "text";
  content_type = "text/html";
  fingerprint = "00FF";
  fetched_at = "2024-02-29T00:00:00Z";
  locator_base = "full-text";
}

abbrev node_in : Json → NodeWire
node_in v = record {
  node_id = text_in v;
  node_type = "concept";
  title = text_in v;
  aliases = [];
  summary = "";
  confidence = "high";
  source_ids = "s-1" ∷ [];
  claim_ids = "c-1" ∷ [];
}

abbrev relation_in : Json → RelationWire
relation_in v = record {
  relation_id = text_in v;
  subject_node_id = "n-1";
  predicate = "uses";
  object_node_id = "n-2";
  direction = "directed";
  confidence = "";
}

abbrev claim_in : Json → ClaimWire Json
claim_in v = record {
  claim_id = text_in v;
  subject_node_id = "n-1";
  predicate = "is";
  object_value = "so";
  scope = "";
  status = "draft";
  confidence = "low";
  provenance = [];
}

abbrev evidence_in : Json → EvidenceWire
evidence_in v = record {
  evidence_id = text_in v;
  claim_id = "c-1";
  source_id = "s-1";
  locator = record {
    quote = some "a quote";
    section = none;
    url_fragment = some "top";
    position = none;
    retrieved_at = "";
  };
  direction = "supports";
}

instance abbrev example_serde : Serde example_env
example_serde = record {
  read_envelope =
      λ v. inr (record { schema_version = "1"; job_id = text_in v; records = records_in v });
  read_source = λ v. inr (source_in v);
  read_source_content = λ v. inr (content_in v);
  read_node = λ v. inr (node_in v);
  read_relation = λ v. inr (relation_in v);
  read_claim = λ v. inr (claim_in v);
  read_evidence = λ v. inr (evidence_in v);
  as_f64 = λ v. none;
  in_unit = λ score. true;
  show = text_in;
}

instance abbrev example_outside : Outside
example_outside = record {
  trouble = λ n. none;
  missing = "no such file";
  join = λ dir name. format (dir ∷ "/" ∷ name ∷ []);
  sha256 = λ bytes. "00ff";
}

abbrev target : IngestTarget
target = record { project_id = "project-1"; job_id = "job-1"; run_id = "run-1" }

abbrev batch : Json
batch =
    ("job_id", "job-1")
    ∷ ("source", "s-1")
    ∷ ("source-content", "s-1")
    ∷ ("node", "n-1")
    ∷ ("node", "n-2")
    ∷ ("relation", "r-1")
    ∷ ("claim", "c-1")
    ∷ ("evidence", "e-1")
    ∷ ("note", "")
    ∷ []

abbrev empty_store : Store
empty_store = record {
  rows = record {
    core = record {
      tasks = [];
      runs = record (run "completed") { worker_job_id = some "job-1" } ∷ [];
      dependencies = [];
      events = [];
      reads = 0;
      drawn = 0;
    };
    sources = [];
    contents = [];
    nodes = [];
    relations = [];
    claims = [];
    evidence = [];
    links = [];
  };
  files = [];
  turns = 0;
}

abbrev batch_stats : IngestStats
batch_stats = record {
  sources = 1;
  source_contents = 1;
  nodes = 2;
  relations = 1;
  claims = 1;
  evidence = 1;
  skipped = 1;
}

batch_stats_runs : (ingest target batch "cache" empty_store).0 ≡ ok batch_stats
unfolding format ingest Ingestion.validate Check.and_then Ingestion.check_envelope Runs.get
    Check.check_all Check.check_record Check.check_source Check.check_source_content
    Check.check_node Check.capitalized_node_type Check.check_relation Check.check_claim
    Check.check_evidence Wire.has_anchor Ingestion.write_batch ◌>>=◌ Ingestion.write_each
    Ingestion.write_record Ingestion.link_each Ingestion.roll_back rollback Ingestion.remove_each
    State.on_rows State.attempt State.read_file Cache.rename Cache.publish Cache.replace_file
    Cache.store_content Cache.write_content_file Resolve.resolve_source Resolve.resolve_node
    Resolve.resolve_claim Resolve.stored_claim Write.evaluate Write.write_source
    Write.note_published Write.write_source_content Write.write_node Write.write_relation
    Write.write_claim Write.write_evidence Domain.require Domain.execute Domain.now_unix_ms
    Domain.new_id Domain.id_or_new row modify Sources.get_by_canonical_url Sources.insert_source
    Sources.insert_new Sources.upsert_by_canonical_url Sources.upsert_content Sources.get_content
    Nodes.get_by_slug Nodes.validate Nodes.insert_node Nodes.insert_new Nodes.upsert_by_slug
    Relations.get Relations.stored Relations.insert_relation Relations.insert_new Relations.insert
    Claims.get Claims.stored Claims.validate Claims.insert_claim Claims.insert_new Claims.insert
    Claims.link Evidence.get Evidence.stored Evidence.insert_evidence Evidence.insert_new
    Evidence.insert Runs.update_row Runs.set_delivery_status as_bytes parse_rfc3339_ms
batch_stats_runs = refl

batch_links_run :
    (ingest target batch "cache" empty_store).1.rows.links ≡ ("project-1:c-1", "project-1:e-1") ∷ []
unfolding format ingest Ingestion.validate Check.and_then Ingestion.check_envelope Runs.get
    Check.check_all Check.check_record Check.check_source Check.check_source_content
    Check.check_node Check.capitalized_node_type Check.check_relation Check.check_claim
    Check.check_evidence Wire.has_anchor Ingestion.write_batch ◌>>=◌ Ingestion.write_each
    Ingestion.write_record Ingestion.link_each Ingestion.roll_back rollback Ingestion.remove_each
    State.on_rows State.attempt State.read_file Cache.rename Cache.publish Cache.replace_file
    Cache.store_content Cache.write_content_file Resolve.resolve_source Resolve.resolve_node
    Resolve.resolve_claim Resolve.stored_claim Write.evaluate Write.write_source
    Write.note_published Write.write_source_content Write.write_node Write.write_relation
    Write.write_claim Write.write_evidence Domain.require Domain.execute Domain.now_unix_ms
    Domain.new_id Domain.id_or_new row modify Sources.get_by_canonical_url Sources.insert_source
    Sources.insert_new Sources.upsert_by_canonical_url Sources.upsert_content Sources.get_content
    Nodes.get_by_slug Nodes.validate Nodes.insert_node Nodes.insert_new Nodes.upsert_by_slug
    Relations.get Relations.stored Relations.insert_relation Relations.insert_new Relations.insert
    Claims.get Claims.stored Claims.validate Claims.insert_claim Claims.insert_new Claims.insert
    Claims.link Evidence.get Evidence.stored Evidence.insert_evidence Evidence.insert_new
    Evidence.insert Runs.update_row Runs.set_delivery_status as_bytes parse_rfc3339_ms
batch_links_run = refl

-- A relation in front of its nodes is refused, with the whole batch.
early_relation_runs :
    (ingest target
      (("job_id", "job-1")
        ∷ ("source", "s-1")
        ∷ ("claim", "c-1")
        ∷ ("relation", "r-1")
        ∷ ("node", "n-1")
        ∷ ("node", "n-2")
        ∷ [])
      "cache"
      empty_store).1.rows.sources
    ≡ []
unfolding format ingest Ingestion.validate Check.and_then Ingestion.check_envelope Runs.get
    Check.check_all Check.check_record Check.check_source Check.check_source_content
    Check.check_node Check.capitalized_node_type Check.check_relation Check.check_claim
    Check.check_evidence Wire.has_anchor Ingestion.write_batch ◌>>=◌ Ingestion.write_each
    Ingestion.write_record Ingestion.link_each Ingestion.roll_back rollback Ingestion.remove_each
    State.on_rows State.attempt State.read_file Cache.rename Cache.publish Cache.replace_file
    Cache.store_content Cache.write_content_file Resolve.resolve_source Resolve.resolve_node
    Resolve.resolve_claim Resolve.stored_claim Write.evaluate Write.write_source
    Write.note_published Write.write_source_content Write.write_node Write.write_relation
    Write.write_claim Write.write_evidence Domain.require Domain.execute Domain.now_unix_ms
    Domain.new_id Domain.id_or_new row modify Sources.get_by_canonical_url Sources.insert_source
    Sources.insert_new Sources.upsert_by_canonical_url Sources.upsert_content Sources.get_content
    Nodes.get_by_slug Nodes.validate Nodes.insert_node Nodes.insert_new Nodes.upsert_by_slug
    Relations.get Relations.stored Relations.insert_relation Relations.insert_new Relations.insert
    Claims.get Claims.stored Claims.validate Claims.insert_claim Claims.insert_new Claims.insert
    Claims.link Evidence.get Evidence.stored Evidence.insert_evidence Evidence.insert_new
    Evidence.insert Runs.update_row Runs.set_delivery_status as_bytes parse_rfc3339_ms
early_relation_runs = refl

ingest-Kept_example :
    Kept "project-1" empty_store.rows
      (record (ingest target batch "cache" empty_store).1.rows { core = empty_store.rows.core })
ingest-Kept_example = ingest-Kept target batch "cache" empty_store

ingest-Outcome_example :
    Outcome target batch "cache" empty_store (ingest target batch "cache" empty_store)
ingest-Outcome_example = ingest-Outcome target batch "cache" empty_store

abbrev envelope : ResultsEnvelopeWire Json
envelope = record { schema_version = "1"; job_id = "job-1"; records = records_in batch }

ingest-IsTally_example : IsTally (map (λ r. r.kind) envelope.records) batch_stats
ingest-IsTally_example =
    ingest-IsTally target batch "cache" empty_store envelope batch_stats refl batch_stats_runs

content_runs :
    (write_content_file "cache" "s" "00FF" "text" "text/html" (begin 0 empty_store)).0
    ≡ ok ("cache/s-00FF.html", 4, true)
unfolding format ingest Ingestion.validate Check.and_then Ingestion.check_envelope Runs.get
    Check.check_all Check.check_record Check.check_source Check.check_source_content
    Check.check_node Check.capitalized_node_type Check.check_relation Check.check_claim
    Check.check_evidence Wire.has_anchor Ingestion.write_batch ◌>>=◌ Ingestion.write_each
    Ingestion.write_record Ingestion.link_each Ingestion.roll_back rollback Ingestion.remove_each
    State.on_rows State.attempt State.read_file Cache.rename Cache.publish Cache.replace_file
    Cache.store_content Cache.write_content_file Resolve.resolve_source Resolve.resolve_node
    Resolve.resolve_claim Resolve.stored_claim Write.evaluate Write.write_source
    Write.note_published Write.write_source_content Write.write_node Write.write_relation
    Write.write_claim Write.write_evidence Domain.require Domain.execute Domain.now_unix_ms
    Domain.new_id Domain.id_or_new row modify Sources.get_by_canonical_url Sources.insert_source
    Sources.insert_new Sources.upsert_by_canonical_url Sources.upsert_content Sources.get_content
    Nodes.get_by_slug Nodes.validate Nodes.insert_node Nodes.insert_new Nodes.upsert_by_slug
    Relations.get Relations.stored Relations.insert_relation Relations.insert_new Relations.insert
    Claims.get Claims.stored Claims.validate Claims.insert_claim Claims.insert_new Claims.insert
    Claims.link Evidence.get Evidence.stored Evidence.insert_evidence Evidence.insert_new
    Evidence.insert Runs.update_row Runs.set_delivery_status as_bytes parse_rfc3339_ms
content_runs = refl

write_content_file-IsStored_example :
    IsStored "cache/s-00FF.html" "00FF"
      (as_bytes "text")
      ("cache/s-00FF.html", 4, true)
      (write_content_file "cache" "s" "00FF" "text" "text/html" (begin 0 empty_store)).1
unfolding format as_bytes
write_content_file-IsStored_example =
    write_content_file-IsStored "cache" "s" "00FF" "text" "text/html" (begin 0 empty_store)
      ("cache/s-00FF.html", 4, true) refl content_runs

IsPlain-file_name_example : IsPlain (file_name "../s" "00FF" "text/html")
IsPlain-file_name_example = IsPlain-file_name "../s" "00FF" "text/html"
