-- ===== src/Ingestion/Laws/Written.antt =====
-- A batch that is written whole.
use morpho_research_os.Prelude.{ℕ, map, String, ◌≡◌, refl, sym, ap, ◌∙◌, List, [], All}
use morpho_research_os.Errors.{ok, gets, bind_ok_at, ◌>>=◌}
use morpho_research_os.Env.{Env}
use morpho_research_os.Repositories.Runs
use morpho_research_os.Repositories.Runs.{run_key}
use morpho_research_os.Repositories.Domain.{Domain}
use morpho_research_os.Ingestion.Wire.{IngestTarget, ParsedRecord, IngestStats, Serde}
use morpho_research_os.Ingestion.State.{Batch, Outside, on_rows}
use morpho_research_os.Ingestion.Check.{batch_nodes, batch_claims}
use morpho_research_os.Ingestion.{Store, begin, write_each, link_each, on_core, write_batch}
use morpho_research_os.Ingestion.Laws.Linked.{IsJoined, All-IsJoined, link_each-IsJoined}
use morpho_research_os.Ingestion.Laws.Deferred.{evidence_ids, write_each-evidence}

module _ ⦃env : Env⦄ ⦃serde : Serde env⦄ ⦃out : Outside⦄ where
  open env use {Value}

  -- The batch was written: writing each of its records in turn succeeded, then so did writing each of
  -- the links that they left, and the research tables are the ones after that. The links are for the
  -- evidence of the batch, in order, and each is stored with its claim and its evidence.
  pub record IsWritten (target : IngestTarget) (dir : String) (s : Store)
      (parsed : List (ParsedRecord Value)) (skipped : ℕ) (d' : Domain) : Type 0 where
    pub links : List (String × String)
    pub recorded : Batch
    pub linked : Batch
    pub writes :
        write_each dir target.project_id
          (batch_nodes parsed)
          (batch_claims parsed)
          parsed
          []
          (begin skipped s)
        ≡ (ok links, recorded)
    pub joins : link_each links recorded ≡ (ok tt, linked)
    pub stored : record d' { core = linked.rows.core } ≡ linked.rows
    pub for_evidence : map (λ l. l.1) links ≡ evidence_ids target.project_id parsed
    pub joined : All (IsJoined d') links

  pub gets_state : {A : Type 0} (f : Batch → A) (s : Batch) → (gets f s).1 ≡ s
  unfolding ◌>>=◌
  gets_state f s = refl

  -- The last step of the transaction leaves the research tables.
  others_last :
      (target : IngestTarget) (s : Batch)
      → record ((on_rows (on_core (Runs.set_delivery_status target.run_id "delivered")) s).1.rows) {
        core = s.rows.core;
      }
        ≡ s.rows
  unfolding on_rows
  others_last target s = refl

  pub write_batch-IsWritten :
      (dir : String) (target : IngestTarget) (parsed : List (ParsedRecord Value)) (skipped : ℕ)
      (s : Store) {stats : IngestStats}
      → (write_batch dir target parsed (begin skipped s)).0 ≡ ok stats
      → IsWritten target dir s parsed skipped
          (write_batch dir target parsed (begin skipped s)).1.rows
  unfolding write_batch
  write_batch-IsWritten dir target parsed skipped s h =
      let p = target.project_id in
      let first = write_each dir p (batch_nodes parsed) (batch_claims parsed) parsed [] in
      let (links, e1, p1) = bind_ok_at first _ (begin skipped s) h in
      let s1 = (first (begin skipped s)).1 in
      let (u, e2, p2) = bind_ok_at (link_each links) _ s1 (ap (λ r. r.0) (sym p1) ∙ h) in
      let s2 = (link_each links s1).1 in
      let (u3, e3, p3) = bind_ok_at _ _ s2 (ap (λ r. r.0) (sym (p1 ∙ p2)) ∙ h) in
      let written =
        ap (λ r. record r.1.rows { core = s2.rows.core }) (p1 ∙ p2 ∙ p3)
        ∙ ap (λ t. record t.rows { core = s2.rows.core }) (gets_state _ _)
        ∙ others_last target s2 in
      record {
        links = links;
        recorded = s1;
        linked = s2;
        writes = λ i. (e1 i, s1);
        joins = λ i. (e2 i, s2);
        stored = written;
        for_evidence = write_each-evidence dir p _ _ parsed [] links (begin skipped s) e1;
        joined = All-IsJoined s2.rows _ links written (link_each-IsJoined links s1 e2).1;
      }
