-- ===== src/Ingestion/Laws/Writers.antt =====
-- Every writer of an ingestion keeps what `Kept` says of the tables.
use morpho_research_os.Prelude.{
  String, Bool, true, false, not, ◌&&◌, ◌≡◌, refl, List, [], ◌∷◌, ◌++◌, Option, none, some, All,
  if◌then◌else◌,
}
use morpho_research_os.Errors.{Action, database, raise, ◌>>=◌}
use morpho_research_os.Env.{Env}
use morpho_research_os.Keeps.{
  Keeps, IsPreorder, Keeps-bind, Keeps-pure, Keeps-gets, Keeps-lift, Keeps-option, bind_at,
}
use morpho_research_os.Ids.{parse_rfc3339_ms}
use morpho_research_os.Repositories.Domain.Kept.{Kept, Kept-preorder}
use morpho_research_os.Repositories.Domain.Laws.{
  Keeps-new_id, Keeps-now_unix_ms, Keeps-upsert_source,
}
use morpho_research_os.Repositories.Domain.Laws.NodeWrites.{Keeps-upsert_by_slug}
use morpho_research_os.Repositories.Domain.Laws.EvidenceWrites.{
  Keeps-insert_relation_row, Keeps-insert_evidence_row,
}
use morpho_research_os.Repositories.Domain.Laws.ClaimWrites.{
  Keeps-insert, Keeps-update_review_state, Keeps-link,
}
use morpho_research_os.Repositories.Domain.Laws.ContentWrites.{
  Keeps-upsert_content, Owned, apply_evaluation_at, upsert_by_canonical_url-Owned,
}
use morpho_research_os.Repositories.Domain.Sources
use morpho_research_os.Ingestion.Wire.{
  SourceWire, SourceContentWire, NodeWire, RelationWire, ClaimWire, EvidenceWire, ParsedRecord,
  source, source_content, node, relation, claim, evidence, has_anchor, Serde,
}
use morpho_research_os.Ingestion.State.{Batch, Outside, on_rows}
use morpho_research_os.Ingestion.Write
use morpho_research_os.Ingestion.{write_record, write_each, link_each, no_link}
use morpho_research_os.Ingestion.Laws.{
  KeptRows, KeptRows-preorder, Keeps-on_rows, Keeps-tell, Keeps-each, Keeps-source_of,
  Keeps-node_of, Keeps-claim_of, Keeps-write_content_file,
}
use morpho_research_os.Ingestion.Laws.Anchors.{has_anchor_row, Checked}

module _ ⦃env : Env⦄ ⦃serde : Serde env⦄ ⦃out : Outside⦄ (project_id : String) where
  open env use {Value, get}

  pre : IsPreorder (KeptRows project_id)
  pre = KeptRows-preorder project_id

  evaluate_at :
      (id : String) (quality : Option Value) (s : Batch)
      → Owned project_id id s.rows
      → KeptRows project_id s (Write.evaluate id quality s).1
  unfolding Write.evaluate on_rows ◌>>=◌
  evaluate_at id none s owned = pre.R_refl s
  evaluate_at id (some quality) s owned = scored (Write.overall_of (get quality "overall"))
    where
      scored :
          (overall : Option String)
          → KeptRows project_id s
              ((elim overall as (λ _. Action Batch (Unit {0})) [
                | none ↦ raise (database "source quality record lacks an overall score")
                | some score ↦
                    on_rows (Sources.apply_evaluation serde.in_unit id score (serde.show quality))
              ])
                s).1
      scored none = pre.R_refl s
      scored (some score) = apply_evaluation_at project_id serde.in_unit id score _ s.rows owned

  Keeps-write_source :
      (wire : SourceWire Value) → Keeps (KeptRows project_id) (Write.write_source project_id wire)
  unfolding Write.write_source on_rows
  Keeps-write_source wire = Keeps-bind pre _ _ (Keeps-lift pre _) (λ source_type. record {
    at = λ s.
        bind_at pre _ _ s
          ((Keeps-on_rows project_id _ (Keeps-upsert_source project_id _ refl)).at s)
          (λ stored h.
            bind_at pre _ _ _
              (evaluate_at stored.0.id wire.quality _
                (upsert_by_canonical_url-Owned project_id _ stored s.rows refl h))
              (λ _ _.
                (Keeps-bind pre _ _ (Keeps-tell project_id _ (λ _. refl))
                    (λ _. Keeps-tell project_id _ (λ _. refl))).at
                  _));
  })

  Keeps-note_published :
      (cache_path : String) (created : Bool)
      → Keeps (KeptRows project_id) (Write.note_published cache_path created)
  unfolding Write.note_published
  Keeps-note_published cache_path created =
      Keeps-tell project_id _
        (λ s. go s (created && not (Write.cache_path_referenced cache_path s.rows)))
    where
      go :
          (s : Batch) (b : Bool)
          → (if b
              then record s { published_files = s.published_files ++ cache_path ∷ [] }
              else s).rows
            ≡ s.rows
      go s true = refl
      go s false = refl

  Keeps-epoch_ms : (value : String) → Keeps (Kept project_id) (Write.epoch_ms value)
  Keeps-epoch_ms value =
      let same = Kept-preorder project_id in
      Keeps-option (parse_rfc3339_ms value) _ _
        (Keeps-bind same _ _ (Keeps-now_unix_ms project_id) (λ _. Keeps-pure same _))
        (λ _. Keeps-pure same _)

  Keeps-write_source_content :
      (dir : String) (wire : SourceContentWire)
      → Keeps (KeptRows project_id) (Write.write_source_content dir wire)
  unfolding Write.write_source_content
  Keeps-write_source_content dir wire = Keeps-bind pre _ _ (Keeps-source_of pre _) (λ id.
      Keeps-bind pre _ _
        (Keeps-write_content_file pre (λ s _ _. (Kept-preorder project_id).R_refl s.rows)
          (Keeps-on_rows project_id _ (Keeps-new_id project_id)) _ _ _ _ _)
        (λ stored. Keeps-bind pre _ _ (Keeps-note_published _ _) (λ _.
          Keeps-bind pre _ _ (Keeps-on_rows project_id _ (Keeps-epoch_ms _)) (λ extracted_at.
            Keeps-bind pre _ _ (Keeps-on_rows project_id _ (Keeps-upsert_content project_id _ _))
              (λ _. Keeps-tell project_id _ (λ _. refl))))))

  Keeps-write_node :
      (claims : List String) (wire : NodeWire)
      → Keeps (KeptRows project_id) (Write.write_node project_id claims wire)
  unfolding Write.write_node
  Keeps-write_node claims wire = Keeps-bind pre _ _ (Keeps-each pre _ _ (Keeps-source_of pre)) (λ _.
      Keeps-bind pre _ _ (Keeps-each pre _ _ (Keeps-claim_of pre _ _)) (λ _.
        Keeps-bind pre _ _ (Keeps-lift pre _) (λ node_type.
          Keeps-bind pre _ _ (Keeps-on_rows project_id _ (Keeps-upsert_by_slug project_id _ refl))
            (λ _. Keeps-tell project_id _ (λ _. refl)))))

  Keeps-write_relation :
      (nodes : List String) (wire : RelationWire)
      → Keeps (KeptRows project_id) (Write.write_relation project_id nodes wire)
  unfolding Write.write_relation
  Keeps-write_relation nodes wire = Keeps-bind pre _ _ (Keeps-node_of pre _ _ _) (λ from.
      Keeps-bind pre _ _ (Keeps-node_of pre _ _ _) (λ to.
        Keeps-bind pre _ _
          (Keeps-on_rows project_id _ (Keeps-insert_relation_row project_id _ refl))
          (λ _. Keeps-tell project_id _ (λ _. refl))))

  Keeps-review_again :
      (id : String) (created : Bool) (status confidence : String)
      → Keeps (Kept project_id) (Write.review_again id created project_id status confidence)
  Keeps-review_again id true status confidence = Keeps-pure (Kept-preorder project_id) tt
  Keeps-review_again id false status confidence =
      Keeps-update_review_state project_id id status confidence

  Keeps-write_claim :
      (nodes : List String) (wire : ClaimWire Value)
      → Keeps (KeptRows project_id) (Write.write_claim project_id nodes wire)
  unfolding Write.write_claim
  Keeps-write_claim nodes wire = Keeps-bind pre _ _ (Keeps-node_of pre _ _ _) (λ subject.
      Keeps-bind pre _ _ (Keeps-gets pre _) (λ core_id.
        Keeps-bind pre _ _ (Keeps-on_rows project_id _ (Keeps-insert project_id _ refl)) (λ stored.
          Keeps-bind pre _ _
            (Keeps-on_rows project_id _ (Keeps-review_again stored.0.id stored.1 _ _))
            (λ _. Keeps-tell project_id _ (λ _. refl)))))

  Keeps-write_evidence :
      (claims : List String) (wire : EvidenceWire)
      → has_anchor wire.locator ≡ true
      → Keeps (KeptRows project_id) (Write.write_evidence project_id claims wire)
  unfolding Write.write_evidence
  Keeps-write_evidence claims wire anchored = Keeps-bind pre _ _ (Keeps-source_of pre _) (λ _.
      Keeps-bind pre _ _ (Keeps-claim_of pre _ _ _) (λ _.
        Keeps-bind pre _ _ (Keeps-lift pre _) (λ _. Keeps-bind pre _ _ (Keeps-gets pre _) (λ _.
          Keeps-bind pre _ _ (Keeps-lift pre _) (λ _.
            Keeps-bind pre _ _
              (Keeps-on_rows project_id _ (
                Keeps-insert_evidence_row project_id _ refl (has_anchor_row wire.locator anchored)))
              (λ _.
                Keeps-bind pre _ _ (Keeps-tell project_id _ (λ _. refl))
                  (λ _. Keeps-pure pre _)))))))

  Keeps-no_link :
      (m : Action Batch (Unit {0}))
      → Keeps (KeptRows project_id) m
      → Keeps (KeptRows project_id) (no_link m)
  Keeps-no_link m k = Keeps-bind pre _ _ k (λ _. Keeps-pure pre [])

  Keeps-write_record :
      (dir : String) (nodes claims : List String) (r : ParsedRecord Value)
      → Checked r
      → Keeps (KeptRows project_id) (write_record dir project_id nodes claims r)
  unfolding write_record
  Keeps-write_record dir nodes claims (source wire) h = Keeps-no_link _ (Keeps-write_source wire)
  Keeps-write_record dir nodes claims (source_content wire) h =
      Keeps-no_link _ (Keeps-write_source_content dir wire)
  Keeps-write_record dir nodes claims (node wire) h = Keeps-no_link _ (Keeps-write_node claims wire)
  Keeps-write_record dir nodes claims (relation wire) h =
      Keeps-no_link _ (Keeps-write_relation nodes wire)
  Keeps-write_record dir nodes claims (claim wire) h =
      Keeps-no_link _ (Keeps-write_claim nodes wire)
  Keeps-write_record dir nodes claims (evidence wire) h =
      Keeps-bind pre _ _ (Keeps-write_evidence claims wire h) (λ _. Keeps-pure pre _)

  pub Keeps-write_each :
      (dir : String) (nodes claims : List String) (rs : List (ParsedRecord Value))
      (deferred : List (String × String))
      → All Checked rs
      → Keeps (KeptRows project_id) (write_each dir project_id nodes claims rs deferred)
  unfolding write_each
  Keeps-write_each dir nodes claims [] deferred h = Keeps-pure pre deferred
  Keeps-write_each dir nodes claims (r ∷ rs) deferred h =
      Keeps-bind pre _ _ (Keeps-write_record dir nodes claims r h.0)
        (λ link. Keeps-write_each dir nodes claims rs (deferred ++ link) h.1)

  pub Keeps-link_each :
      (links : List (String × String)) → Keeps (KeptRows project_id) (link_each links)
  unfolding link_each
  Keeps-link_each [] = Keeps-pure pre tt
  Keeps-link_each ((claim_id, evidence_id) ∷ links) =
      Keeps-bind pre _ _ (Keeps-on_rows project_id _ (Keeps-link project_id claim_id evidence_id))
        (λ _. Keeps-link_each links)
