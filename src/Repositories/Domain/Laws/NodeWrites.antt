-- ===== src/Repositories/Domain/Laws/NodeWrites.antt =====
-- Writing knowledge nodes keeps what `Kept` says.
use morpho_research_os.Prelude.{String, true, ◌≡◌, refl, sym, ap, ◌∙◌, some, arith, eq_iff, find}
use morpho_research_os.Errors.{◌>>=◌}
use morpho_research_os.Env.{Env}
use morpho_research_os.Keeps.{Keeps, IsPreorder, Keeps-bind, Keeps-pure}
use morpho_research_os.Repositories.Rows.{row}
use morpho_research_os.Repositories.Domain.{
  Domain, KnowledgeNodeRecord, node_key, execute, now_unix_ms,
}
use morpho_research_os.Repositories.Domain.Growth.{Grows-append, Grows-modify}
use morpho_research_os.Repositories.Domain.Kept.{Kept, Kept-preorder, nodes-Kept}
use morpho_research_os.Repositories.Domain.Same.{SameNode-refl}
use morpho_research_os.Repositories.Domain.Guards.{missing_at, found_at}
use morpho_research_os.Repositories.Domain.Laws.{
  other_self, found_project, Keeps-require, Keeps-now_unix_ms, Keeps-id_or_new,
}
use morpho_research_os.Repositories.Domain.Nodes

module _ ⦃env : Env⦄ (project_id : String) where
  pre : IsPreorder (Kept project_id)
  pre = Kept-preorder project_id

  Keeps-insert_node :
      (r : KnowledgeNodeRecord)
      → r.project_id ≡ project_id
      → Keeps (Kept project_id) (Nodes.insert_node r)
  unfolding Nodes.insert_node execute
  Keeps-insert_node r h = record {
    at = λ d.
        missing_at pre (λ t. row node_key r.id t.nodes) _ _ d
          λ free.
            nodes-Kept project_id d _
              (Grows-append node_key (SameNode-refl project_id) d.nodes r free h);
  }

  Keeps-insert_new :
      (new : Nodes.NewKnowledgeNode)
      → new.project_id ≡ project_id
      → Keeps (Kept project_id) (Nodes.insert_new new)
  unfolding Nodes.insert_new
  Keeps-insert_new new h = Keeps-bind pre _ _ (Keeps-now_unix_ms project_id) (λ now.
      Keeps-bind pre _ _ (Keeps-id_or_new project_id new.id)
        (λ id. Keeps-bind pre _ _ (Keeps-insert_node _ h) (λ _. Keeps-pure pre _)))

  slug_project :
      (slug : String) (a : KnowledgeNodeRecord)
      → Nodes.has_slug project_id slug a ≡ true
      → a.project_id ≡ project_id
  slug_project slug a h = ground (arith, eq_iff a.project_id project_id)

  upsert_existing_at :
      (new : Nodes.NewKnowledgeNode) (existing : KnowledgeNodeRecord) (d : Domain)
      → new.project_id ≡ project_id
      → Nodes.get_by_slug new.project_id new.slug d ≡ some existing
      → Kept project_id d (Nodes.upsert_existing new existing d).1
  unfolding Nodes.upsert_existing Nodes.get_by_slug execute now_unix_ms ◌>>=◌
  upsert_existing_at new existing d e found =
      pre.R_trans d _ _ ((Keeps-now_unix_ms project_id).at d) (
        nodes-Kept project_id (now_unix_ms d).1 _ (
          Grows-modify node_key (SameNode-refl project_id) _ existing.id d.nodes (λ _. refl)
            λ distinct x there. record {
              id = refl;
              project = refl;
              slug = refl;
              node_type = refl;
              created_at = refl;
              others = other_self x.project_id project_id (
                  found_project project_id node_key (λ y. y.project_id)
                    (Nodes.has_slug project_id new.slug) d.nodes existing x (slug_project new.slug)
                    (ap (λ q. find (Nodes.has_slug q new.slug) d.nodes) (sym e) ∙ found) distinct
                    there);
            }))

  Keeps-validate : (new : Nodes.NewKnowledgeNode) → Keeps (Kept project_id) (Nodes.validate new)
  unfolding Nodes.validate
  Keeps-validate new =
      Keeps-bind pre _ _ (Keeps-require project_id _ _) (λ _. Keeps-require project_id _ _)

  pub Keeps-upsert_by_slug :
      (new : Nodes.NewKnowledgeNode)
      → new.project_id ≡ project_id
      → Keeps (Kept project_id) (Nodes.upsert_by_slug new)
  unfolding Nodes.upsert_by_slug
  Keeps-upsert_by_slug new e = Keeps-bind pre _ _ (Keeps-validate new) (λ _. record {
    at = λ d.
        found_at pre (Nodes.get_by_slug new.project_id new.slug) _ _ d
          ((Keeps-insert_new new e).at d)
          (λ existing found. upsert_existing_at new existing d e found);
  })
