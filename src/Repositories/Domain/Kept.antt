-- ===== src/Repositories/Domain/Kept.antt =====
-- What a write for one project leaves of the tables.
use morpho_research_os.Prelude.{String, ◌≡◌, refl, ◌∙◌, List}
use morpho_research_os.Keeps.{IsPreorder}
use morpho_research_os.Repositories.Tables.{Db}
use morpho_research_os.Repositories.Transaction.Atomic.{SameTables}
use morpho_research_os.Repositories.Domain.{
  Domain, SourceRecord, SourceContentRecord, KnowledgeNodeRecord, RelationRecord, ClaimRecord,
  EvidenceRecord, source_key, content_key, node_key, relation_key, claim_key, evidence_key,
}
use morpho_research_os.Repositories.Domain.Growth.{
  Grown, Grown-refl, Grown-trans, Grows, Grows-refl, Grows-trans,
}
use morpho_research_os.Repositories.Domain.Same.{
  SameSource, SameNode, SameClaim, NewEvidenceRow, SameSource-refl, SameNode-refl, SameClaim-refl,
  SameSource-trans, SameNode-trans, SameClaim-trans, NewEvidenceRow-same,
}

module _ (project_id : String) where
  -- The change of all tables: no row is lost, rows are added for this project only, relations and
  -- evidence are never changed, and links are only added.
  pub record Kept (d d' : Domain) : Type 0 where
    pub core : SameTables d.core d'.core
    pub sources :
        Grows source_key
          (SameSource project_id)
          (λ y. y.project_id ≡ project_id)
          d.sources
          d'.sources
    pub contents :
        Grows content_key
          (λ x y. (y.id ≡ x.id) × (y.source_id ≡ x.source_id))
          (λ _. Unit {0})
          d.contents
          d'.contents
    pub nodes :
        Grows node_key (SameNode project_id) (λ y. y.project_id ≡ project_id) d.nodes d'.nodes
    pub relations :
        Grows relation_key (λ x y. y ≡ x) (λ y. y.project_id ≡ project_id) d.relations d'.relations
    pub claims :
        Grows claim_key (SameClaim project_id) (λ y. y.project_id ≡ project_id) d.claims d'.claims
    pub evidence :
        Grows evidence_key (λ x y. y ≡ x) (NewEvidenceRow project_id) d.evidence d'.evidence
    pub links : Grown (λ x y. y ≡ x) (λ _. Unit {0}) d.links d'.links

  pub Kept-refl : (d : Domain) → Kept d d
  Kept-refl d = record {
    core = record { tasks = refl; runs = refl; dependencies = refl; events = refl };
    sources = Grows-refl source_key (SameSource-refl project_id) d.sources;
    contents = Grows-refl content_key (λ _. (refl, refl)) d.contents;
    nodes = Grows-refl node_key (SameNode-refl project_id) d.nodes;
    relations = Grows-refl relation_key (λ _. refl) d.relations;
    claims = Grows-refl claim_key (SameClaim-refl project_id) d.claims;
    evidence = Grows-refl evidence_key (λ _. refl) d.evidence;
    links = Grown-refl (λ _. refl) d.links;
  }

  -- A change of one table.
  pub core-Kept :
      (d : Domain) (rows : Db) → SameTables d.core rows → Kept d (record d { core = rows })
  core-Kept d rows h =
      let same = Kept-refl d in
      record {
        core = h;
        sources = same.sources;
        contents = same.contents;
        nodes = same.nodes;
        relations = same.relations;
        claims = same.claims;
        evidence = same.evidence;
        links = same.links;
      }

  pub sources-Kept :
      (d : Domain) (rows : List SourceRecord)
      → Grows source_key (SameSource project_id) (λ y. y.project_id ≡ project_id) d.sources rows
      → Kept d (record d { sources = rows })
  sources-Kept d rows h =
      let same = Kept-refl d in
      record {
        core = same.core;
        sources = h;
        contents = same.contents;
        nodes = same.nodes;
        relations = same.relations;
        claims = same.claims;
        evidence = same.evidence;
        links = same.links;
      }

  pub contents-Kept :
      (d : Domain) (rows : List SourceContentRecord)
      → Grows content_key
          (λ x y. (y.id ≡ x.id) × (y.source_id ≡ x.source_id))
          (λ _. Unit {0})
          d.contents
          rows
      → Kept d (record d { contents = rows })
  contents-Kept d rows h =
      let same = Kept-refl d in
      record {
        core = same.core;
        sources = same.sources;
        contents = h;
        nodes = same.nodes;
        relations = same.relations;
        claims = same.claims;
        evidence = same.evidence;
        links = same.links;
      }

  pub nodes-Kept :
      (d : Domain) (rows : List KnowledgeNodeRecord)
      → Grows node_key (SameNode project_id) (λ y. y.project_id ≡ project_id) d.nodes rows
      → Kept d (record d { nodes = rows })
  nodes-Kept d rows h =
      let same = Kept-refl d in
      record {
        core = same.core;
        sources = same.sources;
        contents = same.contents;
        nodes = h;
        relations = same.relations;
        claims = same.claims;
        evidence = same.evidence;
        links = same.links;
      }

  pub relations-Kept :
      (d : Domain) (rows : List RelationRecord)
      → Grows relation_key (λ x y. y ≡ x) (λ y. y.project_id ≡ project_id) d.relations rows
      → Kept d (record d { relations = rows })
  relations-Kept d rows h =
      let same = Kept-refl d in
      record {
        core = same.core;
        sources = same.sources;
        contents = same.contents;
        nodes = same.nodes;
        relations = h;
        claims = same.claims;
        evidence = same.evidence;
        links = same.links;
      }

  pub claims-Kept :
      (d : Domain) (rows : List ClaimRecord)
      → Grows claim_key (SameClaim project_id) (λ y. y.project_id ≡ project_id) d.claims rows
      → Kept d (record d { claims = rows })
  claims-Kept d rows h =
      let same = Kept-refl d in
      record {
        core = same.core;
        sources = same.sources;
        contents = same.contents;
        nodes = same.nodes;
        relations = same.relations;
        claims = h;
        evidence = same.evidence;
        links = same.links;
      }

  pub evidence-Kept :
      (d : Domain) (rows : List EvidenceRecord)
      → Grows evidence_key (λ x y. y ≡ x) (NewEvidenceRow project_id) d.evidence rows
      → Kept d (record d { evidence = rows })
  evidence-Kept d rows h =
      let same = Kept-refl d in
      record {
        core = same.core;
        sources = same.sources;
        contents = same.contents;
        nodes = same.nodes;
        relations = same.relations;
        claims = same.claims;
        evidence = h;
        links = same.links;
      }

  pub links-Kept :
      (d : Domain) (rows : List (String × String))
      → Grown (λ x y. y ≡ x) (λ _. Unit {0}) d.links rows
      → Kept d (record d { links = rows })
  links-Kept d rows h =
      let same = Kept-refl d in
      record {
        core = same.core;
        sources = same.sources;
        contents = same.contents;
        nodes = same.nodes;
        relations = same.relations;
        claims = same.claims;
        evidence = same.evidence;
        links = h;
      }

  pub Kept-preorder : IsPreorder Kept
  Kept-preorder = record {
    R_refl = Kept-refl;
    R_trans = λ _ _ _ a b. record {
      core = record {
        tasks = b.core.tasks ∙ a.core.tasks;
        runs = b.core.runs ∙ a.core.runs;
        dependencies = b.core.dependencies ∙ a.core.dependencies;
        events = b.core.events ∙ a.core.events;
      };
      sources =
          Grows-trans source_key (SameSource-trans project_id) (λ _ _ n r. r.project ∙ n) a.sources
            b.sources;
      contents =
          Grows-trans content_key (λ _ _ _ h k. (k.0 ∙ h.0, k.1 ∙ h.1)) (λ _ _ _ _. tt) a.contents
            b.contents;
      nodes =
          Grows-trans node_key (SameNode-trans project_id) (λ _ _ n r. r.project ∙ n) a.nodes
            b.nodes;
      relations =
          Grows-trans relation_key (λ _ _ _ h k. k ∙ h) (λ x y n r. rw r n) a.relations b.relations;
      claims =
          Grows-trans claim_key (SameClaim-trans project_id) (λ _ _ n r. r.project ∙ n) a.claims
            b.claims;
      evidence =
          Grows-trans evidence_key (λ _ _ _ h k. k ∙ h) (NewEvidenceRow-same project_id) a.evidence
            b.evidence;
      links = Grown-trans (λ _ _ _ h k. k ∙ h) (λ _ _ _ _. tt) a.links b.links;
    };
  }

  -- The tables of the core stand apart: they can be set on both sides.
  pub core-set-Kept :
      (d d' : Domain) (c c' : Db)
      → SameTables c c'
      → Kept d d'
      → Kept (record d { core = c }) (record d' { core = c' })
  core-set-Kept d d' c c' same h = record {
    core = same;
    sources = h.sources;
    contents = h.contents;
    nodes = h.nodes;
    relations = h.relations;
    claims = h.claims;
    evidence = h.evidence;
    links = h.links;
  }
