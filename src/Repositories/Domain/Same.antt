-- ===== src/Repositories/Domain/Same.antt =====
-- When two rows of a result are the same one, for a write of one project.
use morpho_research_os.Prelude.{String, Bool, true, false, not, ◌||◌, ◌≡◌, refl, ◌∙◌, str_eq}
use morpho_research_os.Repositories.Domain.{
  SourceRecord, KnowledgeNodeRecord, ClaimRecord, EvidenceRecord,
}

-- Evidence that can be found again: a quote or a locator.
abbrev pub is_auditable : EvidenceRecord → Bool
is_auditable e = not (str_eq e.quote "") || not (str_eq e.locator "")

module _ (project_id : String) where
  -- A row of another project is untouched; a row of this one keeps what identifies it.
  pub record SameSource (x y : SourceRecord) : Type 0 where
    pub id : y.id ≡ x.id
    pub project : y.project_id ≡ x.project_id
    pub canonical_url : y.canonical_url ≡ x.canonical_url
    pub created_at : y.created_at ≡ x.created_at
    pub others : str_eq x.project_id project_id ≡ false → y ≡ x

  pub record SameNode (x y : KnowledgeNodeRecord) : Type 0 where
    pub id : y.id ≡ x.id
    pub project : y.project_id ≡ x.project_id
    pub slug : y.slug ≡ x.slug
    pub node_type : y.node_type ≡ x.node_type
    pub created_at : y.created_at ≡ x.created_at
    pub others : str_eq x.project_id project_id ≡ false → y ≡ x

  -- What a claim states and where it comes from never changes.
  pub record SameClaim (x y : ClaimRecord) : Type 0 where
    pub id : y.id ≡ x.id
    pub project : y.project_id ≡ x.project_id
    pub subject : y.subject ≡ x.subject
    pub predicate : y.predicate ≡ x.predicate
    pub object_value : y.object_value ≡ x.object_value
    pub scope : y.scope ≡ x.scope
    pub provenance : y.provenance ≡ x.provenance
    pub created_at : y.created_at ≡ x.created_at
    pub others : str_eq x.project_id project_id ≡ false → y ≡ x

  pub record NewEvidenceRow (y : EvidenceRecord) : Type 0 where
    pub project : y.project_id ≡ project_id
    pub auditable : is_auditable y ≡ true

  pub SameSource-refl : (x : SourceRecord) → SameSource x x
  SameSource-refl x = record {
    id = refl;
    project = refl;
    canonical_url = refl;
    created_at = refl;
    others = λ _. refl;
  }

  pub SameSource-trans : (x y z : SourceRecord) → SameSource x y → SameSource y z → SameSource x z
  SameSource-trans x y z h k = record {
    id = k.id ∙ h.id;
    project = k.project ∙ h.project;
    canonical_url = k.canonical_url ∙ h.canonical_url;
    created_at = k.created_at ∙ h.created_at;
    others = λ o. k.others (rw h.project o) ∙ h.others o;
  }

  pub SameNode-refl : (x : KnowledgeNodeRecord) → SameNode x x
  SameNode-refl x = record {
    id = refl;
    project = refl;
    slug = refl;
    node_type = refl;
    created_at = refl;
    others = λ _. refl;
  }

  pub SameNode-trans : (x y z : KnowledgeNodeRecord) → SameNode x y → SameNode y z → SameNode x z
  SameNode-trans x y z h k = record {
    id = k.id ∙ h.id;
    project = k.project ∙ h.project;
    slug = k.slug ∙ h.slug;
    node_type = k.node_type ∙ h.node_type;
    created_at = k.created_at ∙ h.created_at;
    others = λ o. k.others (rw h.project o) ∙ h.others o;
  }

  pub SameClaim-refl : (x : ClaimRecord) → SameClaim x x
  SameClaim-refl x = record {
    id = refl;
    project = refl;
    subject = refl;
    predicate = refl;
    object_value = refl;
    scope = refl;
    provenance = refl;
    created_at = refl;
    others = λ _. refl;
  }

  pub SameClaim-trans : (x y z : ClaimRecord) → SameClaim x y → SameClaim y z → SameClaim x z
  SameClaim-trans x y z h k = record {
    id = k.id ∙ h.id;
    project = k.project ∙ h.project;
    subject = k.subject ∙ h.subject;
    predicate = k.predicate ∙ h.predicate;
    object_value = k.object_value ∙ h.object_value;
    scope = k.scope ∙ h.scope;
    provenance = k.provenance ∙ h.provenance;
    created_at = k.created_at ∙ h.created_at;
    others = λ o. k.others (rw h.project o) ∙ h.others o;
  }

  pub NewEvidenceRow-same : (x y : EvidenceRecord) → NewEvidenceRow x → y ≡ x → NewEvidenceRow y
  NewEvidenceRow-same x y n e = rw e n
