-- ===== src/Repositories/Domain/Laws/EvidenceWrites.antt =====
-- Writing evidence and relations keeps what `Kept` says.
use morpho_research_os.Prelude.{String, Bool, true, not, ◌||◌, ◌≡◌, refl, str_eq}
use morpho_research_os.Env.{Env}
use morpho_research_os.Keeps.{Keeps, IsPreorder, Keeps-bind, Keeps-pure}
use morpho_research_os.Repositories.Domain.{
  RelationRecord, EvidenceRecord, relation_key, evidence_key, execute,
}
use morpho_research_os.Repositories.Domain.Growth.{Grows-append}
use morpho_research_os.Repositories.Domain.Kept.{Kept, Kept-preorder, relations-Kept, evidence-Kept}
use morpho_research_os.Repositories.Domain.Same.{NewEvidenceRow}
use morpho_research_os.Repositories.Domain.Guards.{missing_at, there_at, found_at}
use morpho_research_os.Repositories.Domain.Laws.{Keeps-require, Keeps-now_unix_ms, Keeps-id_or_new}
use morpho_research_os.Repositories.Domain.Relations
use morpho_research_os.Repositories.Domain.Evidence

module _ ⦃env : Env⦄ (project_id : String) where
  pre : IsPreorder (Kept project_id)
  pre = Kept-preorder project_id

  Keeps-insert_relation :
      (r : RelationRecord)
      → r.project_id ≡ project_id
      → Keeps (Kept project_id) (Relations.insert_relation r)
  unfolding Relations.insert_relation Relations.get execute
  Keeps-insert_relation r h = record {
    at = λ d. missing_at pre (Relations.get r.id) _ _ d λ free. there_at pre _ _ _ d (
        there_at pre _ _ _ d (
          relations-Kept project_id d _
            (Grows-append relation_key (λ _. refl) d.relations r free h)));
  }

  Keeps-insert_new_relation :
      (new : Relations.NewRelation)
      → new.project_id ≡ project_id
      → Keeps (Kept project_id) (Relations.insert_new new)
  unfolding Relations.insert_new
  Keeps-insert_new_relation new h = Keeps-bind pre _ _ (Keeps-now_unix_ms project_id) (λ now.
      Keeps-bind pre _ _ (Keeps-id_or_new project_id new.id)
        (λ id. Keeps-bind pre _ _ (Keeps-insert_relation _ h) (λ _. Keeps-pure pre _)))

  Keeps-reuse_relation :
      (new : Relations.NewRelation) (existing : RelationRecord)
      → Keeps (Kept project_id) (Relations.reuse new existing)
  unfolding Relations.reuse
  Keeps-reuse_relation new existing =
      Keeps-bind pre _ _ (Keeps-require project_id _ _) (λ _. Keeps-pure pre _)

  pub Keeps-insert_relation_row :
      (new : Relations.NewRelation)
      → new.project_id ≡ project_id
      → Keeps (Kept project_id) (Relations.insert new)
  unfolding Relations.insert
  Keeps-insert_relation_row new e = Keeps-bind pre _ _ (Keeps-require project_id _ _) (λ _.
      Keeps-bind pre _ _ (Keeps-require project_id _ _) (λ _. record {
        at = λ d.
            found_at pre (Relations.stored new.id) _ _ d ((Keeps-insert_new_relation new e).at d)
              (λ existing _. (Keeps-reuse_relation new existing).at d);
      }))

  Keeps-insert_evidence :
      (r : EvidenceRecord)
      → NewEvidenceRow project_id r
      → Keeps (Kept project_id) (Evidence.insert_evidence r)
  unfolding Evidence.insert_evidence Evidence.get execute
  Keeps-insert_evidence r h = record {
    at = λ d. missing_at pre (Evidence.get r.id) _ _ d λ free.
        there_at pre _ _ _ d (
          evidence-Kept project_id d _ (Grows-append evidence_key (λ _. refl) d.evidence r free h));
  }

  -- Evidence that can be found again.
  abbrev pub anchored : Evidence.NewEvidence → Bool
  anchored new = not (str_eq new.quote "") || not (str_eq new.locator "")

  Keeps-insert_new_evidence :
      (new : Evidence.NewEvidence)
      → new.project_id ≡ project_id
      → anchored new ≡ true
      → Keeps (Kept project_id) (Evidence.insert_new new)
  unfolding Evidence.insert_new
  Keeps-insert_new_evidence new h k = Keeps-bind pre _ _ (Keeps-now_unix_ms project_id) (λ now.
      Keeps-bind pre _ _ (Keeps-id_or_new project_id new.id) (λ id.
        Keeps-bind pre _ _ (Keeps-insert_evidence _ (record { project = h; auditable = k }))
          (λ _. Keeps-pure pre _)))

  Keeps-reuse_evidence :
      (new : Evidence.NewEvidence) (existing : EvidenceRecord)
      → Keeps (Kept project_id) (Evidence.reuse new existing)
  unfolding Evidence.reuse
  Keeps-reuse_evidence new existing =
      Keeps-bind pre _ _ (Keeps-require project_id _ _) (λ _. Keeps-pure pre _)

  pub Keeps-insert_evidence_row :
      (new : Evidence.NewEvidence)
      → new.project_id ≡ project_id
      → anchored new ≡ true
      → Keeps (Kept project_id) (Evidence.insert new)
  unfolding Evidence.insert
  Keeps-insert_evidence_row new e k = Keeps-bind pre _ _ (Keeps-require project_id _ _) (λ _.
      record {
        at = λ d.
            found_at pre (Evidence.stored new.id) _ _ d ((Keeps-insert_new_evidence new e k).at d)
              (λ existing _. (Keeps-reuse_evidence new existing).at d);
      })
