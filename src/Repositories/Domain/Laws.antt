-- ===== src/Repositories/Domain/Laws.antt =====
-- Every write of the repositories of research results keeps what `Kept` says of its project.
use text.Mathlib.TextPositions.{eq_refl}
pub mod NodeWrites
pub mod ClaimWrites
pub mod EvidenceWrites
pub mod ContentWrites
use mathlib.Core.Option.{some-injective}
use morpho_research_os.Prelude.{
  ℕ, suc, String, Bool, true, false, not, ◌||◌, ◌≡◌, refl, sym, ap, ◌∙◌, List, [], ◌∷◌, Option,
  none, some, str_eq, arith, eq_iff, find, find_holds, ◌&&◌,
}
use morpho_research_os.Errors.{CoreError, Result, ok, err, Action, pure, raise, gets, ◌>>=◌, ◌>>◌}
use morpho_research_os.Env.{Env}
use morpho_research_os.Keeps.{
  Keeps, IsPreorder, Keeps-bind, Keeps-pure, Keeps-raise, Keeps-gets, Keeps-if, Keeps-option,
  bind_gets_at,
}
use morpho_research_os.Repositories.Rows.{row, Distinct}
use morpho_research_os.Repositories.Domain.{
  Domain, SourceRecord, SourceContentRecord, KnowledgeNodeRecord, RelationRecord, ClaimRecord,
  EvidenceRecord, source_key, content_key, node_key, relation_key, claim_key, evidence_key, require,
  execute, is_there, is_missing, now_unix_ms, new_id, id_or_new,
}
use morpho_research_os.Repositories.Domain.Growth.{
  Grown, Grown-append, Grows, Grows-append, Grows-modify, row_of_find,
}
use morpho_research_os.Repositories.Domain.Kept.{
  Kept, Kept-refl, Kept-preorder, core-Kept, sources-Kept, contents-Kept, nodes-Kept,
  relations-Kept, claims-Kept, evidence-Kept, links-Kept,
}
use morpho_research_os.Repositories.Domain.Same.{
  SameSource, SameSource-refl, SameNode, SameNode-refl, SameClaim, SameClaim-refl, NewEvidenceRow,
}
use morpho_research_os.Repositories.Domain.Guards.{require_at, missing_at, there_at, found_at}
use morpho_research_os.Repositories.Domain.Sources

-- Two different texts are not one text.
pub other_self : (s t : String) {A : Type 0} → s ≡ t → str_eq s t ≡ false → A
other_self s t h k = elim (go h k) [ ]
  where
    go : s ≡ t → str_eq s t ≡ false → ⊥
    go h k = ground (arith, eq_iff s t)

module _ ⦃env : Env⦄ (project_id : String) where
  pre : IsPreorder (Kept project_id)
  pre = Kept-preorder project_id

  pub Keeps-require : (b : Bool) (message : String) → Keeps (Kept project_id) (require b message)
  unfolding require
  Keeps-require b message = Keeps-if b _ _ (Keeps-pure pre tt) (Keeps-raise pre _)

  pub Keeps-now_unix_ms : Keeps (Kept project_id) now_unix_ms
  unfolding now_unix_ms
  Keeps-now_unix_ms = record {
    at = λ d.
        core-Kept project_id d (record d.core { reads = suc d.core.reads })
          (record { tasks = refl; runs = refl; dependencies = refl; events = refl });
  }

  pub Keeps-new_id : Keeps (Kept project_id) new_id
  unfolding new_id
  Keeps-new_id = record {
    at = λ d.
        core-Kept project_id d (record d.core { drawn = suc d.core.drawn })
          (record { tasks = refl; runs = refl; dependencies = refl; events = refl });
  }

  pub Keeps-id_or_new : (id : Option String) → Keeps (Kept project_id) (id_or_new id)
  unfolding id_or_new new_id
  Keeps-id_or_new none = Keeps-new_id
  Keeps-id_or_new (some id) = Keeps-pure pre id

  Keeps-insert_source :
      (r : SourceRecord)
      → r.project_id ≡ project_id
      → Keeps (Kept project_id) (Sources.insert_source r)
  unfolding Sources.insert_source execute
  Keeps-insert_source r h = record {
    at = λ d.
        missing_at pre (λ t. row source_key r.id t.sources) _ _ d
          λ free.
            sources-Kept project_id d _
              (Grows-append source_key (SameSource-refl project_id) d.sources r free h);
  }

  Keeps-insert_new_source :
      (new : Sources.NewSource)
      → new.project_id ≡ project_id
      → Keeps (Kept project_id) (Sources.insert_new new)
  unfolding Sources.insert_new
  Keeps-insert_new_source new h = Keeps-bind pre _ _ Keeps-now_unix_ms (λ now.
      Keeps-bind pre _ _ Keeps-new_id
        (λ id. Keeps-bind pre _ _ (Keeps-insert_source _ h) (λ _. Keeps-pure pre _)))

  pub url_project :
      (url : String) (a : SourceRecord)
      → Sources.has_url project_id url a ≡ true
      → a.project_id ≡ project_id
  url_project url a h = ground (arith, eq_iff a.project_id project_id)

  -- The row that an update of a found row changes is of the project.
  pub found_project :
      {A : Type 0} (key project : A → String) (p : A → Bool) (xs : List A) (a x : A)
      → ((y : A) → p y ≡ true → project y ≡ project_id)
      → find p xs ≡ some a
      → Distinct key xs
      → row key (key a) xs ≡ some x
      → project x ≡ project_id
  found_project key project p xs a x h found distinct there =
      let same : a ≡ x = some-injective a x (sym (row_of_find key p xs distinct found) ∙ there) in
      sym (ap project same) ∙ h a (find_holds p xs found)

  upsert_existing_source_at :
      (new : Sources.NewSource) (existing : SourceRecord) (d : Domain)
      → new.project_id ≡ project_id
      → Sources.get_by_canonical_url new.project_id new.canonical_url d ≡ some existing
      → Kept project_id d (Sources.upsert_existing new existing d).1
  unfolding Sources.upsert_existing Sources.update_source Sources.get_by_canonical_url execute
      now_unix_ms ◌>>=◌
  upsert_existing_source_at new existing d e found = pre.R_trans d _ _ (Keeps-now_unix_ms.at d) (
      sources-Kept project_id (now_unix_ms d).1 _ (
        Grows-modify source_key (SameSource-refl project_id) _ existing.id d.sources (λ _. refl)
          λ distinct x there. record {
            id = refl;
            project = refl;
            canonical_url = refl;
            created_at = refl;
            others = other_self x.project_id project_id (
                found_project source_key (λ y. y.project_id)
                  (Sources.has_url project_id new.canonical_url) d.sources existing x
                  (url_project new.canonical_url)
                  (ap (λ q. find (Sources.has_url q new.canonical_url) d.sources) (sym e) ∙ found)
                  distinct there);
          }))

  pub Keeps-upsert_source :
      (new : Sources.NewSource)
      → new.project_id ≡ project_id
      → Keeps (Kept project_id) (Sources.upsert_by_canonical_url new)
  unfolding Sources.upsert_by_canonical_url
  Keeps-upsert_source new e = record {
    at = λ d.
        found_at pre (Sources.get_by_canonical_url new.project_id new.canonical_url) _ _ d
          ((Keeps-insert_new_source new e).at d)
          (λ existing found. upsert_existing_source_at new existing d e found);
  }
