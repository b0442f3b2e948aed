-- ===== src/Repositories/Domain/Laws/ClaimWrites.antt =====
-- Writing claims and links keeps what `Kept` says.
use mathlib.Core.Option.{some-injective}
use morpho_research_os.Prelude.{
  String, Bool, true, false, ◌≡◌, refl, sym, ap, ◌∙◌, [], ◌∷◌, ◌++◌, some, str_eq, arith, eq_iff,
  any,
}
use morpho_research_os.Errors.{Action, pure, ◌>>=◌}
use morpho_research_os.Env.{Env}
use morpho_research_os.Keeps.{Keeps, IsPreorder, Keeps-bind, Keeps-pure, Keeps-raise, bind_gets_at}
use morpho_research_os.Repositories.Rows.{row}
use morpho_research_os.Repositories.Domain.{Domain, ClaimRecord, claim_key, execute, now_unix_ms}
use morpho_research_os.Repositories.Domain.Growth.{
  Grown-append, Grows-append, Grows-modify, row_of_find,
}
use morpho_research_os.Repositories.Domain.Kept.{Kept, Kept-preorder, claims-Kept, links-Kept}
use morpho_research_os.Repositories.Domain.Same.{SameClaim-refl}
use morpho_research_os.Repositories.Domain.Guards.{require_at, missing_at, there_at, found_at}
use morpho_research_os.Repositories.Domain.Laws.{
  other_self, Keeps-require, Keeps-now_unix_ms, Keeps-id_or_new,
}
use morpho_research_os.Repositories.Domain.Claims

module _ ⦃env : Env⦄ (project_id : String) where
  pre : IsPreorder (Kept project_id)
  pre = Kept-preorder project_id

  Keeps-insert_claim :
      (r : ClaimRecord)
      → r.project_id ≡ project_id
      → Keeps (Kept project_id) (Claims.insert_claim r)
  unfolding Claims.insert_claim Claims.get execute
  Keeps-insert_claim r h = record {
    at = λ d. missing_at pre (Claims.get r.id) _ _ d λ free.
        claims-Kept project_id d _
          (Grows-append claim_key (SameClaim-refl project_id) d.claims r free h);
  }

  Keeps-insert_new :
      (new : Claims.NewClaim)
      → new.project_id ≡ project_id
      → Keeps (Kept project_id) (Claims.insert_new new)
  unfolding Claims.insert_new
  Keeps-insert_new new h = Keeps-bind pre _ _ (Keeps-now_unix_ms project_id) (λ now.
      Keeps-bind pre _ _ (Keeps-id_or_new project_id new.id)
        (λ id. Keeps-bind pre _ _ (Keeps-insert_claim _ h) (λ _. Keeps-pure pre _)))

  Keeps-validate :
      (status confidence : String) → Keeps (Kept project_id) (Claims.validate status confidence)
  unfolding Claims.validate
  Keeps-validate status confidence =
      Keeps-bind pre _ _ (Keeps-require project_id _ _) (λ _. Keeps-require project_id _ _)

  Keeps-reuse :
      (new : Claims.NewClaim) (existing : ClaimRecord)
      → Keeps (Kept project_id) (Claims.reuse new existing)
  unfolding Claims.reuse
  Keeps-reuse new existing =
      Keeps-bind pre _ _ (Keeps-require project_id _ _) (λ _. Keeps-pure pre _)

  pub Keeps-insert :
      (new : Claims.NewClaim)
      → new.project_id ≡ project_id
      → Keeps (Kept project_id) (Claims.insert new)
  unfolding Claims.insert
  Keeps-insert new e = Keeps-bind pre _ _ (Keeps-validate new.status new.confidence) (λ _. record {
    at = λ d.
        found_at pre (Claims.stored new.id) _ _ d ((Keeps-insert_new new e).at d)
          (λ existing _. (Keeps-reuse new existing).at d);
  })

  id_is :
      (id : String) (r : ClaimRecord)
      → str_eq r.project_id project_id ≡ true
      → r.project_id ≡ project_id
  id_is id r h = ground (arith, eq_iff r.project_id project_id)

  -- The claim that is reviewed was found by its id, and is of the project.
  review_at :
      (id status confidence : String) (existing : ClaimRecord) (d : Domain)
      → Claims.get id d ≡ some existing
      → Kept project_id d (Claims.review project_id status confidence existing d).1
  unfolding Claims.review Claims.get execute row now_unix_ms ◌>>=◌
  review_at id status confidence existing d found = require_at pre _ _ _ d λ owned.
      pre.R_trans d _ _ ((Keeps-now_unix_ms project_id).at d) (
        claims-Kept project_id (now_unix_ms d).1 _ (
          Grows-modify claim_key (SameClaim-refl project_id) _ existing.id d.claims (λ _. refl)
            λ distinct x there.
              let same : existing ≡ x = some-injective existing x (
                sym (row_of_find claim_key (λ c. str_eq c.id id) d.claims distinct found)
                ∙ there) in
              record {
                id = refl;
                project = refl;
                subject = refl;
                predicate = refl;
                object_value = refl;
                scope = refl;
                provenance = refl;
                created_at = refl;
                others =
                    other_self x.project_id project_id
                      (sym (ap (λ c. c.project_id) same) ∙ id_is id existing owned);
              }))

  pub Keeps-update_review_state :
      (id status confidence : String)
      → Keeps (Kept project_id) (Claims.update_review_state id project_id status confidence)
  unfolding Claims.update_review_state
  Keeps-update_review_state id status confidence =
      Keeps-bind pre _ _ (Keeps-validate status confidence) (λ _. record {
        at = λ d.
            found_at pre (Claims.get id) _ _ d ((Keeps-raise pre _).at d)
              (λ existing found. review_at id status confidence existing d found);
      })

  new_link :
      (claim_id evidence_id : String) (known : Bool) (d : Domain)
      → Kept project_id d
          ((elim known as (λ _. Action Domain Bool) [
            | true ↦ pure false
            | false ↦
                execute (λ d. record d { links = d.links ++ (claim_id, evidence_id) ∷ [] }) >>= λ _.
                pure true
          ])
            d).1
  unfolding execute ◌>>=◌
  new_link claim_id evidence_id true d = pre.R_refl d
  new_link claim_id evidence_id false d =
      links-Kept project_id d _ (Grown-append (λ _. refl) d.links (claim_id, evidence_id) tt)

  pub Keeps-link :
      (claim_id evidence_id : String) → Keeps (Kept project_id) (Claims.link claim_id evidence_id)
  unfolding Claims.link execute
  Keeps-link claim_id evidence_id = Keeps-bind pre _ _ (Keeps-now_unix_ms project_id) (λ _. record {
    at = λ d. there_at pre _ _ _ d (
        there_at pre _ _ _ d (
          bind_gets_at pre _ _ d
            (new_link claim_id evidence_id (any (Claims.is_link claim_id evidence_id) d.links) d)));
  })
