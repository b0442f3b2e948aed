-- ===== src/Repositories/Domain/Claims.antt =====
-- Claims and their links to evidence (repositories/claims.rs).
use morpho_research_os.Prelude.{
  ℕ, String, Bool, true, false, ◌&&◌, ◌||◌, Option, none, some, List, [], ◌∷◌, ◌++◌, ◌==◌, str_eq,
  str_leb, ltb, any, select, order_by, format,
}
use morpho_research_os.Errors.{Action, database, pure, raise, gets, ◌>>=◌, ◌>>◌}
use morpho_research_os.Env.{Env}
use morpho_research_os.Repositories.Rows.{row, modify}
use morpho_research_os.Repositories.Runs.{contains}
use morpho_research_os.Repositories.Domain.{
  Domain, ClaimRecord, claim_key, evidence_key, confidence_states, require, execute, now_unix_ms,
  id_or_new, is_there, is_missing,
}

abbrev pub claim_status_states : List String
claim_status_states = "draft" ∷ "needs_review" ∷ "confirmed" ∷ "superseded" ∷ []

pub record NewClaim : Type 0 where
  pub id : Option String
  pub project_id : String
  pub subject : String
  pub predicate : String
  pub object_value : String
  pub scope : String
  pub status : String
  pub confidence : String
  pub provenance : String

unfoldable pub get : String → Domain → Option ClaimRecord
get id d = row claim_key id d.claims

unfoldable pub stored : Option String → Domain → Option ClaimRecord
stored none d = none
stored (some id) d = get id d

abbrev pub claim_leb : ClaimRecord → ClaimRecord → Bool
claim_leb a b = ltb a.created_at b.created_at || (a.created_at == b.created_at && str_leb a.id b.id)

unfoldable pub list_for_project : String → Domain → List ClaimRecord
list_for_project project_id d =
    order_by claim_leb (select (λ r. str_eq r.project_id project_id) d.claims)

-- `validate_status`, and the test of the confidence after it.
unfoldable pub validate : String → String → Action Domain (Unit {0})
validate status confidence = do
  require (contains claim_status_states status)
      (format ("unknown claim status '" ∷ status ∷ "'" ∷ []))
  require (contains confidence_states confidence)
      (format ("unknown confidence '" ∷ confidence ∷ "'" ∷ []))

-- A stored row of the same project is answered as it is.
unfoldable pub reuse : NewClaim → ClaimRecord → Action Domain (ClaimRecord × Bool)
reuse new existing = do
  require (str_eq existing.project_id new.project_id) (
      format (
        "claim '" ∷ existing.id ∷ "' belongs to project '" ∷ existing.project_id
        ∷ "' and cannot be reused by project '" ∷ new.project_id ∷ "'" ∷ []))
  pure (existing, false)

abbrev pub reviewed : String → String → ℕ → ClaimRecord → ClaimRecord
reviewed status confidence now r = record r {
  status = status;
  confidence = confidence;
  updated_at = now;
}

module _ ⦃env : Env⦄ where
  -- `INSERT INTO claims`, under its primary key.
  unfoldable pub insert_claim : ClaimRecord → Action Domain (Unit {0})
  insert_claim r = do
    taken ← gets (get r.id)
    require (is_missing taken) "UNIQUE constraint failed: claims.id"
    execute (λ d. record d { claims = d.claims ++ r ∷ [] })

  unfoldable pub insert_new : NewClaim → Action Domain (ClaimRecord × Bool)
  insert_new new = do
    now ← now_unix_ms
    id ← id_or_new new.id
    let r : ClaimRecord = record {
      id = id;
      project_id = new.project_id;
      subject = new.subject;
      predicate = new.predicate;
      object_value = new.object_value;
      scope = new.scope;
      status = new.status;
      confidence = new.confidence;
      provenance = new.provenance;
      created_at = now;
      updated_at = now;
    }
    insert_claim r
    pure (r, true)

  unfoldable pub insert : NewClaim → Action Domain (ClaimRecord × Bool)
  insert new = do
    validate new.status new.confidence
    found ← gets (stored new.id)
    elim found as (λ _. Action Domain (ClaimRecord × Bool)) [
      | none ↦ insert_new new
      | some existing ↦ reuse new existing
    ]

  -- The update, for the claim that was found.
  unfoldable pub review : String → String → String → ClaimRecord → Action Domain (Unit {0})
  review project_id status confidence existing = do
    require (str_eq existing.project_id project_id) (
        format (
          "claim '" ∷ existing.id ∷ "' belongs to project '" ∷ existing.project_id
          ∷ "' and cannot be updated by project '" ∷ project_id ∷ "'" ∷ []))
    now ← now_unix_ms
    execute (λ d. record d {
      claims = modify claim_key existing.id (reviewed status confidence now) d.claims;
    })

  unfoldable pub update_review_state : String → String → String → String → Action Domain (Unit {0})
  update_review_state id project_id status confidence = do
    validate status confidence
    found ← gets (get id)
    elim found as (λ _. Action Domain (Unit {0})) [
      | none ↦ raise (database (format ("claim '" ∷ id ∷ "' not found" ∷ [])))
      | some existing ↦ review project_id status confidence existing
    ]

  abbrev pub is_link : String → String → String × String → Bool
  is_link claim_id evidence_id link = str_eq link.0 claim_id && str_eq link.1 evidence_id

  -- `ClaimEvidence::link`.
  unfoldable pub link : String → String → Action Domain Bool
  link claim_id evidence_id = do
    now_unix_ms
    claim ← gets (get claim_id)
    require (is_there claim) "FOREIGN KEY constraint failed"
    evidence ← gets (λ d. row evidence_key evidence_id d.evidence)
    require (is_there evidence) "FOREIGN KEY constraint failed"
    known ← gets (λ d. any (is_link claim_id evidence_id) d.links)
    elim known as (λ _. Action Domain Bool) [
      | true ↦ pure false
      | false ↦ execute (λ d. record d { links = d.links ++ (claim_id, evidence_id) ∷ [] }) >>= λ _.
          pure true
    ]
