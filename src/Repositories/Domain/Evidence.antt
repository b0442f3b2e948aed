-- ===== src/Repositories/Domain/Evidence.antt =====
-- Evidence (repositories/evidence.rs).
use morpho_research_os.Prelude.{
  String, Bool, true, false, ◌&&◌, ◌||◌, Option, none, some, List, [], ◌∷◌, ◌++◌, ◌==◌, str_eq,
  str_leb, ltb, any, select, order_by, format,
}
use morpho_research_os.Prelude.Int.{ℤ}
use morpho_research_os.Errors.{Action, pure, gets, ◌>>=◌, ◌>>◌}
use morpho_research_os.Env.{Env}
use morpho_research_os.Repositories.Rows.{row}
use morpho_research_os.Repositories.Runs.{contains}
use morpho_research_os.Repositories.Domain.{
  Domain, EvidenceRecord, source_key, evidence_key, require, execute, now_unix_ms, id_or_new,
  is_there, is_missing,
}

abbrev pub directions : List String
directions = "support" ∷ "contradict" ∷ []

pub record NewEvidence : Type 0 where
  pub id : Option String
  pub project_id : String
  pub source_id : String
  pub quote : String
  pub value : String
  pub locator : String
  pub locator_detail : String
  pub retrieved_at : ℤ
  pub direction : String

unfoldable pub get : String → Domain → Option EvidenceRecord
get id d = row evidence_key id d.evidence

unfoldable pub stored : Option String → Domain → Option EvidenceRecord
stored none d = none
stored (some id) d = get id d

abbrev pub evidence_leb : EvidenceRecord → EvidenceRecord → Bool
evidence_leb a b =
    ltb a.created_at b.created_at || (a.created_at == b.created_at && str_leb a.id b.id)

unfoldable pub list_for_project : String → Domain → List EvidenceRecord
list_for_project project_id d =
    order_by evidence_leb (select (λ r. str_eq r.project_id project_id) d.evidence)

unfoldable pub list_for_source : String → Domain → List EvidenceRecord
list_for_source source_id d =
    order_by evidence_leb (select (λ r. str_eq r.source_id source_id) d.evidence)

-- `id IN (SELECT evidence_id FROM claim_evidence WHERE claim_id = ?1)`.
unfoldable pub list_for_claim : String → Domain → List EvidenceRecord
list_for_claim claim_id d =
    order_by evidence_leb
      (select (λ r. any (λ l. str_eq l.0 claim_id && str_eq l.1 r.id) d.links) d.evidence)

-- A stored row of the same project is answered as it is.
unfoldable pub reuse : NewEvidence → EvidenceRecord → Action Domain (EvidenceRecord × Bool)
reuse new existing = do
  require (str_eq existing.project_id new.project_id) (
      format (
        "evidence '" ∷ existing.id ∷ "' belongs to project '" ∷ existing.project_id
        ∷ "' and cannot be reused by project '" ∷ new.project_id ∷ "'" ∷ []))
  pure (existing, false)

module _ ⦃env : Env⦄ where
  -- `INSERT INTO evidence`, under its keys.
  unfoldable pub insert_evidence : EvidenceRecord → Action Domain (Unit {0})
  insert_evidence r = do
    taken ← gets (get r.id)
    require (is_missing taken) "UNIQUE constraint failed: evidence.id"
    source ← gets (λ d. row source_key r.source_id d.sources)
    require (is_there source) "FOREIGN KEY constraint failed"
    execute (λ d. record d { evidence = d.evidence ++ r ∷ [] })

  unfoldable pub insert_new : NewEvidence → Action Domain (EvidenceRecord × Bool)
  insert_new new = do
    now ← now_unix_ms
    id ← id_or_new new.id
    let r : EvidenceRecord = record {
      id = id;
      project_id = new.project_id;
      source_id = new.source_id;
      quote = new.quote;
      value = new.value;
      locator = new.locator;
      locator_detail = new.locator_detail;
      retrieved_at = new.retrieved_at;
      direction = new.direction;
      created_at = now;
    }
    insert_evidence r
    pure (r, true)

  unfoldable pub insert : NewEvidence → Action Domain (EvidenceRecord × Bool)
  insert new = do
    require (contains directions new.direction)
        (format ("unknown evidence direction '" ∷ new.direction ∷ "'" ∷ []))
    found ← gets (stored new.id)
    elim found as (λ _. Action Domain (EvidenceRecord × Bool)) [
      | none ↦ insert_new new
      | some existing ↦ reuse new existing
    ]
