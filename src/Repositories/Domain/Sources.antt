-- ===== src/Repositories/Domain/Sources.antt =====
-- Sources and their contents (repositories/sources.rs).
use morpho_research_os.Prelude.{
  ℕ, String, Bool, true, false, ◌&&◌, ◌||◌, Option, none, some, List, [], ◌∷◌, ◌++◌, ◌==◌, str_eq,
  str_leb, ltb, find, select, order_by, format,
}
use morpho_research_os.Prelude.Int.{ℤ}
use morpho_research_os.Errors.{Action, pure, gets, ◌>>=◌, ◌>>◌}
use morpho_research_os.Env.{Env}
use morpho_research_os.Repositories.Rows.{row, modify}
use morpho_research_os.Repositories.Runs.{contains}
use morpho_research_os.Repositories.Domain.{
  Domain, SourceRecord, SourceContentRecord, source_key, content_key, require, execute, now_unix_ms,
  new_id, is_there, is_missing,
}

pub record NewSource : Type 0 where
  pub project_id : String
  pub url : String
  pub canonical_url : String
  pub title : String
  pub source_type : String

pub record NewSourceContent : Type 0 where
  pub source_id : String
  pub content_hash : String
  pub format : String
  pub cache_path : String
  pub byte_size : ℕ
  pub extracted_at : ℤ
  pub content_class : String

abbrev pub content_classes : List String
content_classes = "full-text" ∷ "snippet" ∷ "unavailable" ∷ []

-- `WHERE project_id = ?1 AND canonical_url = ?2`.
abbrev pub has_url : String → String → SourceRecord → Bool
has_url project_id url r = str_eq r.project_id project_id && str_eq r.canonical_url url

unfoldable pub get_by_canonical_url : String → String → Domain → Option SourceRecord
get_by_canonical_url project_id url d = find (has_url project_id url) d.sources

abbrev pub source_leb : SourceRecord → SourceRecord → Bool
source_leb a b =
    ltb a.created_at b.created_at || (a.created_at == b.created_at && str_leb a.id b.id)

unfoldable pub list_for_project : String → Domain → List SourceRecord
list_for_project project_id d =
    order_by source_leb (select (λ r. str_eq r.project_id project_id) d.sources)

abbrev pub refreshed : NewSource → ℕ → SourceRecord → SourceRecord
refreshed new now r = record r {
  url = new.url;
  title = new.title;
  source_type = new.source_type;
  retrieved_at = now;
  updated_at = now;
}

abbrev pub evaluated : String → String → ℕ → SourceRecord → SourceRecord
evaluated score notes now r = record r {
  quality_score = some score;
  quality_notes = some notes;
  status = "evaluated";
  updated_at = now;
}

abbrev pub content_row : String → NewSourceContent → SourceContentRecord
content_row id new = record {
  id = id;
  source_id = new.source_id;
  content_hash = new.content_hash;
  format = new.format;
  cache_path = new.cache_path;
  byte_size = new.byte_size;
  extracted_at = new.extracted_at;
  content_class = new.content_class;
}

-- `ON CONFLICT (id) DO UPDATE SET ...`: the columns but the key and the source.
abbrev pub replaced : NewSourceContent → SourceContentRecord → SourceContentRecord
replaced new r = record r {
  content_hash = new.content_hash;
  format = new.format;
  cache_path = new.cache_path;
  byte_size = new.byte_size;
  extracted_at = new.extracted_at;
  content_class = new.content_class;
}

module _ ⦃env : Env⦄ where
  -- `INSERT INTO sources`, under its primary key.
  unfoldable pub insert_source : SourceRecord → Action Domain (Unit {0})
  insert_source r = do
    taken ← gets (λ d. row source_key r.id d.sources)
    require (is_missing taken) "UNIQUE constraint failed: sources.id"
    execute (λ d. record d { sources = d.sources ++ r ∷ [] })

  unfoldable pub update_source : String → (SourceRecord → SourceRecord) → Action Domain (Unit {0})
  update_source id f = execute (λ d. record d { sources = modify source_key id f d.sources })

  unfoldable pub upsert_existing : NewSource → SourceRecord → Action Domain (SourceRecord × Bool)
  upsert_existing new existing = do
    now ← now_unix_ms
    update_source existing.id (refreshed new now)
    pure (refreshed new now existing, false)

  unfoldable pub insert_new : NewSource → Action Domain (SourceRecord × Bool)
  insert_new new = do
    now ← now_unix_ms
    id ← new_id
    let r : SourceRecord = record {
      id = id;
      project_id = new.project_id;
      url = new.url;
      canonical_url = new.canonical_url;
      title = new.title;
      source_type = new.source_type;
      status = "discovered";
      retrieved_at = now;
      quality_score = none;
      quality_notes = none;
      created_at = now;
      updated_at = now;
    }
    insert_source r
    pure (r, true)

  unfoldable pub upsert_by_canonical_url : NewSource → Action Domain (SourceRecord × Bool)
  upsert_by_canonical_url new = do
    found ← gets (get_by_canonical_url new.project_id new.canonical_url)
    elim found as (λ _. Action Domain (SourceRecord × Bool)) [
      | none ↦ insert_new new
      | some existing ↦ upsert_existing new existing
    ]

  -- `in_unit` says whether a score lies between 0 and 1.
  unfoldable pub apply_evaluation :
      (String → Bool) → String → String → String → Action Domain (Unit {0})
  apply_evaluation in_unit id score notes = do
    require (in_unit score) (format ("quality score " ∷ score ∷ " outside 0.0..=1.0" ∷ []))
    now ← now_unix_ms
    there ← gets (λ d. row source_key id d.sources)
    update_source id (evaluated score notes now)
    require (is_there there) (format ("source '" ∷ id ∷ "' not found" ∷ []))

  unfoldable pub get_content : String → Domain → Option SourceContentRecord
  get_content id d = row content_key id d.contents

  unfoldable pub upsert_content : String → NewSourceContent → Action Domain (Unit {0})
  upsert_content id new = do
    require (contains content_classes new.content_class)
        (format ("unknown content class '" ∷ new.content_class ∷ "'" ∷ []))
    source ← gets (λ d. row source_key new.source_id d.sources)
    require (is_there source) "FOREIGN KEY constraint failed"
    there ← gets (get_content id)
    elim there as (λ _. Action Domain (Unit {0})) [
      | none ↦ execute (λ d. record d { contents = d.contents ++ content_row id new ∷ [] })
      | some _ ↦
          execute (λ d. record d { contents = modify content_key id (replaced new) d.contents })
    ]
