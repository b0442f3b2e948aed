-- ===== src/Repositories/Artifacts.antt =====
-- The artifact index in the database (repositories/artifacts.rs). The projects and knowledge nodes that
-- its rows refer to, whose tables are not part of its state, are taken to exist.
pub mod Laws
use morpho_research_os.Prelude.{
  ℕ, suc, String, Bool, true, false, ◌&&◌, ◌||◌, Option, none, some, List, [], ◌∷◌, ◌++◌, str_eq,
  find, map, format, if◌then◌else◌,
}
use morpho_research_os.Errors.{CoreError, Result, ok, err, Action, database}
use morpho_research_os.Env.{Env}
use morpho_research_os.Vault.{ArtifactState}

pub record ArtifactRecord : Type 0 where
  pub id : String
  pub project_id : String
  pub node_id : Option String
  pub path : String
  pub content_hash : String
  pub byte_size : ℕ
  pub origin : String
  pub created_at : ℕ
  pub updated_at : ℕ

-- The rows, how often the clock was read and how many ids were drawn.
pub record Store : Type 0 where
  pub artifacts : List ArtifactRecord
  pub reads : ℕ
  pub drawn : ℕ

-- `WHERE project_id = ?1 AND path = ?2`.
abbrev pub is_at : String → String → ArtifactRecord → Bool
is_at project_id path a = str_eq a.project_id project_id && str_eq a.path path

abbrev pub query_row : String → String → List ArtifactRecord → Option ArtifactRecord
query_row project_id path rows = find (is_at project_id path) rows

abbrev pub change : Option String → String → ℕ → String → ℕ → ArtifactRecord → ArtifactRecord
change node_id content_hash byte_size origin now a = record a {
  node_id = node_id;
  content_hash = content_hash;
  byte_size = byte_size;
  origin = origin;
  updated_at = now;
}

-- `UPDATE artifacts SET ... WHERE id = ?1`.
abbrev pub update :
    String → (ArtifactRecord → ArtifactRecord) → List ArtifactRecord → List ArtifactRecord
update id f [] = []
update id f (a ∷ rows) = (if str_eq a.id id then f a else a) ∷ update id f rows

unfoldable pub recorded : String → String → Store → Option ArtifactState
recorded project_id path s = elim (query_row project_id path s.artifacts) [
  | none ↦ none
  | some a ↦ some (record { content_hash = a.content_hash; user_authored = str_eq a.origin "user" })
]

module _ ⦃env : Env⦄ where
  open env use {clock, uuid}

  -- The row that is there changes, or a fresh one is inserted; the clock was read before.
  abbrev pub place :
      String
      → Option String
      → String
      → String
      → ℕ
      → String
      → ℕ
      → Option ArtifactRecord
      → Store
      → ArtifactRecord × Store
  place project_id node_id path content_hash byte_size origin now (some existing) s =
      let f = change node_id content_hash byte_size origin now in
      (f existing, record s { artifacts = update existing.id f s.artifacts })
  place project_id node_id path content_hash byte_size origin now none s =
      let fresh : ArtifactRecord = record {
        id = uuid s.drawn;
        project_id = project_id;
        node_id = node_id;
        path = path;
        content_hash = content_hash;
        byte_size = byte_size;
        origin = origin;
        created_at = now;
        updated_at = now;
      } in
      (fresh, record s { artifacts = s.artifacts ++ fresh ∷ []; drawn = suc s.drawn })

  unfoldable pub upsert_by_path :
      String → Option String → String → String → ℕ → String → Action Store ArtifactRecord
  upsert_by_path project_id node_id path content_hash byte_size origin s =
      if str_eq origin "core" || str_eq origin "user"
      then (let placed =
            place project_id node_id path content_hash byte_size origin (clock s.reads)
              (query_row project_id path s.artifacts) (record s { reads = suc s.reads }) in
          (ok placed.0, placed.1))
      else (err (database (format ("unknown artifact origin '" ∷ origin ∷ "'" ∷ []))), s)

  -- `DbArtifactIndex`, for the project of the index; its transaction has this one write.
  unfoldable pub record_state : String → Option String → String → String → ℕ → Bool → Store → Store
  unfolding upsert_by_path
  record_state project_id node_id path content_hash byte_size user_authored s =
      (upsert_by_path project_id node_id path content_hash byte_size
        (if user_authored then "user" else "core") s).1
