-- ===== src/Vault.antt =====
-- The vault's files and what the core recorded of them (apps/desktop/src-tauri/src/vault.rs): the
-- content hash, the artifact index and the atomic write.
pub mod Hash
pub mod Slug
pub mod Yaml
pub mod Writer
pub mod Laws
pub mod Protection
pub mod Stored
pub mod Again
pub mod Decision
use morpho_research_os.Prelude.{
  ℕ, suc, String, Bool, true, false, Option, none, some, List, [], ◌∷◌, format, if◌then◌else◌,
  lookup, insert, remove, join,
}
use morpho_research_os.Errors.{
  CoreError, core_error, ErrorCode, Result, ok, err, Action, database, pure, raise, gets, lift,
  ok_or, ◌>>=◌, ◌>>◌,
}

pub record ArtifactState : Type 0 where
  pub content_hash : String
  pub user_authored : Bool

-- A row of the index: what is recorded of a file.
pub record Artifact : Type 0 where
  pub node_id : Option String
  pub state : ArtifactState
  pub byte_size : ℕ

-- The files by path, each with its bytes, the index by path, and how many operations were tried.
pub record Disk : Type 0 where
  pub files : List (String × List ℕ)
  pub index : List (String × Artifact)
  pub turns : ℕ

-- What comes from outside: the message with which the n-th operation on a file or on the index fails,
-- if it does, whether the metadata of a path cannot be read after n operations, and `Path::parent`,
-- `file_name` and `with_file_name`.
pub record Outside : Type 0 where
  pub trouble : ℕ → Option String
  pub hidden : ℕ → String → Bool
  pub parent : String → Option String
  pub file_name : String → Option String
  pub with_file_name : String → String → String

abbrev pub vault_error : String → CoreError
vault_error detail =
    core_error ErrorCode.vault_write_failed "Writing to the knowledge vault failed." detail false

abbrev pub failed_on : String → String → String → CoreError
failed_on what path message = vault_error (format (what ∷ " " ∷ path ∷ " failed: " ∷ message ∷ []))

module _ ⦃out : Outside⦄ where
  open out use {trouble, parent, file_name, with_file_name}

  -- One operation, which fails and changes nothing, or has its effect.
  unfoldable pub attempt : (String → CoreError) → (Disk → Disk) → Action Disk (Unit {0})
  attempt fail effect d =
      let tried = record d { turns = suc d.turns } in
      elim (trouble d.turns) [
        | some message ↦ (err (fail message), tried)
        | none ↦ (ok tt, effect tried)
      ]

  abbrev pub put : String → List ℕ → Disk → Disk
  put path bytes d = record d { files = insert path bytes d.files }

  -- `rename` replaces the target.
  abbrev pub move_file : String → String → Disk → Disk
  move_file from to d = elim (lookup from d.files) [
    | none ↦ d
    | some bytes ↦ record d { files = insert to bytes (remove from d.files) }
  ]

  abbrev pub temporary : String → String → String
  temporary path name = with_file_name path (format ("." ∷ name ∷ ".morpho-tmp" ∷ []))

  -- The steps between creating the temporary file and renaming it.
  unfoldable pub replace_file : String → String → List ℕ → Action Disk (Unit {0})
  replace_file path tmp bytes = do
    attempt (failed_on "atomic write" path) (put tmp [])
    attempt (failed_on "atomic write" path) (put tmp bytes)
    attempt (failed_on "atomic write" path) (λ d. d)
    attempt (failed_on "atomic write" path) (move_file tmp path)

  -- After a failure the temporary file is removed, if that succeeds.
  abbrev pub clean_up : String → Result (Unit {0}) × Disk → Result (Unit {0}) × Disk
  clean_up tmp (ok u, d) = (ok u, d)
  clean_up tmp (err e, d) =
      (err e, (attempt vault_error (λ t. record t { files = remove tmp t.files }) d).1)

  unfoldable pub create_parent : String → Action Disk (Unit {0})
  create_parent path = elim (parent path) [
    | none ↦ pure tt
    | some dir ↦ attempt (failed_on "create" dir) (λ d. d)
  ]

  unfoldable pub atomic_write : String → List ℕ → Action Disk (Unit {0})
  atomic_write path bytes = do
    create_parent path
    name ← lift (ok_or (file_name path) (vault_error (format ("invalid file name: " ∷ path ∷ []))))
    λ d. clean_up (temporary path name) (replace_file path (temporary path name) bytes d)

  unfoldable pub read : String → Action Disk (List ℕ)
  read path = do
    attempt (failed_on "read" path) (λ d. d)
    found ← gets (λ d. lookup path d.files)
    lift (ok_or found (failed_on "read" path "no such file"))

  -- `ArtifactIndex::recorded` and `record`.
  unfoldable pub recorded : String → Action Disk (Option ArtifactState)
  recorded path = do
    attempt database (λ d. d)
    gets (λ d. elim (lookup path d.index) [ none ↦ none | some a ↦ some a.state ])

  unfoldable pub record_artifact :
      Option String → String → String → ℕ → Bool → Action Disk (Unit {0})
  record_artifact node_id path hash byte_size user_authored = attempt database (λ d. record d {
    index =
        insert path
          (record {
            node_id = node_id;
            state = record { content_hash = hash; user_authored = user_authored };
            byte_size = byte_size;
          })
          d.index;
  })
