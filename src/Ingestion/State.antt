-- ===== src/Ingestion/State.antt =====
-- The state of one ingestion (ingestion.rs): the tables inside the transaction, the variables of the
-- batch, and the files of the content cache.
use morpho_research_os.Prelude.{ℕ, suc, String, Option, none, some, List, lookup}
use morpho_research_os.Errors.{CoreError, Result, ok, err, Action}
use morpho_research_os.Repositories.Domain.{Domain}
use morpho_research_os.Ingestion.Wire.{IngestStats}

-- `files` has the bytes by path; `turns` counts the operations on files that were tried.
pub record Batch : Type 0 where
  pub rows : Domain
  pub source_map : List (String × String)
  pub stats : IngestStats
  pub published_files : List String
  pub files : List (String × List ℕ)
  pub turns : ℕ

-- What comes from outside: the message with which the n-th operation on a file fails, if it does, the
-- message for a file that is not there,
-- `Path::join`, and the digest of sha2 as it is printed.
pub record Outside : Type 0 where
  pub trouble : ℕ → Option String
  pub missing : String
  pub join : String → String → String
  pub sha256 : List ℕ → String

-- An action on the tables.
unfoldable pub on_rows : {A : Type 0} → Action Domain A → Action Batch A
on_rows m s = let done = m s.rows in (done.0, record s { rows = done.1 })

abbrev pub count : (IngestStats → IngestStats) → Batch → Batch
count f s = record s { stats = f s.stats }

module _ ⦃out : Outside⦄ where
  open out use {trouble}

  -- One operation on the files, which fails and changes nothing, or has its effect.
  unfoldable pub attempt :
      (String → CoreError)
      → (List (String × List ℕ) → List (String × List ℕ))
      → Action Batch (Unit {0})
  attempt fail effect s =
      let tried = record s { turns = suc s.turns } in
      elim (trouble s.turns) as (λ _. Result (Unit {0}) × Batch) [
        | some message ↦ (err (fail message), tried)
        | none ↦ (ok tt, record tried { files = effect s.files })
      ]

  -- `std::fs::read(path).ok()`.
  unfoldable pub read_file : String → Action Batch (Option (List ℕ))
  read_file path s = (
    ok (elim (trouble s.turns) as (λ _. Option (List ℕ)) [
      | some message ↦ none
      | none ↦ lookup path s.files
    ]),
    record s { turns = suc s.turns },
  )

  -- `let _ = operation;`.
  abbrev pub ignoring : Action Batch (Unit {0}) → Action Batch (Unit {0})
  ignoring m s = (ok tt, (m s).1)
