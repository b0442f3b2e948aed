-- ===== src/Ingestion/Cache.antt =====
-- `write_content_file` (ingestion.rs): the cache file of a source's content, named by its digest.
use Prim.Native.String
use Prim.Native.Char.{code}
use morpho_research_os.Prelude.{
  ℕ, String, Bool, true, false, not, ◌&&◌, ◌||◌, Option, none, some, List, [], ◌∷◌, ◌==◌, leb,
  str_eq, format, length, lookup, insert, remove, if◌then◌else◌,
}
use morpho_research_os.Errors.{
  CoreError, Result, ok, err, Action, database, pure, raise, gets, ◌>>=◌, ◌>>◌,
}
use morpho_research_os.Env.{Env}
use morpho_research_os.Vault.Hash.{as_bytes}
use morpho_research_os.Repositories.Domain.{new_id, is_there}
use morpho_research_os.Ingestion.Check.{eq_ignore_ascii_case}
use morpho_research_os.Ingestion.State.{Batch, Outside, on_rows, attempt, read_file, ignoring}

abbrev pub is_plain : ℕ → Bool
is_plain c =
    (leb 48 c && leb c 57)
    || (leb 65 c && leb c 90)
    || (leb 97 c && leb c 122)
    || c == b'.'
    || c == b'-'
    || c == b'_'

abbrev pub sanitize : String → String
sanitize String.String.[] = ""
sanitize (String.String.◌∷◌ c rest) =
    String.String.◌∷◌ (if is_plain (code c) then c else "_") (sanitize rest)

abbrev pub extension : String → String
extension content_type =
    if str_eq content_type "text/html"
    then "html"
    else if str_eq content_type "text/markdown"
    then "md"
    else if str_eq content_type "application/json"
    then "json"
    else "txt"

abbrev pub file_name : String → String → String → String
file_name core_source_id fingerprint content_type =
    format
      (sanitize core_source_id ∷ "-" ∷ sanitize fingerprint ∷ "." ∷ extension content_type ∷ [])

abbrev pub put : String → List ℕ → List (String × List ℕ) → List (String × List ℕ)
put path bytes files = insert path bytes files

-- `rename` replaces the target.
abbrev pub move_file : String → String → List (String × List ℕ) → List (String × List ℕ)
move_file from to files = elim (lookup from files) as (λ _. List (String × List ℕ)) [
  | none ↦ files
  | some bytes ↦ insert to bytes (remove from files)
]

abbrev pub mismatch : String → String → String
mismatch fingerprint computed = format (
    "source-content fingerprint mismatch: declared '" ∷ fingerprint
    ∷ "' but the payload hashes to '" ∷ computed ∷ "' — the batch is rejected" ∷ [])

abbrev pub failed_on : String → String → String → CoreError
failed_on what path message = database (format (what ∷ " '" ∷ path ∷ "' failed: " ∷ message ∷ []))

module _ ⦃env : Env⦄ ⦃out : Outside⦄ where
  open out use {join, sha256, missing}

  -- `std::fs::rename`, which fails where there is nothing to rename.
  unfoldable pub rename : String → String → Action Batch (Unit {0})
  rename tmp path = do
    here ← gets (λ s. is_there (lookup tmp s.files))
    elim here as (λ _. Action Batch (Unit {0})) [
      | true ↦ attempt (failed_on "publishing source content to" path) (move_file tmp path)
      | false ↦ raise (failed_on "publishing source content to" path missing)
    ]

  -- The closure `publish`: a stale file is removed first, if that succeeds.
  unfoldable pub publish : String → String → Action Batch (Unit {0})
  publish tmp path = do
    there ← gets (λ s. is_there (lookup path s.files))
    elim there as (λ _. Action Batch (Unit {0})) [
      | true ↦ ignoring (attempt (failed_on "removing" path) (remove path))
      | false ↦ pure tt
    ]
    rename tmp path

  -- After a failure the temporary file is removed, if that succeeds.
  abbrev pub clean_up : String → Result (Unit {0}) × Batch → Result (Unit {0}) × Batch
  clean_up tmp (ok u, s) = (ok u, s)
  clean_up tmp (err e, s) = (err e, (attempt (failed_on "removing" tmp) (remove tmp) s).1)

  unfoldable pub replace_file : String → String → String → List ℕ → Action Batch (Unit {0})
  replace_file dir fingerprint path bytes = do
    id ← on_rows new_id
    let tmp = join dir (format (".tmp-" ∷ sanitize fingerprint ∷ "-" ∷ id ∷ []))
    attempt (failed_on "writing source content to" tmp) (put tmp bytes)
    λ s. clean_up tmp (publish tmp path s)

  -- Whether the file that was read still hashes to its name.
  abbrev pub is_intact : String → Option (List ℕ) → Bool
  is_intact fingerprint none = false
  is_intact fingerprint (some bytes) = eq_ignore_ascii_case (sha256 bytes) fingerprint

  -- The path, the size and whether a file was created, for content that is not empty.
  unfoldable pub store_content :
      String → String → String → List ℕ → Action Batch (String × ℕ × Bool)
  store_content dir fingerprint path bytes = do
    attempt (failed_on "creating the source-content cache directory" dir) (λ files. files)
    existing ← read_file path
    elim (is_intact fingerprint existing) as (λ _. Action Batch (String × ℕ × Bool)) [
      | true ↦ pure (path, length bytes, false)
      | false ↦ replace_file dir fingerprint path bytes >>= λ _. pure (path, length bytes, true)
    ]

  unfoldable pub write_content_file :
      String → String → String → String → String → Action Batch (String × ℕ × Bool)
  write_content_file dir core_source_id fingerprint content content_type =
      let bytes = as_bytes content in
      let path = join dir (file_name core_source_id fingerprint content_type) in
      if not (eq_ignore_ascii_case fingerprint (sha256 bytes))
      then raise (database (mismatch fingerprint (sha256 bytes)))
      else if str_eq content ""
      then pure ("", 0, false)
      else store_content dir fingerprint path bytes
