-- ===== src/Migrations.antt =====
-- The migration runner (db.rs). What a migration's SQL does to the database is SQLite's: it is the
-- parameter `execute_batch`, which returns the message of an error or the database after the batch.
pub mod Laws
use Prim.Native.Nat.{max}
use morpho_research_os.Prelude.{
  ℕ, zero, suc, ◌+◌, String, Bool, true, false, Option, none, some, List, [], ◌∷◌, ◌++◌, ◌==◌, ◌⊎◌,
  inl, inr, leb, any, format, order_by, if◌then◌else◌,
}
use morpho_research_os.Errors.{
  ErrorCode, CoreError, core_error, Result, ok, err, Action, database, pure, raise, gets, lift,
  ◌>>=◌, ◌>>◌,
}

pub record Migration : Type 0 where
  pub version : ℕ
  pub name : String
  pub sql : String

pub record MigrationOutcome : Type 0 where
  pub applied : List (ℕ × String)
  pub current : ℕ

-- A row of `schema_meta`.
pub record MetaRow : Type 0 where
  pub version : ℕ
  pub name : String
  pub applied_at : ℕ

-- The database: the table `schema_meta`, if it was created, all other tables, and the readings of the
-- clock.
pub record Store (Tables : Type 0) : Type 0 where
  pub schema_meta : Option (List MetaRow)
  pub tables : Tables
  pub reads : ℕ

unfoldable pub max_version : List MetaRow → ℕ
max_version [] = 0
max_version (r ∷ rows) = max r.version (max_version rows)

-- The test of `windows(2)` on the sorted versions: the first that stands twice.
unfoldable pub duplicate : List Migration → Option ℕ
duplicate [] = none
duplicate (m ∷ []) = none
duplicate (m ∷ n ∷ ms) =
    let later = duplicate (n ∷ ms) in if m.version == n.version then some m.version else later

module _ {Tables : Type 0} (show : ℕ → String) (clock : ℕ → ℕ)
    (execute_batch : String → Store Tables → String ⊎ Store Tables) where
  unfoldable pub current_schema_version : Store Tables → ℕ
  unfolding max_version
  current_schema_version db = elim db.schema_meta [ none ↦ 0 | some rows ↦ max_version rows ]

  abbrev pub failed : Migration → String → CoreError
  failed m e =
      core_error ErrorCode.database_error "A local database operation failed."
        (format ("migration " ∷ show m.version ∷ " (" ∷ m.name ∷ ") failed: " ∷ e ∷ [])) false

  -- The row of `schema_meta`, whose key is the version.
  unfoldable pub insert_meta : Migration → Action (Store Tables) (Unit {0})
  insert_meta m db =
      let row : MetaRow = record {
        version = m.version;
        name = m.name;
        applied_at = clock db.reads;
      } in
      let db' = record db { reads = suc db.reads } in
      elim db.schema_meta [
        | none ↦ (err (failed m "no such table: schema_meta"), db')
        | some rows ↦
            if any (λ r. r.version == m.version) rows
            then (err (failed m "UNIQUE constraint failed: schema_meta.version"), db')
            else (ok tt, record db' { schema_meta = some (rows ++ row ∷ []) })
      ]

  unfoldable pub apply_in_tx : Migration → Action (Store Tables) (Unit {0})
  unfolding insert_meta
  apply_in_tx m db = elim (execute_batch m.sql db) [
    | inl e ↦ (err (failed m e), db)
    | inr db' ↦ insert_meta m db'
  ]

  abbrev pub roll_back :
      Store Tables → Result (Unit {0}) × Store Tables → Result (Unit {0}) × Store Tables
  roll_back before (ok a, after) = (ok a, after)
  roll_back before (err e, after) = (err e, record before { reads = after.reads })

  unfoldable pub apply_one : Migration → Action (Store Tables) (Unit {0})
  unfolding apply_in_tx
  apply_one m db = roll_back db (apply_in_tx m db)

  -- The loop of `migrate` over the sorted migrations.
  unfoldable pub apply_pending : List Migration → Action (Store Tables) (List (ℕ × String))
  unfolding apply_one current_schema_version
  apply_pending [] db = pure [] db
  apply_pending (m ∷ ms) db =
      let rest = apply_pending ms in
      let current = current_schema_version db in
      if leb m.version current
      then rest db
      else if m.version == current + 1
      then (do apply_one m; applied ← rest; pure ((m.version, m.name) ∷ applied)) db
      else (
        err (
            database (
              format (
                "migration gap: next version is "
                ∷ show m.version
                ∷ " but current is "
                ∷ show current
                ∷ []))),
        db,
      )

  unfoldable pub migrate : List Migration → Action (Store Tables) MigrationOutcome
  unfolding apply_pending duplicate
  migrate migrations =
      let sorted = order_by (λ a b. leb a.version b.version) migrations in
      elim (duplicate sorted) [
        | some v ↦ raise (database (format ("duplicate migration version " ∷ show v ∷ [])))
        | none ↦ (do
          applied ← apply_pending sorted
          current ← gets current_schema_version
          pure (record { applied = applied; current = current }))
      ]
