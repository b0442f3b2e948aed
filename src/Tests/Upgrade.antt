-- ===== src/Tests/Upgrade.antt =====
-- The migration runner on a database at version 1, with a batch that only adds its text to the tables.
use morpho_research_os.Prelude.{
  ℕ, ◌+◌, String, Option, none, some, List, [], ◌∷◌, ◌++◌, ◌≡◌, refl, arith, ◌⊎◌, inr, length,
  Option-cases, ◌==◌, inl, if◌then◌else◌, order_by,
}
use morpho_research_os.Errors.{◌>>=◌}
use morpho_research_os.Migrations.{
  Migration, MigrationOutcome, MetaRow, Store, current_schema_version, migrate, max_version,
  duplicate, apply_pending, insert_meta, apply_in_tx, apply_one,
}
use morpho_research_os.Migrations.Laws.{IsConsecutive, KeepsVersion, migrate-IsConsecutive}

abbrev show : ℕ → String
show n = if n == 2 then "2" else "?"

abbrev clock : ℕ → ℕ
clock n = n

abbrev rows_of : Option (List MetaRow) → List MetaRow
rows_of none = []
rows_of (some rows) = rows

abbrev batch : String → Store (List String) → String ⊎ Store (List String)
batch sql db =
    inr (record db { schema_meta = some (rows_of db.schema_meta); tables = db.tables ++ sql ∷ [] })

batch-KeepsVersion : (m : Migration) → KeepsVersion show clock batch m
unfolding current_schema_version max_version
batch-KeepsVersion m db db' h = elim (Option-cases db.schema_meta) [
  | inl e ↦ ground arith
  | inr (rows, e) ↦ ground arith
]

abbrev first_version : Store (List String)
first_version = record {
  schema_meta = some (record { version = 1; name = "initial"; applied_at = 0 } ∷ []);
  tables = "initial" ∷ [];
  reads = 1;
}

abbrev skip : Migration
skip = record { version = 2; name = "skip"; sql = "skip" }

abbrev initial : Migration
initial = record { version = 1; name = "initial"; sql = "initial" }

abbrev two : List Migration
two = skip ∷ initial ∷ []

abbrev upgraded : MigrationOutcome
upgraded = record { applied = (2, "skip") ∷ []; current = 2 }

migrate-IsConsecutive_example :
    IsConsecutive 1 ((2, "skip") ∷ [])
    × (upgraded.current ≡ 1 + length upgraded.applied)
    × (current_schema_version show clock batch (migrate show clock batch two first_version).1 ≡ 2)
unfolding migrate current_schema_version max_version duplicate order_by apply_pending apply_one
    apply_in_tx insert_meta ◌>>=◌
migrate-IsConsecutive_example =
    migrate-IsConsecutive show clock batch two first_version upgraded
      (batch-KeepsVersion skip, (batch-KeepsVersion initial, tt)) refl
