-- ===== src/Repositories/Transaction.antt =====
-- `with_write_tx` (repositories/mod.rs). A commit of SQLite itself is taken to succeed.
pub mod Atomic
use morpho_research_os.Errors.{Result, ok, err, Action}
use morpho_research_os.Repositories.Tables.{Db}

-- A rollback restores the tables; what was read from the clock stays read.
unfoldable pub rollback : Db → Db → Db
rollback before after = record before { reads = after.reads; drawn = after.drawn }

abbrev pub end_tx : {A : Type 0} → Db → Result A × Db → Result A × Db
end_tx before (ok a, after) = (ok a, after)
end_tx before (err e, after) = (err e, rollback before after)

unfoldable pub with_write_tx : {A : Type 0} → Action Db A → Action Db A
unfolding rollback
with_write_tx f db = end_tx db (f db)
