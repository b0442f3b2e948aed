-- ===== src/Repositories/Transaction/Atomic.antt =====
-- A write transaction happens whole or not at all.
use morpho_research_os.Prelude.{◌≡◌, refl}
use morpho_research_os.Errors.{CoreError, Result, ok, err, Action}
use morpho_research_os.Repositories.Tables.{Db}
use morpho_research_os.Repositories.Transaction.{with_write_tx, end_tx}

-- The tables of two states are the same.
pub record SameTables (db db' : Db) : Type 0 where
  pub tasks : db'.tasks ≡ db.tasks
  pub runs : db'.runs ≡ db.runs
  pub dependencies : db'.dependencies ≡ db.dependencies
  pub events : db'.events ≡ db.events

module _ {A : Type 0} where
  end_tx_err :
      (before after : Db) (r : Result A) {e : CoreError}
      → (end_tx before (r, after)).0 ≡ err e
      → SameTables before (end_tx before (r, after)).1
  unfolding with_write_tx
  end_tx_err before after (ok a) h = cc
  end_tx_err before after (err e) h = record {
    tasks = refl;
    runs = refl;
    dependencies = refl;
    events = refl;
  }

  end_tx_ok :
      (before after : Db) (r : Result A) {a : A}
      → (end_tx before (r, after)).0 ≡ ok a
      → end_tx before (r, after) ≡ (r, after)
  end_tx_ok before after (ok a) h = refl
  end_tx_ok before after (err e) h = cc

  -- A transaction that fails leaves every table as it was, whatever was written in it.
  pub with_write_tx_err :
      (f : Action Db A) (db : Db) {e : CoreError}
      → (with_write_tx f db).0 ≡ err e
      → SameTables db (with_write_tx f db).1
  unfolding with_write_tx
  with_write_tx_err f db h = let (r, after) = f db in end_tx_err db after r h

  -- A transaction that succeeds is the action itself.
  pub with_write_tx_ok :
      (f : Action Db A) (db : Db) {a : A}
      → (with_write_tx f db).0 ≡ ok a
      → with_write_tx f db ≡ f db
  unfolding with_write_tx
  with_write_tx_ok f db h = let (r, after) = f db in end_tx_ok db after r h
