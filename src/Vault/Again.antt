-- ===== src/Vault/Again.antt =====
-- Writing a note again changes nothing.
use morpho_research_os.Prelude.{ℕ, suc, String, false, ◌≡◌, none}
use morpho_research_os.Vault.{Disk, Outside}

module _ ⦃out : Outside⦄ where
  open out use {trouble, hidden}

  -- Every operation on the files and the index succeeds, and every path's metadata can be read.
  abbrev pub IsQuiet : Type 0
  IsQuiet = ((n : ℕ) → trouble n ≡ none) × ((n : ℕ) (path : String) → hidden n path ≡ false)

  -- After two more operations.
  abbrev pub later : Disk → Disk
  later d = record d { turns = suc (suc d.turns) }
