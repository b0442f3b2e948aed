-- ===== src/Migrations/Laws.antt =====
-- What a run of the migrations guarantees.
use Prim.Native.Nat.{max}
use mathlib.Core.Path.{subst}
use morpho_research_os.Prelude.{
  ℕ, suc, ◌+◌, String, true, false, List, [], ◌∷◌, ◌++◌, ◌==◌, ◌≡◌, refl, sym, arith, ◌⊎◌, inl, inr,
  leb, All, any, length, Bool-cases, Option-cases, order_by,
}
use morpho_research_os.Prelude.Order.{All-order_by}
use morpho_research_os.Errors.{Result, ok, err, ◌>>=◌, bind_ok}
use morpho_research_os.Migrations.{
  Migration, MigrationOutcome, MetaRow, Store, max_version, duplicate, current_schema_version,
  insert_meta, apply_in_tx, roll_back, apply_one, apply_pending, migrate,
}

-- The versions count up from the one after `n`.
abbrev pub IsConsecutive : ℕ → List (ℕ × String) → Type 0
IsConsecutive n [] = Unit
IsConsecutive n (v ∷ vs) = (v.0 ≡ suc n) × IsConsecutive v.0 vs

max_version-append :
    (rows : List MetaRow) (r : MetaRow)
    → max_version (rows ++ r ∷ []) ≡ max (max_version rows) r.version
unfolding max_version
max_version-append [] r = omega arith
max_version-append (x ∷ xs) r = omega (arith, max_version-append xs r)

module _ {Tables : Type 0} (show : ℕ → String) (clock : ℕ → ℕ)
    (execute_batch : String → Store Tables → String ⊎ Store Tables) where
  -- The SQL of this migration does not touch the recorded versions: only the runner writes them.
  abbrev pub KeepsVersion : Migration → Type 0
  KeepsVersion m =
      (db db' : Store Tables)
      → execute_batch m.sql db ≡ inr db'
      → current_schema_version show clock execute_batch db'
        ≡ current_schema_version show clock execute_batch db

  abbrev version_of : Store Tables → ℕ
  version_of = current_schema_version show clock execute_batch

  insert_meta_version :
      (m : Migration) (db : Store Tables)
      → (insert_meta show clock execute_batch m db).0 ≡ ok tt
      → version_of (insert_meta show clock execute_batch m db).1 ≡ max (version_of db) m.version
  unfolding insert_meta current_schema_version
  insert_meta_version m db h = elim (Option-cases db.schema_meta) [
    | inl e ↦ (let k = rw (e, insert_meta) at h in cc)
    | inr (rows, e) ↦ elim (Bool-cases (any (λ r. r.version == m.version) rows)) [
      | inl taken ↦ (let k = rw (e, insert_meta, taken) at h in cc)
      | inr free ↦ rw (e, insert_meta, free) (max_version-append rows _)
    ]
  ]

  apply_in_tx_version :
      (m : Migration) (db : Store Tables)
      → KeepsVersion m
      → m.version ≡ version_of db + 1
      → (apply_in_tx show clock execute_batch m db).0 ≡ ok tt
      → version_of (apply_in_tx show clock execute_batch m db).1 ≡ m.version
  unfolding apply_in_tx
  apply_in_tx_version m db keeps next h = go (execute_batch m.sql db) refl
    where
      go :
          (x : String ⊎ Store Tables)
          → execute_batch m.sql db ≡ x
          → version_of (apply_in_tx show clock execute_batch m db).1 ≡ m.version
      go (inl e) run = let k = rw (run, apply_in_tx) at h in cc
      go (inr db') run =
          let k = rw (run, apply_in_tx) at h in
          let kept = keeps db db' run in
          rw (run, apply_in_tx) (omega (arith, insert_meta_version m db' k, kept, next))

  rolled_ok :
      (db : Store Tables) (r : Result (Unit {0}) × Store Tables)
      → (roll_back show clock execute_batch db r).0 ≡ ok tt
      → roll_back show clock execute_batch db r ≡ r
  rolled_ok db (ok a, after) h = refl
  rolled_ok db (err e, after) h = cc

  apply_one_version :
      (m : Migration) (db : Store Tables)
      → KeepsVersion m
      → m.version ≡ version_of db + 1
      → (apply_one show clock execute_batch m db).0 ≡ ok tt
      → version_of (apply_one show clock execute_batch m db).1 ≡ m.version
  unfolding apply_one
  apply_one_version m db keeps next h =
      let same = rolled_ok db (apply_in_tx show clock execute_batch m db) h in
      rw same (apply_in_tx_version m db keeps next (rw same at h))

  -- The result of the loop.
  abbrev IsRun : Store Tables → Store Tables → List (ℕ × String) → Type 0
  IsRun db db' applied =
      IsConsecutive (version_of db) applied × (version_of db' ≡ version_of db + length applied)

  abbrev after_one : Migration → Store Tables → Store Tables
  after_one m db = (apply_one show clock execute_batch m db).1

  -- A round that applies a migration.
  pending_step :
      (m : Migration) (ms : List Migration) (db : Store Tables) (applied : List (ℕ × String))
      → leb m.version (version_of db) ≡ false
      → (m.version == version_of db + 1) ≡ true
      → (apply_pending show clock execute_batch (m ∷ ms) db).0 ≡ ok applied
      → (rest : List (ℕ × String)) × ((m.version, m.name) ∷ rest ≡ applied)
        × ((apply_one show clock execute_batch m db).0 ≡ ok tt)
        × ((apply_pending show clock execute_batch ms (after_one m db)).0 ≡ ok rest)
        × ((apply_pending show clock execute_batch (m ∷ ms) db).1
            ≡ (apply_pending show clock execute_batch ms (after_one m db)).1)
  unfolding apply_pending
  pending_step m ms db applied new next h =
      let k = rw next at (rw new at h) in
      let (_, one, k₁) = bind_ok (apply_one show clock execute_batch m) _ db k in
      let (rest, later, k₂) =
        bind_ok (apply_pending show clock execute_batch ms) _ (after_one m db) k₁ in
      let e : (m.version, m.name) ∷ rest ≡ applied = unfold ◌>>=◌ in ground arith in
      (rest, e, one, later, unfold ◌>>=◌ in rw new (rw next (rw one (rw later refl))))

  longer :
      (m : Migration) (db db₁ db₂ : Store Tables) (rest applied : List (ℕ × String))
      → m.version ≡ version_of db + 1
      → version_of db₁ ≡ m.version
      → IsRun db₁ db₂ rest
      → (m.version, m.name) ∷ rest ≡ applied
      → IsRun db db₂ applied
  longer m db db₁ db₂ rest applied next v (consecutive, total) e = rw (← e) (
    (omega (arith, next), subst (λ n. IsConsecutive n rest) v consecutive),
    omega (arith, next, v, total),
  )

  apply_pending-IsRun :
      (ms : List Migration) (db : Store Tables) (applied : List (ℕ × String))
      → All KeepsVersion ms
      → (apply_pending show clock execute_batch ms db).0 ≡ ok applied
      → IsRun db (apply_pending show clock execute_batch ms db).1 applied
  unfolding apply_pending
  apply_pending-IsRun [] db applied keeps h =
      let e : [] ≡ applied = unfold ◌>>=◌ in ground arith in
      unfold ◌>>=◌ in rw (← e) (tt, omega arith)
  apply_pending-IsRun (m ∷ ms) db applied (keep, keeps) h =
      elim (Bool-cases (leb m.version (version_of db))) [
        | inl old ↦ rw old (apply_pending-IsRun ms db applied keeps (rw old at h))
        | inr new ↦ elim (Bool-cases (m.version == version_of db + 1)) [
          | inr gap ↦ (let k = rw gap at (rw new at h) in cc)
          | inl next ↦
              (let (rest, e, one, later, run) = pending_step m ms db applied new next h in
                let ih = apply_pending-IsRun ms (after_one m db) rest keeps later in
                let is_next : m.version ≡ version_of db + 1 = ground (arith, next) in
                let v = apply_one_version m db keep is_next one in
                subst (λ d. IsRun db d applied) (sym run)
                  (longer m db (after_one m db)
                    ((apply_pending show clock execute_batch ms (after_one m db)).1) rest applied
                    is_next v ih e))
        ]
      ]

  -- A run of the migrations that succeeds has applied versions that count up by one from the version
  -- the database had, and the version it reports is the one the database has after it, which is
  -- higher by their number. The SQL of the given migrations does not touch the recorded versions.
  pub migrate-IsConsecutive :
      (ms : List Migration) (db : Store Tables) (o : MigrationOutcome)
      → All KeepsVersion ms
      → (migrate show clock execute_batch ms db).0 ≡ ok o
      → IsConsecutive (version_of db) o.applied
        × (o.current ≡ version_of db + length o.applied)
        × (version_of (migrate show clock execute_batch ms db).1 ≡ o.current)
  unfolding migrate
  migrate-IsConsecutive ms db o keeps h =
      let sorted = order_by (λ a b. leb a.version b.version) ms in
      elim (Option-cases (duplicate sorted)) [
        | inr (v, twice) ↦ (let k = rw (twice, migrate) at h in unfold ◌>>=◌ in cc)
        | inl distinct ↦
            (let k = rw (distinct, migrate) at h in
              let (applied, done, k₁) =
                bind_ok (apply_pending show clock execute_batch sorted) _ db k in
              let db₁ = (apply_pending show clock execute_batch sorted db).1 in
              let (consecutive, total) =
                apply_pending-IsRun sorted db applied (All-order_by _ KeepsVersion ms keeps) done in
              let out : MigrationOutcome = record { applied = applied; current = version_of db₁ } in
              let e : out ≡ o = unfold ◌>>=◌ in ground arith in
              rw (← e) (consecutive, total, unfold ◌>>=◌ in rw (distinct, migrate) (rw done refl)))
      ]
