-- ===== src/Ingestion/Laws/Files.antt =====
-- What renaming, publishing and replacing a file of the cache leave, where they succeed.
use mathlib.Core.Option.{some-injective}
use text.Mathlib.TextPositions.{eq_refl}
use morpho_research_os.Prelude.{
  ℕ, suc, String, Bool, true, false, ◌≡◌, refl, sym, ap, ◌∙◌, List, [], ◌∷◌, Option, none, some,
  lookup, remove, lookup-insert, lookup-remove, arith, ◌⊎◌, inl, inr, format,
}
use morpho_research_os.Errors.{
  CoreError, Result, ok, err, Action, pure, raise, bind_ok_at, ◌>>=◌, ◌>>◌,
}
use morpho_research_os.Env.{Env}
use morpho_research_os.Repositories.Domain.{new_id, is_there}
use morpho_research_os.Ingestion.State.{Batch, Outside, on_rows, attempt, ignoring}
use morpho_research_os.Ingestion.Cache.{
  put, move_file, rename, publish, clean_up, replace_file, failed_on, sanitize,
}

module _ ⦃env : Env⦄ ⦃out : Outside⦄ where
  open out use {trouble, join, sha256}

  attempt_ok :
      (fail : String → CoreError) (effect : List (String × List ℕ) → List (String × List ℕ))
      (s : Batch) {u : Unit {0}}
      → (attempt fail effect s).0 ≡ ok u
      → (attempt fail effect s).1.files ≡ effect s.files
  unfolding attempt
  attempt_ok fail effect s = go (trouble s.turns)
    where
      tried : Option String → Result (Unit {0}) × Batch
      tried o = elim o as (λ _. Result (Unit {0}) × Batch) [
        | some message ↦ (err (fail message), record s { turns = suc s.turns })
        | none ↦ (ok tt, record s { turns = suc s.turns; files = effect s.files })
      ]

      go :
          (o : Option String) {u : Unit {0}}
          → (tried o).0 ≡ ok u
          → (tried o).1.files ≡ effect s.files
      go none h = refl
      go (some message) h = cc

  attempt_files :
      (fail : String → CoreError) (effect : List (String × List ℕ) → List (String × List ℕ))
      (s : Batch)
      → ((attempt fail effect s).1.files ≡ s.files)
        ⊎ ((attempt fail effect s).1.files ≡ effect s.files)
  unfolding attempt
  attempt_files fail effect s = go (trouble s.turns)
    where
      tried : Option String → Batch
      tried o =
          (elim o as (λ _. Result (Unit {0}) × Batch) [
            | some message ↦ (err (fail message), record s { turns = suc s.turns })
            | none ↦ (ok tt, record s { turns = suc s.turns; files = effect s.files })
          ]).1

      go : (o : Option String) → ((tried o).files ≡ s.files) ⊎ ((tried o).files ≡ effect s.files)
      go none = inr refl
      go (some message) = inl refl

  -- A rename that succeeds moves what was there.
  rename_ok :
      (tmp path : String) (s : Batch) {u : Unit {0}}
      → (rename tmp path s).0 ≡ ok u
      → (bytes : List ℕ) × (lookup tmp s.files ≡ some bytes)
        × (lookup path (rename tmp path s).1.files ≡ some bytes)
  unfolding rename ◌>>=◌
  rename_ok tmp path s = go (lookup tmp s.files) refl
    where
      renamed : Option (List ℕ) → Result (Unit {0}) × Batch
      renamed o =
          (elim (is_there o) as (λ _. Action Batch (Unit {0})) [
            | true ↦ attempt (failed_on "publishing source content to" path) (move_file tmp path)
            | false ↦ raise (failed_on "publishing source content to" path out.missing)
          ])
            s

      moved :
          (bytes : List ℕ)
          → lookup tmp s.files ≡ some bytes
          → lookup path (move_file tmp path s.files) ≡ some bytes
      moved bytes there =
          rw (there, move_file)
            (rw (lookup-insert path path bytes (remove tmp s.files), eq_refl path) refl)

      go :
          (o : Option (List ℕ))
          → lookup tmp s.files ≡ o
          → {u : Unit {0}} → (renamed o).0 ≡ ok u
          → (bytes : List ℕ) × (o ≡ some bytes) × (lookup path (renamed o).1.files ≡ some bytes)
      go none there h = cc
      go (some bytes) there h = (
        bytes,
        refl,
        ap (lookup path) (attempt_ok _ (move_file tmp path) s h) ∙ moved bytes there,
      )

  -- Removing one file leaves no other content under a name.
  lookup_removed :
      (tmp path : String) (files : List (String × List ℕ)) (x : List ℕ)
      → lookup tmp (remove path files) ≡ some x
      → lookup tmp files ≡ some x
  lookup_removed tmp path files x h = ground (arith, lookup-remove path tmp files)

  removed_at :
      (tmp path : String) (s s' : Batch) (x : List ℕ)
      → (s'.files ≡ s.files) ⊎ (s'.files ≡ remove path s.files)
      → lookup tmp s'.files ≡ some x
      → lookup tmp s.files ≡ some x
  removed_at tmp path s s' x (inl same) h = ap (lookup tmp) (sym same) ∙ h
  removed_at tmp path s s' x (inr gone) h =
      lookup_removed tmp path s.files x (ap (lookup tmp) (sym gone) ∙ h)

  -- What was at the temporary path is at the final one after a successful publication.
  publish_ok :
      (tmp path : String) (bytes : List ℕ) (s : Batch) {u : Unit {0}}
      → ((x : List ℕ) → lookup tmp s.files ≡ some x → x ≡ bytes)
      → (publish tmp path s).0 ≡ ok u
      → lookup path (publish tmp path s).1.files ≡ some bytes
  unfolding publish ◌>>=◌
  publish_ok tmp path bytes s written = go (is_there (lookup path s.files))
    where
      at :
          (s' : Batch) {u : Unit {0}}
          → (s'.files ≡ s.files) ⊎ (s'.files ≡ remove path s.files)
          → (rename tmp path s').0 ≡ ok u
          → lookup path (rename tmp path s').1.files ≡ some bytes
      at s' same h =
          let (x, there, moved) = rename_ok tmp path s' h in
          moved ∙ ap some (written x (removed_at tmp path s s' x same there))

      published : Bool → Result (Unit {0}) × Batch
      published b =
          ((elim b as (λ _. Action Batch (Unit {0})) [
            | true ↦ ignoring (attempt (failed_on "removing" path) (remove path))
            | false ↦ pure tt
          ])
              >> rename tmp path)
            s

      go :
          (b : Bool) {u : Unit {0}}
          → (published b).0 ≡ ok u
          → lookup path (published b).1.files ≡ some bytes
      go true h = at _ (attempt_files _ (remove path) s) h
      go false h = at s (inl refl) h

  put_alone :
      (tmp : String) (bytes : List ℕ) (files : List (String × List ℕ)) (x : List ℕ)
      → lookup tmp (put tmp bytes files) ≡ some x
      → x ≡ bytes
  put_alone tmp bytes files x h =
      some-injective x bytes (sym h ∙ rw (lookup-insert tmp tmp bytes files, eq_refl tmp) refl)

  clean_up_ok :
      (tmp : String) (done : Result (Unit {0}) × Batch) {u : Unit {0}}
      → (clean_up tmp done).0 ≡ ok u
      → (done.0 ≡ ok u) × ((clean_up tmp done).1 ≡ done.1)
  clean_up_ok tmp (ok v, s) h = (h, refl)
  clean_up_ok tmp (err e, s) h = cc

  pub replace_file_ok :
      (dir fingerprint path : String) (bytes : List ℕ) (s : Batch) {u : Unit {0}}
      → (replace_file dir fingerprint path bytes s).0 ≡ ok u
      → lookup path (replace_file dir fingerprint path bytes s).1.files ≡ some bytes
  unfolding replace_file
  replace_file_ok dir fingerprint path bytes s h =
      let (id, e1, p1) = bind_ok_at _ _ s h in
      let s1 = (on_rows new_id s).1 in
      let (u, e2, p2) = bind_ok_at _ _ s1 (ap (λ r. r.0) (sym p1) ∙ h) in
      let tmp = join dir (format (".tmp-" ∷ sanitize fingerprint ∷ "-" ∷ id ∷ [])) in
      let s2 = (attempt (failed_on "writing source content to" tmp) (put tmp bytes) s1).1 in
      let (e3, p3) = clean_up_ok tmp (publish tmp path s2) (ap (λ r. r.0) (sym (p1 ∙ p2)) ∙ h) in
      let files = attempt_ok _ (put tmp bytes) s1 e2 in
      ap (λ r. lookup path r.1.files) (p1 ∙ p2)
      ∙ ap (λ t. lookup path t.files) p3
      ∙ publish_ok tmp path bytes s2
          (λ x there. put_alone tmp bytes s1.files x (ap (lookup tmp) (sym files) ∙ there)) e3
