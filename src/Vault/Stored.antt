-- ===== src/Vault/Stored.antt =====
-- A note that was written is on disk and on record.
use mathlib.Core.Path.{subst}
use morpho_research_os.Prelude.{
  ℕ, suc, String, Bool, true, false, ◌≡◌, refl, sym, ap, ◌∙◌, Option, none, some, List, [], ◌∷◌,
  if◌then◌else◌, lookup, lookup-insert, insert, remove, arith, eq_iff, length, format,
}
use morpho_research_os.Errors.{
  CoreError, Result, ok, err, Action, pure, lift, ok_or, ◌>>=◌, bind_ok_at, database,
}
use morpho_research_os.Vault.{
  ArtifactState, Artifact, Disk, Outside, attempt, read, recorded, failed_on, put, move_file,
  replace_file, clean_up, temporary, atomic_write, create_parent, record_artifact, vault_error,
}
use morpho_research_os.Vault.Hash.{content_hash, as_bytes}
use morpho_research_os.Vault.Writer.{
  WriteOutcome, written, unchanged, conflicting, exists, judge, rewrite, write_rendered,
  write_and_record, MergeProposal,
}

module _ ⦃out : Outside⦄ where
  open out use {trouble, file_name}

  -- An operation that succeeds has its effect.
  pub attempt_ok :
      (fail : String → CoreError) (effect : Disk → Disk) (d : Disk) {u : Unit {0}}
      → (attempt fail effect d).0 ≡ ok u
      → (attempt fail effect d).1 ≡ effect (record d { turns = suc d.turns })
  unfolding attempt
  attempt_ok fail effect d {u} h =
      let tried = record d { turns = suc d.turns } in
      let after : Option String → Result (Unit {0}) × Disk =
        λ t. elim t [ some message ↦ (err (fail message), tried) | none ↦ (ok tt, effect tried) ] in
      (elim (trouble d.turns) as (λ t. (after t).0 ≡ ok u → (after t).1 ≡ effect tried) [
        | some message ↦ λ k. cc
        | none ↦ λ k. refl
      ])
        h

  pub lookup-insert_same :
      {A : Type 0} (k : String) (v : A) (m : List (String × A)) → lookup k (insert k v m) ≡ some v
  lookup-insert_same k v m = ground (arith, lookup-insert k k v m, eq_iff k k)

  moved :
      (from to : String) (bytes : List ℕ) (d : Disk)
      → lookup from d.files ≡ some bytes
      → lookup to (move_file from to d).files ≡ some bytes
  moved from to bytes d h =
      let moving : Option (List ℕ) → Disk = λ o. elim o [
        | none ↦ d
        | some content ↦ record d { files = insert to content (remove from d.files) }
      ] in
      ap (λ o. lookup to (moving o).files) h ∙ lookup-insert_same to bytes (remove from d.files)

  replaced :
      (path tmp : String) (bytes : List ℕ) (d : Disk) {u : Unit {0}}
      → (replace_file path tmp bytes d).0 ≡ ok u
      → lookup path (replace_file path tmp bytes d).1.files ≡ some bytes
  unfolding replace_file
  replaced path tmp bytes d h =
      let fail = failed_on "atomic write" path in
      let (_, _, e₁) = bind_ok_at (attempt fail (put tmp [])) _ d h in
      let d₁ = (attempt fail (put tmp []) d).1 in
      let h₁ = ap (λ r. r.0) (sym e₁) ∙ h in
      let (_, done, e₂) = bind_ok_at (attempt fail (put tmp bytes)) _ d₁ h₁ in
      let d₂ = (attempt fail (put tmp bytes) d₁).1 in
      let h₂ = ap (λ r. r.0) (sym e₂) ∙ h₁ in
      let (_, synced, e₃) = bind_ok_at (attempt fail (λ t. t)) _ d₂ h₂ in
      let d₃ = (attempt fail (λ t. t) d₂).1 in
      let h₃ = ap (λ r. r.0) (sym e₃) ∙ h₂ in
      let filled : lookup tmp d₂.files ≡ some bytes =
        ap (λ t. lookup tmp t.files) (attempt_ok fail (put tmp bytes) d₁ done)
        ∙ lookup-insert_same tmp bytes d₁.files in
      let kept : lookup tmp d₃.files ≡ some bytes =
        ap (λ t. lookup tmp t.files) (attempt_ok fail (λ t. t) d₂ synced) ∙ filled in
      let last = attempt_ok fail (move_file tmp path) d₃ h₃ in
      ap (λ r. lookup path r.1.files) (e₁ ∙ e₂ ∙ e₃)
      ∙ ap (λ t. lookup path t.files) last
      ∙ moved tmp path bytes (record d₃ { turns = suc d₃.turns }) kept

  clean_up_ok :
      (tmp : String) (r : Result (Unit {0}) × Disk) {u : Unit {0}}
      → (clean_up tmp r).0 ≡ ok u
      → (r.0 ≡ ok tt) × ((clean_up tmp r).1 ≡ r.1)
  clean_up_ok tmp (ok _, d) h = (refl, refl)
  clean_up_ok tmp (err e, d) h = cc

  stored_file :
      (path : String) (bytes : List ℕ) (d : Disk) {u : Unit {0}}
      → (atomic_write path bytes d).0 ≡ ok u
      → lookup path (atomic_write path bytes d).1.files ≡ some bytes
  unfolding atomic_write
  stored_file path bytes d h =
      let (_, _, e₁) = bind_ok_at (create_parent path) _ d h in
      let d₁ = (create_parent path d).1 in
      let h₁ = ap (λ r. r.0) (sym e₁) ∙ h in
      let named : Result String =
        ok_or (file_name path) (vault_error (format ("invalid file name: " ∷ path ∷ []))) in
      let (name, _, e₂) = bind_ok_at (lift named) _ d₁ h₁ in
      let h₂ = ap (λ r. r.0) (sym e₂) ∙ h₁ in
      let (done, same) = clean_up_ok (temporary path name) _ h₂ in
      ap (λ r. lookup path r.1.files) (e₁ ∙ e₂)
      ∙ ap (λ t. lookup path t.files) same
      ∙ replaced path (temporary path name) bytes _ done

  -- The note's bytes are in its file, and on record as the core's own.
  abbrev pub IsStored : String → List ℕ → Disk → Type 0
  IsStored path bytes d =
      (lookup path d.files ≡ some bytes)
      × ((a : Artifact) × (lookup path d.index ≡ some a)
          × (a.state ≡ record { content_hash = content_hash bytes; user_authored = false }))

  pub pure_state : {A : Type 0} (a : A) (d : Disk) → (pure a d).1 ≡ d
  unfolding ◌>>=◌
  pure_state a d = refl

  write_and_record-IsStored :
      (node_id : Option String) (path rendered : String) (d : Disk) {w : WriteOutcome}
      → (write_and_record node_id path rendered d).0 ≡ ok w
      → IsStored path (as_bytes rendered) (write_and_record node_id path rendered d).1
  unfolding write_and_record record_artifact
  write_and_record-IsStored node_id path rendered d h =
      let bytes = as_bytes rendered in
      let (_, stored, e₁) = bind_ok_at (atomic_write path bytes) _ d h in
      let d₁ = (atomic_write path bytes d).1 in
      let h₁ = ap (λ r. r.0) (sym e₁) ∙ h in
      let entry : Artifact = record {
        node_id = node_id;
        state = record { content_hash = content_hash bytes; user_authored = false };
        byte_size = length bytes;
      } in
      let enter : Disk → Disk = λ t. record t { index = insert path entry t.index } in
      let (_, noted, e₂) = bind_ok_at (attempt database enter) _ d₁ h₁ in
      let last = attempt_ok database enter d₁ noted in
      let whole = ap (λ r. r.1) (e₁ ∙ e₂) in
      let final = whole ∙ pure_state _ _ ∙ last in
      (
        ap (λ t. lookup path t.files) final ∙ stored_file path bytes d stored,
        (entry, ap (λ t. lookup path t.index) final ∙ lookup-insert_same path entry d₁.index, refl),
      )

  -- A run that reports a written note leaves it stored.
  pub record Stores (path rendered : String) (m : Action Disk WriteOutcome) : Type 0 where
    pub at :
        (d : Disk) (p hash : String)
        → (m d).0 ≡ ok (written p hash)
        → IsStored path (as_bytes rendered) (m d).1

  Stores-if :
      (path rendered : String) (b : Bool) (m n : Action Disk WriteOutcome)
      → Stores path rendered m
      → Stores path rendered n
      → Stores path rendered (if b then m else n)
  Stores-if path rendered true m n h k = h
  Stores-if path rendered false m n h k = k

  Stores-unchanged : (path rendered p : String) → Stores path rendered (pure (unchanged p))
  unfolding ◌>>=◌
  Stores-unchanged path rendered p = record { at = λ _ _ _ h. cc }

  Stores-conflict :
      (path rendered : String) (p : MergeProposal) → Stores path rendered (pure (conflicting p))
  unfolding ◌>>=◌
  Stores-conflict path rendered p = record { at = λ _ _ _ h. cc }

  Stores-write_and_record :
      (node_id : Option String) (path rendered : String)
      → Stores path rendered (write_and_record node_id path rendered)
  Stores-write_and_record node_id path rendered = record {
    at = λ d _ _ h. write_and_record-IsStored node_id path rendered d h;
  }

  judge-Stores :
      (node_id : Option String) (path rendered current : String) (state : Option ArtifactState)
      → Stores path rendered (judge node_id path rendered current state)
  unfolding judge
  judge-Stores node_id path rendered current none = Stores-conflict path rendered _
  judge-Stores node_id path rendered current (some state) =
      search (Stores-if, Stores-conflict, Stores-unchanged, Stores-write_and_record) depth 10

  rewrite-Stores :
      (node_id : Option String) (path rendered : String)
      → Stores path rendered (rewrite node_id path rendered)
  unfolding rewrite
  rewrite-Stores node_id path rendered = record {
    at = λ d p hash h.
        let judged = λ (bytes : List ℕ) (state : Option ArtifactState).
          judge node_id path rendered (content_hash bytes) state in
        let (bytes, _, e₁) = bind_ok_at (read path) _ d h in
        let d₁ = (read path d).1 in
        let h₁ = ap (λ r. r.0) (sym e₁) ∙ h in
        let (state, _, e₂) = bind_ok_at (recorded path) (judged bytes) d₁ h₁ in
        subst (λ r. IsStored path (as_bytes rendered) r.1) (sym (e₁ ∙ e₂))
          ((judge-Stores node_id path rendered (content_hash bytes) state).at (recorded path d₁).1 p
            hash (ap (λ r. r.0) (sym e₂) ∙ h₁));
  }

  pub write_rendered-Stores :
      (node_id : Option String) (path rendered : String)
      → Stores path rendered (write_rendered node_id path rendered)
  unfolding write_rendered
  write_rendered-Stores node_id path rendered = record { at = λ d. go d (exists path d) }
    where
      go :
          (d : Disk) (b : Bool) (p hash : String)
          → (if b
              then rewrite node_id path rendered d
              else write_and_record node_id path rendered d).0
            ≡ ok (written p hash)
          → IsStored path
              (as_bytes rendered)
              (if b
                then rewrite node_id path rendered d
                else write_and_record node_id path rendered d).1
      go d true p hash h = (rewrite-Stores node_id path rendered).at d p hash h
      go d false p hash h = write_and_record-IsStored node_id path rendered d h
