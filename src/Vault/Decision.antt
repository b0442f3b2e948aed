-- ===== src/Vault/Decision.antt =====
-- A conflict that the user settled by keeping the file stays settled.
use mathlib.Core.Option.{some-injective}
use morpho_research_os.Prelude.{
  ℕ, List, [], ◌∷◌, String, false, some, true, ◌≡◌, sym, ap, ◌∙◌, inr, Option, length, lookup,
  insert,
}
use morpho_research_os.Errors.{ok, database, bind_ok_at}
use morpho_research_os.Vault.{Artifact, Disk, Outside, attempt, read, record_artifact}
use morpho_research_os.Vault.Hash.{content_hash}
use morpho_research_os.Vault.Stored.{attempt_ok, lookup-insert_same, pure_state}
use morpho_research_os.Vault.Protection.{
  SameDisk, SameDisk-preorder, IsUsers, read_ok, read-SameDisk, write_rendered-protects,
}
use morpho_research_os.Vault.Writer.{
  WriteOutcome, MergeProposal, user_owned_node_id, keep_user, resolve, write_rendered,
}

module _ ⦃out : Outside⦄ where
  open out use {hidden}

  -- Notes, each with its node, are written to the path one after another, with any outcomes.
  abbrev pub write_notes : String → List (Option String × String) → Disk → Disk
  write_notes path [] d = d
  write_notes path ((node_id, rendered) ∷ notes) d =
      write_notes path notes (write_rendered node_id path rendered d).1

  write_notes-SameDisk :
      (path : String) (current : List ℕ) (notes : List (Option String × String)) (d : Disk)
      → ((n : ℕ) → hidden n path ≡ false)
      → lookup path d.files ≡ some current
      → IsUsers path current d
      → SameDisk d (write_notes path notes d)
  write_notes-SameDisk path current [] d seen there users = SameDisk-preorder.R_refl d
  write_notes-SameDisk path current ((node_id, rendered) ∷ notes) d seen there users =
      let d₁ = (write_rendered node_id path rendered d).1 in
      let same =
        write_rendered-protects node_id path rendered current d there users (seen d.turns) in
      SameDisk-preorder.R_trans d d₁ _ same (
        write_notes-SameDisk path current notes d₁ seen (ap (lookup path) same.files ∙ there)
          (λ a found. users a (ap (lookup path) (sym same.index) ∙ found)))

  -- When a conflict was resolved for the user, nothing has changed in the files, and however many notes
  -- are then written to the path, one after another, they change no file and no record, whatever fails
  -- on the way but reading the metadata of the path.
  pub resolve-protects :
      (p : MergeProposal) (notes : List (Option String × String)) (d : Disk) {w : WriteOutcome}
      → ((n : ℕ) → hidden n p.path ≡ false)
      → (resolve p keep_user d).0 ≡ ok w
      → ((resolve p keep_user d).1.files ≡ d.files)
        × SameDisk (resolve p keep_user d).1 (write_notes p.path notes (resolve p keep_user d).1)
  unfolding resolve record_artifact
  resolve-protects p notes d seen h =
      let (current, got, e₁) = bind_ok_at (read p.path) _ d h in
      let d₁ = (read p.path d).1 in
      let h₁ = ap (λ r. r.0) (sym e₁) ∙ h in
      let entry : Artifact = record {
        node_id = user_owned_node_id p;
        state = record { content_hash = content_hash current; user_authored = true };
        byte_size = length current;
      } in
      let enter : Disk → Disk = λ t. record t { index = insert p.path entry t.index } in
      let (_, noted, e₂) = bind_ok_at (attempt database enter) _ d₁ h₁ in
      let final = ap (λ r. r.1) (e₁ ∙ e₂) ∙ pure_state _ _ ∙ attempt_ok database enter d₁ noted in
      let files = ap (λ t. t.files) final ∙ ((read-SameDisk p.path).at d).files in
      let listed =
        ap (λ t. lookup p.path t.index) final ∙ lookup-insert_same p.path entry d₁.index in
      let there = ap (lookup p.path) files ∙ read_ok p.path d got in
      (
        files,
        write_notes-SameDisk p.path current notes _ seen there (λ a found.
            inr (ap (λ x. x.state.user_authored) (some-injective a entry (sym found ∙ listed)))),
      )
