-- ===== src/Vault/Laws.antt =====
-- The vault's promise: what a write never touches.
use morpho_research_os.Prelude.{
  ℕ, suc, String, Bool, false, ◌≡◌, refl, ◌∙◌, inl, inr, Option, none, some, List, [], str_eq,
  lookup, lookup-insert, lookup-remove, insert, remove, Bool-cases,
}
use morpho_research_os.Errors.{CoreError, Result, ok, err}
use morpho_research_os.Keeps.{
  Keeps, IsPreorder, Keeps-pure, Keeps-gets, Keeps-lift, Keeps-bind, Keeps-if, Keeps-option,
}
use morpho_research_os.Vault.{
  ArtifactState, Disk, Outside, attempt, put, move_file, temporary, replace_file, clean_up,
  create_parent, atomic_write, read, recorded, record_artifact, failed_on,
}
use morpho_research_os.Vault.Hash.{content_hash, as_bytes}
use morpho_research_os.Vault.Writer.{exists, write_and_record, judge, rewrite, write_rendered}

-- The file has the same bytes, or is missing in both.
abbrev SameFile : String → Disk → Disk → Type 0
SameFile q d d' = lookup q d'.files ≡ lookup q d.files

SameFile-preorder : (q : String) → IsPreorder (SameFile q)
SameFile-preorder q = record { R_refl = λ _. refl; R_trans = λ _ _ _ h k. k ∙ h }

module _ ⦃out : Outside⦄ where
  open out use {trouble, parent, file_name}

  pub attempt_at :
      (R : Disk → Disk → Type 0) (fail : String → CoreError) (effect : Disk → Disk) (d : Disk)
      → R d (record d { turns = suc d.turns })
      → R d (effect (record d { turns = suc d.turns }))
      → R d (attempt fail effect d).1
  unfolding attempt
  attempt_at R fail effect d h k =
      let tried = record d { turns = suc d.turns } in
      let after : Option String → Result (Unit {0}) × Disk =
        λ t. elim t [ some message ↦ (err (fail message), tried) | none ↦ (ok tt, effect tried) ] in
      elim (trouble d.turns) as (λ t. R d (after t).1) [ some message ↦ h | none ↦ k ]

  module _ (q : String) where
    Keeps-attempt :
        (fail : String → CoreError) (effect : Disk → Disk)
        → ((d : Disk) → SameFile q d (effect d))
        → Keeps (SameFile q) (attempt fail effect)
    Keeps-attempt fail effect h = record {
      at = λ d. attempt_at (SameFile q) fail effect d refl (h (record d { turns = suc d.turns }));
    }

    put_other :
        (p : String) (bytes : List ℕ) (d : Disk) → str_eq p q ≡ false → SameFile q d (put p bytes d)
    put_other p bytes d h = lookup-insert p q bytes d.files ∙ rw h refl

    remove_other :
        (p : String) (d : Disk)
        → str_eq p q ≡ false
        → SameFile q d (record d { files = remove p d.files })
    remove_other p d h = lookup-remove p q d.files ∙ rw h refl

    move_other :
        (from to : String) (d : Disk)
        → str_eq from q ≡ false
        → str_eq to q ≡ false
        → SameFile q d (move_file from to d)
    move_other from to d h k =
        elim (lookup from d.files)
          as (λ o. SameFile q d (elim o as (λ _. Disk) [
            | none ↦ d
            | some bytes ↦ record d { files = insert to bytes (remove from d.files) }
          ])) [
            | none ↦ refl
            | some bytes ↦
                lookup-insert to q bytes (remove from d.files) ∙ rw k (remove_other from d h)
          ]

    Keeps-replace_file :
        (path tmp : String) (bytes : List ℕ)
        → str_eq tmp q ≡ false
        → str_eq path q ≡ false
        → Keeps (SameFile q) (replace_file path tmp bytes)
    unfolding replace_file
    Keeps-replace_file path tmp bytes h k =
        let pre = SameFile-preorder q in
        let fail = failed_on "atomic write" path in
        Keeps-bind pre _ _ (Keeps-attempt fail (put tmp []) (λ d. put_other tmp [] d h)) (λ _.
          Keeps-bind pre _ _ (Keeps-attempt fail (put tmp bytes) (λ d. put_other tmp bytes d h))
            (λ _.
              Keeps-bind pre _ _ (Keeps-attempt fail (λ d. d) (λ _. refl))
                (λ _. Keeps-attempt fail (move_file tmp path) (λ d. move_other tmp path d h k))))

    clean_up_other :
        (tmp : String) (d : Disk) (r : Result (Unit {0}) × Disk)
        → str_eq tmp q ≡ false
        → SameFile q d r.1
        → SameFile q d (clean_up tmp r).1
    clean_up_other tmp d (ok u, t) h k = k
    clean_up_other tmp d (err e, t) h k =
        (Keeps-attempt _ (λ t. record t { files = remove tmp t.files })
            (λ t. remove_other tmp t h)).at
          t
        ∙ k

    Keeps-create_parent : (path : String) → Keeps (SameFile q) (create_parent path)
    unfolding create_parent
    Keeps-create_parent path =
        Keeps-option (parent path) _ _ (Keeps-pure (SameFile-preorder q) tt)
          (λ dir. Keeps-attempt (failed_on "create" dir) (λ d. d) (λ _. refl))

    -- The atomic write touches its target and the temporary file, and no other.
    Keeps-atomic_write :
        (path : String) (bytes : List ℕ)
        → ((name : String) → str_eq (temporary path name) q ≡ false)
        → str_eq path q ≡ false
        → Keeps (SameFile q) (atomic_write path bytes)
    unfolding atomic_write
    Keeps-atomic_write path bytes h k =
        let pre = SameFile-preorder q in
        Keeps-bind pre _ _ (Keeps-create_parent path) (λ _.
          Keeps-bind pre _ _ (Keeps-lift pre _) (λ name. record {
            at = λ d.
                clean_up_other (temporary path name) d _ (h name)
                  ((Keeps-replace_file path (temporary path name) bytes (h name) k).at d);
          }))

    Keeps-read : (path : String) → Keeps (SameFile q) (read path)
    unfolding read
    Keeps-read path =
        let pre = SameFile-preorder q in
        Keeps-bind pre _ _ (Keeps-attempt _ (λ d. d) (λ _. refl))
          (λ _. Keeps-bind pre _ _ (Keeps-gets pre _) (λ found. Keeps-lift pre _))

    Keeps-recorded : (path : String) → Keeps (SameFile q) (recorded path)
    unfolding recorded
    Keeps-recorded path =
        let pre = SameFile-preorder q in
        Keeps-bind pre _ _ (Keeps-attempt _ (λ d. d) (λ _. refl)) (λ _. Keeps-gets pre _)

    Keeps-record_artifact :
        (node_id : Option String) (path hash : String) (size : ℕ) (user : Bool)
        → Keeps (SameFile q) (record_artifact node_id path hash size user)
    unfolding record_artifact
    Keeps-record_artifact node_id path hash size user = Keeps-attempt _ _ (λ _. refl)

    Keeps-write_and_record :
        (node_id : Option String) (path rendered : String)
        → ((name : String) → str_eq (temporary path name) q ≡ false)
        → str_eq path q ≡ false
        → Keeps (SameFile q) (write_and_record node_id path rendered)
    unfolding write_and_record
    Keeps-write_and_record node_id path rendered h k =
        let pre = SameFile-preorder q in
        Keeps-bind pre _ _ (Keeps-atomic_write path (as_bytes rendered) h k) (λ _.
          Keeps-bind pre _ _ (Keeps-record_artifact node_id path _ _ false) (λ _. Keeps-pure pre _))

    Keeps-judge :
        (node_id : Option String) (path rendered current : String) (state : Option ArtifactState)
        → ((name : String) → str_eq (temporary path name) q ≡ false)
        → str_eq path q ≡ false
        → Keeps (SameFile q) (judge node_id path rendered current state)
    unfolding judge
    Keeps-judge node_id path rendered current none h k = Keeps-pure (SameFile-preorder q) _
    Keeps-judge node_id path rendered current (some state) h k =
        search (SameFile-preorder, Keeps-if, Keeps-pure, Keeps-write_and_record) depth 10

    -- Writing a note touches no file but its own and its temporary one, whatever fails on the way.
    pub write_rendered-SameFile :
        (node_id : Option String) (path rendered : String) (d : Disk)
        → ((name : String) → str_eq (temporary path name) q ≡ false)
        → str_eq path q ≡ false
        → lookup q (write_rendered node_id path rendered d).1.files ≡ lookup q d.files
    unfolding write_rendered rewrite
    write_rendered-SameFile node_id path rendered d h k =
        let pre = SameFile-preorder q in
        let replaced = Keeps-bind pre _ _ (Keeps-read path) (λ current.
          Keeps-bind pre _ _ (Keeps-recorded path)
            (λ state. Keeps-judge node_id path rendered (content_hash current) state h k)) in
        elim (Bool-cases (exists path d)) [
          | inl e ↦ rw e (replaced.at d)
          | inr e ↦ rw e ((Keeps-write_and_record node_id path rendered h k).at d)
        ]
