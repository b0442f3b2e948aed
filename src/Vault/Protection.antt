-- ===== src/Vault/Protection.antt =====
-- What the user wrote is never replaced without being asked.
use mathlib.Core.Option.{some-injective}
use morpho_research_os.Prelude.{
  ℕ, String, Bool, true, false, not, ◌≡◌, refl, sym, ap, ◌∙◌, ◌⊎◌, inl, inr, Option, none, some,
  List, str_eq, if◌then◌else◌, lookup,
}
use morpho_research_os.Errors.{
  CoreError, ok, pure, ◌>>=◌, bind_ok, gets_bind_ok, lift_ok, gets_ok, ok_or_ok, database,
}
use morpho_research_os.Keeps.{Keeps, IsPreorder, Keeps-bind, Keeps-gets, Keeps-lift, bind_at}
use morpho_research_os.Vault.{
  ArtifactState, Artifact, Disk, Outside, attempt, read, recorded, failed_on,
}
use morpho_research_os.Vault.Hash.{content_hash, as_bytes}
use morpho_research_os.Vault.Laws.{attempt_at}
use morpho_research_os.Vault.Writer.{exists, judge, rewrite, write_rendered}

-- The bytes at the path are the user's: nothing is recorded of the file, or other bytes, or that the
-- user decided to keep them.
abbrev pub IsUsers : String → List ℕ → Disk → Type 0
IsUsers path current d =
    (a : Artifact)
    → lookup path d.index ≡ some a
    → (str_eq a.state.content_hash (content_hash current) ≡ false) ⊎ (a.state.user_authored ≡ true)

-- Neither a file nor the index has changed.
pub record SameDisk (d d' : Disk) : Type 0 where
  pub files : d'.files ≡ d.files
  pub index : d'.index ≡ d.index

pub SameDisk-preorder : IsPreorder SameDisk
SameDisk-preorder = record {
  R_refl = λ _. record { files = refl; index = refl };
  R_trans = λ _ _ _ a b. record { files = b.files ∙ a.files; index = b.index ∙ a.index };
}

module _ ⦃out : Outside⦄ where
  open out use {hidden}

  Keeps-looking : (fail : String → CoreError) → Keeps SameDisk (attempt fail (λ d. d))
  Keeps-looking fail = record {
    at = λ d.
        attempt_at SameDisk fail (λ t. t) d (record { files = refl; index = refl })
          (record { files = refl; index = refl });
  }

  pub read-SameDisk : (path : String) → Keeps SameDisk (read path)
  unfolding read
  read-SameDisk path = Keeps-bind SameDisk-preorder _ _ (Keeps-looking _) (λ _.
      Keeps-bind SameDisk-preorder _ _ (Keeps-gets SameDisk-preorder _)
        (λ found. Keeps-lift SameDisk-preorder _))

  recorded-SameDisk : (path : String) → Keeps SameDisk (recorded path)
  unfolding recorded
  recorded-SameDisk path =
      Keeps-bind SameDisk-preorder _ _ (Keeps-looking _) (λ _. Keeps-gets SameDisk-preorder _)

  abbrev state_of : Option Artifact → Option ArtifactState
  state_of none = none
  state_of (some a) = some a.state

  pub read_ok :
      (path : String) (d : Disk) {bytes : List ℕ}
      → (read path d).0 ≡ ok bytes
      → lookup path d.files ≡ some bytes
  unfolding read
  read_ok path d h =
      let looked = attempt (failed_on "read" path) (λ t. t) in
      let d₁ = (looked d).1 in
      let (_, _, h₁) = bind_ok looked _ d h in
      let h₂ = gets_bind_ok (λ t. lookup path t.files) _ d₁ h₁ in
      let found =
        ok_or_ok (lookup path d₁.files) (failed_on "read" path "no such file") (lift_ok _ d₁ h₂) in
      ap (lookup path) (sym ((Keeps-looking (failed_on "read" path)).at d).files) ∙ found

  recorded_ok :
      (path : String) (d : Disk) {state : Option ArtifactState}
      → (recorded path d).0 ≡ ok state
      → state ≡ state_of (lookup path d.index)
  unfolding recorded
  recorded_ok path d h =
      let looked = attempt database (λ t. t) in
      let d₁ = (looked d).1 in
      let (_, _, h₁) = bind_ok looked _ d h in
      let answer : Disk → Option ArtifactState =
        λ t. elim (lookup path t.index) [ none ↦ none | some a ↦ some a.state ] in
      let same = ((Keeps-looking database).at d).index in
      sym (gets_ok answer d₁ h₁) ∙ ap (λ m. state_of (lookup path m)) same

  -- A file that is there and whose metadata can be read is seen.
  pub exists_there :
      (path : String) (d : Disk) {bytes : List ℕ}
      → lookup path d.files ≡ some bytes
      → hidden d.turns path ≡ false
      → exists path d ≡ true
  unfolding exists
  exists_there path d h seen = rw (seen, h) refl

  pure_same : {A : Type 0} (a : A) (d : Disk) → SameDisk d (pure a d).1
  unfolding ◌>>=◌
  pure_same a d = SameDisk-preorder.R_refl d

  kept_users :
      {A : Type 0} (b c : Bool) (x y z : A) (d : Disk)
      → SameDisk d ((if b then pure x else if c then pure y else pure z) d).1
  kept_users true c x y z d = pure_same x d
  kept_users false true x y z d = pure_same y d
  kept_users false false x y z d = pure_same z d

  judge_users :
      (node_id : Option String) (path rendered : String) (current : List ℕ) (o : Option Artifact)
      (d : Disk)
      → ((a : Artifact)
          → o ≡ some a
          → (str_eq a.state.content_hash (content_hash current) ≡ false)
            ⊎ (a.state.user_authored ≡ true))
      → SameDisk d (judge node_id path rendered (content_hash current) (state_of o) d).1
  unfolding judge
  judge_users node_id path rendered current none d h = pure_same _ d
  judge_users node_id path rendered current (some a) d h =
      let changed = not (str_eq a.state.content_hash (content_hash current)) in
      let equal = str_eq (content_hash current) (content_hash (as_bytes rendered)) in
      elim (h a refl) [
        | inl other ↦ rw other (pure_same _ d)
        | inr user ↦ rw user (kept_users changed equal _ _ _ d)
      ]

  -- A file whose bytes are the user's (nothing is recorded of it, or other bytes, or that the user
  -- decided to keep them) is left alone when its metadata can be read: writing a note to its path
  -- changes no file and no record, whatever the note says and whatever else fails on the way.
  pub write_rendered-protects :
      (node_id : Option String) (path rendered : String) (current : List ℕ) (d : Disk)
      → lookup path d.files ≡ some current
      → IsUsers path current d
      → hidden d.turns path ≡ false
      → SameDisk d (write_rendered node_id path rendered d).1
  unfolding write_rendered rewrite
  write_rendered-protects node_id path rendered current d h k seen =
      let read_at = (read-SameDisk path).at d in
      let d₁ = (read path d).1 in
      let recorded_at = (recorded-SameDisk path).at d₁ in
      let judged = λ (bytes : List ℕ) (state : Option ArtifactState).
        judge node_id path rendered (content_hash bytes) state in
      rw (exists_there path d h seen) (
        bind_at SameDisk-preorder (read path) _ d read_at (λ bytes got.
          bind_at SameDisk-preorder (recorded path) (judged bytes) d₁ recorded_at (λ state found.
            let same : bytes ≡ current =
              some-injective bytes current (sym (read_ok path d got) ∙ h) in
            let stored : state ≡ state_of (lookup path d.index) =
              recorded_ok path d₁ found ∙ ap (λ m. state_of (lookup path m)) read_at.index in
            rw (same, stored)
              (judge_users node_id path rendered current (lookup path d.index) (recorded path d₁).1
                k))))
