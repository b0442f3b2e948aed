-- ===== src/Ingestion/Laws/Intact.antt =====
-- The content that a successful write leaves in the cache hashes to its name.
use mathlib.Core.Path.{subst}
use morpho_research_os.Prelude.{
  ℕ, String, Bool, true, false, not, ◌≡◌, refl, sym, ap, ◌∙◌, List, Option, none, some, str_eq,
  lookup, length, arith, if◌then◌else◌,
}
use morpho_research_os.Errors.{ok, Action, database, pure, raise, ok-injective, bind_ok_at, ◌>>=◌}
use morpho_research_os.Env.{Env}
use morpho_research_os.Vault.Hash.{as_bytes}
use morpho_research_os.Ingestion.Check.{eq_ignore_ascii_case}
use morpho_research_os.Ingestion.State.{Batch, Outside, attempt, read_file}
use morpho_research_os.Ingestion.Cache.{
  replace_file, store_content, write_content_file, is_intact, failed_on, mismatch, file_name,
}
use morpho_research_os.Ingestion.Laws.Files.{replace_file_ok}

module _ ⦃env : Env⦄ ⦃out : Outside⦄ where
  open out use {trouble, join, sha256}

  -- What was read is there, or nothing was read.
  read_at :
      (path fingerprint : String) (s : Batch) (existing : Option (List ℕ))
      → (read_file path s).0 ≡ ok existing
      → is_intact fingerprint existing ≡ true
      → is_intact fingerprint (lookup path s.files) ≡ true
  unfolding read_file
  read_at path fingerprint s existing h = go (trouble s.turns) h
    where
      none_read : (o : Option (List ℕ)) → none ≡ o → is_intact fingerprint o ≡ true → ⊥
      none_read none e k = cc
      none_read (some x) e k = cc

      go :
          (o : Option String)
          → ok (elim o as (λ _. Option (List ℕ)) [
            | some message ↦ none
            | none ↦ lookup path s.files
          ])
            ≡ ok existing
          → is_intact fingerprint existing ≡ true
          → is_intact fingerprint (lookup path s.files) ≡ true
      go none e k = ap (is_intact fingerprint) (ok-injective e) ∙ k
      go (some message) e k = elim (none_read existing (ok-injective e) k) [ ]

  abbrev answer : String → List ℕ → Bool → String × ℕ × Bool
  answer path bytes created = (path, length bytes, created)

  -- The answer has the path and the size of content that hashes to its name.
  pub IsStored : String → String → List ℕ → String × ℕ × Bool → Batch → Type 0
  IsStored path fingerprint bytes stored s =
      (stored.0 ≡ path)
      × (stored.1 ≡ length bytes)
      × (is_intact fingerprint (lookup path s.files) ≡ true)

  is_stored :
      (path fingerprint : String) (bytes : List ℕ) (created : Bool) (stored : String × ℕ × Bool)
      (s : Batch)
      → ok (answer path bytes created) ≡ ok stored
      → is_intact fingerprint (lookup path s.files) ≡ true
      → IsStored path fingerprint bytes stored s
  unfolding IsStored
  is_stored path fingerprint bytes created stored s h k =
      let same : answer path bytes created ≡ stored = ok-injective h in
      (ap (λ x. x.0) (sym same), ap (λ x. x.1) (sym same), k)

  replaced :
      (dir fingerprint path : String) (bytes : List ℕ) (s : Batch) {stored : String × ℕ × Bool}
      → eq_ignore_ascii_case (sha256 bytes) fingerprint ≡ true
      → ((replace_file dir fingerprint path bytes >>= λ _. pure (answer path bytes true)) s).0
        ≡ ok stored
      → IsStored path fingerprint bytes stored
          ((replace_file dir fingerprint path bytes >>= λ _. pure (answer path bytes true)) s).1
  unfolding ◌>>=◌
  replaced dir fingerprint path bytes s {stored = stored} same h =
      let (u, e, p) =
        bind_ok_at (replace_file dir fingerprint path bytes) (λ _. pure (answer path bytes true)) s
          h in
      let there = replace_file_ok dir fingerprint path bytes s e in
      subst (λ r. IsStored path fingerprint bytes stored r.1) (sym p)
        (is_stored path fingerprint bytes true stored _ (ap (λ r. r.0) (sym p) ∙ h)
          (ap (is_intact fingerprint) there ∙ same))

  found :
      (path fingerprint : String) (bytes : List ℕ) (stored : String × ℕ × Bool) (s : Batch)
      → is_intact fingerprint (lookup path s.files) ≡ true
      → (pure (answer path bytes false) s).0 ≡ ok stored
      → IsStored path fingerprint bytes stored (pure (answer path bytes false) s).1
  unfolding ◌>>=◌
  found path fingerprint bytes stored s k h = is_stored path fingerprint bytes false stored s h k

  store_content-IsStored :
      (dir fingerprint path : String) (bytes : List ℕ) (s : Batch) {stored : String × ℕ × Bool}
      → eq_ignore_ascii_case (sha256 bytes) fingerprint ≡ true
      → (store_content dir fingerprint path bytes s).0 ≡ ok stored
      → IsStored path fingerprint bytes stored (store_content dir fingerprint path bytes s).1
  unfolding store_content read_file
  store_content-IsStored dir fingerprint path bytes s {stored = stored} same h =
      let (u, e1, p1) = bind_ok_at _ _ s h in
      let s1 =
        (attempt (failed_on "creating the source-content cache directory" dir) (λ files. files)
          s).1 in
      let (existing, e2, p2) = bind_ok_at _ _ s1 (ap (λ r. r.0) (sym p1) ∙ h) in
      subst (λ r. IsStored path fingerprint bytes stored r.1) (sym (p1 ∙ p2))
        (by_state existing (read_file path s1).1 (is_intact fingerprint existing)
          (read_at path fingerprint s1 existing e2) (ap (λ r. r.0) (sym (p1 ∙ p2)) ∙ h))
    where
      written : Bool → Action Batch (String × ℕ × Bool)
      written intact = elim intact as (λ _. Action Batch (String × ℕ × Bool)) [
        | true ↦ pure (answer path bytes false)
        | false ↦ replace_file dir fingerprint path bytes >>= λ _. pure (answer path bytes true)
      ]

      by_state :
          (existing : Option (List ℕ)) (s2 : Batch) (intact : Bool)
          → (intact ≡ true → is_intact fingerprint (lookup path s2.files) ≡ true)
          → (written intact s2).0 ≡ ok stored
          → IsStored path fingerprint bytes stored (written intact s2).1
      by_state existing s2 true there k = found path fingerprint bytes stored s2 (there refl) k
      by_state existing s2 false there k = replaced dir fingerprint path bytes s2 same k

  eq_ignore_ascii_case_comm :
      (a b : String) → eq_ignore_ascii_case a b ≡ true → eq_ignore_ascii_case b a ≡ true
  eq_ignore_ascii_case_comm a b h = ground arith

  -- When content that is not empty was written, the answer names the file of its source and
  -- fingerprint, with the size of the content, and the bytes in that file hash to the fingerprint:
  -- the file was so before, or it was replaced.
  pub write_content_file-IsStored :
      (dir core_source_id fingerprint content content_type : String) (s : Batch)
      (stored : String × ℕ × Bool)
      → str_eq content "" ≡ false
      → (write_content_file dir core_source_id fingerprint content content_type s).0 ≡ ok stored
      → IsStored
          (join dir (file_name core_source_id fingerprint content_type))
          fingerprint
          (as_bytes content)
          stored
          (write_content_file dir core_source_id fingerprint content content_type s).1
  unfolding write_content_file ◌>>=◌
  write_content_file-IsStored dir core_source_id fingerprint content content_type s stored
        some_content =
      go (eq_ignore_ascii_case fingerprint (sha256 bytes)) (str_eq content "") refl some_content
    where
      bytes : List ℕ
      bytes = as_bytes content

      path : String
      path = join dir (file_name core_source_id fingerprint content_type)

      written : Bool → Bool → Action Batch (String × ℕ × Bool)
      written matches none_there =
          if not matches
          then raise (database (mismatch fingerprint (sha256 bytes)))
          else if none_there
          then pure ("", 0, false)
          else store_content dir fingerprint path bytes

      go :
          (matches none_there : Bool)
          → eq_ignore_ascii_case fingerprint (sha256 bytes) ≡ matches
          → none_there ≡ false
          → (written matches none_there s).0 ≡ ok stored
          → IsStored path fingerprint bytes stored (written matches none_there s).1
      go false b e k h = cc
      go true true e k h = cc
      go true false e k h =
          store_content-IsStored dir fingerprint path bytes s
            (eq_ignore_ascii_case_comm fingerprint (sha256 bytes) e) h
