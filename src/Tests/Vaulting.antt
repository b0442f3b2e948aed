-- ===== src/Tests/Vaulting.antt =====
-- The theorems on the vault applied to two notes.
use mathlib.Core.Option.{some-injective}
use morpho_research_os.Prelude.{
  ◌↔◌, ap, sym, ℕ, String, true, false, Option, none, some, List, [], ◌∷◌, ◌≡◌, refl, inr, lookup,
}
use morpho_research_os.Errors.{◌>>=◌}
use morpho_research_os.Vault.{Artifact, Disk, Outside, read, attempt, record_artifact}
use morpho_research_os.Vault.Hash.{content_hash, as_bytes}
use morpho_research_os.Vault.Writer.{unchanged, MergeProposal, keep_user, resolve, write_rendered}
use morpho_research_os.Vault.Laws.{write_rendered-SameFile}
use morpho_research_os.Vault.Protection.{SameDisk, write_rendered-protects}
use morpho_research_os.Vault.Decision.{write_notes, resolve-protects}
use morpho_research_os.Vault.Slug.{slugify}
use morpho_research_os.Vault.Slug.Laws.{IsSlug, slugify_iff}
use morpho_research_os.Vault.Yaml.{yaml_str}
use morpho_research_os.Vault.Yaml.Reader.{before, unquote, without_returns}
use morpho_research_os.Vault.Yaml.Laws.{unquote-yaml_str}

-- Every operation succeeds, and every temporary file is the same.
instance abbrev calm : Outside
calm = record {
  trouble = λ _. none;
  hidden = λ _ _. false;
  parent = λ _. some "notes";
  file_name = λ path. some path;
  with_file_name = λ _ _. "temporary";
}

abbrev claim_note : String
claim_note = "claim.md"

abbrev source_note : String
source_note = "source.md"

abbrev user_text : List ℕ
user_text = as_bytes "mine"

-- The user decided to keep this note.
abbrev kept : Artifact
kept = record {
  node_id = none;
  state = record { content_hash = content_hash user_text; user_authored = true };
  byte_size = 4;
}

abbrev disk : Disk
disk = record { files = (source_note, user_text) ∷ []; index = (source_note, kept) ∷ []; turns = 0 }

write_rendered-protects_example : SameDisk disk (write_rendered none source_note "ours" disk).1
write_rendered-protects_example =
    write_rendered-protects none source_note "ours" user_text disk refl
      (λ a h. inr (ap (λ x. x.state.user_authored) (some-injective a kept (sym h)))) refl

write_rendered-SameFile_example :
    lookup source_note (write_rendered none claim_note "ours" disk).1.files
    ≡ lookup source_note disk.files
write_rendered-SameFile_example =
    write_rendered-SameFile source_note none claim_note "ours" disk (λ _. refl) refl

abbrev after_writing : Disk
after_writing = (write_rendered none claim_note "ours" disk).1

abbrev proposal : MergeProposal
proposal = record {
  path = source_note;
  node_id = "source-1";
  ours = "ours";
  theirs_hash = content_hash user_text;
  reason = "file changed outside the app since the last write";
}

abbrev two_notes : List (Option String × String)
two_notes = (none, "ours") ∷ (some "source-1", "others") ∷ []

resolve-protects_example :
    ((resolve proposal keep_user disk).1.files ≡ disk.files)
    × SameDisk
        (resolve proposal keep_user disk).1
        (write_notes source_note two_notes (resolve proposal keep_user disk).1)
unfolding resolve read record_artifact attempt ◌>>=◌
resolve-protects_example =
    resolve-protects proposal two_notes disk {w = unchanged source_note} (λ _. refl) refl

-- "A: b!"
abbrev heading : List ℕ
heading = 65 ∷ 58 ∷ 32 ∷ 98 ∷ 33 ∷ []

slugify_iff_example : IsSlug (slugify heading) × (IsSlug heading ↔ (slugify heading ≡ heading))
slugify_iff_example = slugify_iff heading

-- `a"` with a bell before it and a line end after it.
abbrev odd_text : List ℕ
odd_text = 7 ∷ 97 ∷ 34 ∷ 13 ∷ 10 ∷ []

unquote-yaml_str_example : unquote before (yaml_str odd_text) ≡ some (without_returns odd_text)
unquote-yaml_str_example = unquote-yaml_str odd_text (refl, (refl, (refl, (refl, (refl, tt)))))
