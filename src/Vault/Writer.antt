-- ===== src/Vault/Writer.antt =====
-- `VaultWriter` (vault.rs): writing a rendered note, and resolving a conflict.
use morpho_research_os.Prelude.{
  String, Bool, true, false, not, Option, none, some, str_eq, if◌then◌else◌, lookup, length,
}
use morpho_research_os.Errors.{Action, pure, ◌>>=◌, ◌>>◌}
use morpho_research_os.Vault.{
  ArtifactState, Disk, Outside, atomic_write, read, recorded, record_artifact,
}
use morpho_research_os.Vault.Hash.{content_hash, as_bytes}

pub record MergeProposal : Type 0 where
  pub path : String
  pub node_id : String
  pub ours : String
  pub theirs_hash : String
  pub reason : String

pub data WriteOutcome : Type 0 where
  written : String → String → WriteOutcome
  unchanged : String → WriteOutcome
  conflicting : MergeProposal → WriteOutcome

pub data Resolution : Type 0 where
  keep_user use_ours : Resolution

abbrev pub conflict : Option String → String → String → String → String → WriteOutcome
conflict node_id path rendered theirs_hash reason = conflicting (record {
  path = path;
  node_id = elim node_id [ none ↦ "" | some id ↦ id ];
  ours = rendered;
  theirs_hash = theirs_hash;
  reason = reason;
})

abbrev pub user_owned_node_id : MergeProposal → Option String
user_owned_node_id p = if str_eq p.node_id "" then none else some p.node_id

module _ ⦃out : Outside⦄ where
  open out use {hidden}

  -- `path.exists()`, which answers false also where the metadata of the path cannot be read.
  unfoldable pub exists : String → Disk → Bool
  exists path d =
      if hidden d.turns path
      then false
      else elim (lookup path d.files) [ none ↦ false | some _ ↦ true ]

  -- The atomic write of core-generated content, and its record.
  unfoldable pub write_and_record : Option String → String → String → Action Disk WriteOutcome
  write_and_record node_id path rendered = do
    let bytes = as_bytes rendered
    atomic_write path bytes
    record_artifact node_id path (content_hash bytes) (length bytes) false
    pure (written path (content_hash bytes))

  -- What is done with a file that exists, whose bytes hash to `current`.
  unfoldable pub judge :
      Option String → String → String → String → Option ArtifactState → Action Disk WriteOutcome
  judge node_id path rendered current none =
      pure (conflict node_id path rendered current "file exists but was never written by the app")
  judge node_id path rendered current (some state) =
      let rendered_hash = content_hash (as_bytes rendered) in
      if not (str_eq state.content_hash current)
      then pure (
          conflict node_id path rendered current
            "file changed outside the app since the last write")
      else if state.user_authored
      then (if str_eq current rendered_hash
          then pure (unchanged path)
          else pure
              (conflict node_id path rendered current "file was kept by an explicit user decision"))
      else if str_eq state.content_hash rendered_hash
      then pure (unchanged path)
      else write_and_record node_id path rendered

  unfoldable pub rewrite : Option String → String → String → Action Disk WriteOutcome
  rewrite node_id path rendered = do
    current ← read path
    state ← recorded path
    judge node_id path rendered (content_hash current) state

  unfoldable pub write_rendered : Option String → String → String → Action Disk WriteOutcome
  write_rendered node_id path rendered d =
      if exists path d
      then rewrite node_id path rendered d
      else write_and_record node_id path rendered d

  unfoldable pub resolve : MergeProposal → Resolution → Action Disk WriteOutcome
  resolve p keep_user = do
    current ← read p.path
    record_artifact (user_owned_node_id p) p.path (content_hash current) (length current) true
    pure (unchanged p.path)
  resolve p use_ours = do
    let bytes = as_bytes p.ours
    atomic_write p.path bytes
    record_artifact (user_owned_node_id p) p.path (content_hash bytes) (length bytes) false
    pure (written p.path (content_hash bytes))
