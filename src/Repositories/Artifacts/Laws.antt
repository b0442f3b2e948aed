-- ===== src/Repositories/Artifacts/Laws.antt =====
-- The index in the database keeps what the vault's writer relies on.
use mathlib.Core.Option.{some-injective}
use morpho_research_os.Prelude.{
  ℕ, suc, String, Bool, true, false, Option, none, some, List, [], ◌∷◌, ◌++◌, ◌≡◌, refl, sym, ap,
  ◌∙◌, inl, inr, str_eq, if◌then◌else◌, Bool-cases, arith, eq_iff,
}
use morpho_research_os.Env.{Env}
use morpho_research_os.Vault.{ArtifactState}
use morpho_research_os.Repositories.Artifacts.{
  ArtifactRecord, Store, is_at, query_row, update, place, upsert_by_path, recorded, record_state,
}

-- A row keeps its place when it changes.
query_row-update :
    (q : String) (p : String) (f : ArtifactRecord → ArtifactRecord)
    (keeps : (a : ArtifactRecord) → is_at q p (f a) ≡ is_at q p a) (rows : List ArtifactRecord)
    {a : ArtifactRecord}
    → query_row q p rows ≡ some a
    → query_row q p (update a.id f rows) ≡ some (f a)
query_row-update q p f keeps [] h = cc
query_row-update q p f keeps (x ∷ rows) {a = a} h =
    let kept = unmoved (str_eq x.id a.id) in
    let itself : str_eq a.id a.id ≡ true = ground (arith, eq_iff a.id a.id) in
    let first : Bool → Option ArtifactRecord = λ b. if b then some x else query_row q p rows in
    elim (Bool-cases (is_at q p x)) [
      | inl e ↦
          let same : x ≡ a = some-injective x a (ap first (sym e) ∙ h) in
          rw (kept ∙ e) (ap some (rw (same, itself) refl))
      | inr e ↦ rw (kept ∙ e) (query_row-update q p f keeps rows (ap first (sym e) ∙ h))
    ]
  where
    unmoved : (b : Bool) → is_at q p (if b then f x else x) ≡ is_at q p x
    unmoved true = keeps x
    unmoved false = refl

query_row-append :
    (q p : String) (rows : List ArtifactRecord) (a : ArtifactRecord)
    → query_row q p rows ≡ none
    → is_at q p a ≡ true
    → query_row q p (rows ++ a ∷ []) ≡ some a
query_row-append q p [] a h k = rw k refl
query_row-append q p (x ∷ rows) a h k = grind (arith, query_row-append q p rows a)

recorded_of :
    (q p hash origin : String) (s : Store) (a : ArtifactRecord)
    → query_row q p s.artifacts ≡ some a
    → a.content_hash ≡ hash
    → a.origin ≡ origin
    → recorded q p s ≡ some (record { content_hash = hash; user_authored = str_eq origin "user" })
unfolding recorded
recorded_of q p hash origin s a found same_hash same_origin =
    let read : Option ArtifactRecord → Option ArtifactState = λ o. elim o [
      | none ↦ none
      | some x ↦
          some (record { content_hash = x.content_hash; user_authored = str_eq x.origin "user" })
    ] in
    let state : String → String → Option ArtifactState =
      λ h o. some (record { content_hash = h; user_authored = str_eq o "user" }) in
    ap read found ∙ ap (λ h. state h a.origin) same_hash ∙ ap (state hash) same_origin

module _ ⦃env : Env⦄ where
  open env use {clock, uuid}

  query_row-place :
      (q p hash origin : String) (node_id : Option String) (size now : ℕ)
      (o : Option ArtifactRecord) (s : Store)
      → query_row q p s.artifacts ≡ o
      → (query_row q p (place q node_id p hash size origin now o s).1.artifacts
          ≡ some (place q node_id p hash size origin now o s).0)
        × ((place q node_id p hash size origin now o s).0.content_hash ≡ hash)
        × ((place q node_id p hash size origin now o s).0.origin ≡ origin)
  query_row-place q p hash origin node_id size now none s h =
      (query_row-append q p s.artifacts _ h (ground (arith, eq_iff q q, eq_iff p p)), refl, refl)
  query_row-place q p hash origin node_id size now (some a) s h =
      (query_row-update q p _ (λ _. refl) s.artifacts h, refl, refl)

  -- What is recorded for a path of a project is what a look-up then finds, whether the path was on
  -- record or not.
  pub recorded-record_state :
      (q p hash : String) (node_id : Option String) (size : ℕ) (user : Bool) (s : Store)
      → recorded q p (record_state q node_id p hash size user s)
        ≡ some (record { content_hash = hash; user_authored = user })
  unfolding record_state upsert_by_path recorded
  recorded-record_state q p hash node_id size true s =
      let (found, same_hash, same_origin) =
        query_row-place q p hash "user" node_id size (clock s.reads) (query_row q p s.artifacts)
          (record s { reads = suc s.reads }) refl in
      recorded_of q p hash _ (record_state q node_id p hash size true s) _ found same_hash
        same_origin
  recorded-record_state q p hash node_id size false s =
      let (found, same_hash, same_origin) =
        query_row-place q p hash "core" node_id size (clock s.reads) (query_row q p s.artifacts)
          (record s { reads = suc s.reads }) refl in
      recorded_of q p hash _ (record_state q node_id p hash size false s) _ found same_hash
        same_origin
