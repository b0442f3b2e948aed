-- ===== src/Ingestion/Laws/Deferred.antt =====
-- The links that the records of a batch leave to be written after them.
use mathlib.Core.Path.{subst}
use morpho_research_os.Prelude.{String, ◌≡◌, refl, sym, ap, ◌∙◌, List, [], ◌∷◌, ◌++◌, map}
use morpho_research_os.Errors.{Result, ok, err, Action, pure, continue, ◌>>=◌, bind_ok_at, pure_ok}
use morpho_research_os.Env.{Env}
use morpho_research_os.Ingestion.Wire.{
  EvidenceWire, ParsedRecord, source, source_content, node, relation, claim, evidence, Serde,
}
use morpho_research_os.Ingestion.State.{Batch, Outside}
use morpho_research_os.Ingestion.Resolve.{scoped_id}
use morpho_research_os.Ingestion.Write
use morpho_research_os.Ingestion.{write_record, write_each, no_link}

-- What a success answers with.
record Returns {A : Type 0} (P : A → Type 0) (m : Action Batch A) : Type 0 where
  pub at : (s : Batch) (a : A) → (m s).0 ≡ ok a → P a

Returns-bind :
    {A B : Type 0} {P : B → Type 0} (m : Action Batch A) (f : A → Action Batch B)
    → ((a : A) → Returns P (f a))
    → Returns P (m >>= f)
unfolding ◌>>=◌
Returns-bind {A} {B} {P} m f k = record { at = λ s b. go (m s).0 (m s).1 b }
  where
    go : (r : Result A) (t : Batch) (b : B) → (continue r f t).0 ≡ ok b → P b
    go (ok a) t b h = (k a).at t b h
    go (err e) t b h = cc

module _ ⦃env : Env⦄ ⦃serde : Serde env⦄ ⦃out : Outside⦄ where
  open env use {Value}

  -- The ids under which the evidence of a batch is stored.
  abbrev pub evidence_ids : String → List (ParsedRecord Value) → List String
  evidence_ids project_id [] = []
  evidence_ids project_id (evidence wire ∷ rs) =
      scoped_id project_id wire.evidence_id ∷ evidence_ids project_id rs
  evidence_ids project_id (_ ∷ rs) = evidence_ids project_id rs

  abbrev Gives : String → ParsedRecord Value → List (String × String) → Type 0
  Gives p r links = map (λ l. l.1) links ≡ evidence_ids p (r ∷ [])

  Returns-pure : {A : Type 0} {P : A → Type 0} (a : A) → P a → Returns P (pure a)
  Returns-pure {P = P} a h = record { at = λ s b e. subst P (pure_ok a s e) h }

  write_evidence-id :
      (p : String) (claims : List String) (wire : EvidenceWire)
      → Returns (λ l. l.1 ≡ scoped_id p wire.evidence_id) (Write.write_evidence p claims wire)
  unfolding Write.write_evidence
  write_evidence-id p claims wire = Returns-bind _ _ (λ _. Returns-bind _ _ (λ _.
      Returns-bind _ _ (λ _. Returns-bind _ _ (λ _.
        Returns-bind _ _
          (λ _. Returns-bind _ _ (λ _. Returns-bind _ _ (λ _. Returns-pure _ refl)))))))

  Returns-no_link :
      (m : Action Batch (Unit {0})) → Returns (λ links. map (λ l. l.1) links ≡ []) (no_link m)
  Returns-no_link m = Returns-bind m _ (λ _. Returns-pure [] refl)

  write_record-Gives :
      (dir p : String) (nodes claims : List String) (r : ParsedRecord Value)
      → Returns (Gives p r) (write_record dir p nodes claims r)
  unfolding write_record
  write_record-Gives dir p nodes claims (source w) = Returns-no_link _
  write_record-Gives dir p nodes claims (source_content w) = Returns-no_link _
  write_record-Gives dir p nodes claims (node w) = Returns-no_link _
  write_record-Gives dir p nodes claims (relation w) = Returns-no_link _
  write_record-Gives dir p nodes claims (claim w) = Returns-no_link _
  write_record-Gives dir p nodes claims (evidence w) = record {
    at = λ s links h.
        let write = Write.write_evidence p claims w in
        let (link, done, e) = bind_ok_at write (λ link. pure (link ∷ [])) s h in
        let id = (write_evidence-id p claims w).at s link done in
        subst (Gives p (evidence w)) (pure_ok _ _ (ap (λ r. r.0) (sym e) ∙ h))
          (ap (λ i. i ∷ []) id);
  }

  map-append :
      (xs ys : List (String × String))
      → map (λ l. l.1) (xs ++ ys) ≡ map (λ l. l.1) xs ++ map (λ l. l.1) ys
  map-append [] ys = refl
  map-append (x ∷ xs) ys = ap (λ t. x.1 ∷ t) (map-append xs ys)

  append_assoc : (xs ys zs : List String) → (xs ++ ys) ++ zs ≡ xs ++ (ys ++ zs)
  append_assoc [] ys zs = refl
  append_assoc (x ∷ xs) ys zs = ap (λ t. x ∷ t) (append_assoc xs ys zs)

  append_nil : (xs : List String) → xs ++ [] ≡ xs
  append_nil [] = refl
  append_nil (x ∷ xs) = ap (λ t. x ∷ t) (append_nil xs)

  evidence_ids-cons :
      (p : String) (r : ParsedRecord Value) (rs : List (ParsedRecord Value))
      → evidence_ids p (r ∷ []) ++ evidence_ids p rs ≡ evidence_ids p (r ∷ rs)
  evidence_ids-cons p (source _) rs = refl
  evidence_ids-cons p (source_content _) rs = refl
  evidence_ids-cons p (node _) rs = refl
  evidence_ids-cons p (relation _) rs = refl
  evidence_ids-cons p (claim _) rs = refl
  evidence_ids-cons p (evidence _) rs = refl

  -- The links that a batch leaves are for its evidence, in order, after the ones there were.
  pub write_each-evidence :
      (dir p : String) (nodes claims : List String) (rs : List (ParsedRecord Value))
      (deferred links : List (String × String)) (s : Batch)
      → (write_each dir p nodes claims rs deferred s).0 ≡ ok links
      → map (λ l. l.1) links ≡ map (λ l. l.1) deferred ++ evidence_ids p rs
  unfolding write_each
  write_each-evidence dir p nodes claims [] deferred links s h =
      ap (map (λ l. l.1)) (sym (pure_ok deferred s h)) ∙ sym (append_nil _)
  write_each-evidence dir p nodes claims (r ∷ rs) deferred links s h =
      let one = write_record dir p nodes claims r in
      let (link, done, e) =
        bind_ok_at one (λ link. write_each dir p nodes claims rs (deferred ++ link)) s h in
      let gives = (write_record-Gives dir p nodes claims r).at s link done in
      write_each-evidence dir p nodes claims rs (deferred ++ link) links (one s).1
        (ap (λ r. r.0) (sym e) ∙ h)
      ∙ ap (λ t. t ++ evidence_ids p rs)
          (map-append deferred link ∙ ap (λ t. map (λ l. l.1) deferred ++ t) gives)
      ∙ append_assoc (map (λ l. l.1) deferred) (evidence_ids p (r ∷ [])) (evidence_ids p rs)
      ∙ ap (λ t. map (λ l. l.1) deferred ++ t) (evidence_ids-cons p r rs)
