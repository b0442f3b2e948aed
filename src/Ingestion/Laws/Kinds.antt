-- ===== src/Ingestion/Laws/Kinds.antt =====
-- What the check of a record says of its kind.
use morpho_research_os.Prelude.{
  String, true, false, ◌≡◌, refl, ◌∙◌, Option, none, some, str_eq, Bool-cases, inl, inr, eq_iff,
}
use morpho_research_os.Errors.{Result, ok}
use morpho_research_os.Env.{Env}
use morpho_research_os.Repositories.Runs.{contains}
use morpho_research_os.Ingestion.Wire.{
  ParsedRecord, source, source_content, node, relation, claim, evidence, Serde, RecordWire,
}
use morpho_research_os.Ingestion.State.{Outside}
use morpho_research_os.Ingestion.Check.{
  and_then, check_record, check_source, check_source_content, check_node, check_relation,
  check_claim, check_evidence, skipped_kinds,
}
use morpho_research_os.Ingestion.Laws.Anchors.{Passes, Passes-and_then, Passes-ok, Passes-err}

-- The name of the kind of a record that is kept.
abbrev pub kind_name : {V : Type 0} → ParsedRecord V → String
kind_name (source _) = "source"
kind_name (source_content _) = "source-content"
kind_name (node _) = "node"
kind_name (relation _) = "relation"
kind_name (claim _) = "claim"
kind_name (evidence _) = "evidence"

-- A kind that the worker keeps to itself, and none of the six.
pub record IsSkipped (kind : String) : Type 0 where
  pub not_source : str_eq kind "source" ≡ false
  pub not_content : str_eq kind "source-content" ≡ false
  pub not_node : str_eq kind "node" ≡ false
  pub not_relation : str_eq kind "relation" ≡ false
  pub not_claim : str_eq kind "claim" ≡ false
  pub not_evidence : str_eq kind "evidence" ≡ false
  pub known : contains skipped_kinds kind ≡ true

abbrev pub IsNamed : {V : Type 0} → String → Option (ParsedRecord V) → Type 0
IsNamed kind none = IsSkipped kind
IsNamed kind (some p) = kind ≡ kind_name p

module _ ⦃env : Env⦄ ⦃serde : Serde env⦄ ⦃out : Outside⦄ where
  open env use {Value}

  named_source : (v : Value) → Passes (λ p. "source" ≡ kind_name p) (check_source v)
  unfolding check_source
  named_source v = Passes-and_then _ _ (λ wire _. Passes-and_then _ _ (λ _ _. Passes-ok _ refl))

  named_source_content :
      (v : Value) → Passes (λ p. "source-content" ≡ kind_name p) (check_source_content v)
  unfolding check_source_content
  named_source_content v =
      Passes-and_then _ _ (λ wire _. Passes-and_then _ _ (λ _ _. Passes-ok _ refl))

  named_node : (v : Value) → Passes (λ p. "node" ≡ kind_name p) (check_node v)
  unfolding check_node
  named_node v =
      Passes-and_then _ _
        (λ wire _. Passes-and_then _ _ (λ _ _. Passes-and_then _ _ (λ _ _. Passes-ok _ refl)))

  named_relation : (v : Value) → Passes (λ p. "relation" ≡ kind_name p) (check_relation v)
  unfolding check_relation
  named_relation v =
      Passes-and_then _ _
        (λ wire _. Passes-and_then _ _ (λ _ _. Passes-and_then _ _ (λ _ _. Passes-ok _ refl)))

  named_claim : (v : Value) → Passes (λ p. "claim" ≡ kind_name p) (check_claim v)
  unfolding check_claim
  named_claim v =
      Passes-and_then _ _
        (λ wire _. Passes-and_then _ _ (λ _ _. Passes-and_then _ _ (λ _ _. Passes-ok _ refl)))

  named_evidence : (v : Value) → Passes (λ p. "evidence" ≡ kind_name p) (check_evidence v)
  unfolding check_evidence
  named_evidence v =
      Passes-and_then _ _
        (λ wire _. Passes-and_then _ _ (λ _ _. Passes-and_then _ _ (λ _ _. Passes-ok _ refl)))

  kept_IsNamed :
      (kind name : String) (done : Result (ParsedRecord Value))
      → str_eq kind name ≡ true
      → Passes (λ p. name ≡ kind_name p) done
      → Passes (IsNamed kind) (and_then done λ p. ok (some p))
  kept_IsNamed kind name done e h =
      Passes-and_then _ _ (λ p got. Passes-ok _ ((eq_iff kind name).0 e ∙ h.holds p got))

  -- A record that passes is kept under its kind, or skipped for it.
  pub check_record-IsNamed : (r : RecordWire Value) → Passes (IsNamed r.kind) (check_record r)
  unfolding check_record
  check_record-IsNamed r = elim (Bool-cases (str_eq r.kind "source")) [
    | inl e ↦ rw e (kept_IsNamed r.kind "source" _ e (named_source r.payload))
    | inr a ↦ elim (Bool-cases (str_eq r.kind "source-content")) [
      | inl e ↦
          rw (a, e) (kept_IsNamed r.kind "source-content" _ e (named_source_content r.payload))
      | inr b ↦ elim (Bool-cases (str_eq r.kind "node")) [
        | inl e ↦ rw (a, b, e) (kept_IsNamed r.kind "node" _ e (named_node r.payload))
        | inr c ↦ elim (Bool-cases (str_eq r.kind "relation")) [
          | inl e ↦ rw (a, b, c, e) (kept_IsNamed r.kind "relation" _ e (named_relation r.payload))
          | inr d ↦ elim (Bool-cases (str_eq r.kind "claim")) [
            | inl e ↦ rw (a, b, c, d, e) (kept_IsNamed r.kind "claim" _ e (named_claim r.payload))
            | inr x ↦ elim (Bool-cases (str_eq r.kind "evidence")) [
              | inl e ↦
                  rw (a, b, c, d, x, e)
                    (kept_IsNamed r.kind "evidence" _ e (named_evidence r.payload))
              | inr y ↦ elim (Bool-cases (contains skipped_kinds r.kind)) [
                | inr z ↦ rw (a, b, c, d, x, y, z) (Passes-err _)
                | inl z ↦
                    rw (a, b, c, d, x, y, z)
                      (Passes-ok _ (record {
                        not_source = a;
                        not_content = b;
                        not_node = c;
                        not_relation = d;
                        not_claim = x;
                        not_evidence = y;
                        known = z;
                      }))
              ]
            ]
          ]
        ]
      ]
    ]
  ]
