-- ===== src/Ingestion/Laws/Anchors.antt =====
-- Records that pass the checks, and what the checks of evidence are for.
use mathlib.Core.Path.{subst}
use morpho_research_os.Prelude.{
  ℕ, String, Bool, true, false, not, ◌||◌, ◌≡◌, refl, List, [], ◌∷◌, Option, none, some, str_eq,
  any, arith, All, if◌then◌else◌,
}
use morpho_research_os.Errors.{CoreError, Result, ok, err, ok-injective}
use morpho_research_os.Env.{Env}
use morpho_research_os.Ingestion.Wire.{
  EvidenceLocatorWire, RecordWire, ParsedRecord, evidence, is_anchor, has_anchor, Serde,
}
use morpho_research_os.Ingestion.State.{Outside}
use morpho_research_os.Ingestion.Check.{
  and_then, check, check_source, check_source_content, check_node, check_relation, check_claim,
  check_evidence, check_record, check_all, add_record,
}
use morpho_research_os.Ingestion.Write.{first_anchor, flatten_locator, quote_of}

any_anchor : (xs : List (Option String)) → any is_anchor xs ≡ not (str_eq (first_anchor xs) "")
any_anchor [] = refl
any_anchor (none ∷ xs) = any_anchor xs
any_anchor (some t ∷ xs) = ground (arith, any_anchor xs)

-- What a record of a batch is known to satisfy after the checks.
abbrev pub Checked : {V : Type 0} → ParsedRecord V → Type 0
Checked (evidence wire) = has_anchor wire.locator ≡ true
Checked _ = Unit {0}

-- What a check's result satisfies where the check succeeds.
pub record Passes {A : Type 0} (P : A → Type 0) (r : Result A) : Type 0 where
  pub holds : (a : A) → r ≡ ok a → P a

pub Passes-and_then :
    {A B : Type 0} {P : B → Type 0} (r : Result A) (f : A → Result B)
    → ((a : A) → r ≡ ok a → Passes P (f a))
    → Passes P (and_then r f)
unfolding and_then
Passes-and_then (ok a) f k = k a refl
Passes-and_then (err e) f k = record { holds = λ b h. cc }

pub Passes-ok : {A : Type 0} {P : A → Type 0} (a : A) → P a → Passes P (ok a)
Passes-ok {P = P} a p = record { holds = λ b h. subst P (ok-injective h) p }

pub Passes-err : {A : Type 0} {P : A → Type 0} (e : CoreError) → Passes P (err e)
Passes-err e = record { holds = λ b h. cc }

Passes-if :
    {A : Type 0} {P : A → Type 0} (b : Bool) {r q : Result A}
    → Passes P r
    → Passes P q
    → Passes P (if b then r else q)
Passes-if true k l = k
Passes-if false k l = l

pub check_ok : (b : Bool) (message : String) {u : Unit {0}} → check b message ≡ ok u → b ≡ true
check_ok true message h = refl
check_ok false message h = cc

abbrev AllChecked : {V : Type 0} → Option (ParsedRecord V) → Type 0
AllChecked none = Unit {0}
AllChecked (some p) = Checked p

module _ ⦃env : Env⦄ ⦃serde : Serde env⦄ ⦃out : Outside⦄ where
  open env use {Value}

  -- A locator with an anchor leaves a quote or a locator in the row.
  pub has_anchor_row :
      (l : EvidenceLocatorWire)
      → has_anchor l ≡ true
      → (not (str_eq (quote_of l) "") || not (str_eq (flatten_locator l) "")) ≡ true
  unfolding has_anchor
  has_anchor_row l h =
      ground (arith, any_anchor (l.url_fragment ∷ l.section ∷ l.position ∷ []), quoted l.quote)
    where
      quoted :
          (q : Option String)
          → is_anchor q ≡ not (str_eq (elim q as (λ _. String) [ none ↦ "" | some t ↦ t ]) "")
      quoted none = refl
      quoted (some t) = refl

  check_source-Checked : (v : Value) → Passes Checked (check_source v)
  unfolding check_source
  check_source-Checked v =
      Passes-and_then _ _ (λ wire _. Passes-and_then _ _ (λ _ _. Passes-ok _ tt))

  check_source_content-Checked : (v : Value) → Passes Checked (check_source_content v)
  unfolding check_source_content
  check_source_content-Checked v =
      Passes-and_then _ _ (λ wire _. Passes-and_then _ _ (λ _ _. Passes-ok _ tt))

  check_node-Checked : (v : Value) → Passes Checked (check_node v)
  unfolding check_node
  check_node-Checked v =
      Passes-and_then _ _
        (λ wire _. Passes-and_then _ _ (λ _ _. Passes-and_then _ _ (λ _ _. Passes-ok _ tt)))

  check_relation-Checked : (v : Value) → Passes Checked (check_relation v)
  unfolding check_relation
  check_relation-Checked v =
      Passes-and_then _ _
        (λ wire _. Passes-and_then _ _ (λ _ _. Passes-and_then _ _ (λ _ _. Passes-ok _ tt)))

  check_claim-Checked : (v : Value) → Passes Checked (check_claim v)
  unfolding check_claim
  check_claim-Checked v =
      Passes-and_then _ _
        (λ wire _. Passes-and_then _ _ (λ _ _. Passes-and_then _ _ (λ _ _. Passes-ok _ tt)))

  check_evidence-Checked : (v : Value) → Passes Checked (check_evidence v)
  unfolding check_evidence
  check_evidence-Checked v = Passes-and_then _ _ (λ wire _.
      Passes-and_then _ _
        (λ _ _. Passes-and_then _ _ (λ _ anchored. Passes-ok _ (check_ok _ _ anchored))))

  kept-Checked :
      (r : Result (ParsedRecord Value))
      → Passes Checked r
      → Passes AllChecked (and_then r λ p. ok (some p))
  kept-Checked r k = Passes-and_then _ _ (λ p e. Passes-ok _ (k.holds p e))

  check_record-Checked : (r : RecordWire Value) → Passes AllChecked (check_record r)
  unfolding check_record
  check_record-Checked r = Passes-if _ (kept-Checked _ (check_source-Checked r.payload)) (
      Passes-if _ (kept-Checked _ (check_source_content-Checked r.payload)) (
        Passes-if _ (kept-Checked _ (check_node-Checked r.payload)) (
          Passes-if _ (kept-Checked _ (check_relation-Checked r.payload)) (
            Passes-if _ (kept-Checked _ (check_claim-Checked r.payload)) (
              Passes-if _ (kept-Checked _ (check_evidence-Checked r.payload))
                (Passes-if _ (Passes-ok _ tt) (Passes-err _)))))))

  add_record-Checked :
      (p : Option (ParsedRecord Value)) (found : List (ParsedRecord Value) × ℕ)
      → AllChecked p
      → All Checked found.0
      → All Checked (add_record p found).0
  add_record-Checked none (parsed, skipped) h k = k
  add_record-Checked (some p) (parsed, skipped) h k = (h, k)

  pub check_all-Checked :
      (rs : List (RecordWire Value)) → Passes (λ found. All Checked found.0) (check_all rs)
  unfolding check_all
  check_all-Checked [] = Passes-ok _ tt
  check_all-Checked (r ∷ rs) = Passes-and_then _ _ (λ p e. Passes-and_then _ _ (λ found e'.
      Passes-ok _ (
        add_record-Checked p found ((check_record-Checked r).holds p e)
          ((check_all-Checked rs).holds found e'))))
