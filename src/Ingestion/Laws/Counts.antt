-- ===== src/Ingestion/Laws/Counts.antt =====
-- What an ingestion counts for a record that it writes.
use morpho_research_os.Prelude.{
  suc, String, Bool, true, false, not, ◌&&◌, ◌≡◌, refl, ap, ◌∙◌, List, [], ◌∷◌, ◌++◌, Option, none,
  some, if◌then◌else◌,
}
use morpho_research_os.Errors.{Result, ok, err, Action, continue, ◌>>=◌}
use morpho_research_os.Env.{Env}
use morpho_research_os.Keeps.{
  Keeps, IsPreorder, Keeps-bind, Keeps-pure, Keeps-raise, Keeps-gets, Keeps-lift, Keeps-option,
}
use morpho_research_os.Repositories.Domain.{Domain}
use morpho_research_os.Ingestion.Wire.{
  SourceWire, SourceContentWire, NodeWire, RelationWire, ClaimWire, EvidenceWire, ParsedRecord,
  source, source_content, node, relation, claim, evidence, Serde, IngestStats,
}
use morpho_research_os.Ingestion.State.{Batch, Outside, on_rows}
use morpho_research_os.Ingestion.Cache.{write_content_file}
use morpho_research_os.Ingestion.Write
use morpho_research_os.Ingestion.{write_record, write_each, link_each}
use morpho_research_os.Ingestion.Laws.{
  Keeps-each, Keeps-source_of, Keeps-node_of, Keeps-claim_of, Keeps-write_content_file,
}

-- The counts with one more record of the kind of this one.
abbrev pub bump : {V : Type 0} → ParsedRecord V → IngestStats → IngestStats
bump (source _) n = record n { sources = suc n.sources }
bump (source_content _) n = record n { source_contents = suc n.source_contents }
bump (node _) n = record n { nodes = suc n.nodes }
bump (relation _) n = record n { relations = suc n.relations }
bump (claim _) n = record n { claims = suc n.claims }
bump (evidence _) n = record n { evidence = suc n.evidence }

abbrev pub count_all : {V : Type 0} → List (ParsedRecord V) → IngestStats → IngestStats
count_all [] n = n
count_all (r ∷ rs) n = count_all rs (bump r n)

unfoldable pub SameStats : Batch → Batch → Type 0
SameStats s s' = s'.stats ≡ s.stats

pub pre : IsPreorder SameStats
unfolding SameStats
pre = record { R_refl = λ s. refl; R_trans = λ s t u h k. k ∙ h }

pub Keeps-on_rows : {A : Type 0} (m : Action Domain A) → Keeps SameStats (on_rows m)
unfolding on_rows SameStats
Keeps-on_rows m = record { at = λ s. refl }

-- A success changes the counts by `f`.
pub record Adds {A : Type 0} (f : IngestStats → IngestStats) (m : Action Batch A) : Type 0 where
  pub at : (s : Batch) (a : A) → (m s).0 ≡ ok a → (m s).1.stats ≡ f s.stats

Adds-none : {A : Type 0} (m : Action Batch A) → Keeps SameStats m → Adds (λ n. n) m
unfolding SameStats
Adds-none m k = record { at = λ s a h. k.at s }

pub Adds-bind :
    {A B : Type 0} (f g : IngestStats → IngestStats) (m : Action Batch A) (k : A → Action Batch B)
    → Adds f m
    → ((a : A) → Adds g (k a))
    → Adds (λ n. g (f n)) (m >>= k)
unfolding ◌>>=◌
Adds-bind {A} {B} f g m k am ak = record { at = λ s. go s (m s).0 refl }
  where
    go :
        (s : Batch) (r : Result A)
        → (m s).0 ≡ r
        → (b : B) → (continue r k (m s).1).0 ≡ ok b
        → (continue r k (m s).1).1.stats ≡ g (f s.stats)
    go s (ok a) e b h = (ak a).at (m s).1 b h ∙ ap g (am.at s a e)
    go s (err e) _ b h = cc

-- After something that counts nothing, or in front of it.
pub Adds-after :
    {A B : Type 0} {f : IngestStats → IngestStats} (m : Action Batch A) (k : A → Action Batch B)
    → Keeps SameStats m
    → ((a : A) → Adds f (k a))
    → Adds f (m >>= k)
Adds-after {f = f} m k same a = Adds-bind (λ n. n) f m k (Adds-none m same) a

pub Adds-before :
    {A B : Type 0} {f : IngestStats → IngestStats} (m : Action Batch A) (k : A → Action Batch B)
    → Adds f m
    → ((a : A) → Keeps SameStats (k a))
    → Adds f (m >>= k)
Adds-before {f = f} m k a same = Adds-bind f (λ n. n) m k a (λ x. Adds-none (k x) (same x))

Adds-tell :
    (f : IngestStats → IngestStats) (g : Batch → Batch)
    → ((s : Batch) → (g s).stats ≡ f s.stats)
    → Adds f (Write.tell g)
Adds-tell f g h = record { at = λ s a e. h s }

module _ ⦃env : Env⦄ ⦃serde : Serde env⦄ ⦃out : Outside⦄ where
  open env use {Value, get}

  Keeps-content :
      (dir id fingerprint content content_type : String)
      → Keeps SameStats (write_content_file dir id fingerprint content content_type)
  unfolding SameStats
  Keeps-content = Keeps-write_content_file pre (λ s _ _. refl) (Keeps-on_rows _)

  Keeps-evaluate :
      (id : String) (quality : Option Value) → Keeps SameStats (Write.evaluate id quality)
  unfolding Write.evaluate
  Keeps-evaluate id none = Keeps-pure pre tt
  Keeps-evaluate id (some quality) =
      Keeps-option (Write.overall_of (get quality "overall")) _ _ (Keeps-raise pre _)
        (λ score. Keeps-on_rows _)

  Keeps-note_published :
      (cache_path : String) (created : Bool)
      → Keeps SameStats (Write.note_published cache_path created)
  unfolding Write.note_published SameStats
  Keeps-note_published cache_path created = record {
    at = λ s. go s (created && not (Write.cache_path_referenced cache_path s.rows));
  }
    where
      go :
          (s : Batch) (b : Bool)
          → (if b
              then record s { published_files = s.published_files ++ cache_path ∷ [] }
              else s).stats
            ≡ s.stats
      go s true = refl
      go s false = refl

  Keeps-tell_map :
      (f : Batch → Batch) → ((s : Batch) → (f s).stats ≡ s.stats) → Keeps SameStats (Write.tell f)
  unfolding SameStats
  Keeps-tell_map f h = record { at = h }

  Adds-source :
      (p : String) (wire : SourceWire Value)
      → Adds (bump {V = Value} (source wire)) (Write.write_source p wire)
  unfolding Write.write_source
  Adds-source p wire = Adds-after _ _ (Keeps-lift pre _) (λ _.
      Adds-after _ _ (Keeps-on_rows _) (λ stored.
        Adds-after _ _ (Keeps-evaluate stored.0.id wire.quality)
          (λ _. Adds-after _ _ (Keeps-tell_map _ (λ _. refl)) (λ _. Adds-tell _ _ (λ s. refl)))))

  Adds-content :
      (dir : String) (wire : SourceContentWire)
      → Adds (bump {V = Value} (source_content wire)) (Write.write_source_content dir wire)
  unfolding Write.write_source_content
  Adds-content dir wire = Adds-after _ _ (Keeps-source_of pre _) (λ _.
      Adds-after _ _ (Keeps-content _ _ _ _ _) (λ _. Adds-after _ _ (Keeps-note_published _ _) (λ _.
        Adds-after _ _ (Keeps-on_rows _)
          (λ _. Adds-after _ _ (Keeps-on_rows _) (λ _. Adds-tell _ _ (λ s. refl))))))

  Adds-node :
      (p : String) (claims : List String) (wire : NodeWire)
      → Adds (bump {V = Value} (node wire)) (Write.write_node p claims wire)
  unfolding Write.write_node
  Adds-node p claims wire = Adds-after _ _ (Keeps-each pre _ _ (Keeps-source_of pre)) (λ _.
      Adds-after _ _ (Keeps-each pre _ _ (Keeps-claim_of pre _ _)) (λ _.
        Adds-after _ _ (Keeps-lift pre _)
          (λ _. Adds-after _ _ (Keeps-on_rows _) (λ _. Adds-tell _ _ (λ s. refl)))))

  Adds-relation :
      (p : String) (nodes : List String) (wire : RelationWire)
      → Adds (bump {V = Value} (relation wire)) (Write.write_relation p nodes wire)
  unfolding Write.write_relation
  Adds-relation p nodes wire = Adds-after _ _ (Keeps-node_of pre _ _ _) (λ _.
      Adds-after _ _ (Keeps-node_of pre _ _ _)
        (λ _. Adds-after _ _ (Keeps-on_rows _) (λ _. Adds-tell _ _ (λ s. refl))))

  Adds-claim :
      (p : String) (nodes : List String) (wire : ClaimWire Value)
      → Adds (bump {V = Value} (claim wire)) (Write.write_claim p nodes wire)
  unfolding Write.write_claim
  Adds-claim p nodes wire = Adds-after _ _ (Keeps-node_of pre _ _ _) (λ _.
      Adds-after _ _ (Keeps-gets pre _) (λ _.
        Adds-after _ _ (Keeps-on_rows _)
          (λ _. Adds-after _ _ (Keeps-on_rows _) (λ _. Adds-tell _ _ (λ s. refl)))))

  Adds-evidence :
      (p : String) (claims : List String) (wire : EvidenceWire)
      → Adds (bump {V = Value} (evidence wire)) (Write.write_evidence p claims wire)
  unfolding Write.write_evidence
  Adds-evidence p claims wire = Adds-after _ _ (Keeps-source_of pre _) (λ _.
      Adds-after _ _ (Keeps-claim_of pre _ _ _) (λ _. Adds-after _ _ (Keeps-lift pre _) (λ _.
        Adds-after _ _ (Keeps-gets pre _) (λ _. Adds-after _ _ (Keeps-lift pre _) (λ _.
          Adds-after _ _ (Keeps-on_rows _)
            (λ _. Adds-before _ _ (Adds-tell _ _ (λ s. refl)) (λ _. Keeps-pure pre _)))))))

  Adds-record :
      (dir p : String) (nodes claims : List String) (r : ParsedRecord Value)
      → Adds (bump r) (write_record dir p nodes claims r)
  unfolding write_record
  Adds-record dir p nodes claims (source w) =
      Adds-before _ _ (Adds-source p w) (λ _. Keeps-pure pre _)
  Adds-record dir p nodes claims (source_content w) =
      Adds-before _ _ (Adds-content dir w) (λ _. Keeps-pure pre _)
  Adds-record dir p nodes claims (node w) =
      Adds-before _ _ (Adds-node p claims w) (λ _. Keeps-pure pre _)
  Adds-record dir p nodes claims (relation w) =
      Adds-before _ _ (Adds-relation p nodes w) (λ _. Keeps-pure pre _)
  Adds-record dir p nodes claims (claim w) =
      Adds-before _ _ (Adds-claim p nodes w) (λ _. Keeps-pure pre _)
  Adds-record dir p nodes claims (evidence w) =
      Adds-before _ _ (Adds-evidence p claims w) (λ _. Keeps-pure pre _)

  pub Adds-each :
      (dir p : String) (nodes claims : List String) (rs : List (ParsedRecord Value))
      (deferred : List (String × String))
      → Adds (count_all rs) (write_each dir p nodes claims rs deferred)
  unfolding write_each
  Adds-each dir p nodes claims [] deferred = Adds-none _ (Keeps-pure pre _)
  Adds-each dir p nodes claims (r ∷ rs) deferred =
      Adds-bind (bump r) (count_all rs) _ _ (Adds-record dir p nodes claims r)
        (λ link. Adds-each dir p nodes claims rs (deferred ++ link))

  pub Keeps-link_each : (links : List (String × String)) → Keeps SameStats (link_each links)
  unfolding link_each
  Keeps-link_each [] = Keeps-pure pre tt
  Keeps-link_each ((claim_id, evidence_id) ∷ links) =
      Keeps-bind pre _ _ (Keeps-on_rows _) (λ _. Keeps-link_each links)
