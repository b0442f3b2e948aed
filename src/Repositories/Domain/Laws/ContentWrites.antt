-- ===== src/Repositories/Domain/Laws/ContentWrites.antt =====
-- Writing the contents and evaluations of sources keeps what `Kept` says.
use text.Mathlib.TextPositions.{eq_refl}
use mathlib.Core.Option.{some-injective}
use morpho_research_os.Prelude.{
  String, Bool, ◌≡◌, refl, sym, ap, ◌∙◌, List, [], ◌∷◌, ◌++◌, Option, none, some, str_eq, find,
  find_holds, Bool-cases, inl, inr,
}
use morpho_research_os.Errors.{ok-injective, Result, ok, Action, pure, ◌>>=◌, ◌>>◌}
use morpho_research_os.Env.{Env}
use morpho_research_os.Keeps.{Keeps, IsPreorder, Keeps-bind, bind_gets_at}
use morpho_research_os.Repositories.Rows.{row, modify, row-modify, Distinct}
use morpho_research_os.Repositories.Domain.{
  Domain, SourceRecord, SourceContentRecord, source_key, content_key, require, execute, is_there,
  is_missing, now_unix_ms, new_id,
}
use morpho_research_os.Repositories.Domain.Growth.{
  Grows-append, Grows-modify, row_of_find, Distinct-before,
}
use morpho_research_os.Repositories.Domain.Kept.{Kept, Kept-preorder, sources-Kept, contents-Kept}
use morpho_research_os.Repositories.Domain.Same.{SameSource-refl}
use morpho_research_os.Repositories.Domain.Guards.{require_at, there_at}
use morpho_research_os.Repositories.Domain.Laws.{
  other_self, url_project, Keeps-require, Keeps-now_unix_ms,
}
use morpho_research_os.Repositories.Domain.Sources

module _ ⦃env : Env⦄ (project_id : String) where
  pre : IsPreorder (Kept project_id)
  pre = Kept-preorder project_id

  put_content :
      (id : String) (new : Sources.NewSourceContent) (d : Domain) (o : Option SourceContentRecord)
      → Sources.get_content id d ≡ o
      → Kept project_id d
          ((elim o as (λ _. Action Domain (Unit {0})) [
            | none ↦
                execute (λ t. record t { contents = t.contents ++ Sources.content_row id new ∷ [] })
            | some _ ↦ execute (λ t. record t {
              contents = modify content_key id (Sources.replaced new) t.contents;
            })
          ])
            d).1
  unfolding execute Sources.get_content
  put_content id new d none free =
      contents-Kept project_id d _ (
        Grows-append content_key (λ _. (refl, refl)) d.contents (Sources.content_row id new) free
          tt)
  put_content id new d (some old) there = contents-Kept project_id d _ (
      Grows-modify content_key (λ _. (refl, refl)) _ id d.contents (λ _. refl)
        (λ _ _ _. (refl, refl)))

  pub Keeps-upsert_content :
      (id : String) (new : Sources.NewSourceContent)
      → Keeps (Kept project_id) (Sources.upsert_content id new)
  unfolding Sources.upsert_content
  Keeps-upsert_content id new = Keeps-bind pre _ _ (Keeps-require project_id _ _) (λ _. record {
    at = λ d.
        there_at pre _ _ _ d
          (bind_gets_at pre _ _ d (put_content id new d (Sources.get_content id d) refl));
  })

  -- The row under an id, if there is one, is of the project.
  abbrev pub Owned : String → Domain → Type 0
  Owned id d =
      Distinct source_key d.sources
      → (x : SourceRecord) → row source_key id d.sources ≡ some x
      → x.project_id ≡ project_id

  require_after :
      (o : Option SourceRecord) (message : String) (d : Domain)
      → (require (is_there o) message d).1 ≡ d
  unfolding require ◌>>=◌
  require_after none message d = refl
  require_after (some x) message d = refl

  pub apply_evaluation_at :
      (in_unit : String → Bool) (id score notes : String) (d : Domain)
      → Owned id d
      → Kept project_id d (Sources.apply_evaluation in_unit id score notes d).1
  unfolding Sources.apply_evaluation Sources.update_source execute now_unix_ms ◌>>=◌
  apply_evaluation_at in_unit id score notes d owned = require_at pre _ _ _ d λ _.
      rw (require_after (row source_key id d.sources)) (
        pre.R_trans d _ _ ((Keeps-now_unix_ms project_id).at d) (
          sources-Kept project_id (now_unix_ms d).1 _ (
            Grows-modify source_key (SameSource-refl project_id) _ id d.sources (λ _. refl)
              λ distinct x there. record {
                id = refl;
                project = refl;
                canonical_url = refl;
                created_at = refl;
                others = other_self x.project_id project_id (owned distinct x there);
              })))

  -- An upsert answers with a row of the project.
  row_append :
      (xs : List SourceRecord) (r : SourceRecord)
      → row source_key r.id xs ≡ none
      → row source_key r.id (xs ++ r ∷ []) ≡ some r
  unfolding row
  row_append [] r h = rw (eq_refl r.id) refl
  row_append (x ∷ xs) r h = elim (Bool-cases (str_eq x.id r.id)) [
    | inl e ↦ elim (no_row (rw e at h)) [ ]
    | inr e ↦ rw e (row_append xs r (rw e at h))
  ]
    where
      no_row : {x : SourceRecord} → some x ≡ none → ⊥
      no_row h = cc

  appended_owned :
      (xs : List SourceRecord) (r x : SourceRecord) (id : String)
      → r.project_id ≡ project_id
      → id ≡ r.id
      → row source_key r.id xs ≡ none
      → row source_key id (xs ++ r ∷ []) ≡ some x
      → x.project_id ≡ project_id
  appended_owned xs r x id e same free there =
      let found : row source_key r.id (xs ++ r ∷ []) ≡ some x = rw same at there in
      sym (ap (λ y. y.project_id) (some-injective r x (sym (row_append xs r free) ∙ found))) ∙ e

  insert_source-Owned :
      (r : SourceRecord) (answer answered : SourceRecord × Bool) (d : Domain)
      → r.project_id ≡ project_id
      → answer.0.id ≡ r.id
      → ((Sources.insert_source r >>= λ _. pure answer) d).0 ≡ ok answered
      → Owned answered.0.id ((Sources.insert_source r >>= λ _. pure answer) d).1
  unfolding Sources.insert_source execute require ◌>>=◌
  insert_source-Owned r answer answered d e same = go (row source_key r.id d.sources) refl
    where
      stored : Option SourceRecord → Result (SourceRecord × Bool) × Domain
      stored o =
          ((require (is_missing o) "UNIQUE constraint failed: sources.id"
                >> execute (λ t. record t { sources = t.sources ++ r ∷ [] }))
              >>= λ _. pure answer)
            d

      go :
          (o : Option SourceRecord)
          → row source_key r.id d.sources ≡ o
          → (stored o).0 ≡ ok answered
          → Owned answered.0.id (stored o).1
      go none free h = λ distinct x there.
          appended_owned d.sources r x answered.0.id e
            (ap (λ a. a.0.id) (sym (ok-injective h)) ∙ same) free there
      go (some y) taken h = cc

  modified_owned :
      (f : SourceRecord → SourceRecord) (r x : SourceRecord) (p : SourceRecord → Bool)
      (xs : List SourceRecord)
      → ((y : SourceRecord) → (f y).id ≡ y.id)
      → ((y : SourceRecord) → (f y).project_id ≡ y.project_id)
      → find p xs ≡ some r
      → r.project_id ≡ project_id
      → Distinct source_key (modify source_key r.id f xs)
      → row source_key r.id (modify source_key r.id f xs) ≡ some x
      → x.project_id ≡ project_id
  modified_owned f r x p xs same_id same found e distinct there =
      let first =
        row_of_find source_key p xs (Distinct-before source_key f r.id xs same_id distinct) found in
      let here : some (f r) ≡ some x =
        sym (rw (row-modify source_key f r.id r.id xs same_id, eq_refl r.id, first) refl) ∙ there in
      sym (ap (λ y. y.project_id) (some-injective (f r) x here)) ∙ same r ∙ e

  insert_new-Owned :
      (new : Sources.NewSource) (answered : SourceRecord × Bool) (d : Domain)
      → new.project_id ≡ project_id
      → (Sources.insert_new new d).0 ≡ ok answered
      → Owned answered.0.id (Sources.insert_new new d).1
  unfolding Sources.insert_new now_unix_ms new_id ◌>>=◌
  insert_new-Owned new answered d e h = insert_source-Owned _ _ answered _ e refl h

  upsert_existing-Owned :
      (new : Sources.NewSource) (existing : SourceRecord) (answered : SourceRecord × Bool)
      (d : Domain)
      → new.project_id ≡ project_id
      → Sources.get_by_canonical_url new.project_id new.canonical_url d ≡ some existing
      → (Sources.upsert_existing new existing d).0 ≡ ok answered
      → Owned answered.0.id (Sources.upsert_existing new existing d).1
  unfolding Sources.upsert_existing Sources.update_source Sources.get_by_canonical_url execute
      now_unix_ms ◌>>=◌
  upsert_existing-Owned new existing answered d e found h = λ distinct x there.
      let same : existing.id ≡ answered.0.id = ap (λ a. a.0.id) (ok-injective h) in
      modified_owned _ existing x _ d.sources (λ _. refl) (λ _. refl) found
        (url_project new.project_id new.canonical_url existing (find_holds _ d.sources found) ∙ e)
        distinct (rw (sym same) at there)

  pub upsert_by_canonical_url-Owned :
      (new : Sources.NewSource) (answered : SourceRecord × Bool) (d : Domain)
      → new.project_id ≡ project_id
      → (Sources.upsert_by_canonical_url new d).0 ≡ ok answered
      → Owned answered.0.id (Sources.upsert_by_canonical_url new d).1
  unfolding Sources.upsert_by_canonical_url ◌>>=◌
  upsert_by_canonical_url-Owned new answered d e =
      go (Sources.get_by_canonical_url new.project_id new.canonical_url d) refl
    where
      upserted : Option SourceRecord → Action Domain (SourceRecord × Bool)
      upserted o = elim o as (λ _. Action Domain (SourceRecord × Bool)) [
        | none ↦ Sources.insert_new new
        | some existing ↦ Sources.upsert_existing new existing
      ]

      go :
          (o : Option SourceRecord)
          → Sources.get_by_canonical_url new.project_id new.canonical_url d ≡ o
          → (upserted o d).0 ≡ ok answered
          → Owned answered.0.id (upserted o d).1
      go none free h = insert_new-Owned new answered d e h
      go (some existing) found h = upsert_existing-Owned new existing answered d e found h
