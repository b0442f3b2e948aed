-- ===== src/Repositories/Projects/Laws.antt =====
-- What the decision on a gap leaves in the table.
use mathlib.Core.Option.{some-injective}
use text.Mathlib.TextPositions.{eq_refl}
use morpho_research_os.Prelude.{
  ℕ, String, Bool, true, ◌&&◌, Option, none, some, List, [], ◌∷◌, ◌≡◌, refl, sym, ap, ◌∙◌, find,
  str_eq, inl, inr, Bool-cases,
}
use morpho_research_os.Errors.{Result, ok, err, Action, gets, ok-injective, continue, ◌>>=◌, ◌>>◌}
use morpho_research_os.Env.{Env}
use morpho_research_os.Repositories.Projects.{
  GapDecisionRecord, Workspace, is_decision, get_decision, place, decided, answer_row, upsert,
  run_statement,
}

-- The row after a placement: the changed one, or the new one.
abbrev pub placed :
    (GapDecisionRecord → GapDecisionRecord)
    → GapDecisionRecord
    → Option GapDecisionRecord
    → GapDecisionRecord
placed f new none = new
placed f new (some r) = f r

find-place :
    (p : GapDecisionRecord → Bool) (f : GapDecisionRecord → GapDecisionRecord)
    (new : GapDecisionRecord) (rows : List GapDecisionRecord)
    → p new ≡ true
    → ((r : GapDecisionRecord) → p (f r) ≡ p r)
    → find p (place p f new rows) ≡ some (placed f new (find p rows))
unfolding place
find-place p f new [] h k = rw h refl
find-place p f new (r ∷ rows) h k = elim (Bool-cases (p r)) [
  | inl e ↦ rw e (rw (k r ∙ e) refl)
  | inr e ↦ rw e (rw e (find-place p f new rows h k))
]

-- What holds of the answer and of the state after every success.
record Yields {A : Type 0} (P : A → Workspace → Type 0) (m : Action Workspace A) : Type 0 where
  pub at : (w : Workspace) (a : A) → (m w).0 ≡ ok a → P a (m w).1

Yields-bind :
    {A B : Type 0} {P : B → Workspace → Type 0} (m : Action Workspace A)
    (f : A → Action Workspace B)
    → ((a : A) → Yields P (f a))
    → Yields P (m >>= f)
unfolding ◌>>=◌
Yields-bind {A} {B} {P} m f k = record { at = λ w b. go (m w).0 (m w).1 b }
  where
    go : (r : Result A) (w : Workspace) (b : B) → (continue r f w).0 ≡ ok b → P b (continue r f w).1
    go (ok a) w b h = (k a).at w b h
    go (err e) w b h = cc

-- What is stored for a dimension after a decision with this status and task was answered as `r`.
pub record Decided (project_id dimension wanted : String) (created : Option String)
    (r : GapDecisionRecord) (w : Workspace) : Type 0 where
  pub stored : get_decision project_id dimension w ≡ some r
  pub status : r.status ≡ wanted
  pub task : r.created_task_id ≡ created

answer_row-Decided :
    (project_id dimension status : String) (task : Option String) (o : Option GapDecisionRecord)
    (w : Workspace) {r : GapDecisionRecord} {old : GapDecisionRecord}
    → get_decision project_id dimension w ≡ some old
    → old.status ≡ status
    → old.created_task_id ≡ task
    → o ≡ some old
    → (answer_row o w).0 ≡ ok r
    → Decided project_id dimension status task r (answer_row o w).1
unfolding ◌>>=◌
answer_row-Decided project_id dimension status task none w found a b e h = cc
answer_row-Decided project_id dimension status task (some x) w {r = r} {old = old} found a b e h =
    let same : old ≡ r = some-injective old r (sym e ∙ ap some (ok-injective h)) in
    record {
      stored = found ∙ ap some same;
      status = ap (λ y. y.status) (sym same) ∙ a;
      task = ap (λ y. y.created_task_id) (sym same) ∙ b;
    }

is_decision_self :
    (project_id dimension : String)
    → (str_eq project_id project_id && str_eq dimension dimension) ≡ true
is_decision_self project_id dimension = rw (eq_refl project_id, eq_refl dimension) refl

module _ ⦃env : Env⦄ where
  Yields-last :
      (project_id dimension status : String) (task : Option String) (at : ℕ)
      (new : GapDecisionRecord)
      → is_decision project_id dimension new ≡ true
      → new.status ≡ status
      → new.created_task_id ≡ task
      → Yields (Decided project_id dimension status task) (
          run_statement (λ w. record w {
            decisions =
                place (is_decision project_id dimension) (decided status task at) new w.decisions;
          })
          >> (gets (get_decision project_id dimension) >>= answer_row))
  unfolding run_statement get_decision ◌>>=◌
  Yields-last project_id dimension status task at new h a b = record {
    at = λ w r.
        let p = is_decision project_id dimension in
        let f = decided status task at in
        let found = find-place p f new w.decisions h (λ _. refl) in
        answer_row-Decided project_id dimension status task _ _ found (placed_status w.decisions)
          (placed_task w.decisions) found;
  }
    where
      placed_status :
          (rows : List GapDecisionRecord)
          → (placed
              (decided status task at)
              new
              (find (is_decision project_id dimension) rows)).status
            ≡ status
      placed_status rows = go (find (is_decision project_id dimension) rows)
        where
          go :
              (o : Option GapDecisionRecord)
              → (placed (decided status task at) new o).status ≡ status
          go none = a
          go (some x) = refl

      placed_task :
          (rows : List GapDecisionRecord)
          → (placed
              (decided status task at)
              new
              (find (is_decision project_id dimension) rows)).created_task_id
            ≡ task
      placed_task rows = go (find (is_decision project_id dimension) rows)
        where
          go :
              (o : Option GapDecisionRecord)
              → (placed (decided status task at) new o).created_task_id ≡ task
          go none = b
          go (some x) = refl

  Yields-upsert :
      (project_id dimension status : String) (task : Option String)
      → Yields (Decided project_id dimension status task) (upsert project_id dimension status task)
  unfolding upsert
  Yields-upsert project_id dimension status task = Yields-bind _ _ (λ _. Yields-bind _ _ (λ at.
      Yields-bind _ _ (λ before. Yields-bind _ _ (λ project. Yields-bind _ _ (λ _.
        Yields-bind _ _ (λ known. Yields-bind _ _ (λ _.
          Yields-last project_id dimension status task at _ (is_decision_self project_id dimension)
            refl refl)))))))

  -- A decision that is accepted is the one that is read back for its project and dimension, with its
  -- status and the task that it created, or none: what an earlier decision said is replaced.
  pub upsert-Decided :
      (project_id dimension status : String) (task : Option String) (w : Workspace)
      (r : GapDecisionRecord)
      → (upsert project_id dimension status task w).0 ≡ ok r
      → Decided project_id dimension status task r (upsert project_id dimension status task w).1
  upsert-Decided project_id dimension status task =
      (Yields-upsert project_id dimension status task).at
