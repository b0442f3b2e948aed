-- ===== src/Ingestion/Laws.antt =====
-- What the actions of an ingestion on rows, files and variables keep of the tables.
pub mod Anchors
pub mod Writers
pub mod Whole
pub mod Deferred
pub mod Linked
pub mod Written
pub mod Delivery
pub mod Counts
pub mod Kinds
pub mod Tally
pub mod Counted
pub mod Files
pub mod Intact
pub mod Names
use morpho_research_os.Prelude.{
  ℕ, suc, String, Bool, true, false, not, ◌≡◌, refl, sym, List, [], ◌∷◌, Option, none, some, lookup,
}
use morpho_research_os.Errors.{
  CoreError, Result, ok, err, Action, pure, raise, gets, lift, ◌>>=◌, ◌>>◌,
}
use morpho_research_os.Env.{Env}
use morpho_research_os.Keeps.{
  Keeps, IsPreorder, Keeps-bind, Keeps-pure, Keeps-raise, Keeps-gets, Keeps-lift, Keeps-if,
  Keeps-test,
}
use morpho_research_os.Repositories.Domain.{Domain, new_id}
use morpho_research_os.Repositories.Domain.Kept.{Kept, Kept-preorder}
use morpho_research_os.Repositories.Domain.Laws.{Keeps-new_id}
use morpho_research_os.Ingestion.State.{Batch, Outside, on_rows, attempt, read_file, ignoring}
use morpho_research_os.Ingestion.Cache.{
  rename, publish, clean_up, replace_file, store_content, write_content_file, is_intact,
}
use morpho_research_os.Ingestion.Write.{tell, each, source_of, node_of, claim_of}

module _ (project_id : String) where
  -- The tables of a batch change at most as `Kept` allows.
  abbrev pub KeptRows : Batch → Batch → Type 0
  KeptRows s s' = Kept project_id s.rows s'.rows

  pub KeptRows-preorder : IsPreorder KeptRows
  KeptRows-preorder =
      let pre = Kept-preorder project_id in
      record {
        R_refl = λ s. pre.R_refl s.rows;
        R_trans = λ s t u. pre.R_trans s.rows t.rows u.rows;
      }

  pre : IsPreorder KeptRows
  pre = KeptRows-preorder

  pub Keeps-on_rows :
      {A : Type 0} (m : Action Domain A) → Keeps (Kept project_id) m → Keeps KeptRows (on_rows m)
  unfolding on_rows
  Keeps-on_rows m k = record { at = λ s. k.at s.rows }

  pub Keeps-tell :
      (f : Batch → Batch) → ((s : Batch) → (f s).rows ≡ s.rows) → Keeps KeptRows (tell f)
  Keeps-tell f same = record { at = λ s. rw (same s) ((Kept-preorder project_id).R_refl s.rows) }

-- What needs no more than that the tables, or whatever else `R` is about, are left alone.
module _ {R : Batch → Batch → Type 0} (pre : IsPreorder R) where
  pub Keeps-each :
      (f : String → Action Batch String) (ids : List String)
      → ((id : String) → Keeps R (f id))
      → Keeps R (each f ids)
  Keeps-each f [] k = Keeps-pure pre []
  Keeps-each f (id ∷ ids) k =
      Keeps-bind pre _ _ (k id)
        (λ _. Keeps-bind pre _ _ (Keeps-each f ids k) (λ _. Keeps-pure pre _))

  pub Keeps-source_of : (id : String) → Keeps R (source_of id)
  Keeps-source_of id = Keeps-bind pre _ _ (Keeps-gets pre _) (λ _. Keeps-lift pre _)

  pub Keeps-node_of :
      (p : String) (nodes : List String) (id : String) → Keeps R (node_of p nodes id)
  Keeps-node_of p nodes id = Keeps-bind pre _ _ (Keeps-gets pre _) (λ _. Keeps-lift pre _)

  pub Keeps-claim_of :
      (p : String) (claims : List String) (id : String) → Keeps R (claim_of p claims id)
  Keeps-claim_of p claims id = Keeps-bind pre _ _ (Keeps-gets pre _) (λ _. Keeps-lift pre _)

  module _ ⦃out : Outside⦄
      (files_alone : (s : Batch) (n : ℕ) (files : List (String × List ℕ))
        → R s (record s { turns = n; files = files })) where
    open out use {trouble}

    pub Keeps-attempt :
        (fail : String → CoreError) (effect : List (String × List ℕ) → List (String × List ℕ))
        → Keeps R (attempt fail effect)
    unfolding attempt
    Keeps-attempt fail effect = record { at = λ s. go s (trouble s.turns) }
      where
        tried : Batch → Option String → Result (Unit {0}) × Batch
        tried s o = elim o as (λ _. Result (Unit {0}) × Batch) [
          | some message ↦ (err (fail message), record s { turns = suc s.turns })
          | none ↦ (ok tt, record s { turns = suc s.turns; files = effect s.files })
        ]

        go : (s : Batch) (o : Option String) → R s (tried s o).1
        go s (some message) = files_alone s _ _
        go s none = files_alone s _ _

    Keeps-read_file : (path : String) → Keeps R (read_file path)
    unfolding read_file
    Keeps-read_file path = record { at = λ s. files_alone s _ _ }

    Keeps-ignoring : (m : Action Batch (Unit {0})) → Keeps R m → Keeps R (ignoring m)
    Keeps-ignoring m k = record { at = k.at }

    module _ ⦃env : Env⦄ (draw : Keeps R (on_rows new_id)) where
      Keeps-rename : (tmp path : String) → Keeps R (rename tmp path)
      unfolding rename
      Keeps-rename tmp path =
          Keeps-bind pre _ _ (Keeps-gets pre _)
            (λ here. Keeps-test here _ _ (Keeps-attempt _ _) (Keeps-raise pre _))

      Keeps-publish : (tmp path : String) → Keeps R (publish tmp path)
      unfolding publish
      Keeps-publish tmp path = Keeps-bind pre _ _ (Keeps-gets pre _) (λ there.
          Keeps-bind pre _ _
            (Keeps-test there _ _ (Keeps-ignoring _ (Keeps-attempt _ _)) (Keeps-pure pre tt))
            (λ _. Keeps-rename tmp path))

      Keeps-clean_up :
          (tmp : String) (m : Action Batch (Unit {0}))
          → Keeps R m
          → Keeps R (λ s. clean_up tmp (m s))
      Keeps-clean_up tmp m k = record { at = λ s. go s (m s) (k.at s) }
        where
          go :
              (s : Batch) (done : Result (Unit {0}) × Batch)
              → R s done.1
              → R s (clean_up tmp done).1
          go s (ok u, t) h = h
          go s (err e, t) h =
              pre.R_trans s t (clean_up tmp (err e, t)).1 h ((Keeps-attempt _ _).at t)

      Keeps-replace_file :
          (dir fingerprint path : String) (bytes : List ℕ)
          → Keeps R (replace_file dir fingerprint path bytes)
      unfolding replace_file
      Keeps-replace_file dir fingerprint path bytes = Keeps-bind pre _ _ draw (λ id.
          Keeps-bind pre _ _ (Keeps-attempt _ _) (λ _. Keeps-clean_up _ _ (Keeps-publish _ path)))

      Keeps-store_content :
          (dir fingerprint path : String) (bytes : List ℕ)
          → Keeps R (store_content dir fingerprint path bytes)
      unfolding store_content
      Keeps-store_content dir fingerprint path bytes = Keeps-bind pre _ _ (Keeps-attempt _ _) (λ _.
          Keeps-bind pre _ _ (Keeps-read_file path) (λ existing.
            Keeps-test (is_intact fingerprint existing) _ _ (Keeps-pure pre _) (
              Keeps-bind pre _ _ (Keeps-replace_file dir fingerprint path bytes)
                (λ _. Keeps-pure pre _))))

      pub Keeps-write_content_file :
          (dir id fingerprint content content_type : String)
          → Keeps R (write_content_file dir id fingerprint content content_type)
      unfolding write_content_file
      Keeps-write_content_file dir id fingerprint content content_type =
          Keeps-if _ _ _ (Keeps-raise pre _)
            (Keeps-if _ _ _ (Keeps-pure pre _) (Keeps-store_content dir fingerprint _ _))
