-- ===== src/Ingestion/Laws/Linked.antt =====
-- The links of a batch, once they are written.
use mathlib.Core.Path.{subst}
use morpho_research_os.Prelude.{
  String, Bool, true, false, ◌≡◌, refl, sym, ap, ◌∙◌, List, [], ◌∷◌, ◌++◌, All, any, eq_iff, arith,
}
use morpho_research_os.Errors.{ok, Action, pure, ◌>>=◌, ◌>>◌, bind_ok_at}
use morpho_research_os.Env.{Env}
use morpho_research_os.Repositories.Rows.{row}
use morpho_research_os.Repositories.Domain.{
  Domain, evidence_key, require, execute, now_unix_ms, is_there,
}
use morpho_research_os.Repositories.Domain.Claims
use morpho_research_os.Ingestion.Wire.{Serde}
use morpho_research_os.Ingestion.State.{Batch, Outside, on_rows}
use morpho_research_os.Ingestion.{link_each}

any-before :
    {A : Type 0} (p : A → Bool) (xs ys : List A) → any p xs ≡ true → any p (xs ++ ys) ≡ true
any-before p [] ys h = cc
any-before p (x ∷ xs) ys h = ground (arith, any-before p xs ys)

any-last :
    {A : Type 0} (p : A → Bool) (xs : List A) (y : A) → p y ≡ true → any p (xs ++ y ∷ []) ≡ true
any-last p [] y h = ground arith
any-last p (x ∷ xs) y h = ground (arith, any-last p xs y h)

-- A condition that is passed.
require_ok :
    {B : Type 0} (t : Bool) (message : String) (m : Action Domain B) (d : Domain) {b : B}
    → ((require t message >> m) d).0 ≡ ok b
    → (t ≡ true) × ((require t message >> m) d ≡ m d)
unfolding require ◌>>=◌
require_ok true message m d h = (refl, refl)
require_ok false message m d h = cc

module _ ⦃env : Env⦄ where
  -- The link is stored, and so are its claim and its evidence.
  pub record IsJoined (d : Domain) (link : String × String) : Type 0 where
    pub claimed : is_there (Claims.get link.0 d) ≡ true
    pub evident : is_there (row evidence_key link.1 d.evidence) ≡ true
    pub linked : any (Claims.is_link link.0 link.1) d.links ≡ true

  -- Claims and evidence are as before, and no link is lost.
  pub record JoinsKept (d d' : Domain) : Type 0 where
    pub claims : d'.claims ≡ d.claims
    pub evidence : d'.evidence ≡ d.evidence
    pub links : (p : String × String → Bool) → any p d.links ≡ true → any p d'.links ≡ true

  IsJoined-kept :
      {d d' : Domain} (link : String × String) → JoinsKept d d' → IsJoined d link → IsJoined d' link
  unfolding Claims.get
  IsJoined-kept link k h = record {
    claimed = rw k.claims h.claimed;
    evident = rw k.evidence h.evident;
    linked = k.links _ h.linked;
  }

  JoinsKept-refl : (d : Domain) → JoinsKept d d
  JoinsKept-refl d = record { claims = refl; evidence = refl; links = λ p h. h }

  JoinsKept-trans : {a b c : Domain} → JoinsKept a b → JoinsKept b c → JoinsKept a c
  JoinsKept-trans f g = record {
    claims = g.claims ∙ f.claims;
    evidence = g.evidence ∙ f.evidence;
    links = λ p h. g.links p (f.links p h);
  }

  All-kept :
      {d d' : Domain} (links : List (String × String))
      → JoinsKept d d'
      → All (IsJoined d) links
      → All (IsJoined d') links
  All-kept [] k h = tt
  All-kept (link ∷ links) k h = (IsJoined-kept link k h.0, All-kept links k h.1)

  -- Tables that differ in the core's only.
  pub All-IsJoined :
      (d d' : Domain) (links : List (String × String))
      → record d' { core = d.core } ≡ d
      → All (IsJoined d) links
      → All (IsJoined d') links
  All-IsJoined d d' links e h =
      All-kept links
        (record {
          claims = ap (λ x. x.claims) e;
          evidence = ap (λ x. x.evidence) e;
          links = λ p k. ap (λ x. any p x.links) e ∙ k;
        })
        h

  is_own_link :
      (claim_id evidence_id : String)
      → Claims.is_link claim_id evidence_id (claim_id, evidence_id) ≡ true
  is_own_link claim_id evidence_id =
      let c = (eq_iff claim_id claim_id).1 refl in
      let e = (eq_iff evidence_id evidence_id).1 refl in ground arith

  abbrev Joins : String → String → Domain → Domain → Type 0
  Joins claim_id evidence_id d d' = JoinsKept d d' × IsJoined d' (claim_id, evidence_id)

  -- The end of `link`, where the claim and the evidence are there.
  link_last :
      (claim_id evidence_id : String) (d : Domain) (known : Bool)
      → any (Claims.is_link claim_id evidence_id) d.links ≡ known
      → is_there (Claims.get claim_id d) ≡ true
      → is_there (row evidence_key evidence_id d.evidence) ≡ true
      → Joins claim_id evidence_id d
          ((elim known as (λ _. Action Domain Bool) [
            | true ↦ pure false
            | false ↦
                execute (λ d. record d { links = d.links ++ (claim_id, evidence_id) ∷ [] }) >>= λ _.
                pure true
          ])
            d).1
  unfolding execute ◌>>=◌ Claims.get
  link_last claim_id evidence_id d true h c e =
      (JoinsKept-refl d, record { claimed = c; evident = e; linked = h })
  link_last claim_id evidence_id d false h c e = (
    record { claims = refl; evidence = refl; links = λ p k. any-before p d.links _ k },
    record {
      claimed = c;
      evident = e;
      linked =
          any-last (Claims.is_link claim_id evidence_id) d.links (claim_id, evidence_id)
            (is_own_link claim_id evidence_id);
    },
  )

  link-Joins :
      (claim_id evidence_id : String) (d : Domain) {b : Bool}
      → (Claims.link claim_id evidence_id d).0 ≡ ok b
      → Joins claim_id evidence_id d (Claims.link claim_id evidence_id d).1
  unfolding Claims.link now_unix_ms ◌>>=◌ Claims.get
  link-Joins claim_id evidence_id d h =
      let d₁ = (now_unix_ms d).1 in
      let (claimed, e₁) = require_ok (is_there (Claims.get claim_id d₁)) _ _ d₁ h in
      let h₁ = ap (λ r. r.0) (sym e₁) ∙ h in
      let (evident, e₂) =
        require_ok (is_there (row evidence_key evidence_id d₁.evidence)) _ _ d₁ h₁ in
      let last =
        link_last claim_id evidence_id d₁ (any (Claims.is_link claim_id evidence_id) d₁.links) refl
          claimed evident in
      subst (λ r. Joins claim_id evidence_id d r.1) (sym (e₁ ∙ e₂))
        (
          record { claims = last.0.claims; evidence = last.0.evidence; links = last.0.links },
          last.1,
        )

module _ ⦃env : Env⦄ ⦃serde : Serde env⦄ ⦃out : Outside⦄ where
  -- Links that are all written are all stored.
  pub link_each-IsJoined :
      (links : List (String × String)) (s : Batch)
      → (link_each links s).0 ≡ ok tt
      → JoinsKept s.rows (link_each links s).1.rows
        × All (IsJoined (link_each links s).1.rows) links
  unfolding link_each on_rows ◌>>=◌
  link_each-IsJoined [] s h = (JoinsKept-refl s.rows, tt)
  link_each-IsJoined ((claim_id, evidence_id) ∷ links) s h =
      let one = on_rows (Claims.link claim_id evidence_id) in
      let s₁ = (one s).1 in
      let (b, done, e) = bind_ok_at one (λ _. link_each links) s h in
      let (kept, joined) = link-Joins claim_id evidence_id s.rows done in
      let (later, rest) = link_each-IsJoined links s₁ (ap (λ r. r.0) (sym e) ∙ h) in
      subst
        (λ r. JoinsKept s.rows r.1.rows × All (IsJoined r.1.rows) ((claim_id, evidence_id) ∷ links))
        (sym e)
        (JoinsKept-trans kept later, (IsJoined-kept (claim_id, evidence_id) later joined, rest))
