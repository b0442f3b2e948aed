-- ===== src/Repositories/Domain/Guards.antt =====
-- Conditions in front of a write, for relations between states: the rest may use that they hold.
use morpho_research_os.Prelude.{String, Bool, true, false, Option, none, some, ◌≡◌, refl}
use morpho_research_os.Errors.{Action, gets, ◌>>=◌, ◌>>◌}
use morpho_research_os.Keeps.{IsPreorder}
use morpho_research_os.Repositories.Domain.{Domain, require, is_there, is_missing}

module _ {R : Domain → Domain → Type 0} (pre : IsPreorder R) {B : Type 0} where
  pub require_at :
      (b : Bool) (message : String) (m : Action Domain B) (d : Domain)
      → (b ≡ true → R d (m d).1)
      → R d ((require b message >> m) d).1
  unfolding require ◌>>=◌
  require_at true message m d h = h refl
  require_at false message m d h = pre.R_refl d

  -- A test of a key that no row has yet.
  pub missing_at :
      {A : Type 0} (g : Domain → Option A) (message : String) (m : Action Domain B) (d : Domain)
      → (g d ≡ none → R d (m d).1)
      → R d ((gets g >>= λ taken. require (is_missing taken) message >> m) d).1
  unfolding require ◌>>=◌
  missing_at {A = A} g message m d h = go (g d) h
    where
      go :
          (o : Option A)
          → (o ≡ none → R d (m d).1)
          → R d ((require (is_missing o) message >> m) d).1
      go none k = k refl
      go (some a) k = pre.R_refl d

  -- A test of a key that some row has.
  pub there_at :
      {A : Type 0} (g : Domain → Option A) (message : String) (m : Action Domain B) (d : Domain)
      → R d (m d).1
      → R d ((gets g >>= λ found. require (is_there found) message >> m) d).1
  unfolding require ◌>>=◌
  there_at {A = A} g message m d h = go (g d)
    where
      go : (o : Option A) → R d ((require (is_there o) message >> m) d).1
      go none = pre.R_refl d
      go (some a) = h

  -- A lookup, and what is done with its answer.
  pub found_at :
      {A : Type 0} (g : Domain → Option A) (m : Action Domain B) (f : A → Action Domain B)
      (d : Domain)
      → R d (m d).1
      → ((a : A) → g d ≡ some a → R d (f a d).1)
      → R d ((gets g >>= λ o. elim o as (λ _. Action Domain B) [ none ↦ m | some a ↦ f a ]) d).1
  unfolding ◌>>=◌
  found_at {A = A} g m f d h k = go (g d) k
    where
      go :
          (o : Option A)
          → ((a : A) → o ≡ some a → R d (f a d).1)
          → R d ((elim o as (λ _. Action Domain B) [ none ↦ m | some a ↦ f a ]) d).1
      go none l = h
      go (some a) l = l a refl
