-- ===== src/Keeps.antt =====
-- Relations between the states before and after an action, one rule for each way to build one.
use morpho_research_os.Prelude.{
  Bool, true, false, Option, none, some, List, [], ◌∷◌, ◌≡◌, refl, if◌then◌else◌,
}
use morpho_research_os.Errors.{
  CoreError, Result, ok, err, Action, pure, raise, gets, lift, continue, ◌>>=◌,
}

-- The state after the action, also after a failed one, is related to the state before.
pub record Keeps {S A : Type 0} (R : S → S → Type 0) (m : Action S A) : Type 0 where
  pub at : (s : S) → R s (m s).1

pub record IsPreorder {S : Type 0} (R : S → S → Type 0) : Type 0 where
  pub R_refl : (s : S) → R s s
  pub R_trans : (s t u : S) → R s t → R t u → R s u

module _ {S : Type 0} {R : S → S → Type 0} (pre : IsPreorder R) where
  open pre use {R_refl, R_trans}

  pub Keeps-pure : {A : Type 0} (a : A) → Keeps R (pure a)
  unfolding ◌>>=◌
  Keeps-pure a = record { at = λ s. R_refl s }

  pub Keeps-raise : {A : Type 0} (e : CoreError) → Keeps R (raise {A = A} e)
  unfolding ◌>>=◌
  Keeps-raise e = record { at = λ s. R_refl s }

  pub Keeps-gets : {A : Type 0} (f : S → A) → Keeps R (gets f)
  unfolding ◌>>=◌
  Keeps-gets f = record { at = λ s. R_refl s }

  pub Keeps-lift : {A : Type 0} (r : Result A) → Keeps R (lift r)
  unfolding ◌>>=◌
  Keeps-lift r = record { at = λ s. R_refl s }

  pub Keeps-bind :
      {A B : Type 0} (m : Action S A) (f : A → Action S B)
      → Keeps R m
      → ((a : A) → Keeps R (f a))
      → Keeps R (m >>= f)
  unfolding ◌>>=◌
  Keeps-bind {A} {B} m f km kf = record {
    at = λ s. R_trans s (m s).1 _ (km.at s) (go (m s).0 (m s).1);
  }
    where
      go : (r : Result A) (t : S) → R t (continue r f t).1
      go (ok a) t = (kf a).at t
      go (err e) t = R_refl t

module _ {S : Type 0} {R : S → S → Type 0} (pre : IsPreorder R) {A B : Type 0} where
  -- A bind at one state, where the rest may use the value that the first action returned there.
  pub bind_at :
      (m : Action S A) (f : A → Action S B) (s : S)
      → R s (m s).1
      → ((a : A) → (m s).0 ≡ ok a → R (m s).1 (f a (m s).1).1)
      → R s ((m >>= f) s).1
  unfolding ◌>>=◌
  bind_at m f s h k = pre.R_trans s (m s).1 _ h (go (m s).0 k)
    where
      go :
          (r : Result A)
          → ((a : A) → r ≡ ok a → R (m s).1 (f a (m s).1).1)
          → R (m s).1 (continue r f (m s).1).1
      go (ok a) k' = k' a refl
      go (err e) k' = pre.R_refl (m s).1

  -- The same after a result that is only lifted, or a reading of the state.
  pub bind_lift_at :
      (r : Result A) (f : A → Action S B) (s : S)
      → ((a : A) → r ≡ ok a → R s (f a s).1)
      → R s ((lift r >>= f) s).1
  unfolding ◌>>=◌
  bind_lift_at (ok a) f s k = k a refl
  bind_lift_at (err e) f s k = pre.R_refl s

  pub bind_gets_at :
      (g : S → A) (f : A → Action S B) (s : S) → R s (f (g s) s).1 → R s ((gets g >>= f) s).1
  unfolding ◌>>=◌
  bind_gets_at g f s k = k

module _ {S : Type 0} {R : S → S → Type 0} (pre : IsPreorder R) {A : Type 0} where
  pub if_at :
      (b : Bool) (m n : Action S A) (s : S)
      → (b ≡ true → R s (m s).1)
      → (b ≡ false → R s (n s).1)
      → R s ((if b then m else n) s).1
  if_at true m n s k l = k refl
  if_at false m n s k l = l refl

pub Keeps-if :
    {S A : Type 0} {R : S → S → Type 0} (b : Bool) (m n : Action S A)
    → Keeps R m
    → Keeps R n
    → Keeps R (if b then m else n)
Keeps-if true m n km kn = km
Keeps-if false m n km kn = kn

pub Keeps-test :
    {S A : Type 0} {R : S → S → Type 0} (b : Bool) (m n : Action S A)
    → Keeps R m
    → Keeps R n
    → Keeps R (elim b [ true ↦ m | false ↦ n ])
Keeps-test true m n km kn = km
Keeps-test false m n km kn = kn

pub Keeps-option :
    {S A B : Type 0} {R : S → S → Type 0} (o : Option B) (m : Action S A) (f : B → Action S A)
    → Keeps R m
    → ((b : B) → Keeps R (f b))
    → Keeps R (elim o [ none ↦ m | some b ↦ f b ])
Keeps-option none m f km kf = km
Keeps-option (some b) m f km kf = kf b

pub Keeps-list :
    {S A B : Type 0} {R : S → S → Type 0} (l : List B) (m : Action S A)
    (f : B → List B → Action S A)
    → Keeps R m
    → ((b : B) (rest : List B) → Keeps R (f b rest))
    → Keeps R (elim l [ [] ↦ m | b ∷ rest ↦ f b rest ])
Keeps-list [] m f km kf = km
Keeps-list (b ∷ rest) m f km kf = kf b rest

-- What holds of the state after every success of the action.
pub record Ensures {S A : Type 0} (P : S → Type 0) (m : Action S A) : Type 0 where
  pub after : (s : S) (a : A) → (m s).0 ≡ ok a → P (m s).1

pub Ensures-raise : {S A : Type 0} {P : S → Type 0} (e : CoreError) → Ensures P (raise {A = A} e)
unfolding ◌>>=◌
Ensures-raise e = record { after = λ s a h. cc }

pub Ensures-bind :
    {S A B : Type 0} {P : S → Type 0} (m : Action S A) (f : A → Action S B)
    → ((a : A) → Ensures P (f a))
    → Ensures P (m >>= f)
unfolding ◌>>=◌
Ensures-bind {S} {A} {B} {P} m f h = record { after = λ s b. go (m s).0 (m s).1 b }
  where
    go : (r : Result A) (t : S) (b : B) → (continue r f t).0 ≡ ok b → P (continue r f t).1
    go (ok a) t b k = (h a).after t b k
    go (err e) t b k = cc

pub Ensures-if :
    {S A : Type 0} {P : S → Type 0} (b : Bool) (m n : Action S A)
    → Ensures P m
    → Ensures P n
    → Ensures P (if b then m else n)
Ensures-if true m n h k = h
Ensures-if false m n h k = k
