-- ===== src/Errors.antt =====
-- The structured error model (apps/desktop/src-tauri/src/error.rs), results, and actions on a state
-- that may fail.
-- `correlation_id` and `cause` are left out, and `developer_detail` is the text as it is handed to
-- `CoreError::new`, before its redaction: no modelled code reads any of the three.
use morpho_research_os.Prelude.{
  String, Bool, true, false, if◌then◌else◌, Option, none, some, ◌⊎◌, ◌≡◌, inl, inr, refl, ap,
}

pub data ErrorCode : Type 0 where
  worker_not_available provider_auth_failed provider_timeout search_failed : ErrorCode
  source_parse_failed llm_invalid_json task_dependency_failed vault_write_failed : ErrorCode
  database_error : ErrorCode

-- `Display for ErrorCode`.
unfoldable pub display : ErrorCode → String
display ErrorCode.worker_not_available = "WORKER_NOT_AVAILABLE"
display ErrorCode.provider_auth_failed = "PROVIDER_AUTH_FAILED"
display ErrorCode.provider_timeout = "PROVIDER_TIMEOUT"
display ErrorCode.search_failed = "SEARCH_FAILED"
display ErrorCode.source_parse_failed = "SOURCE_PARSE_FAILED"
display ErrorCode.llm_invalid_json = "LLM_INVALID_JSON"
display ErrorCode.task_dependency_failed = "TASK_DEPENDENCY_FAILED"
display ErrorCode.vault_write_failed = "VAULT_WRITE_FAILED"
display ErrorCode.database_error = "DATABASE_ERROR"

pub record CoreError : Type 0 where
  pub code : ErrorCode
  pub user_message : String
  pub developer_detail : String
  pub retryable : Bool

abbrev pub core_error : ErrorCode → String → String → Bool → CoreError
core_error code message detail retryable = record {
  code = code;
  user_message = message;
  developer_detail = detail;
  retryable = retryable;
}

-- `CoreError::database`.
abbrev pub database : String → CoreError
database detail =
    core_error ErrorCode.database_error "A local database operation failed." detail false

pub data Result {ℓ} (A : Type ℓ) : Type ℓ where
  ok : A → Result A
  err : CoreError → Result A

-- An action on a state: what it wrote before an error stays written until it is rolled back.
abbrev pub Action : Type 0 → Type 0 → Type 0
Action S A = S → Result A × S

-- `Option::ok_or_else`.
abbrev pub ok_or {ℓ} : {A : Type ℓ} → Option A → CoreError → Result A
ok_or none e = err e
ok_or (some a) e = ok a

abbrev pub is_ok : {A : Type 0} → Result A → Bool
is_ok (ok _) = true
is_ok (err _) = false

module _ {S A : Type 0} where
  pub pure : A → Action S A
  pure a s = (ok a, s)

  pub raise : CoreError → Action S A
  raise e s = (err e, s)

  pub gets : (S → A) → Action S A
  gets f s = (ok (f s), s)

  pub lift : Result A → Action S A
  lift r s = (r, s)

module _ {S A B : Type 0} where
  abbrev pub continue : Result A → (A → Action S B) → Action S B
  continue (ok a) f s = f a s
  continue (err e) f s = (err e, s)

  infixl 5 ◌>>=◌ ◌>>◌
  -- Unfolding this unfolds the four actions above.
  unfoldable pub ◌>>=◌ : Action S A → (A → Action S B) → Action S B
  unfolding pure raise gets lift
  ◌>>=◌ m f s = continue (m s).0 f (m s).1

  abbrev pub ◌>>◌ : Action S A → Action S B → Action S B
  m >> n = m >>= λ _. n

-- What follows an action without writing leaves the state of the action.
pub state_of_pure :
    {S A B : Type 0} (m : Action S A) (b : B) (s : S) → ((m >>= λ _. pure b) s).1 ≡ (m s).1
unfolding ◌>>=◌
state_of_pure {S} {A} {B} m b s = go (m s).0
  where
    go : (r : Result A) → (continue r (λ _ t. (ok b, t)) (m s).1).1 ≡ (m s).1
    go (ok a) = refl
    go (err e) = refl

module _ {S A B : Type 0} where
  -- What a chain that succeeds went through.
  pub bind_ok :
      (m : Action S A) (f : A → Action S B) (s : S) {b : B}
      → ((m >>= f) s).0 ≡ ok b
      → (a : A) × ((m s).0 ≡ ok a) × ((f a (m s).1).0 ≡ ok b)
  unfolding ◌>>=◌
  bind_ok m f s {b} h = go (m s).0 h
    where
      go :
          (r : Result A)
          → (continue r f (m s).1).0 ≡ ok b
          → (a : A) × (r ≡ ok a) × ((f a (m s).1).0 ≡ ok b)
      go (ok a) k = (a, refl, k)
      go (err e) k = cc

  pub lift_bind_ok :
      (r : Result A) (f : A → Action S B) (s : S) {b : B}
      → ((lift r >>= f) s).0 ≡ ok b
      → (a : A) × (r ≡ ok a) × ((f a s).0 ≡ ok b)
  unfolding ◌>>=◌
  lift_bind_ok (ok a) f s h = (a, refl, h)
  lift_bind_ok (err e) f s h = cc

  pub gets_bind_ok :
      (g : S → A) (f : A → Action S B) (s : S) {b : B}
      → ((gets g >>= f) s).0 ≡ ok b
      → (f (g s) s).0 ≡ ok b
  unfolding ◌>>=◌
  gets_bind_ok g f s h = h

-- The test that a successful run passed, where it raises otherwise.
pub if_raise_ok :
    {S A : Type 0} (t : Bool) (m : Action S A) (e : CoreError) (s : S) {a : A}
    → ((if t then m else raise e) s).0 ≡ ok a
    → t ≡ true
unfolding ◌>>=◌
if_raise_ok true m e s h = refl
if_raise_ok false m e s h = cc

-- To split on a result and keep the equation.
pub Result-cases {ℓ} :
    {A : Type ℓ} (r : Result A) → ((a : A) × (r ≡ ok a)) ⊎ ((e : CoreError) × (r ≡ err e))
Result-cases (ok a) = inl (a, refl)
Result-cases (err e) = inr (e, refl)

pub ok-injective {ℓ} : {A : Type ℓ} {a b : A} → ok a ≡ ok b → a ≡ b
ok-injective {A = A} {a = a} h = ap (λ r. elim r [ ok x ↦ x | err e ↦ a ]) h

pub pure_ok : {S A : Type 0} (a : A) (s : S) {b : A} → (pure a s).0 ≡ ok b → a ≡ b
unfolding ◌>>=◌
pure_ok a s h = ok-injective h

pub lift_ok : {S A : Type 0} (r : Result A) (s : S) {b : A} → (lift r s).0 ≡ ok b → r ≡ ok b
unfolding ◌>>=◌
lift_ok r s h = h

pub gets_ok : {S A : Type 0} (f : S → A) (s : S) {b : A} → (gets f s).0 ≡ ok b → f s ≡ b
unfolding ◌>>=◌
gets_ok f s h = ok-injective h

pub ok_or_ok {ℓ} :
    {A : Type ℓ} (o : Option A) (e : CoreError) {a : A} → ok_or o e ≡ ok a → o ≡ some a
ok_or_ok none e h = cc
ok_or_ok (some a) e h = ap some (ok-injective h)

-- A chain that succeeds is its rest, after a first part that succeeds.
pub bind_ok_at :
    {S A B : Type 0} (m : Action S A) (f : A → Action S B) (s : S) {b : B}
    → ((m >>= f) s).0 ≡ ok b
    → (a : A) × ((m s).0 ≡ ok a) × ((m >>= f) s ≡ f a (m s).1)
unfolding ◌>>=◌
bind_ok_at {S} {A} {B} m f s {b} h = go (m s).0 h
  where
    go :
        (r : Result A)
        → (continue r f (m s).1).0 ≡ ok b
        → (a : A) × (r ≡ ok a) × (continue r f (m s).1 ≡ f a (m s).1)
    go (ok a) k = (a, refl, refl)
    go (err e) k = cc

pub bind_at_ok :
    {S A B : Type 0} (m : Action S A) (f : A → Action S B) {s t : S} {a : A}
    → m s ≡ (ok a, t)
    → (m >>= f) s ≡ f a t
unfolding ◌>>=◌
bind_at_ok m f h = rw h refl
