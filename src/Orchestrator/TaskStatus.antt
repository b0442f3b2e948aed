-- ===== src/Orchestrator/TaskStatus.antt =====
-- Task states and their transition table (orchestrator.rs, lines 35 to 163).
pub mod Laws
use morpho_research_os.Prelude.{
  ℕ, String, Bool, true, false, ◌||◌, Option, List, [], ◌∷◌, ◌==◌, str_eq, find, format,
  if◌then◌else◌,
}
use morpho_research_os.Errors.{ErrorCode, Result, ok, err, core_error}

pub data TaskStatus : Type 0 where
  pending planning running validating needs_review completed failed : TaskStatus
  paused cancelled skipped : TaskStatus

-- `TaskStatus::ALL`.
abbrev pub all : List TaskStatus
all =
    pending ∷ planning ∷ running ∷ validating ∷ needs_review ∷ completed ∷ failed ∷ paused
    ∷ cancelled ∷ skipped ∷ []

-- The derived equality compares the places of the constructors.
abbrev place : TaskStatus → ℕ
place pending = 0
place planning = 1
place running = 2
place validating = 3
place needs_review = 4
place completed = 5
place failed = 6
place paused = 7
place cancelled = 8
place skipped = 9

unfoldable pub eq : TaskStatus → TaskStatus → Bool
eq a b = place a == place b

unfoldable pub as_str : TaskStatus → String
as_str pending = "PENDING"
as_str planning = "PLANNING"
as_str running = "RUNNING"
as_str validating = "VALIDATING"
as_str needs_review = "NEEDS_REVIEW"
as_str completed = "COMPLETED"
as_str failed = "FAILED"
as_str paused = "PAUSED"
as_str cancelled = "CANCELLED"
as_str skipped = "SKIPPED"

unfoldable pub parse : String → Option TaskStatus
unfolding as_str
parse value = find (λ s. str_eq (as_str s) value) all

unfoldable pub is_terminal : TaskStatus → Bool
is_terminal completed = true
is_terminal cancelled = true
is_terminal skipped = true
is_terminal _ = false

unfoldable pub is_run_settled : TaskStatus → Bool
unfolding is_terminal eq
is_run_settled s = is_terminal s || eq s failed

-- The `matches!` of `can_transition`.
unfoldable pub is_legal : TaskStatus → TaskStatus → Bool
is_legal pending planning = true
is_legal pending running = true
is_legal pending failed = true
is_legal pending cancelled = true
is_legal pending skipped = true
is_legal planning running = true
is_legal planning failed = true
is_legal planning cancelled = true
is_legal planning skipped = true
is_legal running validating = true
is_legal running completed = true
is_legal running needs_review = true
is_legal running paused = true
is_legal running failed = true
is_legal running cancelled = true
is_legal running skipped = true
is_legal validating completed = true
is_legal validating needs_review = true
is_legal validating failed = true
is_legal validating cancelled = true
is_legal needs_review completed = true
is_legal needs_review running = true
is_legal needs_review cancelled = true
is_legal paused running = true
is_legal paused cancelled = true
is_legal failed running = true
is_legal failed cancelled = true
is_legal failed completed = true
is_legal _ _ = false

unfoldable pub can_transition : TaskStatus → TaskStatus → Result (Unit {0})
unfolding eq is_legal as_str
can_transition from to =
    if eq from to
    then ok tt
    else if is_legal from to
    then ok tt
    else err (
        core_error ErrorCode.database_error "Illegal task state transition."
          (format ("illegal task transition " ∷ as_str from ∷ " -> " ∷ as_str to ∷ [])) false)
