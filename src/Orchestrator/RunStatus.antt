-- ===== src/Orchestrator/RunStatus.antt =====
-- Run states and their transition rule (orchestrator.rs, lines 165 to 234).
pub mod Laws
use morpho_research_os.Prelude.{
  ℕ, String, Bool, true, false, not, ◌&&◌, ◌||◌, Option, List, [], ◌∷◌, ◌==◌, str_eq, find, format,
  if◌then◌else◌,
}
use morpho_research_os.Errors.{ErrorCode, Result, ok, err, core_error}

pub data RunStatus : Type 0 where
  running paused needs_review completed failed cancelled : RunStatus

-- `RunStatus::ALL`.
abbrev pub all : List RunStatus
all = running ∷ paused ∷ needs_review ∷ completed ∷ failed ∷ cancelled ∷ []

-- The derived equality compares the places of the constructors.
abbrev place : RunStatus → ℕ
place running = 0
place paused = 1
place needs_review = 2
place completed = 3
place failed = 4
place cancelled = 5

unfoldable pub eq : RunStatus → RunStatus → Bool
eq a b = place a == place b

unfoldable pub as_str : RunStatus → String
as_str running = "running"
as_str paused = "paused"
as_str needs_review = "needs_review"
as_str completed = "completed"
as_str failed = "failed"
as_str cancelled = "cancelled"

unfoldable pub parse : String → Option RunStatus
unfolding as_str
parse value = find (λ s. str_eq (as_str s) value) all

unfoldable pub is_terminal : RunStatus → Bool
is_terminal completed = true
is_terminal failed = true
is_terminal cancelled = true
is_terminal _ = false

unfoldable pub can_transition_run : RunStatus → RunStatus → Result (Unit {0})
unfolding eq is_terminal as_str
can_transition_run from to =
    if eq from to
    then ok tt
    else if not (is_terminal from) || (eq from failed && eq to running)
    then ok tt
    else err (
        core_error ErrorCode.database_error "Illegal run state transition."
          (format ("illegal run transition " ∷ as_str from ∷ " -> " ∷ as_str to ∷ [])) false)
