-- ===== src/Orchestrator/TaskStatus/Laws.antt =====
-- What the task states and their transition table guarantee.
use morpho_research_os.Prelude.{
  String, true, false, ◌≡◌, ◌≢◌, ◌∙◌, refl, ◌↔◌, ◌⊎◌, some, arith, str_eq, eq_iff, sym, find_holds,
}
use morpho_research_os.Errors.{ok}
use morpho_research_os.Orchestrator.TaskStatus.{
  TaskStatus, pending, planning, running, validating, needs_review, completed, failed, paused,
  cancelled, skipped, all, eq, as_str, parse, is_terminal, can_transition,
}

pub eq→≡ : (a b : TaskStatus) → eq a b ≡ true → a ≡ b
unfolding eq
eq→≡ a b h = ground arith

pub eq_refl : (a : TaskStatus) → eq a a ≡ true
unfolding eq
eq_refl a = ground arith

pub parse-as_str : (s : TaskStatus) → parse (as_str s) ≡ some s
unfolding parse
parse-as_str pending = refl
parse-as_str _ = refl

pub as_str-parse : (v : String) (s : TaskStatus) → parse v ≡ some s → as_str s ≡ v
unfolding parse
as_str-parse v s h = (eq_iff _ v).0 (find_holds (λ t. str_eq (as_str t) v) all h)

-- A text is read as a task status exactly when it is the text that the status is stored as.
pub parse_iff : (v : String) (s : TaskStatus) → (parse v ≡ some s) ↔ (v ≡ as_str s)
parse_iff v s = (λ h. sym (as_str-parse v s h), λ e. rw e (parse-as_str s))

-- A terminal task status admits no other status after it.
pub can_transition_of_terminal :
    (from to : TaskStatus) → is_terminal from ≡ true → can_transition from to ≡ ok tt → to ≡ from
unfolding can_transition is_terminal eq
can_transition_of_terminal from to t h = ground arith

-- Cancellation is open to exactly the tasks that are not terminal; for a cancelled task it is the
-- replay of its status.
pub can_transition-cancelled :
    (from : TaskStatus)
    → (can_transition from cancelled ≡ ok tt) ↔ ((is_terminal from ≡ false) ⊎ (from ≡ cancelled))
unfolding can_transition is_terminal
can_transition-cancelled from = (λ h. ground arith, λ h. ground arith)

-- A task whose move to skipped is accepted and which is not skipped yet is pending, planning or
-- running.
pub can_transition-skipped :
    (from : TaskStatus)
    → can_transition from skipped ≡ ok tt
    → from ≢ skipped
    → (from ≡ pending) ⊎ (from ≡ planning) ⊎ (from ≡ running)
unfolding can_transition
can_transition-skipped from h n = ground arith

-- A chain of accepted transitions.
pub data Reaches : TaskStatus → TaskStatus → Type 0 where
  here : {a : TaskStatus} → Reaches a a
  step : {a b c : TaskStatus} → can_transition a b ≡ ok tt → Reaches b c → Reaches a c

pub Reaches-trans : {a b c : TaskStatus} → Reaches a b → Reaches b c → Reaches a c
Reaches-trans here q = q
Reaches-trans (step h p) q = step h (Reaches-trans p q)

-- No chain of accepted transitions leaves a terminal status.
pub Reaches-of_terminal : {a b : TaskStatus} → is_terminal a ≡ true → Reaches a b → b ≡ a
Reaches-of_terminal t here = refl
Reaches-of_terminal {a} t (step {b = m} h p) =
    let e = can_transition_of_terminal a m t h in Reaches-of_terminal (rw e t) p ∙ e

-- Every status that is not terminal has a chain of accepted transitions to completion.
pub Reaches-completed : (a : TaskStatus) → is_terminal a ≡ false → Reaches a completed
unfolding can_transition is_terminal
Reaches-completed pending h = step {b = running} refl (step refl here)
Reaches-completed planning h = step {b = running} refl (step refl here)
Reaches-completed paused h = step {b = running} refl (step refl here)
Reaches-completed running h = step refl here
Reaches-completed validating h = step refl here
Reaches-completed needs_review h = step refl here
Reaches-completed failed h = step refl here
Reaches-completed _ h = cc
