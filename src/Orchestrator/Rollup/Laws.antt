-- ===== src/Orchestrator/Rollup/Laws.antt =====
-- What the rollup of a run means.
use morpho_research_os.Prelude.{some, List, [], ◌∷◌, ◌≡◌, refl, arith, ◌⊎◌, inl, inr, ◌↔◌, All}
use morpho_research_os.Orchestrator.TaskStatus
use morpho_research_os.Orchestrator.TaskStatus.{TaskStatus, is_run_settled}
use morpho_research_os.Orchestrator.RunStatus.{RunStatus}
use morpho_research_os.Orchestrator.Rollup.{rollup_target}

-- A task that has nothing left to do and did not fail.
abbrev pub IsDone : TaskStatus → Type 0
IsDone s = (s ≡ TaskStatus.completed) ⊎ (s ≡ TaskStatus.skipped)

target_cons :
    (s : TaskStatus) (ss : List TaskStatus)
    → rollup_target (s ∷ ss) ≡ some RunStatus.completed
    → IsDone s × (rollup_target ss ≡ some RunStatus.completed)
unfolding rollup_target is_run_settled TaskStatus.eq
target_cons TaskStatus.completed ss h = (inl refl, h)
target_cons TaskStatus.skipped ss h = (inr refl, h)
target_cons _ ss h = ground arith

cons_target :
    (s : TaskStatus) (ss : List TaskStatus)
    → IsDone s
    → rollup_target ss ≡ some RunStatus.completed
    → rollup_target (s ∷ ss) ≡ some RunStatus.completed
unfolding rollup_target is_run_settled TaskStatus.eq
cons_target s ss (inl p) h = rw p h
cons_target s ss (inr p) h = rw p h

target→All : (ss : List TaskStatus) → rollup_target ss ≡ some RunStatus.completed → All IsDone ss
target→All [] h = tt
target→All (s ∷ ss) h = let (done, rest) = target_cons s ss h in (done, target→All ss rest)

All→target : (ss : List TaskStatus) → All IsDone ss → rollup_target ss ≡ some RunStatus.completed
All→target [] h = unfold rollup_target in refl
All→target (s ∷ ss) h = cons_target s ss h.0 (All→target ss h.1)

-- The rollup target of a list of task statuses is `completed` exactly when every status is completed
-- or skipped.
pub rollup_completed_iff :
    (ss : List TaskStatus) → (rollup_target ss ≡ some RunStatus.completed) ↔ All IsDone ss
rollup_completed_iff ss = (target→All ss, All→target ss)
