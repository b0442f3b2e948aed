-- ===== src/Orchestrator/RunStatus/Laws.antt =====
-- How the run states are stored as texts.
use morpho_research_os.Prelude.{
  String, true, ◌≡◌, refl, sym, ◌↔◌, some, arith, str_eq, eq_iff, find_holds,
}
use morpho_research_os.Orchestrator.RunStatus.{RunStatus, running, all, eq, as_str, parse}

pub eq→≡ : (a b : RunStatus) → eq a b ≡ true → a ≡ b
unfolding eq
eq→≡ a b h = ground arith

pub parse-as_str : (s : RunStatus) → parse (as_str s) ≡ some s
unfolding parse
parse-as_str running = refl
parse-as_str _ = refl

pub as_str-parse : (v : String) (s : RunStatus) → parse v ≡ some s → as_str s ≡ v
unfolding parse
as_str-parse v s h = (eq_iff _ v).0 (find_holds (λ t. str_eq (as_str t) v) all h)

-- A text is read as a run status exactly when it is the text that the status is stored as.
pub parse_run_iff : (v : String) (s : RunStatus) → (parse v ≡ some s) ↔ (v ≡ as_str s)
parse_run_iff v s = (λ h. sym (as_str-parse v s h), λ e. rw e (parse-as_str s))
