-- ===== src/Orchestrator/Moves.antt =====
-- How the orchestrator may change the tables, independent of the event: tasks keep their identity and
-- move along the transition table, a claimed task stays with its run, runs keep their identity and
-- the stamp of their end, dependencies and the event log stay.
pub mod Writes
pub mod RunWrites
pub mod Steps
pub mod Parts
pub mod RunEvents
pub mod Apply
use morpho_research_os.Prelude.{
  ℕ, ◌≤◌, String, true, false, Bool, Option, none, some, ◌≡◌, refl, ◌∙◌, sym, arith,
}
use mathlib.Core.Option.{some-injective}
use morpho_research_os.Keeps.{IsPreorder}
use morpho_research_os.Repositories.Rows.{Rows, Rows-refl, Rows-trans, Distinct, Distinct-Rows}
use morpho_research_os.Repositories.Tables.{Db, TaskRecord, RunRecord}
use morpho_research_os.Repositories.Tasks.{task_key}
use morpho_research_os.Repositories.Runs.{terminal_states, contains}
use morpho_research_os.Orchestrator.TaskStatus.{TaskStatus, parse}
use morpho_research_os.Orchestrator.TaskStatus.Laws.{Reaches, Reaches-trans}

-- A stored status stays, or moves along the transition table.
pub data StatusMoves (s t : String) : Type 0 where
  same : t ≡ s → StatusMoves s t
  moved : (a b : TaskStatus) → parse s ≡ some a → parse t ≡ some b → Reaches a b → StatusMoves s t

StatusMoves-trans : {s t u : String} → StatusMoves s t → StatusMoves t u → StatusMoves s u
StatusMoves-trans (same e) (same f) = same (f ∙ e)
StatusMoves-trans (same e) (moved a b p q r) = moved a b (rw e at p) q r
StatusMoves-trans (moved a b p q r) (same f) = moved a b p (rw f q) r
StatusMoves-trans (moved a b p q r) (moved c d p' q' r') =
    let e : b ≡ c = some-injective b c (sym q ∙ p') in moved a d p q' (Reaches-trans r (rw e r'))

pub record TaskMoves (t t' : TaskRecord) : Type 0 where
  pub id : t'.id ≡ t.id
  pub plan_id : t'.plan_id ≡ t.plan_id
  pub section_id : t'.section_id ≡ t.section_id
  pub title : t'.title ≡ t.title
  pub task_type : t'.task_type ≡ t.task_type
  pub idempotency_key : t'.idempotency_key ≡ t.idempotency_key
  pub retry_count : t.retry_count ≤ t'.retry_count
  pub run_id : (r : String) → t.run_id ≡ some r → t'.run_id ≡ some r
  pub status : StatusMoves t.status t'.status

pub TaskMoves-refl : (t : TaskRecord) → TaskMoves t t
TaskMoves-refl t = record {
  id = refl;
  plan_id = refl;
  section_id = refl;
  title = refl;
  task_type = refl;
  idempotency_key = refl;
  retry_count = omega arith;
  run_id = λ r e. e;
  status = same refl;
}

TaskMoves-trans : {t u v : TaskRecord} → TaskMoves t u → TaskMoves u v → TaskMoves t v
TaskMoves-trans a b = record {
  id = b.id ∙ a.id;
  plan_id = b.plan_id ∙ a.plan_id;
  section_id = b.section_id ∙ a.section_id;
  title = b.title ∙ a.title;
  task_type = b.task_type ∙ a.task_type;
  idempotency_key = b.idempotency_key ∙ a.idempotency_key;
  retry_count = omega arith;
  run_id = λ r e. b.run_id r (a.run_id r e);
  status = StatusMoves-trans a.status b.status;
}

abbrev pub is_some : Option ℕ → Bool
is_some none = false
is_some (some _) = true

-- `finished_at` is stamped exactly on the runs whose status is terminal.
abbrev pub IsStamped : RunRecord → Type 0
IsStamped r = is_some r.finished_at ≡ contains terminal_states r.status

pub record RunMoves (r r' : RunRecord) : Type 0 where
  pub id : r'.id ≡ r.id
  pub project_id : r'.project_id ≡ r.project_id
  pub plan_id : r'.plan_id ≡ r.plan_id
  pub worker_job_id : r'.worker_job_id ≡ r.worker_job_id
  pub delivery_status : r'.delivery_status ≡ r.delivery_status
  pub stamp : IsStamped r → IsStamped r'

pub RunMoves-refl : (r : RunRecord) → RunMoves r r
RunMoves-refl r = record {
  id = refl;
  project_id = refl;
  plan_id = refl;
  worker_job_id = refl;
  delivery_status = refl;
  stamp = λ h. h;
}

RunMoves-trans : {r s t : RunRecord} → RunMoves r s → RunMoves s t → RunMoves r t
RunMoves-trans a b = record {
  id = b.id ∙ a.id;
  project_id = b.project_id ∙ a.project_id;
  plan_id = b.plan_id ∙ a.plan_id;
  worker_job_id = b.worker_job_id ∙ a.worker_job_id;
  delivery_status = b.delivery_status ∙ a.delivery_status;
  stamp = λ h. b.stamp (a.stamp h);
}

pub record Changes (db db' : Db) : Type 0 where
  pub tasks : Rows TaskMoves db.tasks db'.tasks
  pub runs : Rows RunMoves db.runs db'.runs
  pub dependencies : db'.dependencies ≡ db.dependencies
  pub events : db'.events ≡ db.events

-- The ids of tasks are a primary key, on which the changes rely.
pub record Moves (db db' : Db) : Type 0 where
  pub at_distinct : Distinct task_key db.tasks → Changes db db'

pub Moves-refl : (db : Db) → Moves db db
Moves-refl db = record {
  at_distinct = λ _. record {
    tasks = Rows-refl TaskMoves-refl db.tasks;
    runs = Rows-refl RunMoves-refl db.runs;
    dependencies = refl;
    events = refl;
  };
}

pub Distinct-Changes :
    {db db' : Db} → Changes db db' → Distinct task_key db.tasks → Distinct task_key db'.tasks
Distinct-Changes c d = Distinct-Rows task_key (λ t t' h. h.id) c.tasks d

pub Changes-trans : {a b c : Db} → Changes a b → Changes b c → Changes a c
Changes-trans m n = record {
  tasks = Rows-trans (λ x y z. TaskMoves-trans) m.tasks n.tasks;
  runs = Rows-trans (λ x y z. RunMoves-trans) m.runs n.runs;
  dependencies = n.dependencies ∙ m.dependencies;
  events = n.events ∙ m.events;
}

pub Moves-trans : (a b c : Db) → Moves a b → Moves b c → Moves a c
Moves-trans a b c m n = record {
  at_distinct = λ d.
      let first = m.at_distinct d in Changes-trans first (n.at_distinct (Distinct-Changes first d));
}

pub Moves-preorder : IsPreorder Moves
Moves-preorder = record { R_refl = Moves-refl; R_trans = Moves-trans }
