-- ===== src/Repositories/Tables.antt =====
-- The tables that the orchestrator reads and writes (migrations 001, 002, 003, 004 and 006) and their
-- records. Timestamps, counters and sequence numbers are natural numbers: the code stores them, and
-- counts up from 0.
use morpho_research_os.Prelude.{ℕ, String, Option, List}

-- `TaskRecord` (repositories/plans.rs).
pub record TaskRecord : Type 0 where
  pub id : String
  pub plan_id : String
  pub section_id : Option String
  pub run_id : Option String
  pub title : String
  pub description : String
  pub task_type : String
  pub status : String
  pub idempotency_key : String
  pub checkpoint : Option String
  pub retry_count : ℕ
  pub max_retries : ℕ
  pub cache_ref : Option String
  pub result_ref : Option String
  pub error_ref : Option String
  pub skip_reason : Option String
  pub created_at : ℕ
  pub updated_at : ℕ

-- `TaskDependencyRecord` (repositories/tasks.rs).
pub record TaskDependencyRecord : Type 0 where
  pub task_id : String
  pub depends_on_task_id : String
  pub condition : String

-- `RunRecord` (repositories/runs.rs).
pub record RunRecord : Type 0 where
  pub id : String
  pub project_id : String
  pub plan_id : String
  pub status : String
  pub started_at : Option ℕ
  pub finished_at : Option ℕ
  pub created_at : ℕ
  pub updated_at : ℕ
  pub worker_job_id : Option String
  pub delivery_status : String

-- `NewEvent` and `EventRecord` (repositories/events.rs).
pub record NewEvent : Type 0 where
  pub run_id : String
  pub task_id : Option String
  pub event_type : String
  pub payload : String

pub record EventRecord : Type 0 where
  pub id : String
  pub run_id : String
  pub task_id : Option String
  pub sequence : ℕ
  pub event_type : String
  pub payload : String
  pub created_at : ℕ

-- The tables, and how many times the clock was read and an identifier drawn.
pub record Db : Type 0 where
  pub tasks : List TaskRecord
  pub runs : List RunRecord
  pub dependencies : List TaskDependencyRecord
  pub events : List EventRecord
  pub reads : ℕ
  pub drawn : ℕ
