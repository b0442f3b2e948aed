-- ===== src/Tests/Sample.antt =====
-- A small project for tests: run `run-1` of plan `plan-1` with task `task-1`,
-- and task `task-2` that waits for it.
use mathlib.Core.Option
use morpho_research_os.Prelude.{
  String, Option, none, some, List, [], ◌∷◌, inr, ◌==◌, if◌then◌else◌, str_eq, find, is_empty, map,
  format,
}
use morpho_research_os.Env.{Env}
use morpho_research_os.Repositories.Tables.{Db, TaskRecord, RunRecord}
use morpho_research_os.Orchestrator.Event.{CanonicalEvent}

-- JSON objects whose members are texts; a text by itself is the member with the empty name.
abbrev pub Json : Type 0
Json = List (String × String)

abbrev member : String → Json → Option String
member key v = Option.map (λ p. p.1) (find (λ p. str_eq p.0 key) v)

abbrev json_text : String → Json
json_text s = ("", s) ∷ []

abbrev text_of : Json → String
text_of v = elim (member "" v) [ none ↦ "" | some s ↦ s ]

instance abbrev pub example_env : Env
example_env = record {
  Value = Json;
  get = λ v key. Option.map json_text (member key v);
  as_str = member "";
  is_null = is_empty;
  null = [];
  text = json_text;
  flag = λ b. json_text (if b then "true" else "false");
  object = map (λ p. (p.0, text_of p.1));
  to_string = λ v. inr (format (map (λ p. p.1) v));
  parse_error = λ _. none;
  clock = λ n. n;
  uuid = λ n. if n == 0 then "id-0" else "id-1";
}

abbrev pub task : String → String → Option String → TaskRecord
task id status run_id = record {
  id = id;
  plan_id = "plan-1";
  section_id = none;
  run_id = run_id;
  title = "";
  description = "";
  task_type = "search";
  status = status;
  idempotency_key = id;
  checkpoint = none;
  retry_count = 0;
  max_retries = 3;
  cache_ref = none;
  result_ref = none;
  error_ref = none;
  skip_reason = none;
  created_at = 0;
  updated_at = 0;
}

abbrev pub run : String → RunRecord
run status = record {
  id = "run-1";
  project_id = "project-1";
  plan_id = "plan-1";
  status = status;
  started_at = some 0;
  finished_at = none;
  created_at = 0;
  updated_at = 0;
  worker_job_id = none;
  delivery_status = "pending";
}

-- The project with the given statuses of `task-1` and of the run.
abbrev pub project_db : String → String → Db
project_db task_status run_status = record {
  tasks = task "task-1" task_status (some "run-1") ∷ task "task-2" "PENDING" (some "run-1") ∷ [];
  runs = run run_status ∷ [];
  dependencies =
      record { task_id = "task-2"; depends_on_task_id = "task-1"; condition = "completed" } ∷ [];
  events = [];
  reads = 0;
  drawn = 0;
}

abbrev pub event : String → String → CanonicalEvent Json
event event_type task_id = record {
  run_id = "run-1";
  task_id = some task_id;
  event_type = event_type;
  payload = [];
}
