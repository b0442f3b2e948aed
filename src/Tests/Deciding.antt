-- ===== src/Tests/Deciding.antt =====
-- The theorems on the decisions of a project, applied to the sample project.
use morpho_research_os.Prelude.{none, some, [], ◌∷◌, ◌≡◌, refl}
use morpho_research_os.Errors.{ok, ◌>>=◌}
use morpho_research_os.Repositories.Rows.{row, modify}
use morpho_research_os.Repositories.Tasks
use morpho_research_os.Repositories.Projects
use morpho_research_os.Repositories.Projects.{
  Workspace, GapDecisionRecord, upsert, update_status, list_decisions,
}
use morpho_research_os.Repositories.Projects.Laws.{Decided, upsert-Decided}
use morpho_research_os.Tests.Sample.{example_env, project_db}

abbrev workspace : Workspace
workspace = record {
  core = project_db "RUNNING" "running";
  projects =
      record {
        id = "project-1";
        name = "";
        description = "";
        status = "active";
        created_at = 0;
        updated_at = 0;
      }
      ∷ [];
  decisions =
      record {
        project_id = "project-1";
        dimension = "market";
        status = "dismissed";
        created_task_id = none;
        created_at = 0;
        updated_at = 0;
      }
      ∷ [];
}

abbrev approved : GapDecisionRecord
approved = record {
  project_id = "project-1";
  dimension = "market";
  status = "approved";
  created_task_id = some "task-2";
  created_at = 0;
  updated_at = 0;
}

approval_runs : (upsert "project-1" "market" "approved" (some "task-2") workspace).0 ≡ ok approved
unfolding upsert Projects.ensure Projects.now Projects.get Projects.get_decision Projects.place
    Projects.run_statement Tasks.get row ◌>>=◌
approval_runs = refl

archive_runs : (update_status "project-1" "archived" workspace).1.decisions ≡ workspace.decisions
unfolding update_status Projects.ensure Projects.now Projects.get Projects.run_statement row modify
    ◌>>=◌
archive_runs = refl

upsert-Decided_example :
    Decided "project-1" "market" "approved"
      (some "task-2")
      approved
      (upsert "project-1" "market" "approved" (some "task-2") workspace).1
upsert-Decided_example =
    upsert-Decided "project-1" "market" "approved" (some "task-2") workspace approved approval_runs
