-- ===== src/Orchestrator/Transition/Laws.antt =====
-- Loading and parsing, as the proofs read them.
use morpho_research_os.Prelude.{String, some, ◌≡◌, arith}
use morpho_research_os.Errors.{ok, Action, ◌>>=◌, bind_ok}
use morpho_research_os.Repositories.Tables.{Db, TaskRecord}
use morpho_research_os.Repositories.Tasks
use morpho_research_os.Orchestrator.TaskStatus
use morpho_research_os.Orchestrator.TaskStatus.{TaskStatus}
use morpho_research_os.Orchestrator.Transition.{load_task, parse_task_status}

pub get_of_load :
    (id : String) (db : Db) {t : TaskRecord} → (load_task id db).0 ≡ ok t → Tasks.get id db ≡ some t
unfolding load_task
get_of_load id db h = ground arith

pub parse_of_ok :
    (s : String) {a : TaskStatus} → parse_task_status s ≡ ok a → TaskStatus.parse s ≡ some a
unfolding parse_task_status
parse_of_ok s h = ground arith

pub load_bind_ok :
    {B : Type 0} (id : String) (f : TaskRecord → Action Db B) (db : Db) {b : B}
    → ((load_task id >>= f) db).0 ≡ ok b
    → (t : TaskRecord) × (Tasks.get id db ≡ some t) × ((f t db).0 ≡ ok b)
unfolding load_task
load_bind_ok id f db h =
    let (t, e, k) = bind_ok (load_task id) f db h in (t, get_of_load id db e, k)
