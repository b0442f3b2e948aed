-- ===== src/Lib.antt =====
-- The research core of Morpho, the Rust side of the desktop application
-- (apps/desktop/src-tauri/src). The core keeps plans, tasks, runs and an event log in SQLite. A worker
-- process executes tasks and sends events; the orchestrator projects every event onto the tables in a
-- write transaction, and recovery closes the runs whose worker is gone.
--
-- Parts and files:
--   Prelude, Keeps          shared lists, texts, tests, and relations that actions keep
--   Errors                  error.rs: codes, CoreError; results and actions that may fail
--   Env                     what comes from outside: serde_json values, the clock, fresh ids
--   Repositories/Tables     the records of repositories/{plans,tasks,runs,events}.rs and the state
--   Repositories/Rows       rows found and changed by primary key
--   Repositories/Transaction  with_write_tx of repositories/mod.rs
--   Repositories/Tasks, Runs, Events  the queries and updates of the three repositories
--   Repositories/Artifacts  repositories/artifacts.rs: the artifact index of the vault in the database
--   Repositories/Projects   repositories/{projects,gap_decisions}.rs
--   Orchestrator/TaskStatus, RunStatus  the two state machines of orchestrator.rs
--   Orchestrator/Transition, Gating, Cascade, Rollup, RunEvent, Apply
--                           the functions of orchestrator.rs that project one event
--   Orchestrator/Cascade/*  the growth of the cascade's queue, its fuel and what it reaches
--   Orchestrator/Moves, Projection, Replay, Commit  what holds of one event and of histories
--   Recovery                recovery.rs
--   Ids                     parse_rfc3339_ms of ids.rs
--   Repositories/Domain     the tables of the research results, and what their repositories share
--   Repositories/Domain/Sources, Nodes, Relations, Claims, Evidence
--                           repositories/{sources,knowledge,relations,claims,evidence}.rs
--   Repositories/Domain/Growth, Same, Kept, Guards, Laws
--                           tables that keep their rows and gain some, and what every write keeps
--   Ingestion               ResultIngestion::ingest of ingestion.rs
--   Ingestion/Wire, Check   the worker's records and the first pass over them
--   Ingestion/State, Cache, Resolve, Write
--                           the variables of a batch and the files, the content cache, the worker's ids,
--                           and the writer of each kind of record
--   Ingestion/Laws          what the parts of an ingestion keep, and what a whole one comes to
--   Redaction               the key test and redact_json of redaction.rs
--   Worker/*                worker/mod.rs: the supervisor's state (Jobs), starting and stopping the worker
--                           (Start, Backoff, Version), the calls to it (Calls), and what is behind
--                           the traits (Outside)
--   Worker/Advances, Steps, Tracked, Outcome, Quiet  what every operation keeps, and histories of them
--   Pump                    the event pump of state.rs: persisting, acknowledging, emitting
--   Pump/Cycle              the whole cycle, with the delivery of results and lost workers
--   Pump/Batch, Emission, Tracking  what holds of one batch, of a cycle's events and of its jobs
--   Vault/*                 vault.rs: the disk and the atomic write (Vault), the content hash (Hash), the
--                           slug of a title (Slug), quoted values (Yaml) and the writer (Writer)
--   Vault/Laws, Protection, Decision, Stored, Again
--                           what the writer leaves alone and what it stores
--   Migrations              the migration runner of db.rs; what SQL does is a parameter
--   Tests                   a sample project on which the theorems are applied
--
-- The state is `Db`: the lists of rows in the order of insertion, how often the clock was read and
-- how many ids were drawn. An operation is an `Action Db`, which returns a result and the state after
-- it; what was written before an error stays written until `with_write_tx` rolls it back, as in the
-- code. A query is a list function with its WHERE and ORDER BY; an UPDATE by key changes the first row
-- with the key. The numbers of the rows are natural numbers: the code counts up from 0, and its 64-bit
-- counters are taken not to overflow.
--
-- JSON values, the clock and fresh ids are the fields of the record `Env`, an instance argument. A
-- fresh id is taken not to collide. SQLite itself is taken to succeed where no constraint is broken:
-- the model has the checks on statuses, the keys of the event log and the count of changed rows.
--
-- Loops over rows are structural recursion. The loop of the cascade runs on fuel, two more than the
-- number of dependency rows: each round takes one task from the queue, and a task enters the queue
-- once for each dependency row at most, and the failed task once.
--
-- The supervisor's state is the record `Supervisor`, with a hash map as the list of its entries in
-- some order; what lies behind its traits (transports, clock, sleeper) is the record `Outside` with a
-- world that it changes. The loop of `ensure_started` runs on fuel, one more than the attempts that are
-- left: each round ends the loop or counts an attempt. The pump's state is the supervisor, the database
-- and the events emitted; it takes ingestion as an interface.
--
-- The state of the research results is `Domain`: the core's tables and a list of rows for each table.
-- The keys of the tables are tests that end in the database's error, at the statement that breaks
-- them, as SQLite's immediate keys do. An ingestion starts from a `Store`, the tables and the files by
-- path; inside its transaction the state is a `Batch`, with the variables of the loop. What reads the
-- worker's JSON is the record `Serde`; paths, the digest and which operation on a file fails are the
-- fields of `Ingestion/State.Outside`. An operation on a file that fails changes nothing. The projects and
-- the decisions on their gaps are the lists of a `Workspace`, beside the core's tables.
--
-- The vault's state is the record `Disk`: files by path and the artifact index. An operation on them
-- changes nothing and fails, or has its effect; which one fails is the field `trouble` of its
-- `Outside`, so a theorem on every such record holds of every pattern of failures. Whether the metadata
-- of a path cannot be read, so that `exists` answers false, is the field `hidden`. A write that fails
-- part-way is taken to leave the temporary file as it was created.
--
-- Not modelled: the insertion of plans, tasks and runs, the repositories of configurations
-- and usage with services.rs, coverage, the texts of the migrations, the rendering of notes,
-- secrets, the redaction of free text, the transports of the worker and the commands. Other threads
-- between the phases of a pump cycle are not modelled either.
-- The error's correlation id, cause and redaction are left out, since no modelled code reads them.
pub mod Prelude
pub mod Errors
pub mod Keeps
pub mod Env
pub mod Ids
pub mod Repositories
pub mod Orchestrator
pub mod Recovery
pub mod Migrations
pub mod Redaction
pub mod Worker
pub mod Vault
pub mod Ingestion
pub mod Pump
pub mod Tests
