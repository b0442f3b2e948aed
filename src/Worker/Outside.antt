-- ===== src/Worker/Outside.antt =====
-- What the supervisor takes from outside: the transports and the processes behind them (the traits
-- `WorkerTransport`, `Clock` and `Sleeper` and the `TransportFactory`), the wire records, and the
-- operations of serde_json that redaction goes through.
use morpho_research_os.Prelude.{ℕ, String, Bool, Option, List}
use morpho_research_os.Errors.{Action}
use morpho_research_os.Env.{Env}
use morpho_research_os.Redaction.{Json}

pub record HealthInfo : Type 0 where
  pub status : String
  pub protocol_version : String

pub record WorkerVersionInfo : Type 0 where
  pub worker_version : String
  pub protocol_min : String
  pub protocol_max : String

pub record JobRequest (Value : Type 0) : Type 0 where
  pub job_id : String
  pub run_id : String
  pub task_id : Option String
  pub kind : String
  pub params : Value
  pub approve_plan : Bool
  pub plan : Option Value

pub record JobAck : Type 0 where
  pub job_id : String
  pub accepted : Bool

pub record WorkerEvent (Value : Type 0) : Type 0 where
  pub job_id : String
  pub sequence : ℕ
  pub event_type : String
  pub payload : Value

-- `World` is the state of everything behind the traits; a transport is a handle into it.
pub record Outside (env : Env) : Type 1 where
  pub World : Type 0
  pub Transport : Type 0
  pub factory : Action World Transport
  pub spawn : Transport → String → Action World (Unit {0})
  pub health : Transport → Action World HealthInfo
  pub version : Transport → Action World WorkerVersionInfo
  pub post_job : Transport → JobRequest env.Value → Action World JobAck
  pub get_status : Transport → String → Action World env.Value
  pub post_cancel : Transport → String → Action World (Unit {0})
  pub get_events : Transport → String → ℕ → Action World (List (WorkerEvent env.Value))
  pub get_results : Transport → String → Action World env.Value
  pub stop : Transport → Action World (Unit {0})
  pub is_alive : Transport → World → Bool
  pub sleep_ms : ℕ → World → World
  pub now_ms : World → ℕ
  -- `uuid::Uuid::new_v4`.
  pub new_token : World → String × World
  -- A `Value` as the tree it is, and back.
  pub tree : env.Value → Json
  pub of_tree : Json → env.Value
  -- `serde_json::from_str::<Value>`, if the text is JSON.
  pub from_str : String → Option env.Value
