-- ===== src/Tasks/Model.antt =====
-- src/llm_sca_tooling/mcp_server/tasks.py, config.py and telemetry.py: the data of a task manager.
-- A time is the number of microseconds that an ISO text stands for. `J` is the type of JSON objects.
use Prim.Native.String.{◌++◌ as append}
use llm_sca_tooling.Prelude.{ℕ, ◌*◌, ◌&&◌, String, Bool, Option, none, some, List}
use llm_sca_tooling.Prelude.Dict.{Dict}

pub data TaskStatus : Type 0 where
  created queued running cancelling cancelled failed completed expired : TaskStatus

-- The values of the protocol's closed enumeration that `_STATUS_MAP` uses.
pub data ProtocolStatus : Type 0 where
  working cancelled failed completed : ProtocolStatus

unfoldable pub status_map : TaskStatus → ProtocolStatus
status_map created = working
status_map queued = working
status_map running = working
status_map cancelling = working
status_map cancelled = cancelled
status_map failed = failed
status_map completed = completed
status_map expired = failed

-- The two shapes of `progress` that the code writes.
pub data Progress : Type 0 where
  brief : (stage : String) (percent : ℕ) → Progress
  full :
      (stage : String) (message : Option String) (percent : Option ℕ) (counts : Dict ℕ) (ts : ℕ)
      → Progress

-- The `error` object of a failed task.
pub record TaskError : Type 0 where
  pub code : String
  pub message : String

pub record TaskRecord (J : Type 0) : Type 0 where
  pub task_id : String
  pub tool_name : String
  pub status : TaskStatus
  pub created_ts : ℕ
  pub started_ts : Option ℕ
  pub updated_ts : ℕ
  pub completed_ts : Option ℕ
  pub expires_ts : ℕ
  pub ttl_seconds : ℕ
  pub poll_interval_seconds : ℕ
  pub progress : Progress
  pub authorization_context_hash : Option String
  pub input_hash : String
  pub result : Option J
  pub error : Option TaskError
  pub run_id : Option String
  pub event_ids : List String
  pub cancellation_requested : Bool
  pub metadata : J

-- `Task` on the wire.
pub record ProtocolTask : Type 0 where
  pub task_id : String
  pub status : ProtocolStatus
  pub created_at : ℕ
  pub last_updated_at : ℕ
  pub ttl : ℕ
  pub poll_interval : ℕ
  pub status_message : Option String

unfoldable pub status_message : TaskStatus → Option TaskError → Option String
status_message completed e = some "completed"
status_message _ none = none
status_message _ (some e) = some e.message

pub record Config : Type 0 where
  pub single_user : Bool
  pub enable_task_list : Bool
  pub task_ttl_seconds_default : ℕ
  pub task_ttl_seconds_max : ℕ
  pub task_poll_interval_seconds : ℕ

unfoldable pub task_listing_allowed : Config → Bool
task_listing_allowed c = c.single_user && c.enable_task_list

pub record TelemetryEvent : Type 0 where
  pub type : String
  pub status : TaskStatus
  pub task_id : String
  pub payload : Option Progress
  pub ts : ℕ

-- A coroutine of `_execute` is scheduled by `create_task`, and then waits for its runner.
pub data Phase : Type 0 where
  scheduled awaiting : Phase

-- `_tasks`, `_running`, the file at `_path` and the telemetry of a server.
pub record Manager (J : Type 0) : Type 0 where
  pub tasks : Dict (TaskRecord J)
  pub running : Dict Phase
  pub saved : Dict (TaskRecord J)
  pub telemetry_enabled : Bool
  pub events : List TelemetryEvent

-- `TaskNotFound` and `ToolPermissionDenied`.
pub data Error : Type 0 where
  task_not_found : (task_id : String) → Error
  tool_permission_denied : (message : String) → Error

-- `type(exc).__name__`
unfoldable pub error_code : Error → String
error_code (task_not_found id) = "TaskNotFoundError"
error_code (tool_permission_denied m) = "ToolPermissionDeniedError"

-- `str(exc)`, where a task's name holds no quote.
unfoldable pub error_message : Error → String
error_message (task_not_found id) = append "Task '" (append id "' not found")
error_message (tool_permission_denied m) = m

pub data Result {ℓ} (A : Type ℓ) : Type ℓ where
  ok : A → Result A
  err : Error → Result A

-- A method returns the manager that it leaves behind, also where it raises.
abbrev pub Call : Type 0 → Type 0 → Type 0
Call J A = Manager J × Result A

-- The rest of a method, after a call that may raise.
abbrev pub and_then : {J A B : Type 0} → Call J A → (A → Manager J → Call J B) → Call J B
and_then r f = elim r.1 [ err e ↦ (r.0, err e) | ok a ↦ f a r.0 ]

-- How the runner of a task ends: with a value, or with an exception's name and text.
pub data Outcome (J : Type 0) : Type 0 where
  returned : J → Outcome J
  raised : (code message : String) → Outcome J

module _ {J : Type 0} where
  unfoldable pub to_protocol_task : TaskRecord J → ProtocolTask
  unfolding status_map status_message
  to_protocol_task t = record {
    task_id = t.task_id;
    status = status_map t.status;
    created_at = t.created_ts;
    last_updated_at = t.updated_ts;
    ttl = t.ttl_seconds * 1000;
    poll_interval = t.poll_interval_seconds * 1000;
    status_message = status_message t.status t.error;
  }
