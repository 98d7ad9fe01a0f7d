-- ===== src/Control/Types.antt =====
-- go-watch-file/internal/api/control_handlers.go, control_dispatch.go: the agents, the tasks and the requests of
-- the control plane. A time is a number of nanoseconds, 0 the zero time. The status of a task is
-- only ever one of the seven constants, and that of an agent one of three.
use go_watch_file.Base.{ℕ, ◌+◌, Bool, true, false, Option, none, List, [], String, ltb}
use go_watch_file.Base.Str.{Str}

pub data TaskStatus : Type 0 where
  pending assigned running success failed canceled timeout : TaskStatus

pub data AgentStatus : Type 0 where
  online offline draining : AgentStatus

-- A value of `map[string]any`; `float` is the bit pattern of a float64.
mutual
  pub data Json : Type 0 where
    null : Json
    boolean : Bool → Json
    num : ℕ → Json
    float : ℕ → Json
    str : Str → Json
    arr : Items → Json
    obj : Fields → Json

  pub data Items : Type 0 where
    nil : Items
    cons : Json → Items → Items

  pub data Fields : Type 0 where
    end : Fields
    field : Str → Json → Fields → Fields

-- controlAgentState
pub record AgentState : Type 0 where
  pub id : Str
  pub agent_key : Str
  pub hostname : Str
  pub version : Str
  pub ip : Str
  pub group_name : Str
  pub status : AgentStatus
  pub last_seen_at : ℕ
  pub created_at : ℕ
  pub updated_at : ℕ
  pub heartbeat_count : ℕ

-- controlTaskState; the field `Type` is `kind`.
pub record TaskState : Type 0 where
  pub id : Str
  pub kind : Str
  pub target : Str
  pub payload : Fields
  pub priority : Str
  pub status : TaskStatus
  pub failure_reason : Str
  pub assigned_agent_id : Str
  pub retry_count : ℕ
  pub max_retries : ℕ
  pub created_by : Str
  pub created_at : ℕ
  pub updated_at : ℕ
  pub finished_at : Option ℕ

pub record RegisterAgentRequest : Type 0 where
  pub agent_key : Str
  pub hostname : Str
  pub version : Str
  pub ip : Str
  pub group_name : Str

pub record AgentHeartbeatRequest : Type 0 where
  pub hostname : Str
  pub version : Str
  pub ip : Str

-- A number of the request that is not positive is given as 0.
pub record CreateTaskRequest : Type 0 where
  pub kind : Str
  pub target : Str
  pub payload : Fields
  pub priority : Str
  pub created_by : Str
  pub max_retries : ℕ

pub record DispatchPullRequest : Type 0 where
  pub agent_id : Str
  pub accept_types : List Str
  pub max_tasks : ℕ

pub record TaskAckRequest : Type 0 where
  pub agent_id : Str
  pub message : Str

pub record TaskProgressRequest : Type 0 where
  pub agent_id : Str
  pub message : Str
  pub progress : ℕ

pub record TaskCompleteRequest : Type 0 where
  pub agent_id : Str
  pub status : Str
  pub message : Str
  pub error : Str

-- What writeJSON sends: 200 with a body, or a status code and the text of the error.
pub data Reply (A : Type 0) : Type 0 where
  done : A → Reply A
  refused : ℕ → String → Reply A

-- 30 s, 10 min, in nanoseconds.
abbrev pub default_assign_timeout : ℕ
default_assign_timeout = 30000000000

abbrev pub default_run_timeout : ℕ
default_run_timeout = 600000000000

abbrev pub is_pending : TaskStatus → Bool
is_pending pending = true
is_pending _ = false

abbrev pub is_assigned : TaskStatus → Bool
is_assigned assigned = true
is_assigned _ = false

abbrev pub is_running : TaskStatus → Bool
is_running running = true
is_running _ = false

abbrev pub is_failed : TaskStatus → Bool
is_failed failed = true
is_failed _ = false

abbrev pub is_draining : AgentStatus → Bool
is_draining draining = true
is_draining _ = false

-- isTaskTerminal
abbrev pub is_task_terminal : TaskStatus → Bool
is_task_terminal success = true
is_task_terminal failed = true
is_task_terminal timeout = true
is_task_terminal canceled = true
is_task_terminal _ = false

-- isControlTaskRetryableStatus
abbrev pub is_retryable_status : TaskStatus → Bool
is_retryable_status failed = true
is_retryable_status timeout = true
is_retryable_status canceled = true
is_retryable_status _ = false

-- isControlTaskCancelableStatus
abbrev pub is_cancelable_status : TaskStatus → Bool
is_cancelable_status pending = true
is_cancelable_status assigned = true
is_cancelable_status running = true
is_cancelable_status _ = false

-- hasControlTaskRetryBudget
abbrev pub has_retry_budget : TaskState → Bool
has_retry_budget t = ltb t.retry_count t.max_retries

-- buildControlTaskRetriedState
unfoldable pub build_retried_state : TaskState → ℕ → TaskState
build_retried_state t now = record t {
  retry_count = t.retry_count + 1;
  status = pending;
  failure_reason = [];
  assigned_agent_id = [];
  updated_at = now;
  finished_at = none;
}
