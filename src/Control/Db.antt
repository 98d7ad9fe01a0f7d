-- ===== src/Control/Db.antt =====
-- go-watch-file/internal/api/control_store.go: the writes of the SQLite store, and the handler's state. The
-- database is a service: its tables are modelled by what the statements of the source do to them,
-- and `faults` says of the coming statements, one by one, whether they fail.
use go_watch_file.Base.{
  ℕ, Bool, true, false, Option, none, some, List, [], ◌∷◌, ◌++◌, if◌then◌else◌, ◌||◌,
}
use go_watch_file.Base.Str.{Str, is_empty}
use go_watch_file.Base.Trim.{trim_space}
use go_watch_file.Base.Assoc.{insert}
use go_watch_file.Control.Types.{AgentState, TaskState, Fields}

-- A row of control_task_events.
pub record TaskEvent : Type 0 where
  pub task_id : Str
  pub agent_id : Str
  pub event_type : Str
  pub message : Str
  pub event_time : ℕ

-- A row of control_audit_logs.
pub record AuditLog : Type 0 where
  pub operator : Str
  pub action : Str
  pub resource_type : Str
  pub resource_id : Str
  pub detail : Fields
  pub created_at : ℕ

pub record Db : Type 0 where
  pub agent_rows : List (Str × AgentState)
  pub task_rows : List (Str × TaskState)
  pub event_rows : List TaskEvent
  pub audit_rows : List AuditLog
  pub faults : List Bool

abbrev pub fails : List Bool → Bool
fails [] = false
fails (f ∷ fs) = f

abbrev pub later : List Bool → List Bool
later [] = []
later (f ∷ fs) = fs

-- One statement: on an error the tables stay as they are.
abbrev pub exec : (Db → Db) → Db → Db × Bool
exec change d =
    let d' : Db = record d { faults = later d.faults } in
    if fails d.faults then (d', false) else (change d', true)

-- UpsertAgent
unfoldable pub upsert_agent : AgentState → Db → Db × Bool
upsert_agent a = exec (λ d. record d { agent_rows = insert a.id a d.agent_rows })

-- The row that UpsertTask writes.
abbrev pub task_row : TaskState → TaskState
task_row t = record t { failure_reason = trim_space t.failure_reason }

-- UpsertTask
unfoldable pub upsert_task : TaskState → Db → Db × Bool
upsert_task t = exec (λ d. record d { task_rows = insert t.id (task_row t) d.task_rows })

-- InsertTaskEvent
unfoldable pub insert_task_event : TaskEvent → Db → Db × Bool
insert_task_event e d =
    if is_empty (trim_space e.task_id) || is_empty (trim_space e.event_type)
    then (d, false)
    else exec (λ d. record d { event_rows = d.event_rows ++ event ∷ [] }) d
  where
    event : TaskEvent
    event = record e {
      task_id = trim_space e.task_id;
      agent_id = trim_space e.agent_id;
      event_type = trim_space e.event_type;
      message = trim_space e.message;
    }

-- InsertAuditLog
unfoldable pub insert_audit_log : AuditLog → Db → Db × Bool
insert_audit_log l d =
    if is_empty (trim_space l.action) || is_empty (trim_space l.resource_type)
    then (d, false)
    else exec (λ d. record d { audit_rows = d.audit_rows ++ entry ∷ [] }) d
  where
    entry : AuditLog
    entry = record l {
      operator = trim_space l.operator;
      action = trim_space l.action;
      resource_type = trim_space l.resource_type;
      resource_id = trim_space l.resource_id;
    }

-- The part of `handler` that the control plane keeps; controlMu makes each request one step.
pub record Handler : Type 0 where
  pub agents : List (Str × AgentState)
  pub agent_key_idx : List (Str × Str)
  pub tasks : List (Str × TaskState)
  pub next_agent_seq : ℕ
  pub next_task_seq : ℕ
  pub store : Option Db

-- With no store nothing is written and nothing fails.
abbrev pub on_store : (Db → Db × Bool) → Option Db → Option Db × Bool
on_store f none = (none, true)
on_store f (some d) = let (d', ok) = f d in (some d', ok)

-- persistControlAgentLocked
unfoldable pub persist_agent : AgentState → Handler → Handler × Bool
persist_agent a h = let (s, ok) = on_store (upsert_agent a) h.store in (record h { store = s }, ok)

-- persistControlTaskLocked
unfoldable pub persist_task : TaskState → Handler → Handler × Bool
persist_task t h = let (s, ok) = on_store (upsert_task t) h.store in (record h { store = s }, ok)

-- controlAppendTaskEventLocked; an error is logged.
unfoldable pub append_task_event : Str → Str → Str → Str → ℕ → Handler → Handler
append_task_event task_id agent_id event_type message at h = record h {
  store = (on_store (insert_task_event event) h.store).0;
}
  where
    event : TaskEvent
    event = record {
      task_id = task_id;
      agent_id = agent_id;
      event_type = event_type;
      message = if is_empty (trim_space message) then [] else message;
      event_time = at;
    }

-- controlAppendAuditLogLocked; an error is logged.
unfoldable pub append_audit_log : Str → Str → Str → Str → Fields → ℕ → Handler → Handler
append_audit_log operator action resource_type resource_id detail at h = record h {
  store = (on_store (insert_audit_log entry) h.store).0;
}
  where
    entry : AuditLog
    entry = record {
      operator = operator;
      action = action;
      resource_type = resource_type;
      resource_id = resource_id;
      detail = detail;
      created_at = at;
    }
