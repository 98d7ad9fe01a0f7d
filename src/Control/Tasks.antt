-- ===== src/Control/Tasks.antt =====
-- go-watch-file/internal/api/control_handlers.go: creation, cancellation and retry of tasks.
use go_watch_file.Base.{ℕ, ◌+◌, ◌||◌, Option, none, some, [], ◌++◌, if◌then◌else◌, leb}
use go_watch_file.Base.Str.{Str, bytes, text, is_empty, str_eq, to_lower, pad6}
use go_watch_file.Base.Trim.{trim_space}
use go_watch_file.Base.Assoc.{lookup, insert}
use go_watch_file.Control.Types.{
  pending, canceled, TaskState, CreateTaskRequest, Reply, done, refused, num, str, end, field,
  is_task_terminal, is_retryable_status, is_cancelable_status, has_retry_budget,
  build_retried_state,
}
use go_watch_file.Control.Db.{Handler, persist_task, append_task_event, append_audit_log}
use go_watch_file.Control.Agents.{u64}

-- toControlTaskDTO
abbrev pub task_dto : TaskState → TaskState
task_dto t = record t { failure_reason = trim_space t.failure_reason }

-- The common end of every change of a task: the row is written, and only then the map; `after`
-- appends the events and the audit log.
unfoldable pub save_task :
    Str → TaskState → (Handler → Handler) → Handler → Handler × Reply TaskState
save_task key t after h =
    let (h', ok) = persist_task t h in
    if ok
    then (after (record h' { tasks = insert key t h'.tasks }), done (task_dto t))
    else (h', refused 500 "persist control task failed")

-- normalizeControlPriority
unfoldable pub normalize_priority : Str → Str
normalize_priority raw =
    let p = to_lower (trim_space raw) in
    if str_eq p (bytes "low")
    then bytes "low"
    else if str_eq p (bytes "high")
    then bytes "high"
    else bytes "normal"

-- normalizeCreatedBy
unfoldable pub normalize_created_by : Str → Str
normalize_created_by raw = if is_empty (trim_space raw) then bytes "console" else trim_space raw

-- nextControlTaskIDLocked, whose number is `controlNextTaskSeq` after the increment.
unfoldable pub task_id_of : ℕ → Str
task_id_of seq = bytes "tsk-" ++ pad6 seq

-- The task that controlCreateTask builds.
unfoldable pub new_task : Str → CreateTaskRequest → ℕ → TaskState
unfolding normalize_priority normalize_created_by
new_task id req now = record {
  id = id;
  kind = trim_space req.kind;
  target = trim_space req.target;
  payload = req.payload;
  priority = normalize_priority req.priority;
  status = pending;
  failure_reason = [];
  assigned_agent_id = [];
  retry_count = 0;
  max_retries = if leb req.max_retries 0 then 3 else req.max_retries;
  created_by = normalize_created_by req.created_by;
  created_at = now;
  updated_at = now;
  finished_at = none;
}

abbrev log_created : TaskState → ℕ → Handler → Handler
log_created t now h =
    append_audit_log t.created_by (text "task_create") (text "task") t.id
      (field (text "type") (str t.kind) (
        field (text "target") (str t.target) (
          field (text "priority") (str t.priority)
            (field (text "maxRetries") (num t.max_retries) end))))
      now (append_task_event t.id [] (text "created") (text "任务已创建") now h)

-- controlCreateTask; `none` is a body that is no JSON.
unfoldable pub create_task : Option CreateTaskRequest → ℕ → Handler → Handler × Reply TaskState
unfolding task_id_of
create_task none now h = (h, refused 400 "invalid payload")
create_task (some req) now h =
    if is_empty (trim_space req.kind) || is_empty (trim_space req.target)
    then (h, refused 400 "type and target are required")
    else let seq = u64 (h.next_task_seq + 1) in
      let t = new_task (task_id_of seq) req now in
      save_task t.id t (log_created t now) (record h { next_task_seq = seq })

unfoldable pub canceled_state : TaskState → ℕ → TaskState
canceled_state t now = record t {
  status = canceled;
  failure_reason = bytes "manual_cancel";
  updated_at = now;
  finished_at = some now;
}

abbrev log_canceled : Str → TaskState → ℕ → Handler → Handler
log_canceled id t now h =
    append_audit_log (text "console") (text "task_cancel") (text "task") id
      (field (text "type") (str t.kind) (field (text "status") (str (text "canceled")) end)) now
      (append_task_event id t.assigned_agent_id (text "canceled") (text "任务已取消") now h)

unfoldable pub cancel_found : Option TaskState → Str → ℕ → Handler → Handler × Reply TaskState
cancel_found none id now h = (h, refused 404 "task not found")
cancel_found (some t) id now h =
    if is_task_terminal t.status
    then (h, refused 409 "task already finished")
    else if is_cancelable_status t.status
    then save_task id (canceled_state t now) (log_canceled id t now) h
    else (h, refused 409 "task status does not support cancel")

-- controlCancelTask
unfoldable pub cancel_task : Str → ℕ → Handler → Handler × Reply TaskState
unfolding cancel_found
cancel_task id now h = cancel_found (lookup id h.tasks) id now h

abbrev log_retried : Str → TaskState → ℕ → Handler → Handler
log_retried id t now h =
    append_audit_log (text "console") (text "task_retry") (text "task") id
      (field (text "type") (str t.kind) (
        field (text "retryCount") (num t.retry_count)
          (field (text "maxRetries") (num t.max_retries) end)))
      now (append_task_event id [] (text "retried") (text "任务已重试并重新进入 pending") now h)

unfoldable pub retry_found : Option TaskState → Str → ℕ → Handler → Handler × Reply TaskState
retry_found none id now h = (h, refused 404 "task not found")
retry_found (some t) id now h =
    if is_retryable_status t.status
    then (if has_retry_budget t
        then (let next = build_retried_state t now in save_task id next (log_retried id next now) h)
        else (h, refused 409 "max retries reached"))
    else (h, refused 409 "task status does not support retry")

-- controlRetryTask
unfoldable pub retry_task : Str → ℕ → Handler → Handler × Reply TaskState
unfolding retry_found
retry_task id now h = retry_found (lookup id h.tasks) id now h
