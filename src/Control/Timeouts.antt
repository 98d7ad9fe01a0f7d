-- ===== src/Control/Timeouts.antt =====
-- go-watch-file/internal/api/control_dispatch.go, controlApplyTimeoutsLocked: tasks that were assigned or run too
-- long. Metrics are left out.
use go_watch_file.Base.{ℕ, ◌+◌, Bool, true, false, some, List, [], ◌∷◌, if◌then◌else◌, leb}
use go_watch_file.Base.Str.{Str, bytes, text}
use go_watch_file.Base.Assoc.{insert}
use go_watch_file.Control.Types.{
  TaskStatus, pending, assigned, running, timeout, TaskState, str, num, boolean, end, field,
  default_assign_timeout, default_run_timeout, has_retry_budget, build_retried_state,
}
use go_watch_file.Control.Db.{Handler, persist_task, append_task_event, append_audit_log}

-- `persist …; if err return err; h.controlTasks[id] = next`, and the events. The result says whether
-- the loop goes on.
unfoldable pub store_task : Str → TaskState → (Handler → Handler) → Handler → Handler × Bool
store_task id next after h =
    let (h', ok) = persist_task next h in
    if ok then (after (record h' { tasks = insert id next h'.tasks }), true) else (h', false)

unfoldable pub reclaimed_state : TaskState → ℕ → TaskState
reclaimed_state t now = record t { status = pending; assigned_agent_id = []; updated_at = now }

unfoldable pub timed_out_state : TaskState → ℕ → TaskState
timed_out_state t now = record t {
  status = timeout;
  failure_reason = bytes "run_timeout";
  updated_at = now;
  finished_at = some now;
}

abbrev log_timeout : Str → TaskState → Bool → ℕ → ℕ → Handler → Handler
log_timeout id t retried count now =
    append_audit_log (text "system") (text "task_timeout") (text "task") id
      (field (text "agentId") (str t.assigned_agent_id) (
        field (text "type") (str t.kind) (
          field (text "autoRetried") (boolean retried) (
            field (text "retryCount") (num count)
              (field (text "maxRetries") (num t.max_retries) end)))))
      now

abbrev log_reclaimed : Str → TaskState → ℕ → Handler → Handler
log_reclaimed id t now =
    append_task_event id t.assigned_agent_id (text "assign_timeout") (text "任务分配超时，已回收重新排队") now

abbrev log_auto_retried : Str → TaskState → ℕ → Handler → Handler
log_auto_retried id t now h = log_timeout id t true (t.retry_count + 1) now (
    append_task_event id [] (text "retried") (text "任务因运行超时触发自动重试") now
      (append_task_event id t.assigned_agent_id (text "timeout") (text "任务运行超时，已自动重试并重新排队") now h))

abbrev log_timed_out : Str → TaskState → ℕ → Handler → Handler
log_timed_out id t now h =
    log_timeout id t false t.retry_count now
      (append_task_event id t.assigned_agent_id (text "timeout") (text "任务运行超时，已标记为 timeout") now h)

-- The body of the loop, by the status of the task.
unfoldable pub apply_timeout : TaskStatus → Str → TaskState → ℕ → Handler → Handler × Bool
apply_timeout assigned id t now h =
    if leb now (t.updated_at + default_assign_timeout)
    then (h, true)
    else store_task id (reclaimed_state t now) (log_reclaimed id t now) h
apply_timeout running id t now h =
    if leb now (t.updated_at + default_run_timeout)
    then (h, true)
    else if has_retry_budget t
    then store_task id (build_retried_state t now) (log_auto_retried id t now) h
    else store_task id (timed_out_state t now) (log_timed_out id t now) h
apply_timeout _ id t now h = (h, true)

-- The loop over the tasks; each entry is read before it is changed.
unfoldable pub apply_timeouts : List (Str × TaskState) → ℕ → Handler → Handler × Bool
apply_timeouts [] now h = (h, true)
apply_timeouts ((id, t) ∷ rest) now h =
    let (h', ok) = apply_timeout t.status id t now h in
    let after = apply_timeouts rest now h' in if ok then after else (h', false)
