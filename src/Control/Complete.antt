-- ===== src/Control/Complete.antt =====
-- go-watch-file/internal/api/control_dispatch.go, controlCompleteTask, with the reason of a failure of
-- control_failure_reasons.go.
use go_watch_file.Base.{ℕ, not, ◌&&◌, Option, none, some, [], ◌++◌, if◌then◌else◌, drop}
use go_watch_file.Base.Str.{Str, bytes, text, is_empty, str_eq, to_lower, has_prefix}
use go_watch_file.Base.Trim.{trim_space}
use go_watch_file.Base.Assoc.{lookup}
use go_watch_file.Control.Types.{
  TaskStatus, success, failed, TaskState, TaskCompleteRequest, Reply, refused, str, end, field,
  is_assigned, is_running, is_failed, is_task_terminal,
}
use go_watch_file.Control.Db.{Handler, append_task_event, append_audit_log}
use go_watch_file.Control.Tasks.{save_task}

-- pickControlTaskFailureReason
unfoldable pub pick_failure_reason : Str → Str → Str
pick_failure_reason error_text message =
    let trimmed = trim_space error_text in
    let trimmed_message = trim_space message in
    let value = trim_space (drop 6 trimmed_message) in
    if not (is_empty trimmed)
    then trimmed
    else if is_empty trimmed_message
    then bytes "task_failed"
    else if has_prefix (to_lower trimmed_message) (bytes "error=") && not (is_empty value)
    then value
    else trimmed_message

-- The two statuses that an agent may report.
unfoldable pub parse_final_status : Str → Option TaskStatus
parse_final_status raw =
    let s = to_lower (trim_space raw) in
    if str_eq s (bytes "success")
    then some success
    else if str_eq s (bytes "failed")
    then some failed
    else none

unfoldable pub complete_message : TaskCompleteRequest → Str
complete_message req =
    let message = trim_space req.message in
    if is_empty message && not (is_empty (trim_space req.error))
    then bytes "error=" ++ trim_space req.error
    else message

unfoldable pub completed_state : TaskState → TaskStatus → TaskCompleteRequest → ℕ → TaskState
completed_state t status req now = record t {
  status = status;
  failure_reason =
      if is_failed status then pick_failure_reason req.error (complete_message req) else [];
  updated_at = now;
  finished_at = some now;
}

abbrev event_type_of : TaskStatus → Str
event_type_of status = if is_failed status then text "failed" else text "succeeded"

abbrev status_text : TaskStatus → Str
status_text status = if is_failed status then text "failed" else text "success"

abbrev log_completed : Str → Str → Str → TaskState → ℕ → Handler → Handler
log_completed id agent message next now h =
    append_audit_log agent (text "task_complete") (text "task") id
      (field (text "status") (str (status_text next.status)) (
        field (text "message") (str message)
          (field (text "failureReason") (str next.failure_reason) end)))
      now (append_task_event id agent (event_type_of next.status) message now h)

unfoldable pub complete_found :
    Option TaskState
    → Str
    → TaskStatus
    → TaskCompleteRequest
    → Str
    → ℕ
    → Handler
    → Handler × Reply TaskState
complete_found none agent status req id now h = (h, refused 404 "task not found")
complete_found (some t) agent status req id now h =
    if is_task_terminal t.status
    then (h, refused 409 "task already finished")
    else if not (is_assigned t.status) && not (is_running t.status)
    then (h, refused 409 "task status does not support complete")
    else if not (str_eq t.assigned_agent_id agent)
    then (h, refused 409 "task is assigned to another agent")
    else (let next = completed_state t status req now in
        save_task id next (log_completed id agent (complete_message req) next now) h)

unfoldable pub complete_parsed :
    Option TaskStatus → Str → TaskCompleteRequest → Str → ℕ → Handler → Handler × Reply TaskState
complete_parsed none agent req id now h = (h, refused 400 "status must be success or failed")
complete_parsed (some status) agent req id now h =
    complete_found (lookup id h.tasks) agent status req id now h

-- controlCompleteTask
unfoldable pub complete_task :
    Option TaskCompleteRequest → Str → ℕ → Handler → Handler × Reply TaskState
unfolding complete_parsed complete_found
complete_task none id now h = (h, refused 400 "invalid payload")
complete_task (some req) id now h =
    let agent = trim_space req.agent_id in
    if is_empty agent
    then (h, refused 400 "agentId is required")
    else complete_parsed (parse_final_status req.status) agent req id now h
