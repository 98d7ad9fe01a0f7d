-- ===== src/Control/Dispatch.antt =====
-- go-watch-file/internal/api/control_dispatch.go: pull, ack, progress and complete.
use go_watch_file.Base.{
  ℕ, zero, suc, ◌+◌, Bool, true, false, not, ◌&&◌, ◌||◌, Option, none, some, List, [], ◌∷◌, ◌++◌,
  if◌then◌else◌, leb, ltb,
}
use go_watch_file.Base.Str.{Str, bytes, text, is_empty, str_eq, itoa}
use go_watch_file.Base.Trim.{trim_space}
use go_watch_file.Base.Assoc.{lookup, insert}
use go_watch_file.Control.Types.{
  assigned, running, AgentState, TaskState, DispatchPullRequest, TaskAckRequest,
  TaskProgressRequest, Reply, done, refused, str, end, field, is_pending, is_assigned, is_running,
  is_draining,
}
use go_watch_file.Control.Db.{Handler, persist_agent, append_task_event, append_audit_log}
use go_watch_file.Control.Agents.{u64, wake}
use go_watch_file.Control.Tasks.{save_task, task_dto}
use go_watch_file.Control.Sort.{sort_tasks}
use go_watch_file.Control.Timeouts.{apply_timeouts, store_task}

-- normalizeStringSet, as the list of its members.
unfoldable pub normalize_string_set : List Str → List Str
normalize_string_set [] = []
normalize_string_set (raw ∷ rest) =
    if is_empty (trim_space raw)
    then normalize_string_set rest
    else trim_space raw ∷ normalize_string_set rest

unfoldable pub mem_str : Str → List Str → Bool
mem_str x [] = false
mem_str x (y ∷ ys) = str_eq y x || mem_str x ys

-- An empty set of types accepts every task.
abbrev pub accepts : List Str → TaskState → Bool
accepts [] t = true
accepts (k ∷ ks) t = mem_str t.kind (k ∷ ks)

unfoldable pub candidates : List Str → List (Str × TaskState) → List TaskState
candidates kinds [] = []
candidates kinds ((id, t) ∷ rest) =
    if is_pending t.status && accepts kinds t
    then t ∷ candidates kinds rest
    else candidates kinds rest

unfoldable pub assigned_state : TaskState → Str → ℕ → TaskState
assigned_state t agent now = record t {
  status = assigned;
  assigned_agent_id = agent;
  updated_at = now;
}

abbrev log_assigned : Str → TaskState → ℕ → Handler → Handler
log_assigned agent t now h =
    append_audit_log agent (text "task_assigned") (text "task") t.id
      (field (text "type") (str t.kind) (field (text "priority") (str t.priority) end)) now
      (append_task_event t.id agent (text "assigned") (text "任务已分配给 agent") now h)

-- The first of the sorted candidates; `none` is an error of the store, `some none` no candidate.
unfoldable pub assign_first :
    List TaskState → Str → ℕ → Handler → Handler × Option (Option TaskState)
assign_first [] agent now h = (h, some none)
assign_first (t ∷ ts) agent now h =
    let next = assigned_state t agent now in
    let (h', ok) = store_task next.id next (log_assigned agent next now) h in
    (h', if ok then some (some next) else none)

-- controlAssignNextTaskLocked
unfoldable pub assign_next : Str → List Str → ℕ → Handler → Handler × Option (Option TaskState)
unfolding assign_first
assign_next agent kinds now h = assign_first (sort_tasks (candidates kinds h.tasks)) agent now h

-- `for len(items) < maxTasks`: the first argument is how many are still wanted.
unfoldable pub pull_loop :
    ℕ → List TaskState → Str → List Str → ℕ → Handler → Handler × Reply (List TaskState)
pull_loop zero items agent kinds now h = (h, done items)
pull_loop (suc n) items agent kinds now h =
    let (h', got) = assign_next agent kinds now h in
    elim got [
      | none ↦ (h', refused 500 "persist control task failed")
      | some none ↦ (h', done items)
      | some (some t) ↦ pull_loop n (items ++ task_dto t ∷ []) agent kinds now h'
    ]

-- The bounds on `maxTasks`: 1 if it is not given, 10 at most.
unfoldable pub clamp_max_tasks : ℕ → ℕ
clamp_max_tasks n = if leb n 0 then 1 else if ltb 10 n then 10 else n

-- A pull counts as a heartbeat.
unfoldable pub beaten : AgentState → ℕ → AgentState
beaten a now = record a {
  last_seen_at = now;
  updated_at = now;
  heartbeat_count = u64 (a.heartbeat_count + 1);
  status = wake a.status;
}

unfoldable pub pull_tasks :
    DispatchPullRequest → AgentState → ℕ → Handler → Handler × Reply (List TaskState)
pull_tasks req a now h =
    let (h', ok) = apply_timeouts h.tasks now h in
    if ok
    then pull_loop (clamp_max_tasks req.max_tasks) [] a.id (normalize_string_set req.accept_types)
        now h'
    else (h', refused 500 "persist control task failed")

unfoldable pub pull_found :
    Option AgentState → DispatchPullRequest → ℕ → Handler → Handler × Reply (List TaskState)
pull_found none req now h = (h, refused 404 "agent not found")
pull_found (some agent) req now h =
    if is_draining agent.status
    then (h, refused 409 "agent is draining")
    else let a = beaten agent now in
      let (h', ok) = persist_agent a h in
      if ok
      then pull_tasks req a now (record h' { agents = insert a.id a h'.agents })
      else (h', refused 500 "persist control agent failed")

-- controlDispatchPullHandler of a POST; `none` is a body that is no JSON.
unfoldable pub dispatch_pull :
    Option DispatchPullRequest → ℕ → Handler → Handler × Reply (List TaskState)
dispatch_pull none now h = (h, refused 400 "invalid payload")
dispatch_pull (some req) now h =
    let id = trim_space req.agent_id in
    if is_empty id
    then (h, refused 400 "agentId is required")
    else pull_found (lookup id h.agents) req now h

unfoldable pub started_state : TaskState → ℕ → TaskState
started_state t now = record t { status = running; updated_at = now }

abbrev log_started : Str → Str → Str → ℕ → Handler → Handler
log_started id agent message now h =
    append_audit_log agent (text "task_ack") (text "task") id
      (field (text "message") (str message) end) now
      (append_task_event id agent (text "started") message now h)

unfoldable pub ack_found :
    Option TaskState → Str → Str → Str → ℕ → Handler → Handler × Reply TaskState
ack_found none agent message id now h = (h, refused 404 "task not found")
ack_found (some t) agent message id now h =
    if not (is_assigned t.status)
    then (h, refused 409 "task is not assigned")
    else if not (str_eq t.assigned_agent_id agent)
    then (h, refused 409 "task is assigned to another agent")
    else save_task id (started_state t now) (log_started id agent (trim_space message) now) h

-- controlAckTask
unfoldable pub ack_task : Option TaskAckRequest → Str → ℕ → Handler → Handler × Reply TaskState
unfolding ack_found
ack_task none id now h = (h, refused 400 "invalid payload")
ack_task (some req) id now h =
    let agent = trim_space req.agent_id in
    if is_empty agent
    then (h, refused 400 "agentId is required")
    else ack_found (lookup id h.tasks) agent req.message id now h

unfoldable pub progress_message : TaskProgressRequest → Str
progress_message req =
    let message = trim_space req.message in
    if is_empty message && ltb 0 req.progress
    then bytes "progress=" ++ itoa req.progress
    else message

unfoldable pub progress_found :
    Option TaskState → Str → Str → Str → ℕ → Handler → Handler × Reply TaskState
progress_found none agent message id now h = (h, refused 404 "task not found")
progress_found (some t) agent message id now h =
    if not (is_running t.status)
    then (h, refused 409 "task is not running")
    else if not (str_eq t.assigned_agent_id agent)
    then (h, refused 409 "task is assigned to another agent")
    else save_task id (record t { updated_at = now })
        (append_task_event id agent (text "progress") message now) h

-- controlProgressTask
unfoldable pub progress_task :
    Option TaskProgressRequest → Str → ℕ → Handler → Handler × Reply TaskState
unfolding progress_found
progress_task none id now h = (h, refused 400 "invalid payload")
progress_task (some req) id now h =
    let agent = trim_space req.agent_id in
    if is_empty agent
    then (h, refused 400 "agentId is required")
    else progress_found (lookup id h.tasks) agent (progress_message req) id now h
