-- ===== src/Control/Serve.antt =====
-- go-watch-file/internal/api/control_handlers.go, control_dispatch.go: a request to the control plane, whatever it
-- is, takes tasks only along the edges of the diagram, and a task is written together with its row.
use go_watch_file.Base.{
  ℕ, ◌+◌, ◌≡◌, refl, sym, ap, ◌∙◌, Bool, true, false, not, ◌||◌, ◌&&◌, Option, none, some, ◌⊎◌, inl,
  inr, arith, if_elim,
}
use go_watch_file.Base.Str.{Str, str_eq, is_empty}
use go_watch_file.Base.Trim.{trim_space}
use go_watch_file.Base.Assoc.{lookup}
use go_watch_file.Control.Types.{
  TaskStatus, assigned, running, success, failed, TaskState, Reply, is_assigned, is_running,
  is_task_terminal, is_retryable_status, is_cancelable_status, has_retry_budget,
  build_retried_state, Fields, CreateTaskRequest, TaskAckRequest, TaskProgressRequest,
  TaskCompleteRequest,
}
use go_watch_file.Control.Db.{Handler, append_task_event, append_audit_log}
use go_watch_file.Control.Agents.{u64}
use go_watch_file.Control.Tasks.{
  new_task, task_id_of, create_task, canceled_state, cancel_found, cancel_task, retry_found,
  retry_task,
}
use go_watch_file.Control.Dispatch.{
  started_state, ack_found, ack_task, progress_found, progress_task, progress_message,
}
use go_watch_file.Control.Complete.{
  parse_final_status, completed_state, complete_found, complete_parsed, complete_task,
}
use go_watch_file.Control.Machine.{
  start, progress, complete, retry, cancel, Change, kept, skipped, created, Wrote, Quiet,
}
use go_watch_file.Control.Writes.{
  append_task_event-Quiet, append_audit_log-Quiet, Quiet-then, save_task-Wrote, moved_by,
}

-- The id that the next task gets.
unfoldable pub next_task_id : Handler → Str
next_task_id h = task_id_of (u64 (h.next_task_seq + 1))

abbrev Served : ℕ → Handler → Handler × Reply TaskState → Type 0
Served now h r = Change now false h r.0

-- Nothing happened.
abbrev idle : (now : ℕ) {makes : Bool} (h : Handler) → Change now makes h h
idle now h = kept refl refl refl

both-Quiet :
    (task agent kind message : Str) (at : ℕ) (operator action what id : Str) (detail : Fields)
    → Quiet (λ h.
      append_audit_log operator action what id detail at
        (append_task_event task agent kind message at h))
both-Quiet task agent kind message at operator action what id detail =
    Quiet-then (append_audit_log operator action what id detail at)
      (append_task_event task agent kind message at)
      (append_audit_log-Quiet operator action what id detail at)
      (append_task_event-Quiet task agent kind message at)

not-false : (b : Bool) → not b ≡ false → b ≡ true
not-false b h = ground arith

is_assigned_eq : (s : TaskStatus) → is_assigned s ≡ true → s ≡ assigned
is_assigned_eq s h = ground arith

is_running_eq : (s : TaskStatus) → is_running s ≡ true → s ≡ running
is_running_eq s h = ground arith

cancel_found-Change :
    (o : Option TaskState) (id : Str) (now : ℕ) (h : Handler)
    → lookup id h.tasks ≡ o
    → Served now h (cancel_found o id now h)
unfolding cancel_found
cancel_found-Change none id now h e = idle now h
cancel_found-Change (some t) id now h e =
    if_elim (Served now h) (is_task_terminal t.status) (λ over. idle now h)
      (λ live.
        if_elim (Served now h) (is_cancelable_status t.status)
          (λ can.
            moved_by now id t (canceled_state t now) h _ e (cancel can refl)
              (save_task-Wrote id (canceled_state t now) _ h (both-Quiet _ _ _ _ now _ _ _ _ _)))
          (λ cannot. idle now h))

pub cancel_task-Change :
    (id : Str) (now : ℕ) (h : Handler) → Change now false h (cancel_task id now h).0
unfolding cancel_task
cancel_task-Change id now h = cancel_found-Change (lookup id h.tasks) id now h refl

retry_found-Change :
    (o : Option TaskState) (id : Str) (now : ℕ) (h : Handler)
    → lookup id h.tasks ≡ o
    → Served now h (retry_found o id now h)
unfolding retry_found
retry_found-Change none id now h e = idle now h
retry_found-Change (some t) id now h e =
    if_elim (Served now h) (is_retryable_status t.status)
      (λ over.
        if_elim (Served now h) (has_retry_budget t)
          (λ budget.
            moved_by now id t (build_retried_state t now) h _ e (retry over budget refl) (
              save_task-Wrote id (build_retried_state t now) _ h
                (both-Quiet _ _ _ _ now _ _ _ _ _)))
          (λ spent. idle now h))
      (λ live. idle now h)

pub retry_task-Change :
    (id : Str) (now : ℕ) (h : Handler) → Change now false h (retry_task id now h).0
unfolding retry_task
retry_task-Change id now h = retry_found-Change (lookup id h.tasks) id now h refl

ack_found-Change :
    (o : Option TaskState) (agent message id : Str) (now : ℕ) (h : Handler)
    → lookup id h.tasks ≡ o
    → Served now h (ack_found o agent message id now h)
unfolding ack_found
ack_found-Change none agent message id now h e = idle now h
ack_found-Change (some t) agent message id now h e =
    if_elim (Served now h) (not (is_assigned t.status)) (λ other. idle now h)
      (λ held.
        if_elim (Served now h) (not (str_eq t.assigned_agent_id agent)) (λ theirs. idle now h)
          (λ ours.
            moved_by now id t (started_state t now) h _ e
              (start (is_assigned_eq t.status (not-false _ held)) refl)
              (save_task-Wrote id (started_state t now) _ h (both-Quiet _ _ _ _ now _ _ _ _ _))))

pub ack_task-Change :
    (req : Option TaskAckRequest) (id : Str) (now : ℕ) (h : Handler)
    → Change now false h (ack_task req id now h).0
unfolding ack_task
ack_task-Change none id now h = idle now h
ack_task-Change (some req) id now h =
    if_elim (Served now h) (is_empty (trim_space req.agent_id)) (λ bare. idle now h)
      (λ named.
        ack_found-Change (lookup id h.tasks) (trim_space req.agent_id) req.message id now h refl)

progress_found-Change :
    (o : Option TaskState) (agent message id : Str) (now : ℕ) (h : Handler)
    → lookup id h.tasks ≡ o
    → Served now h (progress_found o agent message id now h)
unfolding progress_found
progress_found-Change none agent message id now h e = idle now h
progress_found-Change (some t) agent message id now h e =
    if_elim (Served now h) (not (is_running t.status)) (λ other. idle now h)
      (λ runs.
        if_elim (Served now h) (not (str_eq t.assigned_agent_id agent)) (λ theirs. idle now h)
          (λ ours.
            moved_by now id t (record t { updated_at = now }) h _ e
              (progress (is_running_eq t.status (not-false _ runs)) refl)
              (save_task-Wrote id (record t { updated_at = now }) _ h
                (append_task_event-Quiet _ _ _ _ now))))

pub progress_task-Change :
    (req : Option TaskProgressRequest) (id : Str) (now : ℕ) (h : Handler)
    → Change now false h (progress_task req id now h).0
unfolding progress_task
progress_task-Change none id now h = idle now h
progress_task-Change (some req) id now h =
    if_elim (Served now h) (is_empty (trim_space req.agent_id)) (λ bare. idle now h)
      (λ named.
        progress_found-Change (lookup id h.tasks) (trim_space req.agent_id) (progress_message req)
          id now h refl)

active_cases :
    (s : TaskStatus)
    → (not (is_assigned s) && not (is_running s)) ≡ false
    → (s ≡ assigned) ⊎ (s ≡ running)
active_cases s h = ground arith

complete_found-Change :
    (o : Option TaskState) (agent : Str) (status : TaskStatus) (req : TaskCompleteRequest)
    (id : Str) (now : ℕ) (h : Handler)
    → lookup id h.tasks ≡ o
    → (status ≡ success) ⊎ (status ≡ failed)
    → Served now h (complete_found o agent status req id now h)
unfolding complete_found
complete_found-Change none agent status req id now h e final = idle now h
complete_found-Change (some t) agent status req id now h e final =
    if_elim (Served now h) (is_task_terminal t.status) (λ over. idle now h)
      (λ live.
        if_elim (Served now h) (not (is_assigned t.status) && not (is_running t.status))
          (λ waits. idle now h)
          (λ active.
            if_elim (Served now h) (not (str_eq t.assigned_agent_id agent)) (λ theirs. idle now h)
              (λ ours.
                moved_by now id t (completed_state t status req now) h _ e
                  (complete status req (active_cases t.status active) final refl)
                  (save_task-Wrote id (completed_state t status req now) _ h
                    (both-Quiet _ _ _ _ now _ _ _ _ _)))))

parse_final_status-Final :
    (raw : Str) (status : TaskStatus)
    → parse_final_status raw ≡ some status
    → (status ≡ success) ⊎ (status ≡ failed)
unfolding parse_final_status
parse_final_status-Final raw status h = ground arith

complete_parsed-Change :
    (o : Option TaskStatus) (agent : Str) (req : TaskCompleteRequest) (id : Str) (now : ℕ)
    (h : Handler)
    → parse_final_status req.status ≡ o
    → Served now h (complete_parsed o agent req id now h)
unfolding complete_parsed
complete_parsed-Change none agent req id now h e = idle now h
complete_parsed-Change (some status) agent req id now h e =
    complete_found-Change (lookup id h.tasks) agent status req id now h refl
      (parse_final_status-Final req.status status e)

pub complete_task-Change :
    (req : Option TaskCompleteRequest) (id : Str) (now : ℕ) (h : Handler)
    → Change now false h (complete_task req id now h).0
unfolding complete_task
complete_task-Change none id now h = idle now h
complete_task-Change (some req) id now h =
    if_elim (Served now h) (is_empty (trim_space req.agent_id)) (λ bare. idle now h)
      (λ named.
        complete_parsed-Change (parse_final_status req.status) (trim_space req.agent_id) req id now
          h refl)

created_by :
    (now : ℕ) (key : Str) (req : CreateTaskRequest) (h g : Handler)
    → lookup key h.tasks ≡ none
    → key ≡ next_task_id h
    → Wrote key (new_task key req now) (record h { next_task_seq = u64 (h.next_task_seq + 1) }) g
    → Change now true h g
unfolding new_task next_task_id
created_by now key req h g free next (n, inl (a, b)) = skipped refl a b n
created_by now key req h g free next (n, inr (a, b)) =
    created key req refl (next ∙ ap task_id_of (sym n)) n free a b

pub create_task-Change :
    (req : Option CreateTaskRequest) (now : ℕ) (h : Handler)
    → lookup (next_task_id h) h.tasks ≡ none
    → Change now true h (create_task req now h).0
unfolding create_task next_task_id new_task
create_task-Change none now h free = idle now h
create_task-Change (some req) now h free =
    if_elim (λ (r : Handler × Reply TaskState). Change now true h r.0)
      (is_empty (trim_space req.kind) || is_empty (trim_space req.target)) (λ bare. idle now h)
      (λ named. created_by now (next_task_id h) req h _ free refl (
        save_task-Wrote (next_task_id h) (new_task (next_task_id h) req now) _
          (record h { next_task_seq = u64 (h.next_task_seq + 1) })
          (both-Quiet _ _ _ _ now _ _ _ _ _)))
