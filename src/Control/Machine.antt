-- ===== src/Control/Machine.antt =====
-- go-watch-file/internal/api/control_task_state_machine.go, control_dispatch.go, control_handlers.go: the life of a
-- task as a diagram, and what a request may do to the tasks and to their rows.
use go_watch_file.Base.{ℕ, ◌+◌, ◌≡◌, Bool, true, false, Option, none, some, List, ◌⊎◌, leb}
use go_watch_file.Base.Str.{Str}
use go_watch_file.Base.Assoc.{lookup, insert}
use go_watch_file.Control.Types.{
  TaskStatus, pending, assigned, running, success, failed, TaskState, is_retryable_status,
  is_cancelable_status, has_retry_budget, build_retried_state, default_assign_timeout,
  default_run_timeout, CreateTaskRequest, TaskCompleteRequest,
}
use go_watch_file.Control.Db.{Handler, Db, task_row}
use go_watch_file.Control.Agents.{u64}
use go_watch_file.Control.Tasks.{canceled_state, new_task, task_id_of}
use go_watch_file.Control.Timeouts.{reclaimed_state, timed_out_state}
use go_watch_file.Control.Dispatch.{assigned_state, started_state}
use go_watch_file.Control.Complete.{completed_state}

-- The edges of the diagram, at the time `now`.
pub data Edge (now : ℕ) (t u : TaskState) : Type 0 where
  assign : (agent : Str) → t.status ≡ pending → u ≡ assigned_state t agent now → Edge now t u
  reclaim :
      t.status ≡ assigned
      → leb now (t.updated_at + default_assign_timeout) ≡ false
      → u ≡ reclaimed_state t now
      → Edge now t u
  start : t.status ≡ assigned → u ≡ started_state t now → Edge now t u
  progress : t.status ≡ running → u ≡ record t { updated_at = now } → Edge now t u
  complete :
      (status : TaskStatus) (req : TaskCompleteRequest)
      → (t.status ≡ assigned) ⊎ (t.status ≡ running)
      → (status ≡ success) ⊎ (status ≡ failed)
      → u ≡ completed_state t status req now
      → Edge now t u
  retry :
      is_retryable_status t.status ≡ true
      → has_retry_budget t ≡ true
      → u ≡ build_retried_state t now
      → Edge now t u
  auto_retry :
      t.status ≡ running
      → leb now (t.updated_at + default_run_timeout) ≡ false
      → has_retry_budget t ≡ true
      → u ≡ build_retried_state t now
      → Edge now t u
  time_out :
      t.status ≡ running
      → leb now (t.updated_at + default_run_timeout) ≡ false
      → has_retry_budget t ≡ false
      → u ≡ timed_out_state t now
      → Edge now t u
  cancel : is_cancelable_status t.status ≡ true → u ≡ canceled_state t now → Edge now t u

-- The rows of the tasks, if there is a store.
abbrev pub rows : Option Db → Option (List (Str × TaskState))
rows none = none
rows (some d) = some d.task_rows

abbrev pub put_row :
    Str → TaskState → Option (List (Str × TaskState)) → Option (List (Str × TaskState))
put_row key t none = none
put_row key t (some m) = some (insert key t m)

-- One change: nothing, a task moved along an edge, or, of a request that makes a task, a new task
-- under the id of the next number, which is free, or the number alone. A change reaches the map only
-- together with the row.
pub data Change (now : ℕ) (makes : Bool) (h g : Handler) : Type 0 where
  kept :
      g.tasks ≡ h.tasks
      → rows g.store ≡ rows h.store
      → g.next_task_seq ≡ h.next_task_seq
      → Change now makes h g
  moved :
      (key : Str) (t u : TaskState)
      → lookup key h.tasks ≡ some t
      → Edge now t u
      → g.tasks ≡ insert key u h.tasks
      → rows g.store ≡ put_row u.id (task_row u) (rows h.store)
      → g.next_task_seq ≡ h.next_task_seq
      → Change now makes h g
  skipped :
      makes ≡ true
      → g.tasks ≡ h.tasks
      → rows g.store ≡ rows h.store
      → g.next_task_seq ≡ u64 (h.next_task_seq + 1)
      → Change now makes h g
  created :
      (key : Str) (req : CreateTaskRequest)
      → makes ≡ true
      → key ≡ task_id_of g.next_task_seq
      → g.next_task_seq ≡ u64 (h.next_task_seq + 1)
      → lookup key h.tasks ≡ none
      → g.tasks ≡ insert key (new_task key req now) h.tasks
      → rows g.store ≡ put_row key (task_row (new_task key req now)) (rows h.store)
      → Change now makes h g

pub data Changes (now : ℕ) (makes : Bool) (h : Handler) : Handler → Type 0 where
  here : Changes now makes h h
  after : {g k : Handler} → Changes now makes h g → Change now makes g k → Changes now makes h k

-- What writing a task does: both the row and the map, or neither.
abbrev pub Wrote : Str → TaskState → Handler → Handler → Type 0
Wrote key t h g =
    (g.next_task_seq ≡ h.next_task_seq)
    × (((g.tasks ≡ h.tasks) × (rows g.store ≡ rows h.store))
        ⊎ ((g.tasks ≡ insert key t h.tasks)
            × (rows g.store ≡ put_row t.id (task_row t) (rows h.store))))

-- The events and the audit log of a change leave the tasks, their rows and their numbers alone.
abbrev pub Quiet : (Handler → Handler) → Type 0
Quiet f =
    (h : Handler)
    → ((f h).tasks ≡ h.tasks)
      × (rows (f h).store ≡ rows h.store)
      × ((f h).next_task_seq ≡ h.next_task_seq)
