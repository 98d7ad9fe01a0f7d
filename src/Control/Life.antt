-- ===== src/Control/Life.antt =====
-- go-watch-file/internal/api: what holds of the tasks of the control plane over any requests.
use go_watch_file.Base.{ℕ, ◌≤◌, ◌<◌, ◌≡◌, sym, subst, true, false, none, [], ◌≢◌, arith}
use go_watch_file.Base.Str.{Str}
use go_watch_file.Control.Types.{
  pending, success, TaskState, is_task_terminal, build_retried_state, CreateTaskRequest,
}
use go_watch_file.Control.Tasks.{canceled_state, new_task}
use go_watch_file.Control.Timeouts.{reclaimed_state, timed_out_state}
use go_watch_file.Control.Dispatch.{assigned_state, started_state}
use go_watch_file.Control.Complete.{completed_state}
use go_watch_file.Control.Machine.{
  Edge, assign, reclaim, start, progress, complete, retry, auto_retry, time_out, cancel,
}

-- What holds of every task: the retries stay within their budget, exactly the finished tasks have a
-- finishing time, a waiting task belongs to nobody, and a task that has not ended has no reason of
-- failure; nor has one that succeeded.
pub record IsValid (t : TaskState) : Type 0 where
  pub budget : t.retry_count ≤ t.max_retries
  pub retriable : 0 < t.max_retries
  pub unfinished : is_task_terminal t.status ≡ false → t.finished_at ≡ none
  pub finished : is_task_terminal t.status ≡ true → t.finished_at ≢ none
  pub unowned : t.status ≡ pending → t.assigned_agent_id ≡ []
  pub no_reason : is_task_terminal t.status ≡ false → t.failure_reason ≡ []
  pub success_no_reason : t.status ≡ success → t.failure_reason ≡ []

pub new_task-IsValid :
    (id : Str) (req : CreateTaskRequest) (now : ℕ) → IsValid (new_task id req now)
unfolding new_task
new_task-IsValid id req now = ground arith

pub Edge-IsValid : (now : ℕ) (t u : TaskState) → Edge now t u → IsValid t → IsValid u
unfolding assigned_state reclaimed_state started_state completed_state build_retried_state
    timed_out_state canceled_state
Edge-IsValid now t u (assign agent s e) v = subst IsValid (sym e) (ground arith)
Edge-IsValid now t u (reclaim s l e) v = subst IsValid (sym e) (ground arith)
Edge-IsValid now t u (start s e) v = subst IsValid (sym e) (ground arith)
Edge-IsValid now t u (progress s e) v = subst IsValid (sym e) (ground arith)
Edge-IsValid now t u (complete status req s f e) v = subst IsValid (sym e) (ground arith)
Edge-IsValid now t u (retry s b e) v = subst IsValid (sym e) (ground arith)
Edge-IsValid now t u (auto_retry s l b e) v = subst IsValid (sym e) (ground arith)
Edge-IsValid now t u (time_out s l b e) v = subst IsValid (sym e) (ground arith)
Edge-IsValid now t u (cancel s e) v = subst IsValid (sym e) (ground arith)

-- A task that succeeded moves no more.
pub Edge-not-success : (now : ℕ) (t u : TaskState) → Edge now t u → t.status ≢ success
Edge-not-success now t u (assign agent s e) h = cc
Edge-not-success now t u (reclaim s l e) h = cc
Edge-not-success now t u (start s e) h = cc
Edge-not-success now t u (progress s e) h = cc
Edge-not-success now t u (complete status req s f e) h = ground arith
Edge-not-success now t u (retry s b e) h = ground arith
Edge-not-success now t u (auto_retry s l b e) h = cc
Edge-not-success now t u (time_out s l b e) h = cc
Edge-not-success now t u (cancel s e) h = ground arith

-- What no request changes.
abbrev pub SameTask : TaskState → TaskState → Type 0
SameTask t u =
    (u.id ≡ t.id)
    × (u.kind ≡ t.kind)
    × (u.target ≡ t.target)
    × (u.priority ≡ t.priority)
    × (u.max_retries ≡ t.max_retries)
    × (u.created_at ≡ t.created_at)
    × (t.retry_count ≤ u.retry_count)

pub Edge-SameTask : (now : ℕ) (t u : TaskState) → Edge now t u → SameTask t u
unfolding assigned_state reclaimed_state started_state completed_state build_retried_state
    timed_out_state canceled_state
Edge-SameTask now t u (assign agent s e) = ground arith
Edge-SameTask now t u (reclaim s l e) = ground arith
Edge-SameTask now t u (start s e) = ground arith
Edge-SameTask now t u (progress s e) = ground arith
Edge-SameTask now t u (complete status req s f e) = ground arith
Edge-SameTask now t u (retry s b e) = ground arith
Edge-SameTask now t u (auto_retry s l b e) = ground arith
Edge-SameTask now t u (time_out s l b e) = ground arith
Edge-SameTask now t u (cancel s e) = ground arith

pub SameTask-refl : (t : TaskState) → SameTask t t
SameTask-refl t = ground arith

pub SameTask-trans : (t u v : TaskState) → SameTask t u → SameTask u v → SameTask t v
SameTask-trans t u v a b = ground arith
