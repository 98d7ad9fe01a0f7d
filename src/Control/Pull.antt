-- ===== src/Control/Pull.antt =====
-- go-watch-file/internal/api/control_dispatch.go, controlDispatchPullHandler: the timeouts and the assignments of
-- a pull, as changes along the diagram.
use go_watch_file.Base.{
  ℕ, zero, suc, ◌≡◌, refl, sym, subst, Bool, true, false, ◌&&◌, Option, none, some, List, [], ◌∷◌,
  inl, inr, arith, if_elim, Option-cases, All,
}
use go_watch_file.Base.Str.{Str, is_empty}
use go_watch_file.Base.Trim.{trim_space}
use go_watch_file.Base.Assoc.{lookup}
use go_watch_file.Control.Types.{
  TaskStatus, pending, TaskState, AgentState, Reply, is_pending, is_draining, DispatchPullRequest,
}
use go_watch_file.Control.Db.{
  Handler, Db, persist_agent, upsert_agent, on_store, append_task_event, append_audit_log,
}
use go_watch_file.Control.Sort.{precedes, insert_sorted, sort_tasks}
use go_watch_file.Control.Timeouts.{apply_timeouts}
use go_watch_file.Control.Dispatch.{
  candidates, accepts, assigned_state, assign_first, assign_next, pull_loop, pull_tasks, pull_found,
  dispatch_pull, beaten, normalize_string_set, clamp_max_tasks,
}
use go_watch_file.Control.Machine.{assign, rows, kept, Changes, here, after}
use go_watch_file.Control.Writes.{
  append_task_event-Quiet, append_audit_log-Quiet, Quiet-then, store_task-Wrote,
}
use go_watch_file.Control.Keys.{Distinct, Holds, Distinct-Holds}
use go_watch_file.Control.Expiry.{At-by, Changes-then, Ran, At-Distinct, apply_timeouts-Ran}

-- A task that may be assigned: it is the map's own, and it waits.
abbrev Waits : List (Str × TaskState) → TaskState → Type 0
Waits m t = (lookup t.id m ≡ some t) × (t.status ≡ pending)

is_pending_eq : (s : TaskStatus) → is_pending s ≡ true → s ≡ pending
is_pending_eq s h = ground arith

and_left : (a b : Bool) → (a && b) ≡ true → a ≡ true
and_left a b h = ground arith

candidates-Waits :
    (kinds : List Str) (m rest : List (Str × TaskState))
    → Holds m rest
    → Distinct rest
    → All (Waits m) (candidates kinds rest)
unfolding candidates
candidates-Waits kinds m [] hold d = tt
candidates-Waits kinds m ((id, t) ∷ rest) hold d =
    let others = candidates-Waits kinds m rest hold.1 d.2 in
    if_elim (All (Waits m)) (is_pending t.status && accepts kinds t)
      (λ fits. (
        (
          subst (λ k. lookup k m ≡ some t) (sym d.1) hold.0,
          is_pending_eq t.status (and_left (is_pending t.status) (accepts kinds t) fits),
        ),
        others,
      ))
      (λ misfit. others)

insert_sorted-All :
    (P : TaskState → Type 0) (t : TaskState) (us : List TaskState)
    → P t
    → All P us
    → All P (insert_sorted t us)
unfolding insert_sorted
insert_sorted-All P t [] p h = (p, tt)
insert_sorted-All P t (u ∷ us) p h =
    if_elim (All P) (precedes u t) (λ first. (h.0, insert_sorted-All P t us p h.1))
      (λ later. (p, h))

sort_tasks-All : (P : TaskState → Type 0) (ts : List TaskState) → All P ts → All P (sort_tasks ts)
unfolding sort_tasks
sort_tasks-All P [] h = tt
sort_tasks-All P (t ∷ ts) h = insert_sorted-All P t (sort_tasks ts) h.0 (sort_tasks-All P ts h.1)

assign_first-Ran :
    (ts : List TaskState) (agent : Str) (now : ℕ) (h : Handler)
    → All (Waits h.tasks) ts
    → Distinct h.tasks
    → Ran now h (assign_first ts agent now h).0
unfolding assign_first
assign_first-Ran [] agent now h w d = (here, d)
assign_first-Ran (t ∷ ts) agent now h w d =
    let u = assigned_state t agent now in
    let same : u.id ≡ t.id = unfold assigned_state in refl in
    let step =
      At-by now u.id t u h _ (subst (λ k. lookup k h.tasks ≡ some t) (sym same) w.0.0) refl
        (assign agent w.0.1 refl)
        (store_task-Wrote u.id u _ h (
          Quiet-then (append_audit_log _ _ _ _ _ now) (append_task_event _ _ _ _ now)
            (append_audit_log-Quiet _ _ _ _ _ now) (append_task_event-Quiet _ _ _ _ now))) in
    (after here step.0, At-Distinct now u.id h _ d step)

assign_next-Ran :
    (agent : Str) (kinds : List Str) (now : ℕ) (h : Handler)
    → Distinct h.tasks
    → Ran now h (assign_next agent kinds now h).0
unfolding assign_next
assign_next-Ran agent kinds now h d =
    assign_first-Ran (sort_tasks (candidates kinds h.tasks)) agent now h
      (sort_tasks-All (Waits h.tasks) (candidates kinds h.tasks)
        (candidates-Waits kinds h.tasks h.tasks (Distinct-Holds h.tasks d) d))
      d

Ran-then : {now : ℕ} {h g k : Handler} → Ran now h g → Ran now g k → Ran now h k
Ran-then a b = (Changes-then a.0 b.0, b.1)

pull_loop-Ran :
    (n : ℕ) (items : List TaskState) (agent : Str) (kinds : List Str) (now : ℕ) (h : Handler)
    → Distinct h.tasks
    → Ran now h (pull_loop n items agent kinds now h).0
unfolding pull_loop
pull_loop-Ran zero items agent kinds now h d = (here, d)
pull_loop-Ran (suc n) items agent kinds now h d =
    let first = assign_next-Ran agent kinds now h d in
    elim (Option-cases (assign_next agent kinds now h).1) [
      | inl e ↦ rw (e, pull_loop) first
      | inr (got, e) ↦ elim (Option-cases got) [
        | inl f ↦ rw (e, f, pull_loop) first
        | inr (t, f) ↦
            rw (e, f, pull_loop)
              (Ran-then first
                (pull_loop-Ran n _ agent kinds now (assign_next agent kinds now h).0 first.1))
      ]
    ]

pull_tasks-Ran :
    (req : DispatchPullRequest) (a : AgentState) (now : ℕ) (h : Handler)
    → Distinct h.tasks
    → Ran now h (pull_tasks req a now h).0
unfolding pull_tasks
pull_tasks-Ran req a now h d =
    let first = apply_timeouts-Ran h.tasks now h d d (Distinct-Holds h.tasks d) in
    if_elim (λ (r : Handler × Reply (List TaskState)). Ran now h r.0)
      (apply_timeouts h.tasks now h).1
      (λ ok. Ran-then first (
        pull_loop-Ran (clamp_max_tasks req.max_tasks) [] a.id
          (normalize_string_set req.accept_types) now (apply_timeouts h.tasks now h).0 first.1))
      (λ bad. first)

upsert_agent-rows : (a : AgentState) (s : Option Db) → rows (on_store (upsert_agent a) s).0 ≡ rows s
unfolding upsert_agent
upsert_agent-rows a none = refl
upsert_agent-rows a (some d) = ground arith

pull_found-Ran :
    (o : Option AgentState) (req : DispatchPullRequest) (now : ℕ) (h : Handler)
    → Distinct h.tasks
    → Ran now h (pull_found o req now h).0
unfolding pull_found persist_agent
pull_found-Ran none req now h d = (here, d)
pull_found-Ran (some agent) req now h d =
    let a = beaten agent now in
    let quiet = upsert_agent-rows a h.store in
    if_elim (λ (r : Handler × Reply (List TaskState)). Ran now h r.0) (is_draining agent.status)
      (λ drains. (here, d))
      (λ works.
        if_elim (λ (r : Handler × Reply (List TaskState)). Ran now h r.0)
          (on_store (upsert_agent a) h.store).1
          (λ ok. Ran-then (after here (kept refl quiet refl), d) (pull_tasks-Ran req a now _ d))
          (λ bad. (after here (kept refl quiet refl), d)))

-- A pull changes tasks only along the diagram, and keeps the map one of distinct keys.
pub dispatch_pull-Ran :
    (req : Option DispatchPullRequest) (now : ℕ) (h : Handler)
    → Distinct h.tasks
    → Changes now false h (dispatch_pull req now h).0 × Distinct (dispatch_pull req now h).0.tasks
unfolding dispatch_pull
dispatch_pull-Ran none now h d = (here, d)
dispatch_pull-Ran (some req) now h d =
    if_elim (λ (r : Handler × Reply (List TaskState)). Ran now h r.0)
      (is_empty (trim_space req.agent_id)) (λ bare. (here, d))
      (λ named. pull_found-Ran (lookup (trim_space req.agent_id) h.agents) req now h d)
