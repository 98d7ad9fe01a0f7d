-- ===== src/Control/Expiry.antt =====
-- go-watch-file/internal/api/control_dispatch.go, controlApplyTimeoutsLocked: the timeouts as changes along the
-- diagram.
use go_watch_file.Base.{
  ℕ, ◌+◌, ◌≡◌, refl, sym, subst, Bool, false, none, some, List, [], ◌∷◌, ◌⊎◌, inl, inr, if_elim,
  leb,
}
use go_watch_file.Base.Str.{Str}
use go_watch_file.Base.Assoc.{lookup, insert}
use go_watch_file.Control.Types.{
  TaskStatus, assigned, running, TaskState, has_retry_budget, build_retried_state,
  default_assign_timeout, default_run_timeout,
}
use go_watch_file.Control.Db.{Handler, append_task_event, append_audit_log}
use go_watch_file.Control.Timeouts.{reclaimed_state, timed_out_state, apply_timeout, apply_timeouts}
use go_watch_file.Control.Machine.{
  Edge, reclaim, auto_retry, time_out, Change, kept, moved, Changes, here, after, Wrote,
}
use go_watch_file.Control.Writes.{
  append_task_event-Quiet, append_audit_log-Quiet, Quiet-then, store_task-Wrote,
}
use go_watch_file.Control.Keys.{Distinct, Holds, insert-Distinct, Holds-insert}

-- A change that touches the entry of one key at most, and keeps the task's id.
abbrev pub At : ℕ → Str → Handler → Handler → Type 0
At now key h g =
    Change now false h g
    × ((g.tasks ≡ h.tasks) ⊎ ((u : TaskState) × (u.id ≡ key) × (g.tasks ≡ insert key u h.tasks)))

pub At-by :
    (now : ℕ) (key : Str) (t u : TaskState) (h g : Handler)
    → lookup key h.tasks ≡ some t
    → u.id ≡ key
    → Edge now t u
    → Wrote key u h g
    → At now key h g
At-by now key t u h g e same edge (n, inl (a, b)) = (kept a b n, inl a)
At-by now key t u h g e same edge (n, inr (a, b)) = (moved key t u e edge a b n, inr (u, same, a))

pub apply_timeout-At :
    (s : TaskStatus) (id : Str) (t : TaskState) (now : ℕ) (h : Handler)
    → t.status ≡ s
    → t.id ≡ id
    → lookup id h.tasks ≡ some t
    → At now id h (apply_timeout s id t now h).0
unfolding apply_timeout
apply_timeout-At assigned id t now h e same l =
    if_elim (λ (r : Handler × Bool). At now id h r.0)
      (leb now (t.updated_at + default_assign_timeout)) (λ fresh. (kept refl refl refl, inl refl))
      (λ late.
        At-by now id t (reclaimed_state t now) h _ l (unfold reclaimed_state in same)
          (reclaim e late refl)
          (store_task-Wrote id (reclaimed_state t now) _ h (append_task_event-Quiet _ _ _ _ now)))
apply_timeout-At running id t now h e same l =
    if_elim (λ (r : Handler × Bool). At now id h r.0) (leb now (t.updated_at + default_run_timeout))
      (λ fresh. (kept refl refl refl, inl refl))
      (λ late.
        if_elim (λ (r : Handler × Bool). At now id h r.0) (has_retry_budget t)
          (λ budget.
            At-by now id t (build_retried_state t now) h _ l (unfold build_retried_state in same)
              (auto_retry e late budget refl)
              (store_task-Wrote id (build_retried_state t now) _ h (
                Quiet-then (append_audit_log _ _ _ _ _ now)
                  (λ k. append_task_event _ _ _ _ now (append_task_event _ _ _ _ now k))
                  (append_audit_log-Quiet _ _ _ _ _ now)
                  (Quiet-then (append_task_event _ _ _ _ now) (append_task_event _ _ _ _ now)
                    (append_task_event-Quiet _ _ _ _ now) (append_task_event-Quiet _ _ _ _ now)))))
          (λ spent.
            At-by now id t (timed_out_state t now) h _ l (unfold timed_out_state in same)
              (time_out e late spent refl)
              (store_task-Wrote id (timed_out_state t now) _ h (
                Quiet-then (append_audit_log _ _ _ _ _ now) (append_task_event _ _ _ _ now)
                  (append_audit_log-Quiet _ _ _ _ _ now) (append_task_event-Quiet _ _ _ _ now)))))
apply_timeout-At _ id t now h e same l = (kept refl refl refl, inl refl)

pub Changes-then :
    {now : ℕ} {h g k : Handler}
    → Changes now false h g
    → Changes now false g k
    → Changes now false h k
Changes-then c here = c
Changes-then c (after d e) = after (Changes-then c d) e

abbrev pub Ran : ℕ → Handler → Handler → Type 0
Ran now h g = Changes now false h g × Distinct g.tasks

pub At-Distinct :
    (now : ℕ) (key : Str) (h g : Handler) → Distinct h.tasks → At now key h g → Distinct g.tasks
At-Distinct now key h g d (c, inl e) = subst Distinct (sym e) d
At-Distinct now key h g d (c, inr (u, same, e)) =
    subst Distinct (sym e) (insert-Distinct key u h.tasks same d)

pub At-Holds :
    (now : ℕ) (key : Str) (h g : Handler) (rest : List (Str × TaskState))
    → lookup key rest ≡ none
    → Holds h.tasks rest
    → At now key h g
    → Holds g.tasks rest
At-Holds now key h g rest free hold (c, inl e) = subst (λ m. Holds m rest) (sym e) hold
At-Holds now key h g rest free hold (c, inr (u, same, e)) =
    subst (λ m. Holds m rest) (sym e) (Holds-insert key u h.tasks rest free hold)

pub apply_timeouts-Ran :
    (rest : List (Str × TaskState)) (now : ℕ) (h : Handler)
    → Distinct h.tasks
    → Distinct rest
    → Holds h.tasks rest
    → Ran now h (apply_timeouts rest now h).0
unfolding apply_timeouts
apply_timeouts-Ran [] now h d dr hold = (here, d)
apply_timeouts-Ran ((id, t) ∷ rest) now h d dr hold =
    let step = apply_timeout-At t.status id t now h refl dr.1 hold.0 in
    let g = (apply_timeout t.status id t now h).0 in
    let d' = At-Distinct now id h g d step in
    let (rest_ran, d'') =
      apply_timeouts-Ran rest now g d' dr.2 (At-Holds now id h g rest dr.0 hold.1 step) in
    if_elim (λ (r : Handler × Bool). Ran now h r.0) (apply_timeout t.status id t now h).1
      (λ ok. (Changes-then (after here step.0) rest_ran, d'')) (λ bad. (after here step.0, d'))
