-- ===== src/Control/Writes.antt =====
-- go-watch-file/internal/api/control_store.go and its callers: a write of a task reaches the row and the map, or
-- neither; the logs reach none of them.
use go_watch_file.Base.{
  ℕ, ◌≡◌, refl, Bool, false, Option, none, some, inl, inr, arith, if◌then◌else◌, if_elim, ◌∙◌,
}
use go_watch_file.Base.Str.{Str}
use go_watch_file.Base.Assoc.{lookup}
use go_watch_file.Base.Trim.{trim_space}
use go_watch_file.Control.Types.{TaskState, Fields, Reply}
use go_watch_file.Control.Db.{
  Handler, Db, TaskEvent, AuditLog, persist_task, upsert_task, insert_task_event, insert_audit_log,
  on_store, append_task_event, append_audit_log,
}
use go_watch_file.Control.Tasks.{save_task}
use go_watch_file.Control.Timeouts.{store_task}
use go_watch_file.Control.Machine.{rows, put_row, Wrote, Quiet, Edge, Change, kept, moved}

insert_task_event-rows :
    (e : TaskEvent) (s : Option Db) → rows (on_store (insert_task_event e) s).0 ≡ rows s
unfolding insert_task_event
insert_task_event-rows e none = refl
insert_task_event-rows e (some d) = ground arith

insert_audit_log-rows :
    (l : AuditLog) (s : Option Db) → rows (on_store (insert_audit_log l) s).0 ≡ rows s
unfolding insert_audit_log
insert_audit_log-rows l none = refl
insert_audit_log-rows l (some d) = ground arith

pub append_task_event-Quiet :
    (task agent kind message : Str) (at : ℕ) → Quiet (append_task_event task agent kind message at)
unfolding append_task_event
append_task_event-Quiet task agent kind message at h =
    (refl, insert_task_event-rows _ h.store, refl)

pub append_audit_log-Quiet :
    (operator action kind id : Str) (detail : Fields) (at : ℕ)
    → Quiet (append_audit_log operator action kind id detail at)
unfolding append_audit_log
append_audit_log-Quiet operator action kind id detail at h =
    (refl, insert_audit_log-rows _ h.store, refl)

pub Quiet-then : (f g : Handler → Handler) → Quiet f → Quiet g → Quiet (λ h. f (g h))
Quiet-then f g qf qg h =
    let (a, b, c) = qf (g h) in let (a', b', c') = qg h in (a ∙ a', b ∙ b', c ∙ c')

on_store-rows :
    (t : TaskState) (s : Option Db)
    → let (s', ok) = on_store (upsert_task t) s in
      rows s' ≡ (
        if ok
        then put_row t.id (record t { failure_reason = trim_space t.failure_reason }) (rows s)
        else rows s)
unfolding upsert_task
on_store-rows t none = refl
on_store-rows t (some d) = ground arith

pub save_task-Wrote :
    (key : Str) (t : TaskState) (after : Handler → Handler) (h : Handler)
    → Quiet after
    → Wrote key t h (save_task key t after h).0
unfolding save_task persist_task
save_task-Wrote key t after h q =
    let e = on_store-rows t h.store in
    if_elim (λ (r : Handler × Reply TaskState). Wrote key t h r.0)
      (on_store (upsert_task t) h.store).1
      (λ ok. let (a, b, c) = q _ in (c, inr (a, b ∙ (rw ok at e))))
      (λ bad. (refl, inl (refl, rw bad at e)))

pub store_task-Wrote :
    (key : Str) (t : TaskState) (after : Handler → Handler) (h : Handler)
    → Quiet after
    → Wrote key t h (store_task key t after h).0
unfolding store_task persist_task
store_task-Wrote key t after h q =
    let e = on_store-rows t h.store in
    if_elim (λ (r : Handler × Bool). Wrote key t h r.0) (on_store (upsert_task t) h.store).1
      (λ ok. let (a, b, c) = q _ in (c, inr (a, b ∙ (rw ok at e))))
      (λ bad. (refl, inl (refl, rw bad at e)))

-- A write along an edge is a change.
pub moved_by :
    (now : ℕ) (key : Str) (t u : TaskState) (h g : Handler)
    → lookup key h.tasks ≡ some t
    → Edge now t u
    → Wrote key u h g
    → Change now false h g
moved_by now key t u h g e edge (n, inl (a, b)) = kept a b n
moved_by now key t u h g e edge (n, inr (a, b)) = moved key t u e edge a b n
