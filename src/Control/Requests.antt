-- ===== src/Control/Requests.antt =====
-- go-watch-file/internal/api/control_handlers.go, control_dispatch.go: the requests to the control plane, one after
-- another, each under the handler's lock, and what holds after any sequence of them.
use go_watch_file.Base.{
  ℕ, ◌+◌, ◌^◌, ◌<◌, ◌≡◌, refl, ap, ◌∙◌, Bool, true, false, Option, none, some, List, [], ◌∷◌, inl,
  inr, arith, Option-cases, length,
}
use go_watch_file.Base.Str.{Str}
use go_watch_file.Base.Assoc.{lookup}
use go_watch_file.Control.Types.{
  TaskState, CreateTaskRequest, TaskAckRequest, TaskProgressRequest, TaskCompleteRequest,
  DispatchPullRequest,
}
use go_watch_file.Control.Db.{Handler}
use go_watch_file.Control.Tasks.{create_task, cancel_task, retry_task}
use go_watch_file.Control.Dispatch.{dispatch_pull, ack_task, progress_task}
use go_watch_file.Control.Complete.{complete_task}
use go_watch_file.Control.Machine.{Changes, here, after}
use go_watch_file.Control.Agents.{u64}
use go_watch_file.Control.Serve.{
  next_task_id, create_task-Change, cancel_task-Change, retry_task-Change, ack_task-Change,
  progress_task-Change, complete_task-Change,
}
use go_watch_file.Control.Pull.{dispatch_pull-Ran}
use go_watch_file.Control.Life.{SameTask-refl, SameTask-trans}
use go_watch_file.Control.Sound.{Sound, Change-Sound, Kept, Change-Kept}
use go_watch_file.Control.Numbers.{
  Numbered, task_id_of-injective, u64_small, Counted, Change-Counted, steady-Counted,
}

-- A request that touches the tasks; `none` is a body that is not JSON.
pub data Request : Type 0 where
  pulls : Option DispatchPullRequest → Request
  creates : Option CreateTaskRequest → Request
  cancels : (id : Str) → Request
  retries : (id : Str) → Request
  acks : Option TaskAckRequest → (id : Str) → Request
  progresses : Option TaskProgressRequest → (id : Str) → Request
  completes : Option TaskCompleteRequest → (id : Str) → Request

unfoldable pub serve : Request → ℕ → Handler → Handler
serve (pulls req) now h = (dispatch_pull req now h).0
serve (creates req) now h = (create_task req now h).0
serve (cancels id) now h = (cancel_task id now h).0
serve (retries id) now h = (retry_task id now h).0
serve (acks req id) now h = (ack_task req id now h).0
serve (progresses req id) now h = (progress_task req id now h).0
serve (completes req id) now h = (complete_task req id now h).0

-- The requests in the order in which the lock lets them through, each with its time.
unfoldable pub serve_all : List (Request × ℕ) → Handler → Handler
serve_all [] h = h
serve_all ((r, now) ∷ rs) h = serve_all rs (serve r now h)

-- The numbers of tasks have not come round: a request that makes a task finds its id free.
abbrev pub Fresh : Request → Handler → Type 0
Fresh (creates req) h = lookup (next_task_id h) h.tasks ≡ none
Fresh _ h = Unit

abbrev pub AllFresh : List (Request × ℕ) → Handler → Type 0
AllFresh [] h = Unit
AllFresh ((r, now) ∷ rs) h = Fresh r h × AllFresh rs (serve r now h)

-- Whether a request may make a task.
abbrev pub makes_task : Request → Bool
makes_task (creates req) = true
makes_task _ = false

serve-Changes-Fresh :
    (r : Request) (now : ℕ) (h : Handler)
    → Sound h
    → Fresh r h
    → Changes now (makes_task r) h (serve r now h)
unfolding serve
serve-Changes-Fresh (pulls req) now h s f = (dispatch_pull-Ran req now h s.distinct).0
serve-Changes-Fresh (creates req) now h s f = after here (create_task-Change req now h f)
serve-Changes-Fresh (cancels id) now h s f = after here (cancel_task-Change id now h)
serve-Changes-Fresh (retries id) now h s f = after here (retry_task-Change id now h)
serve-Changes-Fresh (acks req id) now h s f = after here (ack_task-Change req id now h)
serve-Changes-Fresh (progresses req id) now h s f = after here (progress_task-Change req id now h)
serve-Changes-Fresh (completes req id) now h s f = after here (complete_task-Change req id now h)

Changes-Sound : {now : ℕ} {makes : Bool} {h g : Handler} → Changes now makes h g → Sound h → Sound g
Changes-Sound here s = s
Changes-Sound {now} {makes} (after {g} {k} cs c) s =
    Change-Sound now makes g k c (Changes-Sound cs s)

Kept-then :
    (k : Str) (t : TaskState) (g j : Handler)
    → Kept k t g
    → ((u : TaskState) → lookup k g.tasks ≡ some u → Kept k u j)
    → Kept k t j
Kept-then k t g j (u, l, same, fixed) next =
    let (v, l', same', fixed') = next u l in
    (
      v,
      l',
      SameTask-trans t u v same same',
      λ s. fixed' (ap (λ (x : TaskState). x.status) (fixed s) ∙ s) ∙ fixed s,
    )

Changes-Kept :
    {now : ℕ} {makes : Bool} {h g : Handler} (k : Str) (t : TaskState)
    → Changes now makes h g
    → lookup k h.tasks ≡ some t
    → Kept k t g
Changes-Kept k t here l = (t, l, SameTask-refl t, λ s. refl)
Changes-Kept {now} {makes} key t (after {g} {k} cs c) l =
    Kept-then key t g k (Changes-Kept key t cs l) (λ u e. Change-Kept now makes key u g k c e)

-- Whatever requests are served, if each that makes a task finds its id free: every task stays under
-- its own id, its fields stay consistent (the retries within their budget, a finishing time exactly
-- when it has ended, no owner while it waits, no reason of failure unless it failed), and the rows of
-- the store are those of the map.
pub serve_all-Sound :
    (rs : List (Request × ℕ)) (h : Handler) → Sound h → AllFresh rs h → Sound (serve_all rs h)
unfolding serve_all
serve_all-Sound [] h s f = s
serve_all-Sound ((r, now) ∷ rs) h s f =
    serve_all-Sound rs (serve r now h) (Changes-Sound (serve-Changes-Fresh r now h s f.0) s) f.1

-- The next number is free.
Numbered-Fresh : (r : Request) (h : Handler) → Numbered h → h.next_task_seq + 1 < 2 ^ 64 → Fresh r h
unfolding next_task_id
Numbered-Fresh (creates req) h num room = elim (Option-cases (lookup (next_task_id h) h.tasks)) [
  | inl free ↦ free
  | inr (t, there) ↦
      let (n, e, le) = num (next_task_id h) t there in
      let same : u64 (h.next_task_seq + 1) ≡ n = task_id_of-injective _ n e in
      absurd (omega (arith, u64_small h.next_task_seq room, same))
]
Numbered-Fresh (pulls req) h num room = tt
Numbered-Fresh (cancels id) h num room = tt
Numbered-Fresh (retries id) h num room = tt
Numbered-Fresh (acks req id) h num room = tt
Numbered-Fresh (progresses req id) h num room = tt
Numbered-Fresh (completes req id) h num room = tt

serve-Counted :
    (r : Request) (now : ℕ) (h : Handler)
    → Sound h
    → Numbered h
    → h.next_task_seq + 1 < 2 ^ 64
    → Counted h (serve r now h)
unfolding serve
serve-Counted (creates req) now h s num room =
    Change-Counted now h _ (create_task-Change req now h (Numbered-Fresh (creates req) h num room))
      room num
serve-Counted (pulls req) now h s num room =
    steady-Counted (serve-Changes-Fresh (pulls req) now h s tt) room num
serve-Counted (cancels id) now h s num room =
    steady-Counted (serve-Changes-Fresh (cancels id) now h s tt) room num
serve-Counted (retries id) now h s num room =
    steady-Counted (serve-Changes-Fresh (retries id) now h s tt) room num
serve-Counted (acks req id) now h s num room =
    steady-Counted (serve-Changes-Fresh (acks req id) now h s tt) room num
serve-Counted (progresses req id) now h s num room =
    steady-Counted (serve-Changes-Fresh (progresses req id) now h s tt) room num
serve-Counted (completes req id) now h s num room =
    steady-Counted (serve-Changes-Fresh (completes req id) now h s tt) room num

pub serve-Changes :
    (r : Request) (now : ℕ) (h : Handler)
    → Sound h
    → Numbered h
    → h.next_task_seq + 1 < 2 ^ 64
    → Changes now (makes_task r) h (serve r now h)
      × Sound (serve r now h)
      × Numbered (serve r now h)
serve-Changes r now h s num room =
    let cs = serve-Changes-Fresh r now h s (Numbered-Fresh r h num room) in
    (cs, Changes-Sound cs s, (serve-Counted r now h s num room).0)

-- Whatever requests are served, from a state in which the tasks and their rows are in order
-- (`Sound`) and each task stands under an id whose number was given out (`Numbered`), as long as the
-- numbers do not come round: a task that is in the map stays in it, with its id, type, target,
-- priority, budget of retries and time of creation, its retries never go down, and a task that
-- succeeded stays exactly as it is. No request that makes a task takes the place of another.
pub serve_all-Kept :
    (rs : List (Request × ℕ)) (k : Str) (t : TaskState) (h : Handler)
    → Sound h
    → Numbered h
    → h.next_task_seq + length rs < 2 ^ 64
    → lookup k h.tasks ≡ some t
    → Kept k t (serve_all rs h)
unfolding serve_all
serve_all-Kept [] k t h s num room l = (t, l, SameTask-refl t, λ e. refl)
serve_all-Kept ((r, now) ∷ rs) k t h s num room l =
    let g = serve r now h in
    let here : h.next_task_seq + 1 < 2 ^ 64 = omega arith in
    let (cs, s', num') = serve-Changes r now h s num here in
    let le = (serve-Counted r now h s num here).1 in
    Kept-then k t g (serve_all rs g) (Changes-Kept k t cs l)
      (λ u e. serve_all-Kept rs k u g s' num' (omega (arith, le)) e)
