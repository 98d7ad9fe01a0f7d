-- ===== src/Control/Tests.antt =====
-- go-watch-file/internal/api: the control plane on concrete requests.
use go_watch_file.Base.{
  ℕ, ◌≡◌, refl, sym, true, false, Option, none, some, List, [], ◌∷◌, ◌⊎◌, inl, inr, arith,
  Bool-cases,
}
use go_watch_file.Base.Str.{bytes, str_eq, str_eq_iff, pad6, itoa, digits_from}
use go_watch_file.Base.Assoc.{lookup, insert}
use go_watch_file.Control.Types.{TaskState, AgentState, online, CreateTaskRequest, end}
use go_watch_file.Control.Db.{Handler, Db, task_row}
use go_watch_file.Control.Types.{RegisterAgentRequest}
use go_watch_file.Control.Dispatch.{assign_next}
use go_watch_file.Control.Order.{Chosen, assign_next-Chosen}
use go_watch_file.Control.Tasks.{new_task, task_id_of}
use go_watch_file.Control.Life.{new_task-IsValid}
use go_watch_file.Control.Sound.{Sound, insert-Sound, Kept}
use go_watch_file.Control.Numbers.{Numbered}
use go_watch_file.Control.Requests.{
  Request, pulls, creates, cancels, retries, acks, completes, serve_all, AllFresh, serve_all-Sound,
  serve_all-Kept,
}

abbrev demo_agent : AgentState
demo_agent = record {
  id = bytes "agt-000001";
  agent_key = bytes "k";
  hostname = bytes "h";
  version = [];
  ip = [];
  group_name = bytes "default";
  status = online;
  last_seen_at = 0;
  created_at = 0;
  updated_at = 0;
  heartbeat_count = 0;
}

abbrev demo_db : Db
demo_db = record { agent_rows = []; task_rows = []; event_rows = []; audit_rows = []; faults = [] }

abbrev demo_empty : Handler
demo_empty = record {
  agents = (bytes "agt-000001", demo_agent) ∷ [];
  agent_key_idx = (bytes "k", bytes "agt-000001") ∷ [];
  tasks = [];
  next_agent_seq = 1;
  next_task_seq = 0;
  store = some demo_db;
}

abbrev demo_create : CreateTaskRequest
demo_create = record {
  kind = bytes "upload";
  target = bytes "/a";
  payload = end;
  priority = bytes "high";
  created_by = [];
  max_retries = 0;
}

abbrev demo_task : TaskState
demo_task = new_task (bytes "tsk-000001") demo_create 0

-- A handler that has one task, and its row.
abbrev demo_handler : Handler
demo_handler = record demo_empty {
  tasks = (bytes "tsk-000001", demo_task) ∷ [];
  next_task_seq = 1;
  store = some (record demo_db { task_rows = (bytes "tsk-000001", task_row demo_task) ∷ [] });
}

demo_empty-Sound : Sound demo_empty
unfolding lookup
demo_empty-Sound = record { distinct = tt; valid = λ k t e. cc; mirrors = λ k. refl }

demo_handler-Sound : Sound demo_handler
unfolding insert new_task
demo_handler-Sound =
    insert-Sound (bytes "tsk-000001") demo_task demo_empty demo_handler refl
      (new_task-IsValid (bytes "tsk-000001") demo_create 0) refl refl demo_empty-Sound

abbrev demo_requests : List (Request × ℕ)
demo_requests =
    (pulls (some (record { agent_id = bytes "agt-000001"; accept_types = []; max_tasks = 1 })), 1)
    ∷ (acks (some (record { agent_id = bytes "agt-000001"; message = [] })) (bytes "tsk-000001"), 2)
    ∷ (
      completes
          (some (record {
            agent_id = bytes "agt-000001";
            status = bytes "success";
            message = [];
            error = [];
          }))
          (bytes "tsk-000001"),
      3,
    )
    ∷ (cancels (bytes "tsk-000001"), 4)
    ∷ (retries (bytes "tsk-000001"), 5)
    ∷ []

demo_fresh : AllFresh demo_requests demo_handler
demo_fresh = (tt, (tt, (tt, (tt, (tt, tt)))))

serve_all-Sound_example : Sound (serve_all demo_requests demo_handler)
serve_all-Sound_example = serve_all-Sound demo_requests demo_handler demo_handler-Sound demo_fresh

-- Two tasks are made before the others.
abbrev demo_creations : List (Request × ℕ)
demo_creations = (creates (some demo_create), 1) ∷ (creates (some demo_create), 2) ∷ demo_requests

demo_Numbered : Numbered demo_handler
unfolding lookup task_id_of pad6 itoa digits_from
demo_Numbered k t there = (1, by_key (Bool-cases (str_eq (bytes "tsk-000001") k)), omega arith)
  where
    by_key :
        (str_eq (bytes "tsk-000001") k ≡ true) ⊎ (str_eq (bytes "tsk-000001") k ≡ false)
        → k ≡ bytes "tsk-000001"
    by_key (inl same) = sym ((str_eq_iff (bytes "tsk-000001") k).0 same)
    by_key (inr other) =
        absurd (let no : ◌≡◌ {A = Option TaskState} none (some t) = rw other at there in cc)

serve_all-Kept_example : Kept (bytes "tsk-000001") demo_task (serve_all demo_creations demo_handler)
unfolding lookup str_eq
serve_all-Kept_example =
    serve_all-Kept demo_creations (bytes "tsk-000001") demo_task demo_handler demo_handler-Sound
      demo_Numbered (omega arith) refl

assign_next-Chosen_example :
    Chosen
      (bytes "agt-000001")
      []
      1
      demo_handler
      (assign_next (bytes "agt-000001") [] 1 demo_handler).1
assign_next-Chosen_example = assign_next-Chosen (bytes "agt-000001") [] 1 demo_handler

abbrev demo_register : RegisterAgentRequest
demo_register = record {
  agent_key = bytes " k ";
  hostname = bytes "h2";
  version = bytes "2";
  ip = [];
  group_name = [];
}
