-- ===== src/Service/Tests.antt =====
-- go-watch-file/internal/service: uploads with a pool and an object store that fail at times.
use go_watch_file.Base.{
  ℕ, zero, suc, ◌-◌, ◌*◌, ◌≤◌, ◌≡◌, refl, Bool, true, false, Option, none, some, List, [], ◌∷◌,
  if◌then◌else◌, ltb, length, arith,
}
use go_watch_file.Base.Str.{Str, bytes, str_eq}
use go_watch_file.Paths.Tests.{demo_paths}
use go_watch_file.Dashboard.Tests.{demo_state}
use go_watch_file.Service.Retry.{
  second, max_retry_delay, resolve_max_attempts, parse_retry_delays, build_retry_plan, IsPlan,
  build_retry_plan-IsPlan,
}
use go_watch_file.Service.Attempts.{
  Step, refused, uploaded, failed, upload_file_with_retry, IsTold, upload_file_with_retry-IsTold,
}
use go_watch_file.Service.Uploads.{
  FileService, Moment, Breaker, PoolView, full, enqueue_file, normalize_manual_path,
  begin_processing,
}
use go_watch_file.Service.Manual.{GoesOnce, enqueue-GoesOnce}
use go_watch_file.Service.Reasons.{Ending, IsCounted, finish_all, finish_all-IsCounted}

abbrev demo_parse : Str → Option ℕ
demo_parse s = if str_eq s (bytes "20s") then some (20 * second) else none

plan_test :
    build_retry_plan demo_parse (bytes "20s, soon") 5
    ≡ 20 * second ∷ 40 * second ∷ 60 * second ∷ 60 * second ∷ []
unfolding build_retry_plan go_watch_file.Base.Trim.trim_space str_eq
plan_test = refl

build_retry_plan-IsPlan_example :
    (1 ≤ resolve_max_attempts 5)
    × (resolve_max_attempts 5 ≤ 20)
    × IsPlan max_retry_delay
        (resolve_max_attempts 5 - 1)
        (build_retry_plan demo_parse (bytes "20s, soon") 5)
unfolding parse_retry_delays go_watch_file.Base.Trim.trim_space str_eq
build_retry_plan-IsPlan_example =
    build_retry_plan-IsPlan demo_parse (bytes "20s, soon") 5 max_retry_delay (omega arith)
      (omega arith) (omega arith, tt)

-- The store refuses twice.
abbrev demo_steps : ℕ → Step
demo_steps n = record {
  cancelled_before = false;
  outcome = if ltb n 2 then failed (refused (bytes "busy")) else uploaded (bytes "http://oss/a");
  cancelled_in_wait = false;
}

attempts_test :
    upload_file_with_retry true (1 ∷ 2 ∷ 4 ∷ []) demo_steps
    ≡ record { result = uploaded (bytes "http://oss/a"); calls = 3; retries = 2 }
unfolding upload_file_with_retry
attempts_test = refl

upload_file_with_retry-IsTold_example :
    IsTold demo_steps 3 (upload_file_with_retry true (1 ∷ 2 ∷ 4 ∷ []) demo_steps)
upload_file_with_retry-IsTold_example = upload_file_with_retry-IsTold (1 ∷ 2 ∷ 4 ∷ []) demo_steps

abbrev demo_service : FileService
demo_service = record {
  state = demo_state;
  manual_once = [];
  queue_full = 0;
  queue_shed = 0;
  retry_total = 0;
  upload_failure = 0;
  fail_reasons = [];
}

abbrev demo_moment : Moment
demo_moment = record { size = 12; now = 5; label = bytes "10:00" }

abbrev demo_breaker : Breaker
demo_breaker = record { is_enabled = true; queue_size = 10; below = λ n cap. ltb n 9 }

-- The queue is full.
abbrev full_pool : PoolView
full_pool = record {
  waiting = 3;
  answer = some (full (bytes "queue full"));
  queue_length = 3;
  in_flight = 1;
  workers = 1;
}

abbrev demo_path : Str
demo_path = bytes "/srv/a.log"

enqueue-GoesOnce_example : GoesOnce demo_paths demo_path (
    begin_processing demo_paths demo_path
      (record (enqueue_file demo_paths demo_breaker full_pool demo_moment demo_path true
        demo_service).0 { state = demo_state }))
unfolding normalize_manual_path go_watch_file.Base.Trim.trim_space
    go_watch_file.Paths.Split.trim_last
enqueue-GoesOnce_example =
    enqueue-GoesOnce demo_paths demo_breaker full_pool demo_moment demo_path demo_service demo_state
      refl

abbrev ending : Str → Ending
ending why = record {
  moment = demo_moment;
  latency = 3;
  channels = bytes "email" ∷ [];
  path = demo_path;
  manual = false;
  outcome = failed (refused why);
}

abbrev demo_endings : List Ending
demo_endings = ending (bytes "busy") ∷ ending (bytes " busy") ∷ ending [] ∷ []

reasons_test :
    (finish_all demo_paths demo_endings demo_service).fail_reasons
    ≡ (bytes "busy", 2) ∷ (bytes "unknown", 1) ∷ []
unfolding finish_all str_eq go_watch_file.Base.Trim.trim_space
reasons_test = refl

finish_all-IsCounted_example : IsCounted (finish_all demo_paths demo_endings demo_service)
finish_all-IsCounted_example = finish_all-IsCounted demo_paths demo_endings demo_service refl
