-- ===== src/Watch/Tests.antt =====
-- go-watch-file/internal/watcher: a watcher of log files.
use go_watch_file.Base.{ℕ, ◌+◌, ◌≤◌, ◌≡◌, refl, Bool, true, false, none, some, List, [], ◌∷◌, arith}
use go_watch_file.Base.Str.{Str, bytes, str_eq}
use go_watch_file.Base.Assoc.{lookup}
use go_watch_file.Paths.Tests.{demo_paths}
use go_watch_file.Watch.Files.{WatchConfig, has_stamp, has_path}
use go_watch_file.Watch.Events.{
  Event, Act, passes, happens, fires, completes, hands, run, new_world,
}
use go_watch_file.Watch.Delivery.{calls_of, all_spare, IsDrained, run-calls_of}

abbrev demo_config : WatchConfig
demo_config = record {
  watch_dir = bytes "/srv";
  file_ext = bytes ".log";
  watch_exclude = [];
  silence = 10;
}

abbrev log_path : Str
log_path = bytes "/srv/a.log"

abbrev written : Str → Event
written p = record { path = p; is_create = false; is_write = true; is_gone = false; created = none }

-- Two writes, the second before the window has passed.
abbrev writes : List Act
writes = happens (written log_path) ∷ passes 4 ∷ happens (written log_path) ∷ []

-- A write of another file, a timer that was stopped, and then the timer that counts.
abbrev later : List Act
later =
    happens (written (bytes "/srv/b.log"))
    ∷ passes 6
    ∷ fires log_path 10
    ∷ completes log_path
    ∷ passes 4
    ∷ fires log_path 14
    ∷ completes log_path
    ∷ hands log_path
    ∷ []

-- A write between the check of a callback and its call of AddFile.
abbrev raced : List Act
raced =
    happens (written log_path)
    ∷ passes 10
    ∷ fires log_path 10
    ∷ completes log_path
    ∷ passes 1
    ∷ happens (written log_path)
    ∷ hands log_path
    ∷ []

calls_test :
    calls_of log_path
      (run demo_paths later (run demo_paths writes (new_world demo_paths demo_config))).calls
    ≡ 1
unfolding calls_of run new_world go_watch_file.Base.Str.to_lower go_watch_file.Paths.Split.split_at
    str_eq go_watch_file.Base.Str.has_prefix go_watch_file.Paths.Matcher.parse_ext_list
    go_watch_file.Base.Trim.trim_space
calls_test = refl

later-IsDrained :
    IsDrained log_path
      (run demo_paths later (run demo_paths writes (new_world demo_paths demo_config)))
unfolding run new_world calls_of has_path has_stamp go_watch_file.Base.Str.to_lower
    go_watch_file.Paths.Split.split_at str_eq go_watch_file.Base.Str.has_prefix
    go_watch_file.Paths.Matcher.parse_ext_list go_watch_file.Base.Trim.trim_space
later-IsDrained = record { idle = refl; handed = refl; undue = λ d h. absurd cc }

run-calls_of_example :
    let w = run demo_paths writes (new_world demo_paths demo_config) in
    calls_of log_path (run demo_paths later w).calls
    ≡ calls_of log_path w.calls + calls_of log_path w.handing + 1
unfolding run new_world all_spare lookup go_watch_file.Base.Str.to_lower
    go_watch_file.Paths.Split.split_at str_eq go_watch_file.Base.Str.has_prefix
    go_watch_file.Paths.Matcher.parse_ext_list go_watch_file.Base.Trim.trim_space
run-calls_of_example =
    run-calls_of demo_paths demo_config writes later log_path 4 refl refl later-IsDrained
      (omega arith)
