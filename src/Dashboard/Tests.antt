-- ===== src/Dashboard/Tests.antt =====
-- go-watch-file/internal/state: the state of a service that watches log files.
use go_watch_file.Base.{
  ◌≡◌, refl, Bool, true, false, List, [], ◌∷◌, if◌then◌else◌, ◌==◌, ◌||◌, arith,
}
use go_watch_file.Base.Str.{Str, bytes, str_eq}
use go_watch_file.Paths.Split.{PathHost, split_at}
use go_watch_file.Paths.Tests.{demo_paths}
use go_watch_file.Dashboard.Switches.{
  Switches, auto_upload, switched, normalize_path, normalize_control_path, is_same_or_child_path,
  is_top, parent_dir,
}
use go_watch_file.Dashboard.Below.{Below, at, up, auto_upload-switched}
use go_watch_file.Dashboard.Records.{RuntimeState, new_runtime_state}
use go_watch_file.Dashboard.Tally.{
  Op, switches_to, queues, uploads_to, fails, measures, steps, IsTallied, steps-IsTallied,
}

abbrev demo_name : Str
demo_name = bytes "web1"

abbrev pub demo_state : RuntimeState
demo_state = new_runtime_state demo_paths demo_name (bytes "/srv") (bytes ".log") [] 2

-- A switch of a directory below the one that is set.
abbrev old_switches : Switches
old_switches = (bytes "/srv/logs/a", true) ∷ (bytes "/srv", true) ∷ []

switch_test :
    auto_upload demo_paths demo_name
      (switched demo_paths (bytes "/srv/logs") true false old_switches)
      (bytes "web1/srv/logs/a/b.log")
    ≡ false
unfolding auto_upload switched go_watch_file.Base.Trim.trim_space go_watch_file.Base.Str.has_prefix
    go_watch_file.Base.Str.to_lower str_eq go_watch_file.Paths.Split.join_by split_at
switch_test = refl

demo_Below : Below demo_paths (bytes "/srv/logs") (bytes "/srv/logs/a/b.log")
unfolding is_top str_eq is_same_or_child_path parent_dir split_at
    go_watch_file.Paths.Split.trim_last go_watch_file.Base.Str.has_prefix
    go_watch_file.Paths.Split.join_by
demo_Below =
    up (bytes "/srv/logs/a/b.log") refl refl refl (omega arith)
      (up (bytes "/srv/logs/a") refl refl refl (omega arith) at)

auto_upload-switched_example :
    auto_upload demo_paths demo_name
      (switched demo_paths (bytes "/srv/logs") true false old_switches)
      (bytes "/srv/logs/a/b.log")
    ≡ false
unfolding normalize_path normalize_control_path is_top str_eq go_watch_file.Base.Trim.trim_space
    go_watch_file.Base.Str.has_prefix go_watch_file.Base.Str.to_lower
auto_upload-switched_example =
    auto_upload-switched demo_paths demo_name (bytes "/srv/logs") (bytes "/srv/logs/a/b.log") false
      old_switches refl demo_Below

abbrev demo_ops : List Op
demo_ops =
    queues (bytes "/srv/a.log") 10 1
    ∷ uploads_to (bytes "/srv/a.log") (bytes "http://oss/a.log") 5 false 10 2
    ∷ switches_to (bytes "/srv") true false
    ∷ fails (bytes "/srv/b.log") (bytes "timeout") 7 3
    ∷ measures 1 2 2 (bytes "10:00")
    ∷ []

steps-IsTallied_example : IsTallied demo_paths demo_ops (
    steps demo_paths demo_ops
      (new_runtime_state demo_paths demo_name (bytes "/srv") (bytes ".log") [] 2))
steps-IsTallied_example =
    steps-IsTallied demo_paths demo_name (bytes "/srv") (bytes ".log") [] 2 demo_ops

abbrev has_slash : Str → Bool
has_slash [] = false
has_slash (c ∷ s) = c == b'/' || has_slash s

-- The path up to its last `/`.
abbrev up_one : Str → Str
up_one [] = []
up_one (c ∷ s) = if has_slash s then c ∷ up_one s else []

abbrev tree_paths : PathHost
tree_paths = record demo_paths { clean = λ s. s; dir = up_one }
