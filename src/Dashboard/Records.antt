-- ===== src/Dashboard/Records.antt =====
-- go-watch-file/internal/state/state.go: the state of files, the history of uploads, the counts. Sizes and latencies are
-- numbers, 0 where "--" is shown; what os.Stat and the clock say is given.
use go_watch_file.Base.{
  ℕ, Bool, true, not, Option, none, some, List, [], ◌∷◌, if◌then◌else◌, ◌&&◌, ◌||◌,
}
use go_watch_file.Base.Str.{Str, bytes, str_eq, is_empty}
use go_watch_file.Base.Trim.{trim_space}
use go_watch_file.Base.Assoc.{insert}
use go_watch_file.Paths.Split.{PathHost, mem_str}
use go_watch_file.Paths.Matcher.{Matcher, new_matcher, is_target_file}
use go_watch_file.Paths.Exclude.{ExcludeMatcher, new_exclude_matcher, is_excluded}
use go_watch_file.Paths.Objects.{split_watch_dirs}
use go_watch_file.Watch.Dirs.{WalkEntry, is_below_any}
use go_watch_file.Dashboard.Switches.{
  Switches, normalize_path, normalize_control_path, is_same_or_child_path, auto_upload, switched,
}

pub data FileStatus : Type 0 where
  unknown queued uploaded failed existing : FileStatus

-- The texts of Note: the fixed ones, and the reason of a failure.
pub data Note : Type 0 where
  auto_queued manual_queued switched_off manual_upload auto_uploaded from_history : Note
  reason : Str → Note

pub record FileState : Type 0 where
  pub status : FileStatus
  pub note : Note
  pub auto_on : Bool

pub record UploadHistory : Type 0 where
  pub file : Str
  pub target : Str
  pub size : ℕ
  pub result : Str
  pub latency : ℕ
  pub at : ℕ
  pub note : Note

pub record ChartPoint : Type 0 where
  pub label : Str
  pub uploads : ℕ
  pub failures : ℕ
  pub queue : ℕ

pub record RuntimeState : Type 0 where
  pub host_name : Str
  pub watch_dirs : List Str
  pub matcher : Matcher
  pub exclude : Option ExcludeMatcher
  pub file_state : List (Str × FileState)
  pub switches : Switches
  pub uploads : List UploadHistory
  pub queue : List ChartPoint
  pub notifications : List (ℕ × Str)
  pub successes : ℕ
  pub failures : ℕ
  pub workers : ℕ
  pub queue_len : ℕ

abbrev pub max_upload_records : ℕ
max_upload_records = 200

abbrev pub max_queue_points : ℕ
max_queue_points = 32

abbrev pub max_notifications : ℕ
max_notifications = 200

-- seedQueuePoints
abbrev pub empty_point : Str → ChartPoint
empty_point label = record { label = label; uploads = 0; failures = 0; queue = 0 }

abbrev pub seed_queue_points : List ChartPoint
seed_queue_points =
    empty_point (bytes "00:00")
    ∷ empty_point (bytes "04:00")
    ∷ empty_point (bytes "08:00")
    ∷ empty_point (bytes "12:00")
    ∷ empty_point (bytes "16:00")
    ∷ empty_point (bytes "20:00")
    ∷ []

-- The loop of NewRuntimeState.
unfoldable pub watched_switches : PathHost → List Str → Switches → Switches
unfolding normalize_path insert
watched_switches host [] switches = switches
watched_switches host (dir ∷ dirs) switches =
    let norm = normalize_path host dir in
    let more = watched_switches host dirs (insert (normalize_path host norm) true switches) in
    let same = watched_switches host dirs switches in if is_empty norm then same else more

-- NewRuntimeState, from the settings that it reads.
unfoldable pub new_runtime_state : PathHost → Str → Str → Str → Str → ℕ → RuntimeState
unfolding watched_switches
new_runtime_state host host_name watch_dir file_ext watch_exclude workers =
    let dirs = split_watch_dirs host watch_dir in
    record {
      host_name = host_name;
      watch_dirs = dirs;
      matcher = new_matcher file_ext;
      exclude = new_exclude_matcher host watch_exclude;
      file_state = [];
      switches = watched_switches host dirs [];
      uploads = [];
      queue = seed_queue_points;
      notifications = [];
      successes = 0;
      failures = 0;
      workers = workers;
      queue_len = 0;
    }

-- CarryOverFrom
unfoldable pub carry_over_from : RuntimeState → RuntimeState → RuntimeState
carry_over_from old s = record s {
  successes = old.successes;
  failures = old.failures;
  queue_len = old.queue_len;
  uploads = old.uploads;
  notifications = old.notifications;
  queue = old.queue;
}

-- autoUploadLocked
unfoldable pub auto_upload_enabled : PathHost → RuntimeState → Str → Bool
unfolding auto_upload
auto_upload_enabled host s path = auto_upload host s.host_name s.switches path

-- The walk of BootstrapExisting over one directory; `skipped` are the directories that were skipped,
-- `seen` the files that were met.
unfoldable pub bootstrap_walk :
    PathHost → List Str → List Str → List WalkEntry → RuntimeState → List Str × RuntimeState
unfolding is_below_any is_excluded is_target_file normalize_path mem_str insert auto_upload_enabled
bootstrap_walk host skipped seen [] s = (seen, s)
bootstrap_walk host skipped seen (e ∷ rest) s =
    let norm = normalize_path host e.path in
    let file : FileState = record {
      status = existing;
      note = from_history;
      auto_on = auto_upload_enabled host s e.path;
    } in
    let same = bootstrap_walk host skipped seen rest s in
    let left_out = bootstrap_walk host (e.path ∷ skipped) seen rest s in
    let added =
      bootstrap_walk host skipped (norm ∷ seen) rest
        (record s { file_state = insert norm file s.file_state }) in
    let visited =
      if e.is_dir
      then if is_excluded host s.exclude e.path then left_out else same
      else if not (is_target_file host s.matcher e.path) || mem_str norm seen
      then same
      else added in
    let erred : List Str × RuntimeState = elim e.walk_error [ none ↦ visited | some err ↦ same ] in
    if is_below_any e.path skipped then same else erred

-- BootstrapExisting; `walk` gives the calls of WalkDir at a directory.
unfoldable pub bootstrap_dirs :
    PathHost → (Str → List WalkEntry) → List Str → List Str → RuntimeState → RuntimeState
unfolding bootstrap_walk
bootstrap_dirs host walk seen [] s = s
bootstrap_dirs host walk seen (dir ∷ dirs) s =
    let same = bootstrap_dirs host walk seen dirs s in
    let (met, found) = bootstrap_walk host [] seen (walk dir) s in
    let more = bootstrap_dirs host walk met dirs found in
    if is_empty (trim_space dir) then same else more

-- The loop of SetAutoUpload over the files.
unfoldable pub synced :
    PathHost → Str → Str → Bool → Bool → List (Str × FileState) → List (Str × FileState)
unfolding is_same_or_child_path normalize_path
synced host norm key is_dir enabled [] = []
synced host norm key is_dir enabled ((p, f) ∷ rest) =
    let hit =
      (is_dir && is_same_or_child_path host p norm)
      || (not is_dir && str_eq (normalize_path host p) key) in
    (p, if hit then (record f { auto_on = enabled }) else f)
    ∷ synced host norm key is_dir enabled rest

-- SetAutoUpload; `is_dir` is what isDirPath says.
unfoldable pub set_auto_upload : PathHost → Str → Bool → Bool → RuntimeState → RuntimeState
unfolding normalize_control_path normalize_path switched synced
set_auto_upload host path is_dir enabled s =
    let norm = normalize_control_path host path s.host_name in
    let key = normalize_path host norm in
    if is_empty norm then s else (record s {
      switches = switched host key is_dir enabled s.switches;
      file_state = synced host norm key is_dir enabled s.file_state;
    })
