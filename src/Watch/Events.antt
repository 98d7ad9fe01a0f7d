-- ===== src/Watch/Events.antt =====
-- go-watch-file/internal/watcher/file_watcher.go: the events of fsnotify, and the reset to new settings.
use go_watch_file.Base.{
  ℕ, ◌+◌, Bool, true, false, not, Option, List, [], ◌∷◌, if◌then◌else◌, ◌||◌, ◌&&◌, leb,
}
use go_watch_file.Base.Str.{Str, bytes, str_eq, is_empty, to_lower}
use go_watch_file.Paths.Split.{PathHost, has_suffix}
use go_watch_file.Paths.Matcher.{new_matcher, is_target_file}
use go_watch_file.Paths.Exclude.{new_exclude_matcher}
use go_watch_file.Paths.Objects.{split_watch_dirs}
use go_watch_file.Watch.Files.{
  WatchConfig, FileWatcher, World, should_log_file_event, update_file_write_time,
  handle_write_complete, hand_over, cleanup_file_state, reset_file_state, has_stamp, remove_stamp,
  has_path, remove_path,
}
use go_watch_file.Watch.Dirs.{
  WalkEntry, WalkResult, walk_failed, add_watch_for_dirs, remove_all_watches, remove_watch_tree,
  is_watched_dir, handle_created_path,
}

abbrev pub temp_file_suffixes : List Str
temp_file_suffixes =
    bytes ".tmp"
    ∷ bytes ".part"
    ∷ bytes ".crdownload"
    ∷ bytes ".download"
    ∷ bytes ".swp"
    ∷ bytes ".swx"
    ∷ bytes ".swpx"
    ∷ []

unfoldable pub ends_in_any : Str → List Str → Bool
unfolding has_suffix
ends_in_any s [] = false
ends_in_any s (suffix ∷ rest) = has_suffix s suffix || ends_in_any s rest

-- isTempFile
unfoldable pub is_temp_file : PathHost → Str → Bool
unfolding ends_in_any
is_temp_file host path =
    let base = to_lower (host.base path) in
    not (is_empty base || str_eq base (bytes ".") || str_eq base (bytes "/"))
    && ends_in_any base temp_file_suffixes

-- fsnotify.Event: the path and the bits of Op that are read; with what os.Stat and the walk would find
-- at the path if it was created.
pub record Event : Type 0 where
  pub path : Str
  pub is_create : Bool
  pub is_write : Bool
  pub is_gone : Bool
  pub created : Option (List WalkEntry)

-- isTargetFileEvent
unfoldable pub is_target_file_event : PathHost → FileWatcher → Event → Bool
unfolding is_temp_file is_target_file
is_target_file_event host fw e =
    not (is_temp_file host e.path)
    && is_target_file host fw.matcher e.path
    && (e.is_write || e.is_create)

-- handleTargetFileEvent
unfoldable pub handle_target_file_event : Str → World → World
unfolding should_log_file_event update_file_write_time
handle_target_file_event path w = update_file_write_time path (should_log_file_event path w)

abbrev pub with_watcher : World → FileWatcher → World
with_watcher w fw = record w { watcher = fw }

-- The last part of handleEvent.
unfoldable pub handle_gone : PathHost → Str → World → World
unfolding cleanup_file_state is_watched_dir remove_watch_tree
handle_gone host path w =
    let cleaned = cleanup_file_state path w in
    if is_watched_dir path cleaned.watcher
    then with_watcher cleaned (remove_watch_tree host path cleaned.watcher)
    else cleaned

unfoldable pub handle_create : PathHost → Event → World → World
unfolding handle_created_path
handle_create host e w = with_watcher w (handle_created_path host e.path e.created w.watcher)

-- handleEvent
unfoldable pub handle_event : PathHost → Event → World → World
unfolding is_target_file_event handle_target_file_event handle_create handle_gone
handle_event host e w =
    let w1 =
      if is_target_file_event host w.watcher e then handle_target_file_event e.path w else w in
    let w2 = if e.is_create then handle_create host e w1 else w1 in
    if e.is_gone then handle_gone host e.path w2 else w2

-- NewFileWatcher
unfoldable pub new_file_watcher : PathHost → WatchConfig → FileWatcher
unfolding new_matcher new_exclude_matcher
new_file_watcher host config = record {
  config = config;
  matcher = new_matcher config.file_ext;
  exclude = new_exclude_matcher host config.watch_exclude;
  last_logged = [];
  last_write_time = [];
  write_timers = [];
  watched_dirs = [];
  silence_window = config.silence;
}

-- The world with a new watcher.
unfoldable pub new_world : PathHost → WatchConfig → World
unfolding new_file_watcher
new_world host config = record {
  watcher = new_file_watcher host config;
  now = 0;
  live = [];
  running = [];
  handing = [];
  calls = [];
  noted = [];
}

-- Start, up to the start of the loop; the Boolean is false on an error.
abbrev pub started : World → FileWatcher × WalkResult → World × Bool
started w (fw, walk_failed e) = (with_watcher w fw, false)
started w (fw, r) = (with_watcher w fw, true)

unfoldable pub start : PathHost → (Str → List WalkEntry) → World → World × Bool
unfolding add_watch_for_dirs
start host walk w =
    started w
      (add_watch_for_dirs host walk (split_watch_dirs host w.watcher.config.watch_dir) w.watcher)

-- The settings that Reset takes over at once.
unfoldable pub configured : PathHost → WatchConfig → FileWatcher → FileWatcher
unfolding new_matcher new_exclude_matcher
configured host config fw = record fw {
  config = config;
  silence_window = config.silence;
  matcher = new_matcher config.file_ext;
  exclude = new_exclude_matcher host config.watch_exclude;
}

-- What Reset does when the directories could not be watched: it goes back to the settings before.
unfoldable pub restored :
    PathHost → (Str → List WalkEntry) → WatchConfig → FileWatcher → FileWatcher
unfolding add_watch_for_dirs remove_all_watches
restored host walk previous fw =
    let back : FileWatcher = record (remove_all_watches fw) {
      config = previous;
      silence_window = previous.silence;
    } in
    (add_watch_for_dirs host walk (split_watch_dirs host previous.watch_dir) back).0

abbrev pub after_adding :
    PathHost
    → (Str → List WalkEntry)
    → WatchConfig
    → World
    → FileWatcher × WalkResult
    → World × Bool
after_adding host walk previous w (fw, walk_failed e) =
    (with_watcher w (restored host walk previous fw), false)
after_adding host walk previous w (fw, r) = (with_watcher w fw, true)

-- Reset with a config and a watcher that are not nil; `walk` and `walk_back` are what the two series of
-- walks find. The Boolean is false on an error.
unfoldable pub reset :
    PathHost → (Str → List WalkEntry) → (Str → List WalkEntry) → WatchConfig → World → World × Bool
unfolding reset_file_state remove_all_watches configured add_watch_for_dirs restored
reset host walk walk_back config w =
    let cleared = reset_file_state w in
    let fw = configured host config (remove_all_watches cleared.watcher) in
    after_adding host walk_back w.watcher.config cleared
      (add_watch_for_dirs host walk (split_watch_dirs host config.watch_dir) fw)

-- What may happen to the watcher. A timer fires only when it is due, and its callback waits for the
-- mutex; it makes its call of AddFile some time after it has given the mutex back. All else is refused by leaving the world as it is.
pub data Act : Type 0 where
  passes : ℕ → Act
  starts : (Str → List WalkEntry) → Act
  happens : Event → Act
  fires : Str → ℕ → Act
  completes : Str → Act
  hands : Str → Act
  resets : (Str → List WalkEntry) → (Str → List WalkEntry) → WatchConfig → Act

unfoldable pub fire : Str → ℕ → World → World
unfolding has_stamp remove_stamp
fire path deadline w =
    if has_stamp path deadline w.live && leb deadline w.now
    then (record w { live = remove_stamp path deadline w.live; running = path ∷ w.running })
    else w

unfoldable pub complete : Str → World → World
unfolding has_path remove_path handle_write_complete
complete path w =
    if has_path path w.running
    then handle_write_complete path (record w { running = remove_path path w.running })
    else w

unfoldable pub act : PathHost → Act → World → World
unfolding handle_event fire complete hand_over reset start
act host (passes d) w = record w { now = w.now + d }
act host (starts walk) w = (start host walk w).0
act host (happens e) w = handle_event host e w
act host (fires path deadline) w = fire path deadline w
act host (completes path) w = complete path w
act host (hands path) w = hand_over path w
act host (resets walk walk_back config) w = (reset host walk walk_back config w).0

-- The acts one after the other.
unfoldable pub run : PathHost → List Act → World → World
unfolding act
run host [] w = w
run host (a ∷ acts) w = run host acts (act host a w)
