-- ===== src/Watch/Files.antt =====
-- go-watch-file/internal/watcher/file_watcher.go: the times of the last writes and the timers. `World` is the
-- watcher and what runs it: the clock; the timers of time.AfterFunc that are neither stopped nor fired,
-- each with its path and its deadline; the callbacks that were started and wait for the mutex; those that
-- have let their path through and given the mutex back, before their call of the pool's AddFile; the
-- calls of AddFile, the last one first; and `noted`, the write events so far,
-- which the program does not keep.
use go_watch_file.Base.{
  ℕ, ◌+◌, Bool, false, Option, none, some, List, [], ◌∷◌, if◌then◌else◌, ◌==◌, ltb, ◌||◌, ◌&&◌,
}
use go_watch_file.Base.Str.{Str, str_eq}
use go_watch_file.Base.Assoc.{lookup, insert, delete}
use go_watch_file.Paths.Matcher.{Matcher}
use go_watch_file.Paths.Exclude.{ExcludeMatcher}

-- The settings of models.Config that the watcher reads; the window is what parseSilenceWindow makes of
-- its text.
pub record WatchConfig : Type 0 where
  pub watch_dir : Str
  pub file_ext : Str
  pub watch_exclude : Str
  pub silence : ℕ

pub record FileWatcher : Type 0 where
  pub config : WatchConfig
  pub matcher : Matcher
  pub exclude : Option ExcludeMatcher
  pub last_logged : List (Str × ℕ)
  pub last_write_time : List (Str × ℕ)
  pub write_timers : List (Str × ℕ)
  pub watched_dirs : List Str
  pub silence_window : ℕ

abbrev pub Stamps : Type 0
Stamps = List (Str × ℕ)

-- A path that a callback let through: the path, the time of the check, and the window of silence then
-- in force.
pub record Call : Type 0 where
  pub path : Str
  pub at : ℕ
  pub silence : ℕ

pub record World : Type 0 where
  pub watcher : FileWatcher
  pub now : ℕ
  pub live : Stamps
  pub running : List Str
  pub handing : List Call
  pub calls : List Call
  pub noted : Stamps

abbrev pub log_throttle : ℕ
log_throttle = 5000000000

-- Takes one of the timers away: `timer.Stop()`, or what happens when it fires.
unfoldable pub remove_stamp : Str → ℕ → Stamps → Stamps
remove_stamp p t [] = []
remove_stamp p t ((q, u) ∷ rest) =
    if str_eq q p && u == t then rest else (q, u) ∷ remove_stamp p t rest

unfoldable pub has_stamp : Str → ℕ → Stamps → Bool
has_stamp p t [] = false
has_stamp p t ((q, u) ∷ rest) = (str_eq q p && u == t) || has_stamp p t rest

unfoldable pub remove_path : Str → List Str → List Str
remove_path p [] = []
remove_path p (q ∷ rest) = if str_eq q p then rest else q ∷ remove_path p rest

unfoldable pub has_path : Str → List Str → Bool
has_path p [] = false
has_path p (q ∷ rest) = str_eq q p || has_path p rest

-- `timer.Stop()` on what the map of timers holds for a path.
abbrev pub stop_timer : Str → Option ℕ → Stamps → Stamps
stop_timer p none live = live
stop_timer p (some deadline) live = remove_stamp p deadline live

-- shouldLogFileEvent: what it does to the map; its answer only guards a line of the log.
unfoldable pub should_log_file_event : Str → World → World
unfolding lookup insert
should_log_file_event path w =
    let logged : World = record w {
      watcher = record w.watcher { last_logged = insert path w.now w.watcher.last_logged };
    } in
    elim (lookup path w.watcher.last_logged) [
      | none ↦ logged
      | some last ↦ if ltb (last + log_throttle) w.now then logged else w
    ]

-- updateFileWriteTime, which is all that handleFileEvent does.
unfoldable pub update_file_write_time : Str → World → World
unfolding remove_stamp lookup insert
update_file_write_time path w =
    let deadline = w.now + w.watcher.silence_window in
    record w {
      watcher = record w.watcher {
        last_write_time = insert path w.now w.watcher.last_write_time;
        write_timers = insert path deadline w.watcher.write_timers;
      };
      live = (path, deadline) ∷ stop_timer path (lookup path w.watcher.write_timers) w.live;
      noted = (path, w.now) ∷ w.noted;
    }

-- handleWriteComplete from the time of the last write that it finds, up to where it gives the mutex
-- back.
unfoldable pub write_complete : Str → World → Option ℕ → World
unfolding delete
write_complete path w none = w
write_complete path w (some last) =
    if ltb w.now (last + w.watcher.silence_window) then w else (record w {
      watcher = record w.watcher {
        last_write_time = delete path w.watcher.last_write_time;
        write_timers = delete path w.watcher.write_timers;
        last_logged = delete path w.watcher.last_logged;
      };
      handing =
          (record { path = path; at = w.now; silence = w.watcher.silence_window }) ∷ w.handing;
    })

-- handleWriteComplete, under the mutex.
unfoldable pub handle_write_complete : Str → World → World
unfolding lookup write_complete
handle_write_complete path w = write_complete path w (lookup path w.watcher.last_write_time)

unfoldable pub first_call : Str → List Call → Option Call
first_call p [] = none
first_call p (c ∷ cs) = if str_eq c.path p then some c else first_call p cs

unfoldable pub remove_call : Str → List Call → List Call
remove_call p [] = []
remove_call p (c ∷ cs) = if str_eq c.path p then cs else c ∷ remove_call p cs

-- The rest of handleWriteComplete, without the mutex: the call of AddFile, whose error is only logged.
unfoldable pub hand_over : Str → World → World
unfolding first_call remove_call
hand_over path w = elim (first_call path w.handing) [
  | none ↦ w
  | some c ↦ record w { handing = remove_call path w.handing; calls = c ∷ w.calls }
]

-- cleanupFileState
unfoldable pub cleanup_file_state : Str → World → World
unfolding remove_stamp lookup delete
cleanup_file_state path w = record w {
  watcher = record w.watcher {
    last_write_time = delete path w.watcher.last_write_time;
    write_timers = delete path w.watcher.write_timers;
    last_logged = delete path w.watcher.last_logged;
  };
  live = stop_timer path (lookup path w.watcher.write_timers) w.live;
}

unfoldable pub stop_timers : Stamps → Stamps → Stamps
unfolding remove_stamp
stop_timers [] live = live
stop_timers ((p, deadline) ∷ rest) live = stop_timers rest (remove_stamp p deadline live)

-- resetFileState
unfoldable pub reset_file_state : World → World
unfolding stop_timers
reset_file_state w = record w {
  watcher = record w.watcher { last_logged = []; last_write_time = []; write_timers = [] };
  live = stop_timers w.watcher.write_timers w.live;
}
