-- ===== src/Watch/Frame.antt =====
-- go-watch-file/internal/watcher/file_watcher.go: what is done to the watched directories leaves the times of the
-- writes and the timers as they are.
use go_watch_file.Base.{
  ◌≡◌, refl, ◌∙◌, Bool, true, false, not, Option, none, some, List, [], ◌∷◌, if◌then◌else◌, arith,
  ◌&&◌,
}
use go_watch_file.Base.Str.{Str, str_eq, is_empty}
use go_watch_file.Base.Trim.{trim_space}
use go_watch_file.Paths.Split.{PathHost}
use go_watch_file.Paths.Exclude.{is_excluded}
use go_watch_file.Watch.Files.{FileWatcher, World, should_log_file_event}
use go_watch_file.Watch.Dirs.{
  WatchError, too_many_open_files, WalkEntry, WalkResult, walked, watch_limit_reached, walk_failed,
  Verdict, goes_on, skips, ends, add_watch, add_watch_error, add_verdict, error_or, is_passed_over,
  visit, walk_on, is_below_any, add_watch_recursively, next_dir, add_watch_for_dirs,
  remove_watch_tree, handle_created_path,
}

-- The same times, timers and window.
pub record KeepsFiles (a b : FileWatcher) : Type 0 where
  pub same_times : b.last_write_time ≡ a.last_write_time
  pub same_timers : b.write_timers ≡ a.write_timers
  pub same_window : b.silence_window ≡ a.silence_window

pub KeepsFiles-refl : (a : FileWatcher) → KeepsFiles a a
KeepsFiles-refl a = record { same_times = refl; same_timers = refl; same_window = refl }

KeepsFiles-trans : (a b c : FileWatcher) → KeepsFiles a b → KeepsFiles b c → KeepsFiles a c
KeepsFiles-trans a b c h k = record {
  same_times = k.same_times ∙ h.same_times;
  same_timers = k.same_timers ∙ h.same_timers;
  same_window = k.same_window ∙ h.same_window;
}

abbrev GoesOn : FileWatcher → Verdict → Type 0
GoesOn fw (goes_on fw') = KeepsFiles fw fw'
GoesOn fw skips = Unit
GoesOn fw (ends r) = Unit

add_watch-KeepsFiles : (path : Str) (fw : FileWatcher) → KeepsFiles fw (add_watch path fw)
unfolding add_watch
add_watch-KeepsFiles path fw = ground arith

if-GoesOn :
    (fw : FileWatcher) (b : Bool) (v w : Verdict)
    → GoesOn fw v
    → GoesOn fw w
    → GoesOn fw (if b then v else w)
if-GoesOn fw true v w h k = h
if-GoesOn fw false v w h k = k

passed_over-GoesOn :
    (root path : Str) (fw : FileWatcher) (e : WatchError)
    → GoesOn fw
        (if not (str_eq path root) && is_passed_over e then goes_on fw else ends (walk_failed e))
passed_over-GoesOn root path fw e =
    if-GoesOn fw (not (str_eq path root) && is_passed_over e) (goes_on fw) (ends (walk_failed e))
      (KeepsFiles-refl fw) tt

add_verdict-GoesOn :
    (root path : Str) (fw added : FileWatcher) (o : Option WatchError)
    → KeepsFiles fw added
    → GoesOn fw (add_verdict root path fw added o)
add_verdict-GoesOn root path fw added none h = h
add_verdict-GoesOn root path fw added (some too_many_open_files) h = tt
add_verdict-GoesOn root path fw added (some e) h = passed_over-GoesOn root path fw e

error_or-GoesOn :
    (root path : Str) (fw : FileWatcher) (o : Option WatchError) (v : Verdict)
    → GoesOn fw v
    → GoesOn fw (error_or root path fw o v)
error_or-GoesOn root path fw none v h = h
error_or-GoesOn root path fw (some e) v h = passed_over-GoesOn root path fw e

visit-GoesOn :
    (host : PathHost) (root : Str) (e : WalkEntry) (fw : FileWatcher)
    → GoesOn fw (visit host root e fw)
unfolding visit
visit-GoesOn host root e fw = error_or-GoesOn root e.path fw e.walk_error _ (
    if-GoesOn fw (not e.is_dir) (goes_on fw) _ (KeepsFiles-refl fw) (
      if-GoesOn fw (is_excluded host fw.exclude e.path) skips _ tt (
        add_verdict-GoesOn root e.path fw (add_watch e.path fw) (add_watch_error e fw)
          (add_watch-KeepsFiles e.path fw))))

-- A walk leaves them as they are.
abbrev Walked : FileWatcher → FileWatcher × WalkResult → Type 0
Walked fw r = KeepsFiles fw r.0

if-Walked :
    (fw : FileWatcher) (b : Bool) (x y : FileWatcher × WalkResult)
    → Walked fw x
    → Walked fw y
    → Walked fw (if b then x else y)
if-Walked fw true x y h k = h
if-Walked fw false x y h k = k

if-KeepsFiles :
    (fw : FileWatcher) (b : Bool) (x y : FileWatcher)
    → KeepsFiles fw x
    → KeepsFiles fw y
    → KeepsFiles fw (if b then x else y)
if-KeepsFiles fw true x y h k = h
if-KeepsFiles fw false x y h k = k

walk_on-Walked :
    (v : Verdict) (fw : FileWatcher) (next : FileWatcher → FileWatcher × WalkResult)
    (rest : FileWatcher × WalkResult)
    → GoesOn fw v
    → ((fw' : FileWatcher) → Walked fw' (next fw'))
    → Walked fw rest
    → Walked fw (walk_on v fw next rest)
walk_on-Walked (goes_on fw') fw next rest g h r = KeepsFiles-trans fw fw' _ g (h fw')
walk_on-Walked skips fw next rest g h r = r
walk_on-Walked (ends e) fw next rest g h r = KeepsFiles-refl fw

pub add_watch_recursively-Walked :
    (host : PathHost) (root : Str) (skipped : List Str) (entries : List WalkEntry)
    (fw : FileWatcher)
    → KeepsFiles fw (add_watch_recursively host root skipped entries fw).0
unfolding add_watch_recursively
add_watch_recursively-Walked host root skipped [] fw = KeepsFiles-refl fw
add_watch_recursively-Walked host root skipped (e ∷ rest) fw =
    if-Walked fw (is_below_any e.path skipped) _ _
      (add_watch_recursively-Walked host root skipped rest fw)
      (walk_on-Walked (visit host root e fw) fw _ _ (visit-GoesOn host root e fw)
        (λ fw'. add_watch_recursively-Walked host root skipped rest fw')
        (add_watch_recursively-Walked host root (e.path ∷ skipped) rest fw))

next_dir-Walked :
    (fw : FileWatcher) (r : FileWatcher × WalkResult)
    (next : FileWatcher → FileWatcher × WalkResult)
    → Walked fw r
    → ((fw' : FileWatcher) → Walked fw' (next fw'))
    → Walked fw (next_dir r next)
next_dir-Walked fw (fw', walked) next h n = KeepsFiles-trans fw fw' _ h (n fw')
next_dir-Walked fw (fw', watch_limit_reached) next h n = h
next_dir-Walked fw (fw', walk_failed e) next h n = h

pub add_watch_for_dirs-Walked :
    (host : PathHost) (walk : Str → List WalkEntry) (dirs : List Str) (fw : FileWatcher)
    → KeepsFiles fw (add_watch_for_dirs host walk dirs fw).0
unfolding add_watch_for_dirs
add_watch_for_dirs-Walked host walk [] fw = KeepsFiles-refl fw
add_watch_for_dirs-Walked host walk (d ∷ dirs) fw =
    if-Walked fw (is_empty (trim_space d)) _ _ (add_watch_for_dirs-Walked host walk dirs fw) (
      next_dir-Walked fw (add_watch_recursively host d [] (walk d) fw) _
        (add_watch_recursively-Walked host d [] (walk d) fw)
        (λ fw'. add_watch_for_dirs-Walked host walk dirs fw'))

pub handle_created_path-KeepsFiles :
    (host : PathHost) (path : Str) (created : Option (List WalkEntry)) (fw : FileWatcher)
    → KeepsFiles fw (handle_created_path host path created fw)
unfolding handle_created_path
handle_created_path-KeepsFiles host path none fw = KeepsFiles-refl fw
handle_created_path-KeepsFiles host path (some entries) fw =
    if-KeepsFiles fw (is_excluded host fw.exclude path) fw _ (KeepsFiles-refl fw)
      (add_watch_recursively-Walked host path [] entries fw)

pub remove_watch_tree-KeepsFiles :
    (host : PathHost) (root : Str) (fw : FileWatcher)
    → KeepsFiles fw (remove_watch_tree host root fw)
unfolding remove_watch_tree
remove_watch_tree-KeepsFiles host root fw = record {
  same_times = refl;
  same_timers = refl;
  same_window = refl;
}

-- The same but for what is logged and watched.
pub record SameFiles (v w : World) : Type 0 where
  pub kept : KeepsFiles v.watcher w.watcher
  pub same_now : w.now ≡ v.now
  pub same_live : w.live ≡ v.live
  pub same_running : w.running ≡ v.running
  pub same_handing : w.handing ≡ v.handing
  pub same_calls : w.calls ≡ v.calls
  pub same_noted : w.noted ≡ v.noted

pub watcher-SameFiles :
    (w : World) (fw : FileWatcher)
    → KeepsFiles w.watcher fw
    → SameFiles w (record w { watcher = fw })
watcher-SameFiles w fw k = record {
  kept = k;
  same_now = refl;
  same_live = refl;
  same_running = refl;
  same_handing = refl;
  same_calls = refl;
  same_noted = refl;
}

pub should_log-SameFiles : (path : Str) (w : World) → SameFiles w (should_log_file_event path w)
unfolding should_log_file_event
should_log-SameFiles path w = ground arith
