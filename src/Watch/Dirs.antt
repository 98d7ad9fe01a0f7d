-- ===== src/Watch/Dirs.antt =====
-- go-watch-file/internal/watcher/file_watcher.go: the set of watched directories. A walk of filepath.WalkDir is the
-- list of the calls that it would make; after fs.SkipDir those below the directory are left out.
use go_watch_file.Base.{
  Bool, true, false, not, Option, none, some, List, [], ◌∷◌, ◌++◌, if◌then◌else◌, ◌||◌, ◌&&◌,
}
use go_watch_file.Base.Str.{Str, bytes, str_eq, is_empty, has_prefix}
use go_watch_file.Base.Trim.{trim_space}
use go_watch_file.Paths.Split.{PathHost, mem_str}
use go_watch_file.Paths.Exclude.{is_excluded}
use go_watch_file.Watch.Files.{FileWatcher}

-- The kinds of errors that the walk tells apart; isTooManyOpenFiles is the last.
pub data WatchError : Type 0 where
  missing forbidden other too_many_open_files : WatchError

-- A call of the walk's function: its error, whether it is at a directory, and what the watcher's Add
-- says if it is asked to watch it.
pub record WalkEntry : Type 0 where
  pub path : Str
  pub walk_error : Option WatchError
  pub is_dir : Bool
  pub add_error : Option WatchError

pub data WalkResult : Type 0 where
  walked : WalkResult
  watch_limit_reached : WalkResult
  walk_failed : WatchError → WalkResult

-- addWatch, when the watcher's Add gives no error.
unfoldable pub add_watch : Str → FileWatcher → FileWatcher
unfolding mem_str
add_watch path fw =
    if mem_str path fw.watched_dirs
    then fw
    else (record fw { watched_dirs = fw.watched_dirs ++ path ∷ [] })

-- The error of addWatch: a directory that is watched already is not added again.
unfoldable pub add_watch_error : WalkEntry → FileWatcher → Option WatchError
unfolding mem_str
add_watch_error e fw = if mem_str e.path fw.watched_dirs then none else e.add_error

-- The errors that are passed over away from the root of the walk.
abbrev pub is_passed_over : WatchError → Bool
is_passed_over missing = true
is_passed_over forbidden = true
is_passed_over other = false
is_passed_over too_many_open_files = false

-- What one call of the walk's function returns.
pub data Verdict : Type 0 where
  goes_on : FileWatcher → Verdict
  skips : Verdict
  ends : WalkResult → Verdict

abbrev pub add_verdict : Str → Str → FileWatcher → FileWatcher → Option WatchError → Verdict
add_verdict root path fw added none = goes_on added
add_verdict root path fw added (some too_many_open_files) = ends watch_limit_reached
add_verdict root path fw added (some e) =
    if not (str_eq path root) && is_passed_over e then goes_on fw else ends (walk_failed e)

abbrev pub error_or : Str → Str → FileWatcher → Option WatchError → Verdict → Verdict
error_or root path fw none v = v
error_or root path fw (some e) v =
    if not (str_eq path root) && is_passed_over e then goes_on fw else ends (walk_failed e)

-- The function that addWatchRecursively gives to WalkDir.
unfoldable pub visit : PathHost → Str → WalkEntry → FileWatcher → Verdict
unfolding add_watch add_watch_error
visit host root e fw = error_or root e.path fw e.walk_error (
    if not e.is_dir
    then goes_on fw
    else if is_excluded host fw.exclude e.path
    then skips
    else add_verdict root e.path fw (add_watch e.path fw) (add_watch_error e fw))

abbrev pub walk_on :
    Verdict
    → FileWatcher
    → (FileWatcher → FileWatcher × WalkResult)
    → FileWatcher × WalkResult
    → FileWatcher × WalkResult
walk_on (goes_on fw') fw next rest = next fw'
walk_on skips fw next rest = rest
walk_on (ends r) fw next rest = (fw, r)

unfoldable pub is_below_any : Str → List Str → Bool
is_below_any path [] = false
is_below_any path (dir ∷ dirs) = has_prefix path (dir ++ bytes "/") || is_below_any path dirs

-- addWatchRecursively; `skipped` are the directories that were skipped.
unfoldable pub add_watch_recursively :
    PathHost → Str → List Str → List WalkEntry → FileWatcher → FileWatcher × WalkResult
unfolding visit is_below_any
add_watch_recursively host root skipped [] fw = (fw, walked)
add_watch_recursively host root skipped (e ∷ rest) fw =
    let same = add_watch_recursively host root skipped rest fw in
    let visited =
      walk_on (visit host root e fw) fw (add_watch_recursively host root skipped rest)
        (add_watch_recursively host root (e.path ∷ skipped) rest fw) in
    if is_below_any e.path skipped then same else visited

abbrev pub next_dir :
    FileWatcher × WalkResult → (FileWatcher → FileWatcher × WalkResult) → FileWatcher × WalkResult
next_dir (fw, walked) next = next fw
next_dir (fw, watch_limit_reached) next = (fw, watch_limit_reached)
next_dir (fw, walk_failed e) next = (fw, walk_failed e)

-- addWatchRecursivelyForDirs; `walk` gives the calls of WalkDir at a directory.
unfoldable pub add_watch_for_dirs :
    PathHost → (Str → List WalkEntry) → List Str → FileWatcher → FileWatcher × WalkResult
unfolding add_watch_recursively
add_watch_for_dirs host walk [] fw = (fw, walked)
add_watch_for_dirs host walk (dir ∷ dirs) fw =
    let same = add_watch_for_dirs host walk dirs fw in
    let added =
      next_dir (add_watch_recursively host dir [] (walk dir) fw)
        (add_watch_for_dirs host walk dirs) in
    if is_empty (trim_space dir) then same else added

-- removeAllWatches
unfoldable pub remove_all_watches : FileWatcher → FileWatcher
remove_all_watches fw = record fw { watched_dirs = [] }

unfoldable pub is_in_tree : Str → Str → Bool
is_in_tree root dir =
    str_eq root (bytes "/") || str_eq dir root || has_prefix dir (root ++ bytes "/")

unfoldable pub without_tree : Str → List Str → List Str
unfolding is_in_tree
without_tree root [] = []
without_tree root (d ∷ rest) =
    let kept = without_tree root rest in if is_in_tree root d then kept else d ∷ kept

-- removeWatchTree
unfoldable pub remove_watch_tree : PathHost → Str → FileWatcher → FileWatcher
unfolding without_tree
remove_watch_tree host root fw = record fw {
  watched_dirs = without_tree (host.clean root) fw.watched_dirs;
}

-- isWatchedDir
unfoldable pub is_watched_dir : Str → FileWatcher → Bool
unfolding mem_str
is_watched_dir path fw = mem_str path fw.watched_dirs

-- handleCreatedPath; `created` is the walk of a new directory, `none` what os.Stat says of the others.
-- The error is only logged.
unfoldable pub handle_created_path :
    PathHost → Str → Option (List WalkEntry) → FileWatcher → FileWatcher
unfolding add_watch_recursively
handle_created_path host path none fw = fw
handle_created_path host path (some entries) fw =
    let added = (add_watch_recursively host path [] entries fw).0 in
    if is_excluded host fw.exclude path then fw else added
