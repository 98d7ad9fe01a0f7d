-- ===== src/Dashboard/Climb.antt =====
-- go-watch-file/internal/state/state.go: the climb to the parents of a path ends.
use go_watch_file.Base.{◌<◌, ◌≡◌, true, ◌⊎◌, length}
use go_watch_file.Base.Str.{Str, str_eq}
use go_watch_file.Paths.Split.{PathHost}
use go_watch_file.Dashboard.Switches.{Switches, is_top, parent_dir}

-- What filepath.Dir and Clean give: the path itself, a shorter one, or one of "", "." and "/".
abbrev pub Shrinks : PathHost → Type 0
Shrinks host =
    (dir : Str)
    → (str_eq (parent_dir host dir) dir ≡ true)
      ⊎ ((length (parent_dir host dir) < length dir) ⊎ (is_top (parent_dir host dir) ≡ true))
