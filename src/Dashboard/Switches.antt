-- ===== src/Dashboard/Switches.antt =====
-- go-watch-file/internal/state/state.go: the switches of automatic upload, one for a path or a directory.
use go_watch_file.Base.{
  ℕ, zero, suc, ◌+◌, Bool, true, false, not, Option, none, some, List, [], ◌∷◌, ◌++◌, if◌then◌else◌,
  ◌==◌, ◌&&◌, ◌||◌, leb, length, drop,
}
use go_watch_file.Base.Str.{Str, bytes, str_eq, is_empty, has_prefix, to_lower}
use go_watch_file.Base.Trim.{trim_space}
use go_watch_file.Base.Assoc.{lookup, insert}
use go_watch_file.Paths.Split.{PathHost, has_suffix, trim_first, trim_last}

-- normalizePath, which is also what normalizeKeyPath does.
unfoldable pub normalize_path : PathHost → Str → Str
normalize_path host path = if is_empty path then [] else host.to_slash (host.clean path)

abbrev pub is_letter_byte : ℕ → Bool
is_letter_byte c = (leb b'a' c && leb c b'z') || (leb b'A' c && leb c b'Z')

-- isWindowsDrivePath
unfoldable pub is_windows_drive_path : Str → Bool
is_windows_drive_path [] = false
is_windows_drive_path (c ∷ []) = false
is_windows_drive_path (c ∷ d ∷ []) = false
is_windows_drive_path (c ∷ d ∷ e ∷ s) = is_letter_byte c && d == b':' && (e == b'/' || e == b'\\')

-- normalizeControlPath; `name` is the name of the machine.
unfoldable pub normalize_control_path : PathHost → Str → Str → Str
unfolding normalize_path is_windows_drive_path trim_first trim_last
normalize_control_path host path name =
    let norm = normalize_path host path in
    let trimmed = trim_space (normalize_path host name) in
    let prefix = trim_last b'/' trimmed ++ bytes "/" in
    let rest = trim_first b'/' (drop (length prefix) norm) in
    if is_empty norm
    then []
    else if is_empty trimmed
    then norm
    else if not (has_prefix (to_lower norm) (to_lower prefix))
    then norm
    else if is_empty rest
    then norm
    else if is_windows_drive_path rest
    then normalize_path host rest
    else normalize_path host (bytes "/" ++ rest)

-- isSameOrChildPath, of paths that are normalised.
unfoldable pub is_same_or_child : Str → Str → Bool
unfolding has_suffix
is_same_or_child path root =
    if is_empty root
    then false
    else if str_eq path root
    then true
    else if has_suffix root (bytes "/")
    then has_prefix path root
    else if has_prefix path root
    then has_prefix (drop (length root) path) (bytes "/")
    else false

-- isSameOrChildPath
unfoldable pub is_same_or_child_path : PathHost → Str → Str → Bool
unfolding normalize_path is_same_or_child
is_same_or_child_path host path root =
    is_same_or_child (normalize_path host path) (normalize_path host root)

abbrev pub Switches : Type 0
Switches = List (Str × Bool)

-- `dir != "" && dir != "." && dir != "/"`, denied.
unfoldable pub is_top : Str → Bool
is_top dir = is_empty dir || str_eq dir (bytes ".") || str_eq dir (bytes "/")

unfoldable pub parent_dir : PathHost → Str → Str
unfolding normalize_path
parent_dir host dir = normalize_path host (host.dir dir)

abbrev pub found_or : Option Bool → Bool → Bool
found_or (some v) above = v
found_or none above = above

-- The loop of autoUploadLocked up the directories; `n` is fuel.
unfoldable pub climb : PathHost → Switches → Str → ℕ → Str → Bool
unfolding is_top parent_dir lookup
climb host auto_on norm zero dir = true
climb host auto_on norm (suc n) dir =
    let next = parent_dir host dir in
    let above = climb host auto_on norm n next in
    if is_top dir || str_eq dir norm
    then true
    else found_or (lookup dir auto_on) (if str_eq next dir then true else above)

-- autoEnabledFromCopy; the fuel is the length of the path, and two more.
unfoldable pub auto_enabled : PathHost → Switches → Str → Bool
unfolding climb parent_dir lookup
auto_enabled host auto_on norm =
    let above = climb host auto_on norm (length norm + 2) (parent_dir host norm) in
    if is_empty norm then true else found_or (lookup norm auto_on) above

-- autoUploadLocked
unfoldable pub auto_upload : PathHost → Str → Switches → Str → Bool
unfolding auto_enabled normalize_control_path
auto_upload host name auto_on path =
    auto_enabled host auto_on (normalize_path host (normalize_control_path host path name))

-- The loop of SetAutoUpload that deletes the switches below a directory.
unfoldable pub without_children : PathHost → Str → Switches → Switches
unfolding is_same_or_child_path
without_children host key [] = []
without_children host key ((p, v) ∷ rest) =
    let kept = without_children host key rest in
    if not (str_eq p key) && is_same_or_child_path host p key then kept else (p, v) ∷ kept

-- The switches after SetAutoUpload at a path that is normalised and not empty.
unfoldable pub switched : PathHost → Str → Bool → Bool → Switches → Switches
unfolding without_children insert
switched host key is_dir enabled auto_on =
    insert key enabled (if is_dir then without_children host key auto_on else auto_on)
