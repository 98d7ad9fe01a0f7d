-- ===== src/Paths/Objects.antt =====
-- go-watch-file/internal/pathutil/pathutil.go and watch_dirs.go: watched directories, paths relative to
-- them, and the keys of objects.
use go_watch_file.Base.{
  ℕ, Bool, true, false, not, Option, none, some, List, [], ◌∷◌, if◌then◌else◌, ltb, ◌||◌, ◌&&◌,
  length,
}
use go_watch_file.Base.Str.{Str, bytes, str_eq, is_empty, has_prefix}
use go_watch_file.Base.Trim.{trim_space}
use go_watch_file.Paths.Split.{
  Links, resolved, not_exist, unreadable, PathHost, mem_str, fields, trim_first, trim_all, join_by,
}
use go_watch_file.Paths.Exclude.{is_line_separator, normalize_watch_dir_key}

-- Why a path has no key.
pub data PathError : Type 0 where
  outside_base_dir : PathError
  bad_path : PathError

pub data Result (A : Type 0) : Type 0 where
  ok : A → Result A
  failed : PathError → Result A

-- The loop of SplitWatchDirs; `seen` are the keys of `out`.
unfoldable pub collect_dirs : PathHost → List Str → List Str → List Str
unfolding mem_str normalize_watch_dir_key
collect_dirs host seen [] = []
collect_dirs host seen (part ∷ parts) =
    let trimmed = trim_space part in
    let cleaned = host.clean trimmed in
    let key = normalize_watch_dir_key host cleaned in
    let skipped = collect_dirs host seen parts in
    let kept = collect_dirs host (key ∷ seen) parts in
    if is_empty trimmed then skipped else if mem_str key seen then skipped else cleaned ∷ kept

-- SplitWatchDirs
unfoldable pub split_watch_dirs : PathHost → Str → List Str
unfolding collect_dirs fields is_line_separator
split_watch_dirs host raw = collect_dirs host [] (fields is_line_separator [] raw)

-- resolvePath, after filepath.Abs: a last part that does not exist is joined to its parent.
unfoldable pub resolve_links : PathHost → Str → Links → Links → Option Str
resolve_links host abs (resolved path) parent = some path
resolve_links host abs not_exist (resolved parent) = some (host.join parent (host.base abs))
resolve_links host abs not_exist parent = none
resolve_links host abs unreadable parent = none

-- resolvePath
unfoldable pub resolve_path : PathHost → Str → Option Str
unfolding resolve_links
resolve_path host path =
    let found : Option Str = elim (host.abs path) [
      | none ↦ none
      | some abs ↦
          resolve_links host abs (host.eval_symlinks abs) (host.eval_symlinks (host.dir abs))
    ] in
    if is_empty path then none else found

-- toSlashPath
unfoldable pub to_slash_path : PathHost → Str → Str
to_slash_path host input =
    let s = host.to_slash (host.clean input) in
    if has_prefix s (bytes "./") then trim_first b'/' (trim_first b'.' s) else s

-- trimLeadingSlash
unfoldable pub trim_leading_slash : Str → Str
unfolding trim_first
trim_leading_slash s = trim_first b'/' s

-- The loop of joinURLPath.
unfoldable pub clean_parts : List Str → List Str
unfolding trim_all
clean_parts [] = []
clean_parts (part ∷ parts) =
    let rest = clean_parts parts in
    let trimmed = trim_all b'/' part in if is_empty trimmed then rest else trimmed ∷ rest

-- joinURLPath
unfoldable pub join_url_path : List Str → Str
unfolding clean_parts join_by
join_url_path parts = join_by (bytes "/") (clean_parts parts)

-- `rel == "." || strings.HasPrefix(rel, "..")`.
unfoldable pub leaves : Str → Bool
leaves rel = str_eq rel (bytes ".") || has_prefix rel (bytes "..")

-- The tests of RelativePath on what filepath.Rel gives.
abbrev pub inside : PathHost → Option Str → Result Str
inside host none = failed bad_path
inside host (some rel) = if leaves rel then failed outside_base_dir else ok (to_slash_path host rel)

abbrev pub relative_to : PathHost → Option Str → Option Str → Result Str
relative_to host (some base) (some full) = inside host (host.rel base full)
relative_to host (some base) none = failed bad_path
relative_to host none full = failed bad_path

-- RelativePath
unfoldable pub relative_path : PathHost → Str → Str → Result Str
unfolding resolve_path to_slash_path leaves
relative_path host base_dir full_path =
    relative_to host (resolve_path host base_dir) (resolve_path host full_path)

-- The key that BuildObjectKeyStrict and BuildObjectKeyStrictForDirs make.
unfoldable pub object_key : PathHost → Str → Str → Str
unfolding to_slash_path trim_leading_slash join_url_path
object_key host base_dir rel =
    let prefix = trim_leading_slash (to_slash_path host base_dir) in
    if host.is_abs base_dir
      && not (is_empty prefix || str_eq prefix (bytes ".") || str_eq prefix (bytes "/"))
    then trim_leading_slash (join_url_path (prefix ∷ rel ∷ []))
    else trim_leading_slash rel

-- BuildObjectKeyStrict
unfoldable pub build_object_key_strict : PathHost → Str → Str → Result Str
unfolding relative_path object_key
build_object_key_strict host watch_dir file_path = elim (relative_path host watch_dir file_path) [
  | failed e ↦ failed e
  | ok rel ↦ ok (object_key host watch_dir rel)
]

-- BuildObjectKeyPermissive and BuildObjectKey
unfoldable pub build_object_key_permissive : PathHost → Str → Str → Str
unfolding build_object_key_strict
build_object_key_permissive host watch_dir file_path =
    elim (build_object_key_strict host watch_dir file_path) [
      | failed e ↦ trim_leading_slash (to_slash_path host file_path)
      | ok key ↦ key
    ]

-- The best directory so far: it, the path relative to it, and how long its resolved path is.
pub record Best : Type 0 where
  pub base : Str
  pub rel : Str
  pub size : ℕ

-- The directory `base_dir` with its resolved path and the file's path relative to that, if it holds the file.
unfoldable pub candidate : PathHost → Str → Str → Option Best
unfolding resolve_path leaves to_slash_path
candidate host full base_dir = elim (resolve_path host base_dir) [
  | none ↦ none
  | some base ↦ elim (host.rel base full) [
    | none ↦ none
    | some rel ↦
        if leaves rel
        then none
        else some (record { base = base_dir; rel = to_slash_path host rel; size = length base })
  ]
]

-- `len(baseResolved) > bestLen`, which is -1 at the start.
abbrev pub longer : Best → Option Best → Bool
longer b none = true
longer b (some c) = ltb c.size b.size

abbrev pub better : Option Best → Option Best → Option Best
better best none = best
better best (some b) = if longer b best then some b else best

-- The loop of RelativePathAny.
unfoldable pub pick_dir : PathHost → Str → List Str → Option Best → Option Best
unfolding candidate
pick_dir host full [] best = best
pick_dir host full (dir ∷ dirs) best =
    pick_dir host full dirs (better best (candidate host full dir))

-- `bestBase == ""` is an error.
abbrev pub best_or_outside : Option Best → Result Best
best_or_outside none = failed outside_base_dir
best_or_outside (some b) = if is_empty b.base then failed outside_base_dir else ok b

abbrev pub no_dirs : List Str → Bool
no_dirs [] = true
no_dirs (d ∷ ds) = false

-- RelativePathAny
unfoldable pub relative_path_any : PathHost → List Str → Str → Result Best
unfolding pick_dir resolve_path
relative_path_any host base_dirs full_path =
    let found : Result Best = elim (resolve_path host full_path) [
      | none ↦ failed bad_path
      | some full ↦ best_or_outside (pick_dir host full base_dirs none)
    ] in
    if no_dirs base_dirs then failed outside_base_dir else found

-- BuildObjectKeyStrictForDirs
unfoldable pub build_object_key_strict_for_dirs : PathHost → List Str → Str → Result Str
unfolding relative_path_any object_key
build_object_key_strict_for_dirs host watch_dirs file_path =
    elim (relative_path_any host watch_dirs file_path) [
      | failed e ↦ failed e
      | ok b ↦ ok (object_key host b.base b.rel)
    ]
