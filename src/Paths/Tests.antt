-- ===== src/Paths/Tests.antt =====
-- go-watch-file/internal/pathutil, go-watch-file/internal/match: paths of a host with `/`.
use go_watch_file.Base.{
  ℕ, ◌-◌, ◌+◌, ◌≡◌, refl, Bool, true, false, Option, none, some, List, [], ◌∷◌, ◌++◌, if◌then◌else◌,
  ◌==◌, drop, length, reverse,
}
use go_watch_file.Base.Str.{Str, bytes, str_eq, is_empty, has_prefix}
use go_watch_file.Base.Trim.{trim_space}
use go_watch_file.Paths.Split.{PathHost, join_by, resolved, split_at, trim_last}
use go_watch_file.Paths.Matcher.{parse_ext_list, exts, format_ext_list}
use go_watch_file.Paths.Exclude.{ExcludeMatcher, new_exclude_matcher, is_excluded, norm_path}
use go_watch_file.Paths.Objects.{
  ok, relative_path_any, resolve_path, build_object_key_strict_for_dirs, split_watch_dirs,
}
use go_watch_file.Paths.Subtree.{is_excluded-below}
use go_watch_file.Paths.Deepest.{Deepest, relative_path_any-Deepest}
use go_watch_file.Paths.Extensions.{format_ext_list-parse}

abbrev last_of : List Str → Str
last_of [] = []
last_of (x ∷ []) = x
last_of (x ∷ y ∷ ys) = last_of (y ∷ ys)

abbrev but_last : List Str → List Str
but_last [] = []
but_last (x ∷ []) = []
but_last (x ∷ y ∷ ys) = x ∷ but_last (y ∷ ys)

-- A host of clean and absolute paths without links.
abbrev pub demo_paths : PathHost
demo_paths = record {
  clean = trim_last b'/';
  to_slash = λ s. s;
  ext = λ s. drop (length s - 4) s;
  base = λ s. last_of (split_at b'/' s);
  dir = λ s. join_by (bytes "/") (but_last (split_at b'/' s));
  join = λ s t. s ++ (b'/' ∷ t);
  is_abs = λ s. has_prefix s (bytes "/");
  abs = λ s. some s;
  rel = λ s t.
      if str_eq s t
      then some (bytes ".")
      else if has_prefix t (s ++ bytes "/")
      then some (drop (length s + 1) t)
      else some (bytes "..");
  eval_symlinks = λ s. resolved s;
  is_windows = false;
}

abbrev demo_exclude : Option ExcludeMatcher
demo_exclude = new_exclude_matcher demo_paths (bytes "/srv/tmp/, node_modules; build/out")

abbrev demo_dirs : List Str
demo_dirs = split_watch_dirs demo_paths (bytes "/srv, /srv/logs ,/srv/")

dirs_test : demo_dirs ≡ bytes "/srv" ∷ bytes "/srv/logs" ∷ []
unfolding split_watch_dirs trim_space trim_last str_eq
dirs_test = refl

key_test :
    build_object_key_strict_for_dirs demo_paths demo_dirs (bytes "/srv/logs/a/b.log")
    ≡ ok (bytes "srv/logs/a/b.log")
unfolding build_object_key_strict_for_dirs split_watch_dirs trim_space str_eq trim_last has_prefix
key_test = refl

exclude_test : is_excluded demo_paths demo_exclude (bytes "/srv/x/build/out/y.log") ≡ true
unfolding is_excluded new_exclude_matcher trim_space str_eq has_prefix
    go_watch_file.Base.Str.contains
exclude_test = refl

is_excluded-below_example :
    is_excluded demo_paths demo_exclude (bytes "/srv/web/node_modules/a.log") ≡ true
unfolding is_excluded new_exclude_matcher norm_path trim_space str_eq has_prefix
    go_watch_file.Base.Str.contains
is_excluded-below_example =
    is_excluded-below demo_paths demo_exclude (bytes "/srv/web/node_modules")
      (bytes "/srv/web/node_modules/a.log") (bytes "a.log") refl refl refl

relative_path_any-Deepest_example :
    Deepest demo_paths
      (bytes "/srv/logs/a.log")
      demo_dirs
      (relative_path_any demo_paths demo_dirs (bytes "/srv/logs/a.log"))
unfolding resolve_path
relative_path_any-Deepest_example =
    relative_path_any-Deepest demo_paths demo_dirs (bytes "/srv/logs/a.log")
      (bytes "/srv/logs/a.log") refl

format_ext_list-parse_example :
    parse_ext_list (format_ext_list (bytes " .Log;.TXT .log"))
    ≡ exts (bytes ".log" ∷ bytes ".txt" ∷ [])
unfolding parse_ext_list trim_space has_prefix str_eq go_watch_file.Base.Str.to_lower
format_ext_list-parse_example =
    format_ext_list-parse (bytes " .Log;.TXT .log") (bytes ".log") (bytes ".txt" ∷ []) refl
