-- ===== src/Paths/Exclude.antt =====
-- go-watch-file/internal/pathutil/exclude.go: the directories that are not watched. The sets are lists
-- of their keys: every answer asks only whether some key fits.
use go_watch_file.Base.{
  ℕ, Bool, true, false, not, Option, none, some, List, [], ◌∷◌, ◌++◌, if◌then◌else◌, ◌==◌, ◌||◌,
  ◌&&◌,
}
use go_watch_file.Base.Str.{Str, bytes, str_eq, is_empty, has_prefix, contains, to_lower}
use go_watch_file.Base.Trim.{trim_space}
use go_watch_file.Paths.Split.{
  PathHost, mem_str, add_str, fields, has_suffix, trim_last, trim_all, split_at,
}

pub record ExcludeMatcher : Type 0 where
  pub abs_prefixes : List Str
  pub segment_patterns : List Str
  pub names : List Str

unfoldable pub is_line_separator : ℕ → Bool
is_line_separator c = c == b',' || c == b';' || c == b'\n' || c == b'\r'

-- splitExcludeList
unfoldable pub split_exclude_list : Str → List Str
unfolding fields is_line_separator
split_exclude_list raw = fields is_line_separator [] raw

-- normalizeWatchDirKey
unfoldable pub normalize_watch_dir_key : PathHost → Str → Str
normalize_watch_dir_key host path =
    let key = host.to_slash path in if host.is_windows then to_lower key else key

abbrev pub is_dot : Str → Bool
is_dot s = str_eq s (bytes ".")

-- The three cases of the loop of NewExcludeMatcher, for a part that is left.
unfoldable pub sort_part : PathHost → Str → Str → ExcludeMatcher → ExcludeMatcher
unfolding add_str trim_all
sort_part host cleaned normalized m =
    if host.is_abs cleaned
    then (record m { abs_prefixes = add_str normalized m.abs_prefixes })
    else if contains normalized (bytes "/")
    then (record m { segment_patterns = add_str (trim_all b'/' normalized) m.segment_patterns })
    else (record m { names = add_str normalized m.names })

-- The body of the loop.
unfoldable pub add_part : PathHost → Str → ExcludeMatcher → ExcludeMatcher
unfolding sort_part normalize_watch_dir_key trim_last
add_part host part m =
    let trimmed = trim_space part in
    let cleaned = host.clean trimmed in
    let normalized = trim_last b'/' (normalize_watch_dir_key host (host.to_slash cleaned)) in
    if is_empty trimmed || is_dot cleaned || is_empty normalized || is_dot normalized
    then m
    else sort_part host cleaned normalized m

unfoldable pub add_parts : PathHost → List Str → ExcludeMatcher → ExcludeMatcher
unfolding add_part
add_parts host [] m = m
add_parts host (part ∷ parts) m = add_parts host parts (add_part host part m)

abbrev pub none_of : List Str → Bool
none_of [] = true
none_of (x ∷ xs) = false

-- NewExcludeMatcher; `none` is the nil pointer.
unfoldable pub new_exclude_matcher : PathHost → Str → Option ExcludeMatcher
unfolding add_parts split_exclude_list
new_exclude_matcher host raw =
    let parts = split_exclude_list raw in
    let m =
      add_parts host parts (record { abs_prefixes = []; segment_patterns = []; names = [] }) in
    if none_of parts
    then none
    else if none_of m.abs_prefixes && none_of m.segment_patterns && none_of m.names
    then none
    else some m

-- matchSegmentPattern
unfoldable pub match_segment_pattern : Str → Str → Bool
unfolding trim_all has_suffix
match_segment_pattern path raw =
    let pattern = trim_all b'/' raw in
    if is_empty pattern
    then false
    else str_eq path pattern
      || has_prefix path (pattern ++ bytes "/")
      || contains path (bytes "/" ++ pattern ++ bytes "/")
      || has_suffix path (bytes "/" ++ pattern)

-- The three loops of IsExcluded.
unfoldable pub any_prefix : Str → List Str → Bool
any_prefix norm [] = false
any_prefix norm (prefix ∷ rest) =
    str_eq norm prefix || has_prefix norm (prefix ++ bytes "/") || any_prefix norm rest

unfoldable pub any_segment : Str → List Str → Bool
unfolding match_segment_pattern
any_segment norm [] = false
any_segment norm (pattern ∷ rest) =
    (not (is_empty pattern) && match_segment_pattern norm pattern) || any_segment norm rest

unfoldable pub any_name : List Str → List Str → Bool
unfolding mem_str
any_name names [] = false
any_name names (seg ∷ segs) = (not (is_empty seg) && mem_str seg names) || any_name names segs

-- IsExcluded from the path that it has normalised.
unfoldable pub is_norm_excluded : ExcludeMatcher → Str → Bool
unfolding any_prefix any_segment any_name split_at
is_norm_excluded m norm =
    not (is_empty norm || is_dot norm)
    && (any_prefix norm m.abs_prefixes
        || any_segment norm m.segment_patterns
        || any_name m.names (split_at b'/' norm))

unfoldable pub norm_path : PathHost → Str → Str
unfolding normalize_watch_dir_key
norm_path host path = normalize_watch_dir_key host (host.to_slash (host.clean path))

-- IsExcluded
unfoldable pub is_excluded : PathHost → Option ExcludeMatcher → Str → Bool
unfolding is_norm_excluded norm_path
is_excluded host none path = false
is_excluded host (some m) path = not (is_empty path) && is_norm_excluded m (norm_path host path)
