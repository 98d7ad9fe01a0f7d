-- ===== src/Paths/Matcher.antt =====
-- go-watch-file/internal/match/matcher.go: the suffixes of the files that are watched.
use go_watch_file.Base.{
  ℕ, Bool, true, false, not, List, [], ◌∷◌, ◌++◌, if◌then◌else◌, ◌==◌, ◌||◌, ◌&&◌,
}
use go_watch_file.Base.Str.{Str, bytes, str_eq, is_empty, has_prefix, to_lower}
use go_watch_file.Base.Trim.{trim_space}
use go_watch_file.Paths.Split.{PathHost, mem_str, add_str, fields, join_by}

-- The result of ParseExtList: the suffixes, or ErrInvalidExt with its value.
pub data ExtList : Type 0 where
  exts : List Str → ExtList
  invalid_ext : Str → ExtList

pub record Matcher : Type 0 where
  pub ext_set : List Str
  pub case_insensitive : Bool

unfoldable pub is_list_separator : ℕ → Bool
is_list_separator c = c == b',' || c == b';' || c == b' ' || c == b'\n' || c == b'\r' || c == b'\t'

-- splitList
unfoldable pub split_list : Str → List Str
unfolding fields is_list_separator
split_list raw = fields is_list_separator [] raw

-- The test on a part that is not blank.
unfoldable pub is_ext : Str → Bool
is_ext trimmed = has_prefix trimmed (bytes ".") && not (str_eq trimmed (bytes "."))

-- The loop of ParseExtList; `out` are the suffixes so far, and so are the keys of `seen`.
unfoldable pub parse_exts : List Str → List Str → ExtList
unfolding is_ext mem_str
parse_exts out [] = exts out
parse_exts out (part ∷ parts) =
    let trimmed = trim_space part in
    let normalized = to_lower trimmed in
    let same = parse_exts out parts in
    let more = parse_exts (out ++ normalized ∷ []) parts in
    if is_empty trimmed
    then same
    else if not (is_ext trimmed)
    then invalid_ext trimmed
    else if mem_str normalized out
    then same
    else more

-- ParseExtList
unfoldable pub parse_ext_list : Str → ExtList
unfolding parse_exts split_list
parse_ext_list raw = parse_exts [] (split_list raw)

-- What is left of the result when the error is dropped.
abbrev pub exts_or_none : ExtList → List Str
exts_or_none (exts xs) = xs
exts_or_none (invalid_ext value) = []

-- buildExtSet
unfoldable pub build_ext_set : List Str → List Str
unfolding add_str
build_ext_set [] = []
build_ext_set (e ∷ es) = add_str e (build_ext_set es)

-- NewMatcher
unfoldable pub new_matcher : Str → Matcher
unfolding build_ext_set
new_matcher file_ext = record {
  ext_set = build_ext_set (exts_or_none (parse_ext_list file_ext));
  case_insensitive = false;
}

abbrev pub no_exts : List Str → Bool
no_exts [] = true
no_exts (e ∷ es) = false

-- IsTargetFile
unfoldable pub is_target_file : PathHost → Matcher → Str → Bool
unfolding mem_str
is_target_file host m path =
    let ext = to_lower (host.ext path) in
    let lowered = if m.case_insensitive then to_lower ext else ext in
    if no_exts m.ext_set then true else mem_str lowered m.ext_set

-- formatExtList of internal/state/state.go: how the suffixes are shown.
unfoldable pub format_ext_list : Str → Str
unfolding join_by
format_ext_list raw =
    let trimmed = trim_space raw in
    let shown = exts_or_none (parse_ext_list trimmed) in
    if is_empty trimmed then [] else if no_exts shown then trimmed else join_by (bytes ", ") shown
