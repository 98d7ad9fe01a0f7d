-- ===== src/Paths/Split.antt =====
-- What match/matcher.go and pathutil take from path/filepath and the operating system, a field of
-- `PathHost` each, and the functions of the `strings` package that they call on bytes.
use go_watch_file.Base.{
  ℕ, Bool, false, Option, List, [], ◌∷◌, ◌++◌, if◌then◌else◌, ◌==◌, ◌||◌, reverse,
}
use go_watch_file.Base.Str.{Str, str_eq, has_prefix}

-- filepath.EvalSymlinks: the path, fs.ErrNotExist, another error.
pub data Links : Type 0 where
  resolved : Str → Links
  not_exist : Links
  unreadable : Links

-- filepath.Clean, ToSlash, Ext, Base, Dir, Join of two parts, IsAbs, Abs, Rel, EvalSymlinks, and
-- whether runtime.GOOS is windows.
pub record PathHost : Type 0 where
  pub clean : Str → Str
  pub to_slash : Str → Str
  pub ext : Str → Str
  pub base : Str → Str
  pub dir : Str → Str
  pub join : Str → Str → Str
  pub is_abs : Str → Bool
  pub abs : Str → Option Str
  pub rel : Str → Str → Option Str
  pub eval_symlinks : Str → Links
  pub is_windows : Bool

unfoldable pub mem_str : Str → List Str → Bool
mem_str x [] = false
mem_str x (y ∷ ys) = str_eq y x || mem_str x ys

-- Adds a key to a set.
unfoldable pub add_str : Str → List Str → List Str
unfolding mem_str
add_str x xs = if mem_str x xs then xs else xs ++ x ∷ []

abbrev pub flush : Str → List Str → List Str
flush [] parts = parts
flush (c ∷ cs) parts = (c ∷ cs) ∷ parts

-- `strings.FieldsFunc` with ASCII separators; `part` is what was read of the next field.
unfoldable pub fields : (ℕ → Bool) → Str → Str → List Str
fields sep part [] = flush part []
fields sep part (c ∷ s) =
    let outside = fields sep [] s in
    let inside = fields sep (part ++ c ∷ []) s in if sep c then flush part outside else inside

-- `strings.HasSuffix`, `strings.TrimSuffix` and `strings.TrimPrefix` of one byte, `strings.Trim`.
unfoldable pub has_suffix : Str → Str → Bool
has_suffix s suffix = has_prefix (reverse s) (reverse suffix)

unfoldable pub trim_first : ℕ → Str → Str
trim_first c [] = []
trim_first c (d ∷ s) = if d == c then s else d ∷ s

unfoldable pub trim_last : ℕ → Str → Str
unfolding trim_first
trim_last c s = reverse (trim_first c (reverse s))

unfoldable pub trim_left_all : ℕ → Str → Str
trim_left_all c [] = []
trim_left_all c (d ∷ s) = let rest = trim_left_all c s in if d == c then rest else d ∷ s

unfoldable pub trim_all : ℕ → Str → Str
unfolding trim_left_all
trim_all c s = reverse (trim_left_all c (reverse (trim_left_all c s)))

abbrev add_first : ℕ → List Str → List Str
add_first c [] = (c ∷ []) ∷ []
add_first c (l ∷ ls) = (c ∷ l) ∷ ls

-- `strings.Split` at one byte.
unfoldable pub split_at : ℕ → Str → List Str
split_at sep [] = [] ∷ []
split_at sep (c ∷ s) = let rest = split_at sep s in if c == sep then [] ∷ rest else add_first c rest

-- `strings.Join`.
unfoldable pub join_by : Str → List Str → Str
join_by sep [] = []
join_by sep (x ∷ []) = x
join_by sep (x ∷ y ∷ ys) = x ++ (sep ++ join_by sep (y ∷ ys))
