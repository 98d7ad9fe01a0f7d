-- ===== src/Alert/Tailer.antt =====
-- go-watch-file/internal/alert/tailer.go, `readFile`: a log file read on from where the last poll
-- stopped, and the lines handed to the engine. What the file system answers is an argument (`Look`):
-- the size that `os.Stat` gives, and the contents that opening and reading find, `none` on an error.
use go_watch_file.Base.{
  ℕ, ◌+◌, Bool, true, false, not, Option, none, some, List, [], ◌∷◌, ◌++◌, if◌then◌else◌, ltb, ◌==◌,
  length, drop,
}
use go_watch_file.Base.Str.{Str, is_empty}
use go_watch_file.Base.Trim.{trim_space}

pub record FileCursor : Type 0 where
  pub offset : ℕ
  pub remainder : Str
  pub inited : Bool

pub record Look : Type 0 where
  pub size : Option ℕ
  pub contents : Option Str

abbrev pub add_first : ℕ → List Str → List Str
add_first c [] = (c ∷ []) ∷ []
add_first c (l ∷ ls) = (c ∷ l) ∷ ls

-- `strings.Split(s, "\n")`.
unfoldable pub split_lines : Str → List Str
split_lines [] = [] ∷ []
split_lines (c ∷ s) = if c == b'\n' then [] ∷ split_lines s else add_first c (split_lines s)

-- `lines[len(lines)-1]` and `lines[:len(lines)-1]`.
abbrev pub last_line : List Str → Str
last_line [] = []
last_line (l ∷ []) = l
last_line (l ∷ m ∷ ls) = last_line (m ∷ ls)

abbrev pub all_but_last : List Str → List Str
all_but_last [] = []
all_but_last (l ∷ []) = []
all_but_last (l ∷ m ∷ ls) = l ∷ all_but_last (m ∷ ls)

-- `strings.HasSuffix(s, "\n")`.
unfoldable pub ends_line : Str → Bool
ends_line [] = false
ends_line (c ∷ []) = c == b'\n'
ends_line (c ∷ d ∷ s) = ends_line (d ∷ s)

abbrev keep_unless_cr : ℕ → Str → Str
keep_unless_cr c [] = if c == b'\r' then [] else c ∷ []
keep_unless_cr c (d ∷ s) = c ∷ d ∷ s

-- `strings.TrimRight(line, "\r")`.
unfoldable pub trim_right_cr : Str → Str
trim_right_cr [] = []
trim_right_cr (c ∷ s) = keep_unless_cr c (trim_right_cr s)

-- The lines that are handed on.
unfoldable pub deliver : List Str → List Str
unfolding trim_right_cr
deliver [] = []
deliver (line ∷ lines) =
    if is_empty (trim_space (trim_right_cr line))
    then deliver lines
    else trim_right_cr line ∷ deliver lines

abbrev pub take_in : Str → FileCursor → FileCursor × List Str × Bool
take_in got cur =
    let content = cur.remainder ++ got in
    let lines = split_lines content in
    if ends_line content
    then (
      record { offset = cur.offset + length got; remainder = []; inited = cur.inited },
      deliver lines,
      true,
    )
    else (
      record { offset = cur.offset + length got; remainder = last_line lines; inited = cur.inited },
      deliver (all_but_last lines),
      true,
    )

abbrev pub read_data : Option Str → FileCursor → FileCursor × List Str × Bool
read_data none cur = (cur, [], false)
read_data (some contents) cur =
    let got = drop cur.offset contents in
    if length got == 0 then (cur, [], true) else take_in got cur

-- `readFile` from the comparison of the size with the offset on.
unfoldable pub read_from : ℕ → Option Str → FileCursor → FileCursor × List Str × Bool
read_from size contents cur =
    let at = if ltb size cur.offset then record cur { offset = 0; remainder = [] } else cur in
    if size == at.offset then (at, [], true) else read_data contents at

abbrev pub read_stat : Bool → Option ℕ → Option Str → FileCursor → FileCursor × List Str × Bool
read_stat from_end none contents cur = (cur, [], false)
read_stat from_end (some size) contents cur =
    if not cur.inited
    then if from_end
      then (record { offset = size; remainder = []; inited = true }, [], true)
      else read_from size contents (record { offset = 0; remainder = []; inited = true })
    else read_from size contents cur

-- `readFile`: the cursor, the lines handed on, and whether there was no error.
unfoldable pub read_file : Bool → Str → Look → FileCursor → FileCursor × List Str × Bool
read_file from_end path look cur =
    if is_empty (trim_space path)
    then (cur, [], true)
    else read_stat from_end look.size look.contents cur

-- `cursorFor` on a path that has none yet.
unfoldable pub fresh_cursor : FileCursor
fresh_cursor = record { offset = 0; remainder = []; inited = false }
