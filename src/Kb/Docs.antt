-- ===== src/Kb/Docs.antt =====
-- go-watch-file/internal/kb/service.go: the import of a directory of Markdown files. What filepath.WalkDir calls
-- its function with, and what os.ReadFile then reads, is the argument: a list of `DocEntry`.
use go_watch_file.Base.{
  ℕ, ◌+◌, ◌-◌, Bool, true, false, not, Option, none, some, List, [], ◌∷◌, ◌++◌, ◌&&◌, ◌||◌,
  if◌then◌else◌, ◌==◌, ltb, length, take, reverse,
}
use go_watch_file.Base.Str.{Str, bytes, str_eq, is_empty, has_prefix, to_lower}
use go_watch_file.Base.Trim.{trim_space}
use go_watch_file.Base.Runes.{runes, of_runes}
use go_watch_file.Alert.Tailer.{split_lines, all_but_last}
use go_watch_file.Kb.Types.{severity_medium, Article, ArticleInput, ImportResult}
use go_watch_file.Kb.Normal.{lower_trim, normalize_tags, normalize_operator, or_else, sort_strings}
use go_watch_file.Kb.Store.{Result, ok, failed, Kb, M, select, find_reference}
use go_watch_file.Kb.Queries.{Host, Moment}
use go_watch_file.Kb.Writes.{create_article, update_article}

unfoldable pub trim_hashes : Str → Str
trim_hashes [] = []
trim_hashes (c ∷ s) = let rest = trim_hashes s in if c == b'#' then rest else c ∷ s

unfoldable pub heading : List Str → Option Str
heading [] = none
heading (line ∷ lines) =
    let rest = heading lines in
    let trimmed = trim_space line in
    let title = trim_space (trim_hashes trimmed) in
    if not (has_prefix trimmed (bytes "#"))
    then rest
    else if is_empty title
    then rest
    else some title

-- `strings.TrimSuffix`.
unfoldable pub trim_suffix : Str → Str → Str
trim_suffix s suffix =
    if has_prefix (reverse s) (reverse suffix) then take (length s - length suffix) s else s

-- parseTitle
unfoldable pub parse_title : Host → Str → Str → Str
parse_title host content fallback = elim (heading (split_lines content)) [
  | some title ↦ title
  | none ↦ or_else (trim_space (trim_suffix fallback (host.ext fallback))) (bytes "Untitled")
]

unfoldable pub summary_line : List Str → Str
summary_line [] = []
summary_line (line ∷ lines) =
    let rest = summary_line lines in
    let trimmed = trim_space line in
    if is_empty trimmed || has_prefix trimmed (bytes "#")
    then rest
    else if ltb 160 (length (runes trimmed))
    then of_runes (take 160 (runes trimmed)) ++ bytes "..."
    else trimmed

-- parseSummary
unfoldable pub parse_summary : Str → Str
parse_summary content = summary_line (split_lines content)

abbrev add_first : ℕ → List Str → List Str
add_first c [] = (c ∷ []) ∷ []
add_first c (l ∷ ls) = (c ∷ l) ∷ ls

-- `strings.Split(s, "/")`.
unfoldable pub split_slash : Str → List Str
split_slash [] = [] ∷ []
split_slash (c ∷ s) = let rest = split_slash s in if c == b'/' then [] ∷ rest else add_first c rest

unfoldable pub folder_tags : List Str → List Str
folder_tags [] = []
folder_tags (part ∷ parts) =
    let rest = folder_tags parts in
    let p = lower_trim part in if is_empty p || str_eq p (bytes ".") then rest else p ∷ rest

-- tagsFromPath
unfoldable pub tags_from_path : Host → Str → List Str
tags_from_path host path =
    let clean = host.to_slash (trim_space path) in
    let parts = split_slash clean in
    if is_empty clean
    then []
    else if ltb 1 (length parts)
    then normalize_tags (bytes "docs" ∷ folder_tags (all_but_last parts))
    else bytes "docs" ∷ []

-- findArticleIDByReference
unfoldable pub find_article_id_by_reference : Str → Str → M (Option Str)
find_article_id_by_reference type path = select (λ t.
    elim (find_reference (trim_space type) (trim_space path) t.article_references) [
      | none ↦ none
      | some r ↦ some r.article_id
    ])

pub record DocEntry : Type 0 where
  pub path : Str
  pub walk_failed : Bool
  pub is_dir : Bool
  pub contents : Option Str

abbrev pub doc_input : Host → Str → Str → Str → Str → ArticleInput
doc_input host operator path content note =
    let title = parse_title host content (host.base path) in
    record {
      title = title;
      summary = parse_summary content;
      category = bytes "docs";
      severity = severity_medium;
      content = content;
      tags = tags_from_path host (host.to_slash path);
      by = operator;
      change_note = note;
      source_type = bytes "import";
      source_ref = host.to_slash path;
      ref_title = title;
    }

abbrev pub skip : ImportResult → ImportResult
skip r = record r { skipped = r.skipped + 1 }

-- What the result becomes after a write.
unfoldable pub count_update : Str → ImportResult → Kb × Result Article → Kb × ImportResult
count_update path r (k, ok a) =
    (k, record r { updated = r.updated + 1; files = r.files ++ path ∷ [] })
count_update path r (k, failed e) = (k, skip r)

unfoldable pub count_import : Str → ImportResult → Kb × Result Article → Kb × ImportResult
count_import path r (k, ok a) =
    (k, record r { imported = r.imported + 1; files = r.files ++ path ∷ [] })
count_import path r (k, failed e) = (k, skip r)

unfoldable pub write_doc :
    Host → Moment → Str → Str → Str → ImportResult → Kb × Result (Option Str) → Kb × ImportResult
write_doc host at operator path content r (k, failed e) = (k, skip r)
write_doc host at operator path content r (k, ok (some id)) =
    count_update (host.to_slash path) r (
      update_article host at id (doc_input host operator path content (bytes "sync docs import")) k)
write_doc host at operator path content r (k, ok none) =
    count_import (host.to_slash path) r (
      create_article host at (doc_input host operator path content (bytes "initial docs import")) k)

unfoldable pub import_content :
    Host → Moment → Str → Str → Str → ImportResult → Kb → Kb × ImportResult
import_content host at operator path raw r k =
    let content = trim_space raw in
    let written =
      write_doc host at operator path content r
        (find_article_id_by_reference (bytes "import") (host.to_slash path) k) in
    if is_empty content then (k, skip r) else written

-- What os.ReadFile gives, or its error.
unfoldable pub read_doc :
    Host → Moment → Str → Str → ImportResult → Kb → Option Str → Kb × ImportResult
read_doc host at operator path r k none = (k, skip r)
read_doc host at operator path r k (some raw) = import_content host at operator path raw r k

-- The files that are read.
unfoldable pub is_doc : Host → DocEntry → Bool
is_doc host d = not d.is_dir && str_eq (to_lower (host.ext d.path)) (bytes ".md")

-- The function given to WalkDir, for a call without a walk error.
unfoldable pub import_entry : Host → Moment → Str → DocEntry → ImportResult → Kb → Kb × ImportResult
import_entry host at operator d r k =
    let read = read_doc host at operator d.path r k d.contents in
    if is_doc host d then read else (k, r)

-- The walk: a walk error ends it, and the files are then not sorted.
unfoldable pub import_entries :
    Host → Moment → Str → List DocEntry → ImportResult → Kb → Kb × (ImportResult × Bool)
import_entries host at operator [] r k = (k, (record r { files = sort_strings r.files }, true))
import_entries host at operator (d ∷ ds) r k =
    let (k', r') = import_entry host at operator d r k in
    let rest = import_entries host at operator ds r' k' in
    if d.walk_failed then (k, (r, false)) else rest

-- The directory that is walked.
unfoldable pub import_root : Str → Str
import_root root_path = or_else (trim_space root_path) (bytes "docs")

-- ImportDocs; `walk` gives the calls of filepath.WalkDir for a root. The Boolean is false on an error.
unfoldable pub import_docs :
    Host → Moment → (Str → List DocEntry) → Str → Str → Kb → Kb × (ImportResult × Bool)
import_docs host at walk root_path operator k =
    import_entries host at (normalize_operator operator) (walk (import_root root_path))
      (record { imported = 0; updated = 0; skipped = 0; files = [] }) k
