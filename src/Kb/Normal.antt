-- ===== src/Kb/Normal.antt =====
-- go-watch-file/internal/kb/service.go: how the fields of an input are put in order before they are stored.
use go_watch_file.Base.{Bool, false, List, [], ◌∷◌, if◌then◌else◌, ◌||◌}
use go_watch_file.Base.Str.{Str, bytes, text, str_eq, is_empty, to_lower}
use go_watch_file.Base.Trim.{trim_space}
use go_watch_file.Control.Sort.{str_less}
use go_watch_file.Kb.Types.{
  status_draft, status_reviewing, status_published, status_archived, severity_low, severity_medium,
  severity_high,
}

-- `strings.ToLower(strings.TrimSpace(s))`.
unfoldable pub lower_trim : Str → Str
lower_trim s = to_lower (trim_space s)

unfoldable pub seen_in : Str → List Str → Bool
seen_in x [] = false
seen_in x (y ∷ ys) = str_eq y x || seen_in x ys

-- The loop of normalizeTags: `seen` holds the tags so far, `out` of the source the result.
unfoldable pub collect_tags : List Str → List Str → List Str
unfolding seen_in lower_trim
collect_tags seen [] = []
collect_tags seen (tag ∷ tags) =
    let t = lower_trim tag in
    let skipped = collect_tags seen tags in
    let kept = collect_tags (t ∷ seen) tags in
    if is_empty t then skipped else if seen_in t seen then skipped else t ∷ kept

-- `sort.Strings`.
unfoldable pub insert_string : Str → List Str → List Str
insert_string x [] = x ∷ []
insert_string x (y ∷ ys) =
    let rest = insert_string x ys in if str_less y x then y ∷ rest else x ∷ y ∷ ys

unfoldable pub sort_strings : List Str → List Str
sort_strings [] = []
sort_strings (x ∷ xs) = insert_string x (sort_strings xs)

-- normalizeTags
unfoldable pub normalize_tags : List Str → List Str
normalize_tags tags = sort_strings (collect_tags [] tags)

-- normalizeSeverity
unfoldable pub normalize_severity : Str → Str
normalize_severity raw =
    let val = lower_trim raw in
    if str_eq val severity_low || str_eq val severity_medium || str_eq val severity_high
    then val
    else if str_eq val (text "低")
    then severity_low
    else if str_eq val (text "中")
    then severity_medium
    else if str_eq val (text "高")
    then severity_high
    else severity_medium

-- normalizeOperator
unfoldable pub normalize_operator : Str → Str
normalize_operator raw = let val = trim_space raw in if is_empty val then bytes "system" else val

unfoldable pub is_source_type : Str → Bool
is_source_type val =
    str_eq val (bytes "manual")
    || str_eq val (bytes "import")
    || str_eq val (bytes "ai-generated")
    || str_eq val (bytes "rollback")
    || str_eq val (bytes "incident")
    || str_eq val (bytes "alert")
    || str_eq val (bytes "change")
    || str_eq val (bytes "postmortem")

-- normalizeSourceType
unfoldable pub normalize_source_type : Str → Str
normalize_source_type raw =
    let val = lower_trim raw in if is_source_type val then val else bytes "manual"

-- firstNonEmpty
unfoldable pub first_non_empty : List Str → Str
first_non_empty [] = []
first_non_empty (value ∷ values) =
    let rest = first_non_empty values in
    if is_empty (trim_space value) then rest else trim_space value

-- The guards `if x == "" { x = other }`.
abbrev pub or_else : Str → Str → Str
or_else s other = if is_empty s then other else s

-- normalizeArticleStatus
unfoldable pub normalize_article_status : Str → Str
normalize_article_status raw =
    let s = lower_trim raw in
    if is_empty s
    then []
    else if str_eq s status_draft
    then status_draft
    else if str_eq s status_reviewing || str_eq s (bytes "pending_review")
    then status_reviewing
    else if str_eq s status_published
    then status_published
    else if str_eq s status_archived
    then status_archived
    else s

-- normalizeArticleStatusOrDraft
unfoldable pub normalize_article_status_or_draft : Str → Str
normalize_article_status_or_draft raw = or_else (normalize_article_status raw) status_draft

-- isKBActionAllowed
unfoldable pub is_kb_action_allowed : Str → Str → Bool
is_kb_action_allowed status action =
    let s = normalize_article_status_or_draft status in
    let a = lower_trim action in
    if str_eq a (bytes "submit")
    then str_eq s status_draft
    else if str_eq a (bytes "approve") || str_eq a (bytes "reject")
    then str_eq s status_reviewing
    else if str_eq a (bytes "archive")
    then str_eq s status_draft || str_eq s status_reviewing || str_eq s status_published
    else false
