-- ===== src/Kb/Writes.antt =====
-- go-watch-file/internal/kb/service.go: the four writes of the knowledge base, each one transaction and then a
-- read of the article it wrote.
use go_watch_file.Base.{
  ℕ, ◌+◌, Bool, true, false, not, List, [], ◌∷◌, ◌++◌, ◌||◌, if◌then◌else◌, ◌==◌,
}
use go_watch_file.Base.Str.{Str, bytes, str_eq, is_empty, itoa}
use go_watch_file.Base.Trim.{trim_space}
use go_watch_file.Kb.Types.{
  status_draft, status_reviewing, status_published, status_archived, Article, ArticleInput,
  ArticleRow, VersionRow,
}
use go_watch_file.Kb.Normal.{
  lower_trim, normalize_severity, normalize_operator, normalize_source_type, first_non_empty,
  or_else, normalize_article_status_or_draft, is_kb_action_allowed,
}
use go_watch_file.Kb.Store.{
  invalid_input, M, ◌>>=◌, ◌>>◌, raise_if, when, or_raise, exec, select, new_id, transaction,
  find_version, insert_article, update_article_row, insert_version,
}
use go_watch_file.Kb.Queries.{Host, Moment, query_article_core, get_article}
use go_watch_file.Kb.Annexes.{replace_tags, upsert_reference, insert_review}

-- The rows that CreateArticle writes.
abbrev pub new_article_row : Moment → ArticleInput → Str → ArticleRow
new_article_row at i id = record {
  id = id;
  title = trim_space i.title;
  summary = trim_space i.summary;
  category = or_else (trim_space i.category) (bytes "general");
  severity = normalize_severity i.severity;
  status = status_draft;
  current_version = 1;
  created_by = normalize_operator i.by;
  updated_by = normalize_operator i.by;
  created_at = at.stamp;
  updated_at = at.stamp;
}

abbrev pub new_version_row : Moment → ArticleInput → Str → VersionRow
new_version_row at i id = record {
  article_id = id;
  version = 1;
  content = trim_space i.content;
  change_note = or_else (trim_space i.change_note) (bytes "initial version");
  source_type = normalize_source_type i.source_type;
  source_ref = trim_space i.source_ref;
  created_by = normalize_operator i.by;
  created_at = at.stamp;
}

-- The transaction of CreateArticle.
unfoldable pub create_rows : Moment → ArticleInput → Str → M (Unit {0})
create_rows at i id = do
  exec (insert_article (new_article_row at i id))
  exec (insert_version (new_version_row at i id))
  replace_tags id i.tags
  when (not (is_empty (trim_space i.source_ref))) (
      upsert_reference id (normalize_source_type i.source_type) (trim_space i.source_ref)
        (or_else (trim_space i.ref_title) (trim_space i.title)))
  insert_review id 1 (bytes "create") (or_else (trim_space i.change_note) (bytes "initial version"))
      (normalize_operator i.by) at.stamp

-- CreateArticle
unfoldable pub create_article : Host → Moment → ArticleInput → M Article
create_article host at i = do
  raise_if (is_empty (trim_space i.title)) (invalid_input (bytes "title is required"))
  id ← new_id (bytes "kb")
  transaction (create_rows at i id)
  get_article host at id

-- What UpdateArticle makes of the row and writes as the next version; `c` is the article it read.
abbrev pub updated_title : ArticleInput → Article → Str
updated_title i c = first_non_empty (trim_space i.title ∷ c.title ∷ [])

abbrev pub updated_row : Moment → ArticleInput → Article → ArticleRow → ArticleRow
updated_row at i c a = record a {
  title = updated_title i c;
  summary = first_non_empty (trim_space i.summary ∷ c.summary ∷ []);
  category = or_else (first_non_empty (trim_space i.category ∷ c.category ∷ [])) (bytes "general");
  severity = normalize_severity (first_non_empty (trim_space i.severity ∷ c.severity ∷ []));
  current_version = c.current_version + 1;
  updated_by = normalize_operator i.by;
  updated_at = at.stamp;
}

abbrev pub next_version_row : Moment → ArticleInput → Article → Str → VersionRow
next_version_row at i c id = record {
  article_id = id;
  version = c.current_version + 1;
  content = or_else (trim_space i.content) c.content;
  change_note = or_else (trim_space i.change_note) (bytes "update content");
  source_type = normalize_source_type i.source_type;
  source_ref = trim_space i.source_ref;
  created_by = normalize_operator i.by;
  created_at = at.stamp;
}

abbrev any_tags : List Str → Bool
any_tags [] = false
any_tags (t ∷ ts) = true

-- The transaction of UpdateArticle.
unfoldable pub update_rows_of : Host → Moment → Str → ArticleInput → M (Unit {0})
update_rows_of host at id i = do
  c ← query_article_core host at id
  raise_if (is_empty (updated_title i c)) (invalid_input (bytes "title is required"))
  exec (update_article_row id (updated_row at i c))
  exec (insert_version (next_version_row at i c id))
  when (any_tags i.tags) (replace_tags id i.tags)
  when (not (is_empty (trim_space i.source_ref))) (
      upsert_reference id (normalize_source_type i.source_type) (trim_space i.source_ref)
        (or_else (trim_space i.ref_title) (updated_title i c)))
  insert_review id (c.current_version + 1) (bytes "update")
      (or_else (trim_space i.change_note) (bytes "update content")) (normalize_operator i.by)
      at.stamp

-- UpdateArticle
unfoldable pub update_article : Host → Moment → Str → ArticleInput → M Article
update_article host at id i = do
  raise_if (is_empty (trim_space id)) (invalid_input (bytes "article id is required"))
  transaction (update_rows_of host at (trim_space id) i)
  get_article host at (trim_space id)

unfoldable pub is_action : Str → Bool
is_action a =
    str_eq a (bytes "submit")
    || str_eq a (bytes "approve")
    || str_eq a (bytes "reject")
    || str_eq a (bytes "archive")

-- The switch on the action in ApplyAction.
unfoldable pub next_status : Str → Str → Str
next_status action current =
    if str_eq action (bytes "submit")
    then status_reviewing
    else if str_eq action (bytes "approve")
    then status_published
    else if str_eq action (bytes "reject")
    then status_draft
    else if str_eq action (bytes "archive")
    then status_archived
    else current

abbrev pub with_status : Str → Str → Str → ArticleRow → ArticleRow
with_status status by at a = record a { status = status; updated_by = by; updated_at = at }

-- The transaction of ApplyAction.
unfoldable pub act_rows : Host → Moment → Str → Str → Str → Str → M (Unit {0})
act_rows host at id action by comment = do
  c ← query_article_core host at id
  let current = normalize_article_status_or_draft c.status
  raise_if (not (is_kb_action_allowed current action)) (
      invalid_input
        (bytes "action " ++ action ++ bytes " is not allowed when status is " ++ current))
  let next = next_status action current
  when (not (str_eq next current)) (exec (update_article_row id (with_status next by at.stamp)))
  insert_review id c.current_version action comment by at.stamp

-- ApplyAction
unfoldable pub apply_action : Host → Moment → Str → Str → Str → Str → M Article
apply_action host at id action operator comment = do
  raise_if (is_empty (trim_space id)) (invalid_input (bytes "article id is required"))
  raise_if (not (is_action (lower_trim action)))
      (invalid_input (bytes "unsupported action " ++ lower_trim action))
  transaction (
      act_rows host at (trim_space id) (lower_trim action) (normalize_operator operator)
        (trim_space comment))
  get_article host at (trim_space id)

abbrev pub rollback_version : Moment → Str → ℕ → ℕ → Str → Str → Str → VersionRow
rollback_version at id target next content by comment = record {
  article_id = id;
  version = next;
  content = content;
  change_note = comment;
  source_type = bytes "rollback";
  source_ref = bytes "version:" ++ itoa target;
  created_by = by;
  created_at = at.stamp;
}

abbrev pub rolled_back : ℕ → Str → Str → ArticleRow → ArticleRow
rolled_back next by at a = record a { current_version = next; updated_by = by; updated_at = at }

-- The transaction of RollbackArticle.
unfoldable pub rollback_rows : Host → Moment → Str → ℕ → Str → Str → M (Unit {0})
rollback_rows host at id target by comment = do
  c ← query_article_core host at id
  found ← select (λ t. find_version id target t.article_versions)
  v ← or_raise found (invalid_input (bytes "target version " ++ itoa target ++ bytes " not found"))
  exec (insert_version (rollback_version at id target (c.current_version + 1) v.content by comment))
  exec (update_article_row id (rolled_back (c.current_version + 1) by at.stamp))
  insert_review id (c.current_version + 1) (bytes "rollback") comment by at.stamp

-- RollbackArticle
unfoldable pub rollback_article : Host → Moment → Str → ℕ → Str → Str → M Article
rollback_article host at id target operator comment = do
  raise_if (is_empty (trim_space id)) (invalid_input (bytes "article id is required"))
  raise_if (target == 0) (invalid_input (bytes "targetVersion must be greater than zero"))
  transaction (
      rollback_rows host at (trim_space id) target (normalize_operator operator)
        (or_else (trim_space comment) (bytes "rollback to version " ++ itoa target)))
  get_article host at (trim_space id)
