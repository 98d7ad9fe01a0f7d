-- ===== src/Kb/Queries.antt =====
-- go-watch-file/internal/kb/service.go: the reads of one article. What the code takes from outside the
-- repository is a field of `Host`: time.Parse with its two layouts, strconv.Atoi, the LIKE of
-- SQLite (`like text pattern`), unicode.IsLetter and IsDigit of a rune, given by its bytes, and
-- filepath.ToSlash, Ext and Base. `Moment` has the time of a request, as nowRFC3339 writes it and as
-- time.Now gives it, in nanoseconds.
use go_watch_file.Base.{
  ℕ, ◌+◌, ◌*◌, ◌%◌, ◌^◌, Bool, false, not, Option, none, some, List, [], ◌∷◌, if◌then◌else◌, ◌==◌,
  ltb,
}
use go_watch_file.Base.Str.{Str, bytes, str_eq, is_empty}
use go_watch_file.Base.Trim.{trim_space}
use go_watch_file.Control.Sort.{str_less}
use go_watch_file.Kb.Types.{
  status_published, Article, ArticleVersion, ReviewRecord, ArticleRef, Tables, ArticleRow,
  VersionRow, TagRow, TagLink, ReviewRow, ReferenceRow,
}
use go_watch_file.Kb.Normal.{lower_trim, sort_strings, normalize_article_status_or_draft}
use go_watch_file.Kb.Store.{
  not_found, invalid_input, M, ◌>>=◌, ◌>>◌, pure, raise_if, or_raise, select, find_article,
  find_version, has_link,
}

pub record Host : Type 0 where
  pub parse_rfc3339_nano : Str → Option ℕ
  pub parse_rfc3339 : Str → Option ℕ
  pub atoi : Str → Option ℕ
  pub like : Str → Str → Bool
  pub is_letter : Str → Bool
  pub is_digit : Str → Bool
  pub to_slash : Str → Str
  pub ext : Str → Str
  pub base : Str → Str
  pub kb_review_days : Str

pub record Moment : Type 0 where
  pub stamp : Str
  pub now : ℕ

abbrev pub default_review_days : ℕ
default_review_days = 90

-- resolveReviewDays
unfoldable pub resolve_review_days : Host → ℕ
resolve_review_days host =
    let raw = trim_space host.kb_review_days in
    if is_empty raw then default_review_days else elim (host.atoi raw) [
      | none ↦ default_review_days
      | some val ↦ if val == 0 then default_review_days else val
    ]

-- `time.Duration(days) * 24 * time.Hour` in 64 bits.
abbrev review_span : ℕ → ℕ
review_span days = days * 86400000000000 % 2 ^ 64

-- `time.Now().After(updated.Add(span))`; half of the spans are negative.
unfoldable pub is_expired : ℕ → ℕ → ℕ → Bool
is_expired now updated days =
    let span = review_span days in
    if ltb span (2 ^ 63) then ltb (updated + span) now else ltb (updated + span) (now + 2 ^ 64)

abbrev parse_time : Host → Str → Option ℕ
parse_time host raw = elim (host.parse_rfc3339_nano raw) [
  | some at ↦ some at
  | none ↦ host.parse_rfc3339 raw
]

-- needsReviewByDays
unfoldable pub needs_review_by_days : Host → ℕ → Str → Str → ℕ → Bool
unfolding lower_trim
needs_review_by_days host now status updated_at days =
    if not (str_eq (lower_trim status) status_published)
    then false
    else if days == 0
    then false
    else elim (parse_time host (trim_space updated_at)) [
      | none ↦ false
      | some updated ↦ is_expired now updated days
    ]

abbrev pub content_of : Option VersionRow → Str
content_of none = []
content_of (some v) = v.content

abbrev change_note_of : Option VersionRow → Str
change_note_of none = []
change_note_of (some v) = v.change_note

-- The row with the version it points to, as `Scan` and the two assignments after it fill an Article.
unfoldable pub scan_article : Host → Moment → List VersionRow → ArticleRow → Article
unfolding normalize_article_status_or_draft find_version needs_review_by_days resolve_review_days
scan_article host at versions a =
    let v = find_version a.id a.current_version versions in
    let status = normalize_article_status_or_draft a.status in
    record {
      id = a.id;
      title = a.title;
      summary = a.summary;
      category = a.category;
      severity = a.severity;
      status = status;
      needs_review =
          needs_review_by_days host at.now status a.updated_at (resolve_review_days host);
      current_version = a.current_version;
      content = content_of v;
      change_note = change_note_of v;
      tags = [];
      references = [];
      versions = [];
      reviews = [];
      created_by = a.created_by;
      updated_by = a.updated_by;
      created_at = a.created_at;
      updated_at = a.updated_at;
    }

abbrev pub scan_found : Host → Moment → List VersionRow → Option ArticleRow → Option Article
scan_found host at versions none = none
scan_found host at versions (some a) = some (scan_article host at versions a)

-- queryArticleCore and queryArticleCoreTx
unfoldable pub query_article_core : Host → Moment → Str → M Article
unfolding find_article select
query_article_core host at id = do
  found ← select (λ t. scan_found host at t.article_versions (find_article id t.articles))
  or_raise found not_found

-- ORDER BY: rows that compare equal stay in the order of the table.
module _ {A : Type 0} (less : A → A → Bool) where
  insert_row : A → List A → List A
  insert_row x [] = x ∷ []
  insert_row x (y ∷ ys) = let rest = insert_row x ys in if less y x then y ∷ rest else x ∷ y ∷ ys

  unfoldable pub order_by : List A → List A
  unfolding insert_row
  order_by [] = []
  order_by (x ∷ xs) = insert_row x (order_by xs)

unfoldable pub linked_names : Str → List TagLink → List TagRow → List Str
linked_names id links [] = []
linked_names id links (t ∷ rest) =
    let names = linked_names id links rest in
    if has_link (record { article_id = id; tag_id = t.id }) links then t.name ∷ names else names

unfoldable pub tags_of : Str → Tables → List Str
tags_of id t = sort_strings (linked_names id t.article_tags t.tags)

-- queryArticleTags
unfoldable pub query_article_tags : Str → M (List Str)
query_article_tags id = select (tags_of id)

unfoldable pub reference_less : ArticleRef → ArticleRef → Bool
unfolding str_less
reference_less a b =
    if str_eq a.ref_type b.ref_type
    then str_less a.ref_path b.ref_path
    else str_less a.ref_type b.ref_type

unfoldable pub references_of : Str → List ReferenceRow → List ArticleRef
references_of id [] = []
references_of id (r ∷ rest) =
    let refs = references_of id rest in
    if str_eq r.article_id id
    then (record { ref_type = r.ref_type; ref_path = r.ref_path; ref_title = r.ref_title }) ∷ refs
    else refs

-- queryArticleRefs
unfoldable pub query_article_refs : Str → M (List ArticleRef)
query_article_refs id =
    select (λ t. order_by reference_less (references_of id t.article_references))

abbrev pub scan_version : VersionRow → ArticleVersion
scan_version v = record {
  version = v.version;
  content = v.content;
  change_note = v.change_note;
  source_type = v.source_type;
  source_ref = v.source_ref;
  created_by = v.created_by;
  created_at = v.created_at;
}

unfoldable pub versions_of : Str → List VersionRow → List ArticleVersion
versions_of id [] = []
versions_of id (v ∷ rest) =
    let vs = versions_of id rest in if str_eq v.article_id id then scan_version v ∷ vs else vs

-- queryArticleVersions
unfoldable pub query_article_versions : Str → M (List ArticleVersion)
query_article_versions id =
    select (λ t. order_by (λ a b. ltb b.version a.version) (versions_of id t.article_versions))

unfoldable pub reviews_of : Str → List ReviewRow → List ReviewRecord
reviews_of id [] = []
reviews_of id (r ∷ rest) =
    let rs = reviews_of id rest in
    if str_eq r.article_id id
    then (record {
      action = r.action;
      comment = r.comment;
      operator = r.operator;
      created_at = r.created_at;
    })
      ∷ rs
    else rs

-- queryArticleReviews
unfoldable pub query_article_reviews : Str → M (List ReviewRecord)
query_article_reviews id =
    select
      (λ t. order_by (λ a b. str_less b.created_at a.created_at) (reviews_of id t.article_reviews))

-- GetArticle
unfoldable pub get_article : Host → Moment → Str → M Article
unfolding query_article_core query_article_tags query_article_refs query_article_versions
    query_article_reviews
get_article host at id = do
  raise_if (is_empty (trim_space id)) (invalid_input (bytes "article id is required"))
  core ← query_article_core host at (trim_space id)
  tags ← query_article_tags (trim_space id)
  refs ← query_article_refs (trim_space id)
  versions ← query_article_versions (trim_space id)
  reviews ← query_article_reviews (trim_space id)
  pure (record core { tags = tags; references = refs; versions = versions; reviews = reviews })
