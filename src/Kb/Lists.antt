-- ===== src/Kb/Lists.antt =====
-- go-watch-file/internal/kb/service.go: the lists of articles, with their filters, their order and their pages.
use go_watch_file.Base.{
  ℕ, ◌-◌, ◌*◌, ◌%◌, ◌^◌, Bool, false, not, none, some, List, [], ◌∷◌, ◌++◌, map, ◌||◌, ◌&&◌,
  if◌then◌else◌, ◌==◌, ltb, leb, length, take, drop,
}
use go_watch_file.Base.Str.{Str, str_eq, is_empty, to_lower}
use go_watch_file.Control.Sort.{str_less}
use go_watch_file.Kb.Types.{
  status_reviewing, status_published, status_archived, Article, ListQuery, Tables, ArticleRow,
}
use go_watch_file.Kb.Normal.{lower_trim, normalize_article_status}
use go_watch_file.Kb.Store.{M, ◌>>=◌, pure, select, find_version}
use go_watch_file.Kb.Queries.{
  Host, Moment, scan_article, order_by, linked_names, query_article_tags,
}

abbrev pub default_page_size : ℕ
default_page_size = 20

abbrev pub max_page_size : ℕ
max_page_size = 100

-- The guards `if x <= 0 { x = other }` and `if x > most { x = most }`.
abbrev pub clamp : ℕ → ℕ → ℕ → ℕ
clamp other most x =
    if x == 0 then (if ltb most other then most else other) else if ltb most x then most else x

-- `(page - 1) * pageSize` in 64 bits; SQLite takes a negative OFFSET for 0.
unfoldable pub page_offset : ℕ → ℕ → ℕ
page_offset page size = let o = (page - 1) * size % 2 ^ 64 in if ltb o (2 ^ 63) then o else 0

unfoldable pub any_like : Host → Str → List Str → Bool
any_like host pattern [] = false
any_like host pattern (name ∷ names) =
    host.like (to_lower name) pattern || any_like host pattern names

unfoldable pub any_named : Str → List Str → Bool
any_named tag [] = false
any_named tag (name ∷ names) = str_eq (to_lower name) tag || any_named tag names

-- The clause of buildListWhere on the text.
unfoldable pub matches_text : Host → Tables → Str → ArticleRow → Bool
matches_text host t q a =
    let pattern = b'%' ∷ q ++ b'%' ∷ [] in
    is_empty q
    || host.like (to_lower a.title) pattern
    || host.like (to_lower a.summary) pattern
    || (elim (find_version a.id a.current_version t.article_versions) [
      | none ↦ false
      | some v ↦ host.like (to_lower v.content) pattern
    ])
    || any_like host pattern (linked_names a.id t.article_tags t.tags)

-- The clause on the status.
unfoldable pub matches_status : Str → Bool → ArticleRow → Bool
matches_status raw include_archived a =
    let status = normalize_article_status raw in
    if not (is_empty status)
    then str_eq a.status status
    else include_archived || not (str_eq a.status status_archived)

-- buildListWhere
unfoldable pub build_list_where : Host → Tables → ListQuery → ArticleRow → Bool
build_list_where host t q a =
    let severity = lower_trim q.severity in
    let tag = lower_trim q.tag in
    matches_text host t (lower_trim q.query) a
    && matches_status q.status q.include_archived a
    && (is_empty severity || str_eq a.severity severity)
    && (is_empty tag || any_named tag (linked_names a.id t.article_tags t.tags))

unfoldable pub filter_rows : (ArticleRow → Bool) → List ArticleRow → List ArticleRow
filter_rows keep [] = []
filter_rows keep (a ∷ rest) = let rows = filter_rows keep rest in if keep a then a ∷ rows else rows

-- The rows of the answer, before LIMIT and OFFSET.
unfoldable pub ordered_rows : Host → ListQuery → Tables → List ArticleRow
ordered_rows host q t =
    order_by (λ a b. str_less b.updated_at a.updated_at)
      (filter_rows (build_list_where host t q) t.articles)

abbrev pub list_page : ListQuery → ℕ
list_page q = if q.page == 0 then 1 else q.page

abbrev pub list_page_size : ListQuery → ℕ
list_page_size q = clamp default_page_size max_page_size q.page_size

unfoldable pub page_rows : Host → ListQuery → Tables → List ArticleRow
page_rows host q t =
    take (list_page_size q)
      (drop (page_offset (list_page q) (list_page_size q)) (ordered_rows host q t))

-- The loops of queryTagsByArticleIDs and over `out`.
unfoldable pub fill_tags : List Article → M (List Article)
fill_tags [] = pure []
fill_tags (a ∷ rest) = do
  tags ← (if is_empty a.id then pure [] else query_article_tags a.id)
  filled ← fill_tags rest
  pure ((record a { tags = tags }) ∷ filled)

-- ListArticles
unfoldable pub list_articles : Host → Moment → ListQuery → M (List Article × ℕ)
list_articles host at q = do
  total ← select (λ t. length (filter_rows (build_list_where host t q) t.articles))
  items ← select (λ t. map (scan_article host at t.article_versions) (page_rows host q t))
  filled ← fill_tags items
  pure (filled, total)

abbrev pub status_query : Str → ℕ → ListQuery
status_query status size = record {
  query = [];
  status = status;
  severity = [];
  tag = [];
  page = 1;
  page_size = size;
  include_archived = false;
}

-- The loop over the published articles; `room` is how many may still be added.
unfoldable pub add_stale : ℕ → List Article → List Article
add_stale room [] = []
add_stale room (a ∷ rest) =
    let more = add_stale (room - 1) rest in
    let same = add_stale room rest in
    if not a.needs_review then same else if leb room 1 then a ∷ [] else a ∷ more

abbrev pub first_page : M (List Article × ℕ) → M (List Article)
first_page m = m >>= (λ r. pure r.0)

-- PendingReviews
unfoldable pub pending_reviews : Host → Moment → ℕ → M (List Article)
pending_reviews host at raw =
    let limit = clamp 20 max_page_size raw in
    first_page (list_articles host at (status_query status_reviewing limit)) >>= (λ reviewing.
      if leb limit (length reviewing)
      then pure (take limit reviewing)
      else first_page (list_articles host at (status_query status_published (limit * 2)))
        >>= (λ published. pure (reviewing ++ add_stale (limit - length reviewing) published)))
