-- ===== src/Kb/Search.antt =====
-- go-watch-file/internal/kb/service.go: searching, first by LIKE and then by the tokens of the question, and the
-- answers built on what was found. A text is cut into runes, each the list of its bytes.
use go_watch_file.Base.{
  ℕ, zero, suc, ◌+◌, Bool, true, false, not, List, [], ◌∷◌, ◌++◌, map, ◌||◌, ◌&&◌, if◌then◌else◌,
  ◌==◌, ltb, leb, length, take,
}
use go_watch_file.Base.Str.{Str, bytes, text, is_empty, to_lower, contains}
use go_watch_file.Base.Trim.{trim_space}
use go_watch_file.Base.Runes.{runes, of_runes}
use go_watch_file.Alert.Tailer.{split_lines}
use go_watch_file.Kb.Types.{status_published, Article, ListQuery, Citation, AskResult}
use go_watch_file.Kb.Store.{invalid_input, M, ◌>>=◌, ◌>>◌, pure, raise_if}
use go_watch_file.Kb.Queries.{Host, Moment, order_by}
use go_watch_file.Kb.Lists.{max_page_size, clamp, first_page, list_articles}
use go_watch_file.Kb.Tokens.{none_left, tokenize_search_query}

unfoldable pub any_contains : Str → List Str → Bool
any_contains token [] = false
any_contains token (tag ∷ tags) = contains (to_lower tag) token || any_contains token tags

abbrev points : Bool → ℕ → ℕ
points b n = if b then n else 0

-- The body of the loop of scoreArticleByTokens.
unfoldable pub score_token : Article → Str → ℕ
score_token a token =
    let in_title = not (is_empty token) && contains (to_lower a.title) token in
    let in_summary = not (is_empty token) && contains (to_lower a.summary) token in
    let in_tags = not (is_empty token) && any_contains token a.tags in
    let in_content = not (is_empty token) && contains (to_lower a.content) token in
    points in_title 8
    + points in_summary 5
    + points in_tags 4
    + points in_content 2
    + points (in_title || in_summary || in_tags || in_content) 1

-- scoreArticleByTokens
unfoldable pub score_article_by_tokens : Article → List Str → ℕ
score_article_by_tokens a [] = 0
score_article_by_tokens a (token ∷ tokens) = score_token a token + score_article_by_tokens a tokens

abbrev pub page_query : Str → Bool → ℕ → ListQuery
page_query status archived page = record {
  query = [];
  status = status;
  severity = [];
  tag = [];
  page = page;
  page_size = max_page_size;
  include_archived = archived;
}

abbrev pub max_pages : ℕ
max_pages = 10

-- The loop of searchByTokens that reads the candidates; `fuel` pages are enough when it is at least
-- `max_pages + 1 - page`.
unfoldable pub gather : Host → Moment → Str → Bool → ℕ → ℕ → List Article → M (List Article)
gather host at status archived zero page candidates = pure candidates
gather host at status archived (suc fuel) page candidates =
    list_articles host at (page_query status archived page) >>= (λ r.
      let all = candidates ++ r.0 in
      let rest = gather host at status archived fuel (page + 1) all in
      if length r.0 == 0 || leb r.1 (length all) || leb max_pages page then pure all else rest)

-- The candidates that score, each with its score.
unfoldable pub scored : List Str → List Article → List (Article × ℕ)
scored tokens [] = []
scored tokens (a ∷ rest) =
    let others = scored tokens rest in
    let score = score_article_by_tokens a tokens in
    if score == 0 then others else (a, score) ∷ others

abbrev pub articles_of : List (Article × ℕ) → List Article
articles_of [] = []
articles_of ((a, s) ∷ rest) = a ∷ articles_of rest

abbrev pub wanted_status : Bool → Str
wanted_status archived = if archived then [] else status_published

unfoldable pub best : ℕ → List Str → List Article → List Article
best limit tokens candidates =
    articles_of (take limit (order_by (λ a b. ltb b.1 a.1) (scored tokens candidates)))

-- searchByTokens
unfoldable pub search_by_tokens : Host → Moment → Str → ℕ → Bool → M (List Article)
search_by_tokens host at query limit archived =
    let tokens = tokenize_search_query host query in
    if none_left tokens
    then pure []
    else gather host at (wanted_status archived) archived max_pages 1 []
      >>= (λ candidates. pure (best limit tokens candidates))

abbrev pub no_articles : List Article → Bool
no_articles [] = true
no_articles (a ∷ rest) = false

-- The first query of Search; it does not ask for the archived.
abbrev pub like_query : Str → Bool → ℕ → ListQuery
like_query q archived limit = record {
  query = q;
  status = wanted_status archived;
  severity = [];
  tag = [];
  page = 1;
  page_size = limit;
  include_archived = false;
}

-- Search
unfoldable pub search : Host → Moment → Str → ℕ → Bool → M (List Article)
search host at query raw archived =
    let q = trim_space query in
    let limit = clamp 10 max_page_size raw in
    if is_empty q
    then pure []
    else first_page (list_articles host at (like_query q archived limit)) >>= (λ items.
      if no_articles items then search_by_tokens host at q limit archived else pure items)

unfoldable pub trim_hash : Str → Str
trim_hash [] = []
trim_hash (c ∷ s) = if c == b'#' then s else c ∷ s

abbrev cut_runes : ℕ → Str → Str
cut_runes most s =
    if leb (length (runes s)) most then s else of_runes (take most (runes s)) ++ bytes "..."

unfoldable pub snippet_line : ℕ → Str → List Str → Str
snippet_line most val [] = cut_runes most val
snippet_line most val (line ∷ lines) =
    let rest = snippet_line most val lines in
    let clean = trim_space (trim_hash line) in if is_empty clean then rest else cut_runes most clean

-- snippetFromContent
unfoldable pub snippet_from_content : Str → ℕ → Str
snippet_from_content content max =
    let val = trim_space content in
    let most = if max == 0 then 180 else max in
    if is_empty val then [] else snippet_line most val (split_lines val)

unfoldable pub cite : Article → Citation
cite a = record { article_id = a.id; title = a.title; version = a.current_version }

unfoldable pub snippet_of : Article → Str
snippet_of top =
    let summary = trim_space top.summary in
    let content = snippet_from_content top.content 180 in
    if not (is_empty summary)
    then summary
    else if is_empty content
    then text "建议先查看该条目的处置步骤与历史变更。"
    else content

-- What Ask makes of the articles found.
unfoldable pub answer_from : List Article → AskResult
answer_from [] = record {
  answer = text "知识库中未检索到相关条目，请补充更具体的关键词。";
  citations = [];
  confidence = 20;
}
answer_from (top ∷ rest) = record {
  answer = text "基于知识库条目《" ++ top.title ++ text "》：" ++ snippet_of top;
  citations = map cite (top ∷ rest);
  confidence = 75;
}

-- Ask
unfoldable pub ask : Host → Moment → Str → ℕ → M AskResult
ask host at question limit =
    let trimmed = trim_space question in
    raise_if (is_empty trimmed) (invalid_input (bytes "question is required"))
    >> (search host at trimmed (if limit == 0 then 3 else limit) false
        >>= (λ items. pure (answer_from items)))

-- Recommendations
unfoldable pub recommendations : Host → Moment → Str → ℕ → M (List Article)
recommendations host at query limit = search host at query limit false
