-- ===== src/Kb/Tests.antt =====
-- go-watch-file/internal/kb: the knowledge base on concrete tables.
use go_watch_file.Base.{
  ◌-◌, ◌+◌, ◌≤◌, ◌≡◌, refl, Bool, true, false, none, some, List, [], ◌∷◌, ◌++◌, ◌&&◌, leb, length,
  drop, reverse, arith,
}
use go_watch_file.Base.Str.{Str, bytes, str_eq, contains, to_lower, count}
use go_watch_file.Base.Trim.{trim_space}
use go_watch_file.Kb.Types.{
  status_archived, severity_medium, ArticleInput, Tables, ArticleRow, VersionRow,
}
use go_watch_file.Kb.Normal.{
  lower_trim, normalize_article_status, normalize_article_status_or_draft, normalize_tags,
  normalize_severity, normalize_operator, normalize_source_type, first_non_empty,
  is_kb_action_allowed, collect_tags, seen_in, sort_strings, insert_string, is_source_type,
}
use go_watch_file.Kb.Store.{
  Kb, find_article, find_version, select, exec, transaction, pure, raise, raise_if, when, or_raise,
  ◌>>=◌, new_id, insert_article, insert_version, insert_review_row, has_review, find_tag,
  has_tag_id, insert_tag, delete_links, without_links, insert_link, has_link, update_article_row,
  update_rows,
}
use go_watch_file.Kb.Writes.{
  create_article, update_article, apply_action, create_rows, update_rows_of, act_rows, next_status,
  is_action,
}
use go_watch_file.Kb.Annexes.{
  replace_tags, link_tags, get_or_create_tag, create_tag, tag_inserted, upsert_reference,
  insert_review,
}
use go_watch_file.Control.Sort.{str_less}
use go_watch_file.Kb.Queries.{
  Host, Moment, get_article, query_article_core, scan_article, query_article_tags, tags_of,
  linked_names, query_article_refs, references_of, query_article_versions, versions_of,
  query_article_reviews, reviews_of, order_by, needs_review_by_days, resolve_review_days,
}
use go_watch_file.Kb.Logic.{Holds}
use go_watch_file.Kb.Commits.{Commits}
use go_watch_file.Kb.Lists.{clamp, max_page_size}
use go_watch_file.Kb.Search.{search, gather}
use go_watch_file.Kb.Docs.{DocEntry, import_docs, import_entries, import_root}
use go_watch_file.Kb.Imports.{import_docs-Sound}
use go_watch_file.Kb.Fates.{Fate, Trail, imports_in, updates_in, skips_in, paths_in}
use go_watch_file.Kb.Normal.{normalize_operator}
use go_watch_file.Kb.Tally.{count_docs, import_docs-Tallied}
use go_watch_file.Kb.Serve.{Request, creates, updates, acts, serve, Effect, serve-Commits}
use go_watch_file.Kb.History.{
  serve_all, Numbered, serve_all-Numbered, serve_all_kept, numbers, current_of, upto,
}
use go_watch_file.Kb.Reviews.{Approved, serve_all-Approved, Archived, serve_all-Archived}
use go_watch_file.Kb.Bounds.{search-Bounded, gather_enough}

abbrev is_ascii_letter : Str → Bool
is_ascii_letter [] = false
is_ascii_letter (c ∷ s) = leb b'a' c && leb c b'z'

-- A host with `%text%` as the only patterns, and no date that parses.
abbrev demo_host : Host
demo_host = record {
  parse_rfc3339_nano = λ s. none;
  parse_rfc3339 = λ s. none;
  atoi = λ s. none;
  like = λ s pattern. contains s (reverse (drop 1 (reverse (drop 1 pattern))));
  is_letter = is_ascii_letter;
  is_digit = λ r. false;
  to_slash = λ s. s;
  ext = λ s. drop (length s - 3) s;
  base = λ s. s;
  kb_review_days = [];
}

abbrev demo_time : Moment
demo_time = record { stamp = bytes "2026-01-02T00:00:00Z"; now = 1000 }

abbrev demo_input : ArticleInput
demo_input = record {
  title = bytes " Disk full ";
  summary = bytes "free space";
  category = [];
  severity = bytes "HIGH";
  content = bytes "clean up";
  tags = bytes "Disk" ∷ bytes "disk" ∷ [];
  by = bytes "ann";
  change_note = [];
  source_type = bytes "manual";
  source_ref = [];
  ref_title = [];
}

abbrev no_rows : Tables
no_rows = record {
  articles = [];
  article_versions = [];
  tags = [];
  article_tags = [];
  article_reviews = [];
  article_references = [];
}

abbrev empty_kb : Kb
empty_kb = record {
  tables = no_rows;
  faults = [];
  suffixes = bytes "1" ∷ bytes "2" ∷ bytes "3" ∷ bytes "4" ∷ bytes "5" ∷ bytes "6" ∷ [];
}

abbrev create_demo : Request
create_demo = creates demo_time demo_input

abbrev demo_requests : List Request
demo_requests =
    create_demo
    ∷ updates demo_time (bytes "kb_1") demo_input
    ∷ acts demo_time (bytes "kb_1") (bytes "submit") (bytes "ann") []
    ∷ acts demo_time (bytes "kb_1") (bytes "approve") (bytes "bob") []
    ∷ []

serve-Commits_example :
    Commits empty_kb.tables
      (Effect demo_host create_demo empty_kb.tables)
      (serve demo_host create_demo empty_kb)
serve-Commits_example = serve-Commits demo_host create_demo empty_kb

none-Numbered : Numbered no_rows
unfolding Numbered numbers upto current_of find_article
none-Numbered = λ id. refl

serve_all-Numbered_example : Numbered (serve_all demo_host demo_requests empty_kb).tables
serve_all-Numbered_example = serve_all-Numbered demo_host demo_requests empty_kb none-Numbered

abbrev demo_article : ArticleRow
demo_article = record {
  id = bytes "kb_0";
  title = bytes "Old";
  summary = [];
  category = bytes "general";
  severity = severity_medium;
  status = status_archived;
  current_version = 1;
  created_by = bytes "ann";
  updated_by = bytes "ann";
  created_at = bytes "2026-01-01T00:00:00Z";
  updated_at = bytes "2026-01-01T00:00:00Z";
}

abbrev demo_version : VersionRow
demo_version = record {
  article_id = bytes "kb_0";
  version = 1;
  content = bytes "text";
  change_note = bytes "initial version";
  source_type = bytes "manual";
  source_ref = [];
  created_by = bytes "ann";
  created_at = bytes "2026-01-01T00:00:00Z";
}

abbrev old_kb : Kb
old_kb = record empty_kb {
  tables = record no_rows { articles = demo_article ∷ []; article_versions = demo_version ∷ [] };
}

serve_all_kept_example :
    find_version (bytes "kb_0") 1 (serve_all demo_host demo_requests old_kb).tables.article_versions
    ≡ some demo_version
unfolding find_version str_eq
serve_all_kept_example =
    serve_all_kept demo_host demo_requests old_kb (bytes "kb_0") 1 demo_version refl

none-Approved : Approved no_rows
unfolding Approved find_article
none-Approved = λ id a found published. absurd cc

serve_all-Approved_example : Approved (serve_all demo_host demo_requests empty_kb).tables
serve_all-Approved_example = serve_all-Approved demo_host demo_requests empty_kb none-Approved

old-Archived : Archived (bytes "kb_0") old_kb.tables
unfolding Archived find_article str_eq normalize_article_status_or_draft normalize_article_status
    lower_trim to_lower trim_space
old-Archived = (demo_article, (refl, refl))

serve_all-Archived_example :
    Archived (bytes "kb_0") (serve_all demo_host demo_requests old_kb).tables
serve_all-Archived_example =
    serve_all-Archived demo_host demo_requests old_kb (bytes "kb_0") old-Archived

search-Bounded_example :
    Holds
      (λ out _. length out ≤ clamp 10 max_page_size 3)
      (search demo_host demo_time (bytes "text") 3 true old_kb)
search-Bounded_example = search-Bounded demo_host demo_time (bytes "text") 3 true old_kb

gather_enough_example :
    gather demo_host demo_time [] true (10 + 5) 1 [] old_kb
    ≡ gather demo_host demo_time [] true 10 1 [] old_kb
gather_enough_example =
    gather_enough demo_host demo_time [] true 10 5 1 [] old_kb (omega arith) (omega arith)

-- The four writes on an empty store, one after the other: the second version is the current one.
current_demo :
    current_of (bytes "kb_1") (serve_all demo_host demo_requests empty_kb).tables.articles ≡ 2
unfolding serve_all serve current_of find_article str_eq create_article update_article apply_action
    create_rows update_rows_of act_rows get_article query_article_core scan_article select exec
    transaction pure raise raise_if when or_raise ◌>>=◌ new_id insert_article insert_version
    insert_review_row has_review find_version find_tag has_tag_id insert_tag delete_links
    without_links insert_link has_link update_article_row update_rows replace_tags link_tags
    get_or_create_tag create_tag tag_inserted upsert_reference insert_review next_status is_action
    normalize_tags collect_tags seen_in sort_strings insert_string is_source_type lower_trim
    to_lower trim_space normalize_severity normalize_operator normalize_source_type first_non_empty
    normalize_article_status_or_draft normalize_article_status is_kb_action_allowed
    query_article_tags tags_of linked_names query_article_refs references_of query_article_versions
    versions_of query_article_reviews reviews_of order_by needs_review_by_days resolve_review_days
    str_less
current_demo = refl

abbrev demo_walk : Str → List DocEntry
demo_walk root =
    (record {
      path = root ++ bytes "/a.md";
      walk_failed = false;
      is_dir = false;
      contents = some (bytes "# Disk");
    })
    ∷ (record {
      path = root ++ bytes "/b.md";
      walk_failed = false;
      is_dir = false;
      contents = none;
    })
    ∷ []

import_docs-Sound_example :
    let k' = (import_docs demo_host demo_time demo_walk [] (bytes "ann") empty_kb).0 in
    Numbered k'.tables × Approved k'.tables
import_docs-Sound_example =
    import_docs-Sound demo_host demo_time demo_walk [] (bytes "ann") empty_kb none-Numbered
      none-Approved

demo_walk_ends : (import_docs demo_host demo_time demo_walk [] (bytes "ann") empty_kb).1.1 ≡ true
unfolding import_docs import_entries import_root trim_space
demo_walk_ends = refl

import_docs-Tallied_example :
    let x = import_docs demo_host demo_time demo_walk [] (bytes "ann") empty_kb in
    let r = x.1.0 in
    (os : List Fate) × Trail demo_host demo_time
      (normalize_operator (bytes "ann"))
      (demo_walk (import_root []))
      empty_kb
      x.0
      os
    × (r.imported ≡ imports_in os)
    × (r.updated ≡ updates_in os)
    × (r.skipped ≡ skips_in os)
    × ((p : Str) → count p r.files ≡ count p (paths_in os))
    × (r.imported + r.updated + r.skipped ≡ count_docs demo_host (demo_walk (import_root [])))
    × (length r.files ≡ r.imported + r.updated)
import_docs-Tallied_example =
    import_docs-Tallied demo_host demo_time demo_walk [] (bytes "ann") empty_kb demo_walk_ends
