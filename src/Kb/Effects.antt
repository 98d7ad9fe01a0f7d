-- ===== src/Kb/Effects.antt =====
-- go-watch-file/internal/kb/service.go: the rows that the four writes promise, field by field, apart from how
-- the source builds them.
use go_watch_file.Base.{
  ℕ, ◌+◌, ◌≡◌, refl, none, some, List, [], ◌∷◌, ◌++◌, if◌then◌else◌, Bool-cases, inl, inr, Option,
}
use go_watch_file.Base.Str.{Str, bytes, is_empty, itoa}
use go_watch_file.Base.Trim.{trim_space, trim_space_idem}
use go_watch_file.Kb.Types.{status_draft, ArticleInput, ArticleRow, VersionRow}
use go_watch_file.Kb.Normal.{
  normalize_severity, normalize_operator, normalize_source_type, first_non_empty, or_else,
}
use go_watch_file.Kb.Store.{find_version}
use go_watch_file.Kb.Queries.{Host, Moment, scan_article}
use go_watch_file.Kb.Writes.{new_version_row, updated_row, next_version_row}

-- A text that is given, trimmed, or the other one if it is blank.
abbrev pub given : Str → Str → Str
given new old = if is_empty (trim_space new) then old else trim_space new

-- A new article and its first version.
abbrev pub draft : Moment → ArticleInput → Str → ArticleRow
draft at i id = record {
  id = id;
  title = trim_space i.title;
  summary = trim_space i.summary;
  category = given i.category (bytes "general");
  severity = normalize_severity i.severity;
  status = status_draft;
  current_version = 1;
  created_by = normalize_operator i.by;
  updated_by = normalize_operator i.by;
  created_at = at.stamp;
  updated_at = at.stamp;
}

-- A version that an input makes: what it does not give is `text` and `note`.
abbrev pub edition : Moment → ArticleInput → Str → ℕ → Str → Str → VersionRow
edition at i id n text note = record {
  article_id = id;
  version = n;
  content = given i.content text;
  change_note = given i.change_note note;
  source_type = normalize_source_type i.source_type;
  source_ref = trim_space i.source_ref;
  created_by = normalize_operator i.by;
  created_at = at.stamp;
}

-- The text of the version to which an article points.
abbrev pub text_of : Option VersionRow → Str
text_of none = []
text_of (some v) = v.content

abbrev pub current_text : List VersionRow → ArticleRow → Str
current_text versions a = text_of (find_version a.id a.current_version versions)

-- An article after an update: what the input does not give stays, trimmed.
abbrev pub revision : Moment → ArticleInput → ArticleRow → ArticleRow → ArticleRow
revision at i before x = record x {
  title = given i.title (trim_space before.title);
  summary = given i.summary (trim_space before.summary);
  category = given i.category (given before.category (bytes "general"));
  severity = normalize_severity (given i.severity (trim_space before.severity));
  current_version = before.current_version + 1;
  updated_by = normalize_operator i.by;
  updated_at = at.stamp;
}

abbrev pub moved_to : Moment → Str → Str → ArticleRow → ArticleRow
moved_to at status by x = record x { status = status; updated_by = by; updated_at = at.stamp }

-- An article after a rollback, and the version that it gets.
abbrev pub returned : Moment → Str → ArticleRow → ArticleRow → ArticleRow
returned at by before x = record x {
  current_version = before.current_version + 1;
  updated_by = by;
  updated_at = at.stamp;
}

abbrev pub copy_of : Moment → Str → ℕ → ℕ → Str → Str → VersionRow → VersionRow
copy_of at id target n by note v = record {
  article_id = id;
  version = n;
  content = v.content;
  change_note = note;
  source_type = bytes "rollback";
  source_ref = bytes "version:" ++ itoa target;
  created_by = by;
  created_at = at.stamp;
}

nothing_empty : (s : Str) → (if is_empty s then [] else s) ≡ s
nothing_empty [] = refl
nothing_empty (c ∷ s) = refl

first_non_empty-given :
    (new old : Str) → first_non_empty (trim_space new ∷ old ∷ []) ≡ given new (trim_space old)
unfolding first_non_empty
first_non_empty-given new old = rw (trim_space_idem new, nothing_empty (trim_space old)) refl

or_else-given :
    (new old : Str)
    → or_else (given new (trim_space old)) (bytes "general")
      ≡ given new (given old (bytes "general"))
or_else-given new old = elim (Bool-cases (is_empty (trim_space new))) [
  | inl bare ↦ rw bare refl
  | inr named ↦ rw (named, named) refl
]

-- What an update writes is the revision of the article that it read.
pub updated_row-revision :
    (host : Host) (at : Moment) (i : ArticleInput) (versions : List VersionRow) (a x : ArticleRow)
    → updated_row at i (scan_article host at versions a) x ≡ revision at i a x
unfolding scan_article
updated_row-revision host at i versions a x =
    rw
      (
        first_non_empty-given i.title a.title,
        first_non_empty-given i.summary a.summary,
        first_non_empty-given i.category a.category,
        first_non_empty-given i.severity a.severity,
        or_else-given i.category a.category,
      )
      refl

pub next_version_row-edition :
    (host : Host) (at : Moment) (i : ArticleInput) (versions : List VersionRow) (a : ArticleRow)
    (id : Str)
    → next_version_row at i (scan_article host at versions a) id
      ≡ edition at i id (a.current_version + 1) (current_text versions a) (bytes "update content")
unfolding scan_article
next_version_row-edition host at i versions a id =
    elim (find_version a.id a.current_version versions) [ none ↦ refl | some v ↦ refl ]

pub new_version_row-edition :
    (at : Moment) (i : ArticleInput) (id : Str)
    → new_version_row at i id ≡ edition at i id 1 [] (bytes "initial version")
new_version_row-edition at i id = rw (nothing_empty (trim_space i.content)) refl
