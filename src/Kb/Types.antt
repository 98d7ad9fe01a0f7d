-- ===== src/Kb/Types.antt =====
-- go-watch-file/internal/kb/types.go and the tables that `migrate` creates in kb/service.go. Numbers that the
-- code only compares with 0 are natural: a negative one behaves as 0.
use go_watch_file.Base.{ℕ, Bool, List}
use go_watch_file.Base.Str.{Str, bytes}

abbrev pub status_draft : Str
status_draft = bytes "draft"

abbrev pub status_reviewing : Str
status_reviewing = bytes "reviewing"

abbrev pub status_published : Str
status_published = bytes "published"

abbrev pub status_archived : Str
status_archived = bytes "archived"

abbrev pub severity_low : Str
severity_low = bytes "low"

abbrev pub severity_medium : Str
severity_medium = bytes "medium"

abbrev pub severity_high : Str
severity_high = bytes "high"

pub record ArticleVersion : Type 0 where
  pub version : ℕ
  pub content : Str
  pub change_note : Str
  pub source_type : Str
  pub source_ref : Str
  pub created_by : Str
  pub created_at : Str

pub record ReviewRecord : Type 0 where
  pub action : Str
  pub comment : Str
  pub operator : Str
  pub created_at : Str

pub record ArticleRef : Type 0 where
  pub ref_type : Str
  pub ref_path : Str
  pub ref_title : Str

pub record Article : Type 0 where
  pub id : Str
  pub title : Str
  pub summary : Str
  pub category : Str
  pub severity : Str
  pub status : Str
  pub needs_review : Bool
  pub current_version : ℕ
  pub content : Str
  pub change_note : Str
  pub tags : List Str
  pub references : List ArticleRef
  pub versions : List ArticleVersion
  pub reviews : List ReviewRecord
  pub created_by : Str
  pub updated_by : Str
  pub created_at : Str
  pub updated_at : Str

pub record ListQuery : Type 0 where
  pub query : Str
  pub status : Str
  pub severity : Str
  pub tag : Str
  pub page : ℕ
  pub page_size : ℕ
  pub include_archived : Bool

-- CreateArticleInput and UpdateArticleInput have the same fields: `by` is CreatedBy or UpdatedBy.
pub record ArticleInput : Type 0 where
  pub title : Str
  pub summary : Str
  pub category : Str
  pub severity : Str
  pub content : Str
  pub tags : List Str
  pub by : Str
  pub change_note : Str
  pub source_type : Str
  pub source_ref : Str
  pub ref_title : Str

pub record Citation : Type 0 where
  pub article_id : Str
  pub title : Str
  pub version : ℕ

-- The confidence in hundredths.
pub record AskResult : Type 0 where
  pub answer : Str
  pub citations : List Citation
  pub confidence : ℕ

pub record ImportResult : Type 0 where
  pub imported : ℕ
  pub updated : ℕ
  pub skipped : ℕ
  pub files : List Str

-- The rows of the tables.
pub record ArticleRow : Type 0 where
  pub id : Str
  pub title : Str
  pub summary : Str
  pub category : Str
  pub severity : Str
  pub status : Str
  pub current_version : ℕ
  pub created_by : Str
  pub updated_by : Str
  pub created_at : Str
  pub updated_at : Str

pub record VersionRow : Type 0 where
  pub article_id : Str
  pub version : ℕ
  pub content : Str
  pub change_note : Str
  pub source_type : Str
  pub source_ref : Str
  pub created_by : Str
  pub created_at : Str

pub record TagRow : Type 0 where
  pub id : Str
  pub name : Str

pub record TagLink : Type 0 where
  pub article_id : Str
  pub tag_id : Str

pub record ReviewRow : Type 0 where
  pub id : Str
  pub article_id : Str
  pub target_version : ℕ
  pub action : Str
  pub comment : Str
  pub operator : Str
  pub created_at : Str

pub record ReferenceRow : Type 0 where
  pub id : Str
  pub article_id : Str
  pub ref_type : Str
  pub ref_path : Str
  pub ref_title : Str

pub record Tables : Type 0 where
  pub articles : List ArticleRow
  pub article_versions : List VersionRow
  pub tags : List TagRow
  pub article_tags : List TagLink
  pub article_reviews : List ReviewRow
  pub article_references : List ReferenceRow
