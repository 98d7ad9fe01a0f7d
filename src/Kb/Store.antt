-- ===== src/Kb/Store.antt =====
-- go-watch-file/internal/kb/service.go: the SQLite tables, reached by statements that may fail, and transactions.
-- The database is a service: a statement does to the tables what its SQL says, PRIMARY KEY and UNIQUE
-- included, and `faults` says of the coming statements, one by one, whether they fail for another
-- reason. `suffixes` are the endings (time and random bytes) that newID gives to the coming ids; no
-- theorem needs them to differ. A transaction that does not commit leaves the tables as they were.
use go_watch_file.Base.{
  ℕ, Bool, false, Option, none, some, List, [], ◌∷◌, ◌++◌, map, if◌then◌else◌, ◌&&◌, ◌||◌, ◌==◌,
}
use go_watch_file.Base.Str.{Str, str_eq}
use go_watch_file.Kb.Types.{
  Tables, ArticleRow, VersionRow, TagRow, TagLink, ReviewRow, ReferenceRow,
}

-- ErrNotFound, ErrInvalidInput with its message, a violated UNIQUE or PRIMARY KEY, any other error.
pub data KbError : Type 0 where
  not_found : KbError
  invalid_input : Str → KbError
  unique_violation : KbError
  database_error : KbError

pub data Result (A : Type 0) : Type 0 where
  ok : A → Result A
  failed : KbError → Result A

pub record Kb : Type 0 where
  pub tables : Tables
  pub faults : List Bool
  pub suffixes : List Str

abbrev pub M : Type 0 → Type 0
M A = Kb → Kb × Result A

abbrev pub bind_result : {A B : Type 0} → (A → M B) → Kb × Result A → Kb × Result B
bind_result f (k, ok a) = f a k
bind_result f (k, failed e) = (k, failed e)

infixl 5 ◌>>=◌ ◌>>◌
unfoldable pub ◌>>=◌ : {A B : Type 0} → M A → (A → M B) → M B
◌>>=◌ m f k = bind_result f (m k)

abbrev pub ◌>>◌ : {A B : Type 0} → M A → M B → M B
◌>>◌ m n = m >>= (λ _. n)

unfoldable pub pure : {A : Type 0} → A → M A
pure a k = (k, ok a)

unfoldable pub raise : {A : Type 0} → KbError → M A
raise e k = (k, failed e)

unfoldable pub raise_if : Bool → KbError → M (Unit {0})
raise_if b e k = (k, if b then failed e else ok tt)

unfoldable pub when : Bool → M (Unit {0}) → M (Unit {0})
when b m k = let r = m k in if b then r else (k, ok tt)

unfoldable pub or_raise : {A : Type 0} → Option A → KbError → M A
unfolding raise pure
or_raise none e = raise e
or_raise (some a) e = pure a

abbrev pub first_fault : List Bool → Bool
first_fault [] = false
first_fault (f ∷ fs) = f

abbrev pub rest_faults : List Bool → List Bool
rest_faults [] = []
rest_faults (f ∷ fs) = fs

-- What a statement leaves: `none` when a UNIQUE or a PRIMARY KEY is violated.
abbrev pub written : Option Tables → Kb → Kb × Result (Unit {0})
written none k = (k, failed unique_violation)
written (some t) k = (record k { tables = t }, ok tt)

-- `tx.Exec`
unfoldable pub exec : (Tables → Option Tables) → M (Unit {0})
exec change k =
    let k' : Kb = record k { faults = rest_faults k.faults } in
    let done = written (change k.tables) k' in
    if first_fault k.faults then (k', failed database_error) else done

-- `db.Query`, `tx.QueryRow`
unfoldable pub select : {A : Type 0} → (Tables → A) → M A
select look k =
    let k' : Kb = record k { faults = rest_faults k.faults } in
    if first_fault k.faults then (k', failed database_error) else (k', ok (look k.tables))

abbrev first_suffix : List Str → Str
first_suffix [] = []
first_suffix (s ∷ ss) = s

abbrev rest_suffixes : List Str → List Str
rest_suffixes [] = []
rest_suffixes (s ∷ ss) = ss

-- newID
unfoldable pub new_id : Str → M Str
new_id kind k =
    (record k { suffixes = rest_suffixes k.suffixes }, ok (kind ++ b'_' ∷ first_suffix k.suffixes))

-- The commit, or the rollback that `defer rollbackTx(tx)` makes: `t` are the tables before.
abbrev pub finish : {A : Type 0} → Tables → Kb × Result A → Kb × Result A
finish t (k, failed e) = (record k { tables = t }, failed e)
finish t (k, ok a) =
    let k' : Kb = record k { faults = rest_faults k.faults } in
    if first_fault k.faults then (record k' { tables = t }, failed database_error) else (k', ok a)

-- `s.db.Begin()`, the body, `tx.Commit()` and the deferred rollback.
unfoldable pub transaction : {A : Type 0} → M A → M A
transaction body k =
    let k' : Kb = record k { faults = rest_faults k.faults } in
    let r = finish k.tables (body k') in
    if first_fault k.faults then (k', failed database_error) else r

-- `WHERE id = ? LIMIT 1`.
unfoldable pub find_article : Str → List ArticleRow → Option ArticleRow
find_article id [] = none
find_article id (a ∷ rest) = if str_eq a.id id then some a else find_article id rest

-- `WHERE article_id = ? AND version = ?`.
unfoldable pub find_version : Str → ℕ → List VersionRow → Option VersionRow
find_version id n [] = none
find_version id n (v ∷ rest) =
    if str_eq v.article_id id && v.version == n then some v else find_version id n rest

-- INSERT INTO kb_articles; `id` is the PRIMARY KEY.
unfoldable pub insert_article : ArticleRow → Tables → Option Tables
insert_article a t = elim (find_article a.id t.articles) [
  | some b ↦ none
  | none ↦ some (record t { articles = t.articles ++ a ∷ [] })
]

unfoldable pub update_rows : Str → (ArticleRow → ArticleRow) → List ArticleRow → List ArticleRow
update_rows id set [] = []
update_rows id set (a ∷ rest) =
    let rest' = update_rows id set rest in if str_eq a.id id then set a ∷ rest' else a ∷ rest'

-- UPDATE kb_articles SET ... WHERE id = ?
unfoldable pub update_article_row : Str → (ArticleRow → ArticleRow) → Tables → Option Tables
update_article_row id set t = some (record t { articles = update_rows id set t.articles })

-- INSERT INTO kb_article_versions; UNIQUE(article_id, version).
unfoldable pub insert_version : VersionRow → Tables → Option Tables
insert_version v t = elim (find_version v.article_id v.version t.article_versions) [
  | some w ↦ none
  | none ↦ some (record t { article_versions = t.article_versions ++ v ∷ [] })
]

-- `SELECT id FROM kb_tags WHERE name = ? LIMIT 1`.
unfoldable pub find_tag : Str → List TagRow → Option Str
find_tag name [] = none
find_tag name (t ∷ rest) = if str_eq t.name name then some t.id else find_tag name rest

unfoldable pub has_tag_id : Str → List TagRow → Bool
has_tag_id id [] = false
has_tag_id id (t ∷ rest) = str_eq t.id id || has_tag_id id rest

-- INSERT INTO kb_tags; `id` is the PRIMARY KEY, `name` is UNIQUE.
unfoldable pub insert_tag : TagRow → Tables → Option Tables
insert_tag g t = elim (find_tag g.name t.tags) [
  | some i ↦ none
  | none ↦ if has_tag_id g.id t.tags then none else some (record t { tags = t.tags ++ g ∷ [] })
]

-- DELETE FROM kb_article_tags WHERE article_id = ?
unfoldable pub without_links : Str → List TagLink → List TagLink
without_links id [] = []
without_links id (l ∷ rest) =
    let rest' = without_links id rest in if str_eq l.article_id id then rest' else l ∷ rest'

unfoldable pub delete_links : Str → Tables → Option Tables
delete_links id t = some (record t { article_tags = without_links id t.article_tags })

unfoldable pub has_link : TagLink → List TagLink → Bool
has_link l [] = false
has_link l (m ∷ rest) =
    (str_eq m.article_id l.article_id && str_eq m.tag_id l.tag_id) || has_link l rest

-- INSERT OR IGNORE INTO kb_article_tags; UNIQUE(article_id, tag_id).
unfoldable pub insert_link : TagLink → Tables → Option Tables
insert_link l t = some (
    if has_link l t.article_tags then t else (record t { article_tags = t.article_tags ++ l ∷ [] }))

unfoldable pub has_review : Str → List ReviewRow → Bool
has_review id [] = false
has_review id (r ∷ rest) = str_eq r.id id || has_review id rest

-- INSERT INTO kb_reviews; `id` is the PRIMARY KEY.
unfoldable pub insert_review_row : ReviewRow → Tables → Option Tables
insert_review_row r t =
    if has_review r.id t.article_reviews
    then none
    else some (record t { article_reviews = t.article_reviews ++ r ∷ [] })

-- `SELECT id, article_id FROM kb_references WHERE ref_type = ? AND ref_path = ? LIMIT 1`.
unfoldable pub find_reference : Str → Str → List ReferenceRow → Option ReferenceRow
find_reference type path [] = none
find_reference type path (r ∷ rest) =
    if str_eq r.ref_type type && str_eq r.ref_path path
    then some r
    else find_reference type path rest

unfoldable pub has_reference_id : Str → List ReferenceRow → Bool
has_reference_id id [] = false
has_reference_id id (r ∷ rest) = str_eq r.id id || has_reference_id id rest

-- INSERT INTO kb_references; `id` is the PRIMARY KEY.
unfoldable pub insert_reference : ReferenceRow → Tables → Option Tables
insert_reference r t =
    if has_reference_id r.id t.article_references
    then none
    else some (record t { article_references = t.article_references ++ r ∷ [] })

abbrev retitled : Str → Str → Str → ReferenceRow → ReferenceRow
retitled id article title r =
    if str_eq r.id id then (record r { article_id = article; ref_title = title }) else r

-- UPDATE kb_references SET article_id = ?, ref_title = ? WHERE id = ?
unfoldable pub update_reference : Str → Str → Str → Tables → Option Tables
update_reference id article title t =
    some (record t { article_references = map (retitled id article title) t.article_references })
