-- ===== src/Kb/Annexes.antt =====
-- go-watch-file/internal/kb/service.go: the rows that go with an article: its tags, its references and its reviews.
use go_watch_file.Base.{ℕ, not, Option, none, some, List, [], ◌∷◌}
use go_watch_file.Base.Str.{Str, bytes, is_empty}
use go_watch_file.Base.Trim.{trim_space}
use go_watch_file.Kb.Normal.{normalize_tags, normalize_source_type, or_else}
use go_watch_file.Kb.Store.{
  unique_violation, Result, ok, failed, Kb, M, ◌>>=◌, ◌>>◌, pure, when, or_raise, exec, select,
  new_id, find_tag, insert_tag, delete_links, insert_link, insert_review_row, find_reference,
  insert_reference, update_reference,
}

-- After the INSERT of a tag: on a violated UNIQUE the row that another one wrote is looked for.
unfoldable pub tag_inserted : Str → Str → Kb × Result (Unit {0}) → Kb × Result Str
tag_inserted name id (k, ok u) = (k, ok id)
tag_inserted name id (k, failed unique_violation) =
    ((select (λ t. find_tag name t.tags)) >>= (λ found. or_raise found unique_violation)) k
tag_inserted name id (k, failed e) = (k, failed e)

unfoldable pub create_tag : Str → M Str
create_tag name =
    new_id (bytes "tag")
    >>= (λ id k. tag_inserted name id (exec (insert_tag (record { id = id; name = name })) k))

abbrev pub tag_or_create : Str → Option Str → M Str
tag_or_create name (some id) = pure id
tag_or_create name none = create_tag name

-- getOrCreateTagTx
unfoldable pub get_or_create_tag : Str → M Str
get_or_create_tag name = do found ← select (λ t. find_tag name t.tags); tag_or_create name found

-- The loop of replaceTagsTx.
unfoldable pub link_tags : Str → List Str → M (Unit {0})
link_tags article [] = pure tt
link_tags article (tag ∷ tags) = do
  id ← get_or_create_tag tag
  exec (insert_link (record { article_id = article; tag_id = id }))
  link_tags article tags

-- replaceTagsTx
unfoldable pub replace_tags : Str → List Str → M (Unit {0})
replace_tags article tags = do exec (delete_links article); link_tags article (normalize_tags tags)

abbrev pub id_found : Str → Str → Str → Str → Option Str → M (Unit {0})
id_found article type path title none = do
  id ← new_id (bytes "ref")
  exec (
      insert_reference (record {
        id = id;
        article_id = article;
        ref_type = type;
        ref_path = path;
        ref_title = title;
      }))
id_found article type path title (some id) = exec (update_reference id article title)

-- upsertReferenceTx
unfoldable pub upsert_reference : Str → Str → Str → Str → M (Unit {0})
upsert_reference article raw_type raw_path raw_title =
    let type = normalize_source_type raw_type in
    let path = trim_space raw_path in
    let title = or_else (trim_space raw_title) path in
    when (not (is_empty path)) do
      found ← select (λ t. find_reference type path t.article_references)
      id_found article type path title (elim found [ none ↦ none | some r ↦ some r.id ])

-- insertReviewTx
unfoldable pub insert_review : Str → ℕ → Str → Str → Str → Str → M (Unit {0})
insert_review article version action comment operator at = do
  id ← new_id (bytes "review")
  exec (
      insert_review_row (record {
        id = id;
        article_id = article;
        target_version = version;
        action = action;
        comment = comment;
        operator = operator;
        created_at = at;
      }))
