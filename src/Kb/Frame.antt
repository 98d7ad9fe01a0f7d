-- ===== src/Kb/Frame.antt =====
-- go-watch-file/internal/kb/service.go: the statements of the writes one by one, and that the writes of tags and
-- references leave articles, versions and reviews alone.
use go_watch_file.Base.{
  ◌≡◌, refl, ◌∙◌, Bool, true, false, Option, none, some, List, [], ◌∷◌, arith, if◌then◌else◌, subst,
}
use go_watch_file.Base.Str.{Str, bytes}
use go_watch_file.Kb.Types.{Tables, TagRow, TagLink, ReferenceRow}
use go_watch_file.Kb.Store.{
  KbError, not_found, invalid_input, written, first_fault, rest_faults, unique_violation,
  database_error, Result, ok, failed, Kb, M, ◌>>=◌, pure, when, or_raise, exec, select, new_id,
  find_tag, insert_tag, delete_links, insert_link, insert_reference, update_reference,
}
use go_watch_file.Kb.Annexes.{
  tag_inserted, create_tag, tag_or_create, get_or_create_tag, link_tags, replace_tags, id_found,
  upsert_reference,
}
use go_watch_file.Kb.Logic.{
  Holds, After, After-bind, After-weaken, known-then, After-pure, After-or_raise, After-when,
  After-exec, After-select, After-new_id,
}

-- The same articles, versions and reviews.
pub record Core (t t' : Tables) : Type 0 where
  pub same_articles : t'.articles ≡ t.articles
  pub same_versions : t'.article_versions ≡ t.article_versions
  pub same_reviews : t'.article_reviews ≡ t.article_reviews

pub Core-refl : (t : Tables) → Core t t
Core-refl t = record { same_articles = refl; same_versions = refl; same_reviews = refl }

Core-trans : (t u v : Tables) → Core t u → Core u v → Core t v
Core-trans t u v p q = record {
  same_articles = q.same_articles ∙ p.same_articles;
  same_versions = q.same_versions ∙ p.same_versions;
  same_reviews = q.same_reviews ∙ p.same_reviews;
}

-- A statement on the other tables.
abbrev Aside : (Tables → Option Tables) → Type 0
Aside change = (t t' : Tables) → change t ≡ some t' → Core t t'

-- A call that changes the other tables only.
pub KeepsCore : {A : Type 0} → M A → Type 0
KeepsCore m = (t : Tables) → After m t (λ _ t'. Core t t')

exec-KeepsCore : (change : Tables → Option Tables) → Aside change → KeepsCore (exec change)
unfolding KeepsCore After
exec-KeepsCore change h t = After-exec change t (λ _ t'. Core t t') (h t)

bind-KeepsCore :
    {A B : Type 0} (m : M A) (f : A → M B)
    → KeepsCore m
    → ((a : A) → KeepsCore (f a))
    → KeepsCore (m >>= f)
unfolding KeepsCore After
bind-KeepsCore m f hm hf t =
    After-bind m f t (λ _ t'. Core t t')
      (After-weaken m t (λ _ t'. Core t t') (λ a t'. After (f a) t' (λ _ t''. Core t t'')) (hm t)
        (λ a u c.
          After-weaken (f a) u (λ _ v. Core u v) (λ _ v. Core t v) (hf a u)
            (λ _ v d. Core-trans t u v c d)))

select-KeepsCore : {A : Type 0} (look : Tables → A) → KeepsCore (select look)
unfolding KeepsCore After
select-KeepsCore look t = After-select look t (λ _ t'. Core t t') (Core-refl t)

pure-KeepsCore : {A : Type 0} (a : A) → KeepsCore (pure a)
unfolding KeepsCore After
pure-KeepsCore a t = After-pure a t (λ _ t'. Core t t') (Core-refl t)

new_id-KeepsCore : (kind : Str) → KeepsCore (new_id kind)
unfolding KeepsCore After
new_id-KeepsCore kind t = After-new_id kind t (λ _ t'. Core t t') (λ _. Core-refl t)

or_raise-KeepsCore : {A : Type 0} (o : Option A) (e : KbError) → KeepsCore (or_raise o e)
unfolding KeepsCore After
or_raise-KeepsCore o e t = After-or_raise o e t (λ _ t'. Core t t') (λ _ _. Core-refl t)

pub KeepsCore-then :
    {A B : Type 0} (m : M A) (f : A → M B) (t : Tables) (Q : B → Tables → Type 0)
    → KeepsCore m
    → ((a : A) (u : Tables) → Core t u → After (f a) u Q)
    → After (m >>= f) t Q
unfolding KeepsCore
KeepsCore-then m f t Q c h = known-then m f t (λ _ u. Core t u) Q (c t) h

pub when-KeepsCore : (b : Bool) (m : M (Unit {0})) → KeepsCore m → KeepsCore (when b m)
unfolding KeepsCore After
when-KeepsCore b m h t = After-when b m t (λ _ t'. Core t t') (λ _. h t) (λ _. Core-refl t)

insert_tag-Aside : (g : TagRow) → Aside (insert_tag g)
unfolding insert_tag
insert_tag-Aside g t t' h = record {
  same_articles = ground arith;
  same_versions = ground arith;
  same_reviews = ground arith;
}

delete_links-Aside : (id : Str) → Aside (delete_links id)
unfolding delete_links
delete_links-Aside id t t' h = record {
  same_articles = ground arith;
  same_versions = ground arith;
  same_reviews = ground arith;
}

insert_link-Aside : (l : TagLink) → Aside (insert_link l)
unfolding insert_link
insert_link-Aside l t t' h = record {
  same_articles = ground arith;
  same_versions = ground arith;
  same_reviews = ground arith;
}

insert_reference-Aside : (r : ReferenceRow) → Aside (insert_reference r)
unfolding insert_reference
insert_reference-Aside r t t' h = record {
  same_articles = ground arith;
  same_versions = ground arith;
  same_reviews = ground arith;
}

update_reference-Aside : (id article title : Str) → Aside (update_reference id article title)
unfolding update_reference
update_reference-Aside id article title t t' h = record {
  same_articles = ground arith;
  same_versions = ground arith;
  same_reviews = ground arith;
}

written-Core :
    (o : Option Tables) (k : Kb)
    → ((t : Tables) → o ≡ some t → Core k.tables t)
    → Core k.tables (written o k).0.tables
written-Core none k h = Core-refl k.tables
written-Core (some t) k h = h t refl

if-Core :
    (t : Tables) (b : Bool) (r s : Kb × Result (Unit {0}))
    → Core t r.0.tables
    → Core t s.0.tables
    → Core t (if b then r else s).0.tables
if-Core t true r s hr hs = hr
if-Core t false r s hr hs = hs

-- Also when it fails.
exec-Core :
    (change : Tables → Option Tables) (k : Kb)
    → Aside change
    → Core k.tables (exec change k).0.tables
unfolding exec
exec-Core change k h =
    let k' : Kb = record k { faults = rest_faults k.faults } in
    if-Core k.tables (first_fault k.faults) (k', failed database_error)
      (written (change k.tables) k') (Core-refl k.tables)
      (written-Core (change k.tables) k' (h k.tables))

find_again-KeepsCore :
    (name : Str)
    → KeepsCore (select (λ t. find_tag name t.tags) >>= (λ found. or_raise found unique_violation))
find_again-KeepsCore name =
    bind-KeepsCore (select (λ t. find_tag name t.tags)) (λ found. or_raise found unique_violation)
      (select-KeepsCore _) (λ found. or_raise-KeepsCore found unique_violation)

Holds-from :
    (t u : Tables) (r : Kb × Result Str)
    → Core t u
    → Holds (λ _ t'. Core u t') r
    → Holds (λ _ t'. Core t t') r
Holds-from t u (k, ok a) c h = Core-trans t u k.tables c h
Holds-from t u (k, failed e) c h = tt

tag_inserted-Core :
    (name id : Str) (t : Tables) (r : Kb × Result (Unit {0}))
    → Core t r.0.tables
    → Holds (λ _ t'. Core t t') (tag_inserted name id r)
unfolding tag_inserted KeepsCore After
tag_inserted-Core name id t (k, ok u) c = c
tag_inserted-Core name id t (k, failed not_found) c = tt
tag_inserted-Core name id t (k, failed (invalid_input m)) c = tt
tag_inserted-Core name id t (k, failed unique_violation) c =
    Holds-from t k.tables
      ((select (λ u. find_tag name u.tags) >>= (λ found. or_raise found unique_violation)) k) c
      (find_again-KeepsCore name k.tables k refl)
tag_inserted-Core name id t (k, failed database_error) c = tt

inserted-KeepsCore :
    (name id : Str)
    → KeepsCore (λ k. tag_inserted name id (exec (insert_tag (record { id = id; name = name })) k))
unfolding KeepsCore After
inserted-KeepsCore name id t k e =
    let r : Kb × Result (Unit {0}) = exec (insert_tag (record { id = id; name = name })) k in
    tag_inserted-Core name id t r (
      subst (λ u. Core u r.0.tables) e
        (exec-Core _ k (insert_tag-Aside (record { id = id; name = name }))))

create_tag-KeepsCore : (name : Str) → KeepsCore (create_tag name)
unfolding create_tag
create_tag-KeepsCore name =
    bind-KeepsCore (new_id (bytes "tag")) _ (new_id-KeepsCore (bytes "tag"))
      (inserted-KeepsCore name)

tag_or_create-KeepsCore : (name : Str) (o : Option Str) → KeepsCore (tag_or_create name o)
tag_or_create-KeepsCore name (some id) = pure-KeepsCore id
tag_or_create-KeepsCore name none = create_tag-KeepsCore name

link_tags-KeepsCore : (article : Str) (tags : List Str) → KeepsCore (link_tags article tags)
unfolding link_tags get_or_create_tag
link_tags-KeepsCore article [] = pure-KeepsCore tt
link_tags-KeepsCore article (tag ∷ tags) =
    bind-KeepsCore (get_or_create_tag tag) _
      (bind-KeepsCore (select (λ t. find_tag tag t.tags)) _ (select-KeepsCore _)
        (tag_or_create-KeepsCore tag))
      (λ id.
        bind-KeepsCore (exec (insert_link (record { article_id = article; tag_id = id }))) _
          (exec-KeepsCore _ (insert_link-Aside _)) (λ _. link_tags-KeepsCore article tags))

pub replace_tags-KeepsCore :
    (article : Str) (tags : List Str) → KeepsCore (replace_tags article tags)
unfolding replace_tags
replace_tags-KeepsCore article tags =
    bind-KeepsCore (exec (delete_links article)) _ (exec-KeepsCore _ (delete_links-Aside article))
      (λ _. link_tags-KeepsCore article _)

id_found-KeepsCore :
    (article type path title : Str) (o : Option Str)
    → KeepsCore (id_found article type path title o)
id_found-KeepsCore article type path title none =
    bind-KeepsCore (new_id (bytes "ref")) _ (new_id-KeepsCore (bytes "ref"))
      (λ id. exec-KeepsCore _ (insert_reference-Aside _))
id_found-KeepsCore article type path title (some id) =
    exec-KeepsCore _ (update_reference-Aside id article title)

pub upsert_reference-KeepsCore :
    (article type path title : Str) → KeepsCore (upsert_reference article type path title)
unfolding upsert_reference
upsert_reference-KeepsCore article type path title =
    when-KeepsCore _ _ (
      bind-KeepsCore (select _) _ (select-KeepsCore _)
        (λ found. id_found-KeepsCore article _ _ _ _))
