-- ===== src/Kb/Statements.antt =====
-- go-watch-file/internal/kb/service.go: what the statements on articles, versions and reviews do to the tables.
use go_watch_file.Base.{
  ◌≡◌, refl, ap, ◌∙◌, Option, none, some, [], ◌∷◌, ◌++◌, inl, inr, arith, Option-cases, ℕ, subst,
}
use go_watch_file.Base.Str.{Str, bytes}
use go_watch_file.Kb.Types.{Tables, Article, ArticleRow, VersionRow, ReviewRow}
use go_watch_file.Kb.Store.{
  not_found, M, ◌>>◌, exec, select, find_article, find_version, insert_article, update_rows,
  update_article_row, insert_version, insert_review_row,
}
use go_watch_file.Kb.Queries.{
  Host, Moment, query_article_core, scan_article, scan_found, get_article, query_article_tags,
  query_article_refs, query_article_versions, query_article_reviews,
}
use go_watch_file.Kb.Annexes.{insert_review}
use go_watch_file.Kb.Logic.{
  After, After-weaken, select-then, new_id-then, After-or_raise, After-exec,
}
use go_watch_file.Kb.Commits.{
  Reads, bind-Reads, select-Reads, raise_if-Reads, or_raise-Reads, pure-Reads,
}
use go_watch_file.Kb.Frame.{Core, KeepsCore, KeepsCore-then}

some_Article : (a b : Article) → ◌≡◌ {A = Option Article} (some a) (some b) → a ≡ b
some_Article a b e = cc

some_Tables : (t t' : Tables) → ◌≡◌ {A = Option Tables} (some t) (some t') → t ≡ t'
some_Tables t t' e = cc

-- The statements that the effects are made of.
pub After-core :
    (host : Host) (at : Moment) (id : Str) (t : Tables) (Q : Article → Tables → Type 0)
    → ((a : ArticleRow)
        → find_article id t.articles ≡ some a
        → Q (scan_article host at t.article_versions a) t)
    → After (query_article_core host at id) t Q
unfolding query_article_core
After-core host at id t Q q =
    select-then _ _ t Q (After-or_raise _ not_found t Q (found (find_article id t.articles) refl))
  where
    found :
        (o : Option ArticleRow)
        → find_article id t.articles ≡ o
        → (c : Article) → scan_found host at t.article_versions o ≡ some c
        → Q c t
    found none e c h = absurd cc
    found (some a) e c h = subst (λ x. Q x t) (some_Article _ _ h) (q a e)

pub After-insert_version :
    (v : VersionRow) (t : Tables) (Q : Unit {0} → Tables → Type 0)
    → (find_version v.article_id v.version t.article_versions ≡ none
        → Q tt (record t { article_versions = t.article_versions ++ v ∷ [] }))
    → After (exec (insert_version v)) t Q
unfolding insert_version
After-insert_version v t Q q = After-exec _ t Q (λ t' h.
    elim (Option-cases (find_version v.article_id v.version t.article_versions)) [
      | inl e ↦ subst (Q tt) (ground arith) (q e)
      | inr (w, e) ↦ absurd (ground arith)
    ])

pub After-insert_article :
    (a : ArticleRow) (t : Tables) (Q : Unit {0} → Tables → Type 0)
    → (find_article a.id t.articles ≡ none → Q tt (record t { articles = t.articles ++ a ∷ [] }))
    → After (exec (insert_article a)) t Q
unfolding insert_article
After-insert_article a t Q q = After-exec _ t Q (λ t' h.
    elim (Option-cases (find_article a.id t.articles)) [
      | inl e ↦ subst (Q tt) (ground arith) (q e)
      | inr (w, e) ↦ absurd (ground arith)
    ])

pub After-update :
    (id : Str) (set : ArticleRow → ArticleRow) (t : Tables) (Q : Unit {0} → Tables → Type 0)
    → Q tt (record t { articles = update_rows id set t.articles })
    → After (exec (update_article_row id set)) t Q
unfolding update_article_row
After-update id set t Q q = After-exec _ t Q (λ t' h. subst (Q tt) (some_Tables _ t' h) q)

-- A row of kb_reviews was added for this version of the article.
pub record Reviewed (id : Str) (version : ℕ) (action : Str) (t t' : Tables) : Type 0 where
  pub review : ReviewRow
  pub of_article : review.article_id ≡ id
  pub of_version : review.target_version ≡ version
  pub of_action : review.action ≡ action
  pub added : t'.article_reviews ≡ t.article_reviews ++ review ∷ []

-- What insertReviewTx does, besides the row, to the tables that matter here.
abbrev pub OnlyReviewed : Str → ℕ → Str → Tables → Tables → Type 0
OnlyReviewed id version action t t' =
    (t'.articles ≡ t.articles)
    × ((t'.article_versions ≡ t.article_versions) × Reviewed id version action t t')

insert_review_row-OnlyReviewed :
    (r : ReviewRow) (t t' : Tables)
    → insert_review_row r t ≡ some t'
    → OnlyReviewed r.article_id r.target_version r.action t t'
unfolding insert_review_row
insert_review_row-OnlyReviewed r t t' h = (
  ground arith,
  (
    ground arith,
    record {
      review = r;
      of_article = refl;
      of_version = refl;
      of_action = refl;
      added = ground arith;
    },
  ),
)

pub After-insert_review :
    (id : Str) (version : ℕ) (action comment by at : Str) (t : Tables)
    → After
        (insert_review id version action comment by at)
        t
        (λ _ t'. OnlyReviewed id version action t t')
unfolding insert_review
After-insert_review id version action comment by at t =
    new_id-then (bytes "review") _ t _
      (λ rid. After-exec _ t _ (insert_review_row-OnlyReviewed _ t))

pub Reviewed-from :
    (id : Str) (n : ℕ) (action : Str) (t u w : Tables)
    → u.article_reviews ≡ t.article_reviews
    → Reviewed id n action u w
    → Reviewed id n action t w
Reviewed-from id n action t u w e r = record {
  review = r.review;
  of_article = r.of_article;
  of_version = r.of_version;
  of_action = r.of_action;
  added = r.added ∙ ap (λ rs. rs ++ r.review ∷ []) e;
}

pub OnlyReviewed-from :
    (id : Str) (n : ℕ) (action : Str) (t u w : Tables)
    → Core t u
    → OnlyReviewed id n action u w
    → OnlyReviewed id n action t w
OnlyReviewed-from id n action t u w c r = (
  r.0 ∙ c.same_articles,
  (r.1.0 ∙ c.same_versions, Reviewed-from id n action t u w c.same_reviews r.1.1),
)

-- The end of a write: tags, the reference, the review.
pub annexes-OnlyReviewed :
    (tags refs : M (Unit {0})) (id : Str) (n : ℕ) (action comment by at : Str) (t : Tables)
    → KeepsCore tags
    → KeepsCore refs
    → After
        (tags >> (refs >> insert_review id n action comment by at))
        t
        (λ _ t'. OnlyReviewed id n action t t')
annexes-OnlyReviewed tags refs id n action comment by at t ht hr =
    KeepsCore-then tags _ t _ ht (λ _ u c. KeepsCore-then refs _ u _ hr (λ _ v d.
      After-weaken _ v _ _ (After-insert_review id n action comment by at v)
        (λ _ w r. OnlyReviewed-from id n action t u w c (OnlyReviewed-from id n action u v w d r))))

query_article_core-Reads :
    (host : Host) (at : Moment) (id : Str) → Reads (query_article_core host at id)
unfolding query_article_core
query_article_core-Reads host at id =
    bind-Reads (select _) _ (select-Reads _) (λ found. or_raise-Reads found not_found)

pub get_article-Reads : (host : Host) (at : Moment) (id : Str) → Reads (get_article host at id)
unfolding get_article query_article_tags query_article_refs query_article_versions
    query_article_reviews
get_article-Reads host at id = bind-Reads _ _ (raise_if-Reads _ _) (λ _.
    bind-Reads _ _ (query_article_core-Reads host at _) (λ core.
      bind-Reads _ _ (select-Reads _) (λ tags. bind-Reads _ _ (select-Reads _) (λ refs.
        bind-Reads _ _ (select-Reads _)
          (λ versions. bind-Reads _ _ (select-Reads _) (λ reviews. pure-Reads _))))))
