-- ===== src/Kb/Reviews.antt =====
-- go-watch-file/internal/kb/service.go: the statuses and the reviews over any sequence of writes.
use go_watch_file.Base.{
  ℕ, ◌≡◌, ◌≢◌, refl, sym, ap, subst, ◌∙◌, Bool, true, false, Option, none, some, List, [], ◌∷◌,
  ◌++◌, ◌⊎◌, inl, inr, arith, if◌then◌else◌, ◌||◌, ◌&&◌, Bool-cases,
}
use go_watch_file.Base.Str.{Str, bytes, str_eq, str_eq_iff, str_eq_refl, str_eq→eq}
use go_watch_file.Kb.Types.{
  status_draft, status_published, status_archived, Tables, ArticleRow, ReviewRow,
}
use go_watch_file.Kb.Normal.{normalize_article_status_or_draft}
use go_watch_file.Kb.Store.{Kb, find_article, update_rows}
use go_watch_file.Kb.Queries.{Host}
use go_watch_file.Kb.Statements.{Reviewed}
use go_watch_file.Kb.Status.{
  Move, draft_status, Move-normal, Move-published, Move-not_archived, draft-not_published,
}
use go_watch_file.Kb.Serve.{Request}
use go_watch_file.Kb.History.{
  found_or, find_article-append, find_article-update_rows, Step, stays, creates, revises, acts,
  serve_all, serve_all-keeps,
}

-- Whether kb_reviews has a row of this action for the article.
unfoldable pub has_action : Str → Str → List ReviewRow → Bool
has_action id action [] = false
has_action id action (r ∷ rest) =
    (str_eq r.article_id id && str_eq r.action action) || has_action id action rest

has_action-append :
    (id action : Str) (rs : List ReviewRow) (r : ReviewRow)
    → has_action id action rs ≡ true
    → has_action id action (rs ++ r ∷ []) ≡ true
unfolding has_action
has_action-append id action [] r h = absurd cc
has_action-append id action (q ∷ rs) r h = ground (arith, has_action-append id action rs r)

has_action-last :
    (id action : Str) (rs : List ReviewRow) (r : ReviewRow)
    → r.article_id ≡ id
    → r.action ≡ action
    → has_action id action (rs ++ r ∷ []) ≡ true
unfolding has_action
has_action-last id action [] r e f =
    ground (arith, str_eq_iff r.article_id id, str_eq_iff r.action action)
has_action-last id action (q ∷ rs) r e f = ground (arith, has_action-last id action rs r)

-- Every article that is published has been approved.
unfoldable pub Approved : Tables → Type 0
Approved t =
    (id : Str) (a : ArticleRow)
    → find_article id t.articles ≡ some a
    → normalize_article_status_or_draft a.status ≡ status_published
    → has_action id (bytes "approve") t.article_reviews ≡ true

more_reviews :
    (id key action : Str) (n : ℕ) (t t' : Tables)
    → Reviewed key n action t t'
    → has_action id (bytes "approve") t.article_reviews ≡ true
    → has_action id (bytes "approve") t'.article_reviews ≡ true
more_reviews id key action n t t' r h =
    rw r.added (has_action-append id (bytes "approve") t.article_reviews r.review h)

-- The row `a` was `b` before an update of the article `key`.
abbrev From : Bool → (ArticleRow → ArticleRow) → Option ArticleRow → ArticleRow → Type 0
From b set o a = (c : ArticleRow) × ((o ≡ some c) × (a ≡ (if b then set c else c)))

found_or-From :
    (b : Bool) (set : ArticleRow → ArticleRow) (o : Option ArticleRow) (a : ArticleRow)
    → (if b then found_or o set else o) ≡ some a
    → From b set o a
unfolding found_or
found_or-From true set none a h = absurd cc
found_or-From false set none a h = absurd cc
found_or-From true set (some c) a h = (c, (refl, cc))
found_or-From false set (some c) a h = (c, (refl, cc))

before_update :
    (id key : Str) (set : ArticleRow → ArticleRow) (rows rows' : List ArticleRow) (a : ArticleRow)
    → ((b : ArticleRow) → (set b).id ≡ b.id)
    → rows' ≡ update_rows key set rows
    → find_article id rows' ≡ some a
    → From (str_eq key id) set (find_article id rows) a
before_update id key set rows rows' a same e h =
    found_or-From (str_eq key id) set (find_article id rows) a
      (sym (find_article-update_rows id key set rows same) ∙ ap (find_article id) (sym e) ∙ h)

if_field :
    (b : Bool) (set : ArticleRow → ArticleRow) (c a : ArticleRow)
    → ((x : ArticleRow) → (set x).status ≡ x.status)
    → a ≡ (if b then set c else c)
    → a.status ≡ c.status
if_field true set c a same e = ap (λ x. x.status) e ∙ same c
if_field false set c a same e = ap (λ x. x.status) e

-- The article of an action, or another one.
acted_row :
    (b : Bool) (set : ArticleRow → ArticleRow) (c a : ArticleRow) (to : Str)
    → ((x : ArticleRow) → (set x).status ≡ to)
    → a ≡ (if b then set c else c)
    → ((b ≡ true) × (a.status ≡ to)) ⊎ (a ≡ c)
acted_row true set c a to next e = inl (refl, ap (λ x. x.status) e ∙ next c)
acted_row false set c a to next e = inr e

created_row :
    (b : Bool) (new a : ArticleRow) (o : Option ArticleRow)
    → (if b then some new else o) ≡ some a
    → (a ≡ new) ⊎ (o ≡ some a)
created_row true new a o h = inl cc
created_row false new a o h = inr h

pub Step-Approved : (t t' : Tables) → Step t t' → Approved t → Approved t'
unfolding Approved str_eq
Step-Approved t t' (stays e) p = subst Approved (sym e) p
Step-Approved t t' (creates at i c) p = λ id a found published.
    elim (created_row (str_eq c.id id) _ a (find_article id t.articles) (
      sym (find_article-append id t.articles _ c.unused)
      ∙ ap (find_article id) (sym c.articles_end)
      ∙ found)) [
        | inl new ↦
            let e : status_draft ≡ status_published =
              sym draft_status
              ∙ ap (λ x. normalize_article_status_or_draft x.status) (sym new)
              ∙ published in
            absurd (draft-not_published e)
        | inr old ↦ more_reviews id c.id _ _ t t' c.reviewed (p id a old published)
      ]
Step-Approved t t' (revises key action row r) p = λ id a found published.
    let (c, (old, e)) =
      before_update id key r.set t.articles t'.articles a r.same_id r.articles_end found in
    let same = if_field (str_eq key id) r.set c a r.same_status e in
    more_reviews id key _ _ t t' r.reviewed
      (p id c old (ap normalize_article_status_or_draft (sym same) ∙ published))
Step-Approved t t' (acts key action m) p = λ id a found published.
    let (c, (old, e)) =
      before_update id key m.set t.articles t'.articles a m.same_id m.articles_end found in
    elim (acted_row (str_eq key id) m.set c a m.to m.next e) [
      | inl (same, to) ↦
          let is_published : m.to ≡ status_published =
            sym (Move-normal action _ m.to m.move)
            ∙ ap normalize_article_status_or_draft (sym to)
            ∙ published in
          let approval =
            Move-published action _ m.to m.move (rw is_published (str_eq_refl status_published)) in
          rw m.reviewed.added (
            has_action-last id (bytes "approve") t.article_reviews m.reviewed.review
              (m.reviewed.of_article ∙ str_eq→eq key id same) (m.reviewed.of_action ∙ approval))
      | inr other ↦ more_reviews id key _ _ t t' m.reviewed (
          p id c old (ap (λ x. normalize_article_status_or_draft x.status) (sym other) ∙ published))
    ]

-- Over any writes, failing ones included, every published article has an approval in its reviews, if
-- it was so before.
pub serve_all-Approved :
    (host : Host) (rs : List Request) (k : Kb)
    → Approved k.tables
    → Approved (serve_all host rs k).tables
serve_all-Approved host rs k p = serve_all-keeps Approved Step-Approved host rs k p

-- The article is there and archived.
unfoldable pub Archived : Str → Tables → Type 0
Archived id t =
    (a : ArticleRow) × ((find_article id t.articles ≡ some a)
      × (normalize_article_status_or_draft a.status ≡ status_archived))

set_status :
    (b : Bool) (set : ArticleRow → ArticleRow) (a : ArticleRow)
    → ((x : ArticleRow) → (set x).status ≡ x.status)
    → (c : ArticleRow) × (((if b then found_or (some a) set else some a) ≡ some c)
        × (c.status ≡ a.status))
unfolding found_or
set_status true set a same = (set a, (refl, same a))
set_status false set a same = (a, (refl, refl))

still_found :
    (id : Str) (new a : ArticleRow) (rows : List ArticleRow)
    → find_article new.id rows ≡ none
    → find_article id rows ≡ some a
    → find_article id (rows ++ new ∷ []) ≡ some a
still_found id new a rows unused found =
    rw (find_article-append id rows new unused) (ground (arith, str_eq_iff new.id id))

not_moved :
    {action to : Str} (b a : ArticleRow)
    → ◌≡◌ {A = Option ArticleRow} (some b) (some a)
    → Move action (normalize_article_status_or_draft b.status) to
    → normalize_article_status_or_draft a.status ≢ status_archived
not_moved b a e m archived =
    let same : b ≡ a = cc in
    let is_archived : normalize_article_status_or_draft b.status ≡ status_archived =
      ap (λ x. normalize_article_status_or_draft x.status) same ∙ archived in
    let f : true ≡ false =
      sym (str_eq_refl status_archived)
      ∙ ap (λ s. str_eq s status_archived) (sym is_archived)
      ∙ Move-not_archived _ _ _ m in
    absurd cc

Step-Archived : (id : Str) (t t' : Tables) → Step t t' → Archived id t → Archived id t'
unfolding Archived
Step-Archived id t t' (stays e) p = subst (Archived id) (sym e) p
Step-Archived id t t' (creates at i c) (a, (found, archived)) =
    (a, (rw c.articles_end (still_found id _ a t.articles c.unused found), archived))
Step-Archived id t t' (revises key action row r) (a, (found, archived)) =
    let (c, (e, same)) = set_status (str_eq key id) r.set a r.same_status in
    (
      c,
      (
        rw r.articles_end
            (find_article-update_rows id key r.set t.articles r.same_id ∙ (rw found e)),
        ap normalize_article_status_or_draft same ∙ archived,
      ),
    )
Step-Archived id t t' (acts key action m) (a, (found, archived)) =
    elim (Bool-cases (str_eq key id)) [
      | inl same ↦ absurd (
          not_moved m.before a
            (sym m.found ∙ ap (λ i. find_article i t.articles) (str_eq→eq key id same) ∙ found)
            m.move archived)
      | inr other ↦ (
        a,
        (
          rw m.articles_end
              (find_article-update_rows id key m.set t.articles m.same_id ∙ rw other found),
          archived,
        ),
      )
    ]

-- An article that is archived stays archived, over any writes.
pub serve_all-Archived :
    (host : Host) (rs : List Request) (k : Kb) (id : Str)
    → Archived id k.tables
    → Archived id (serve_all host rs k).tables
serve_all-Archived host rs k id p = serve_all-keeps (Archived id) (Step-Archived id) host rs k p
