-- ===== src/Kb/Changes.antt =====
-- go-watch-file/internal/kb/service.go: what each of the four writes does to articles, versions and reviews, when
-- its transaction commits; otherwise it does nothing.
use go_watch_file.Base.{ℕ, ◌+◌, ◌≡◌, refl, ap, ◌∙◌, subst, none, some, List, [], ◌∷◌, ◌++◌, arith}
use go_watch_file.Base.Str.{Str, bytes}
use go_watch_file.Kb.Types.{Tables, Article, ArticleInput, ArticleRow, VersionRow}
use go_watch_file.Kb.Normal.{normalize_article_status_or_draft, lower_trim}
use go_watch_file.Kb.Store.{find_article, find_version, update_rows}
use go_watch_file.Kb.Queries.{Host, Moment, scan_article}
use go_watch_file.Kb.Writes.{
  new_article_row, new_version_row, create_rows, updated_row, next_version_row, update_rows_of,
  next_status, with_status, act_rows, rollback_version, rolled_back, rollback_rows,
}
use go_watch_file.Kb.Effects.{
  draft, edition, current_text, revision, moved_to, returned, copy_of, updated_row-revision,
  next_version_row-edition, new_version_row-edition,
}
use go_watch_file.Kb.Logic.{
  After, After-bind, After-weaken, After-when, select-then, raise_if-then, or_raise-then,
}
use go_watch_file.Kb.Status.{Move, Move-other, status_idem, is_kb_action_allowed-Move}
use go_watch_file.Kb.Frame.{when-KeepsCore, replace_tags-KeepsCore, upsert_reference-KeepsCore}
use go_watch_file.Kb.Statements.{
  annexes-OnlyReviewed, Reviewed-from, After-core, After-insert_version, After-insert_article,
  After-update, Reviewed, After-insert_review,
}

-- CreateArticle: a new draft with its first version.
pub record Created (at : Moment) (i : ArticleInput) (t t' : Tables) : Type 0 where
  pub id : Str
  pub unused : find_article id t.articles ≡ none
  pub unversioned : find_version id 1 t.article_versions ≡ none
  pub articles_end : t'.articles ≡ t.articles ++ new_article_row at i id ∷ []
  pub versions_end : t'.article_versions ≡ t.article_versions ++ new_version_row at i id ∷ []
  pub reviewed : Reviewed id 1 (bytes "create") t t'

-- The article gets its next version; its status and the versions before stay.
pub record Revised (id action : Str) (row : ArticleRow → VersionRow) (t t' : Tables) : Type 0 where
  pub before : ArticleRow
  pub set : ArticleRow → ArticleRow
  pub found : find_article id t.articles ≡ some before
  pub next_version : (a : ArticleRow) → (set a).current_version ≡ before.current_version + 1
  pub same_id : (a : ArticleRow) → (set a).id ≡ a.id
  pub same_status : (a : ArticleRow) → (set a).status ≡ a.status
  pub unversioned : find_version id (before.current_version + 1) t.article_versions ≡ none
  pub articles_end : t'.articles ≡ update_rows id set t.articles
  pub versions_end : t'.article_versions ≡ t.article_versions ++ row before ∷ []
  pub row_id : (row before).article_id ≡ id
  pub row_version : (row before).version ≡ before.current_version + 1
  pub reviewed : Reviewed id (before.current_version + 1) action t t'

-- ApplyAction: the status moves as the action says, and nothing else.
pub record Acted (id action : Str) (t t' : Tables) : Type 0 where
  pub before : ArticleRow
  pub set : ArticleRow → ArticleRow
  pub found : find_article id t.articles ≡ some before
  pub to : Str
  pub move : Move action (normalize_article_status_or_draft before.status) to
  pub same_id : (a : ArticleRow) → (set a).id ≡ a.id
  pub same_version : (a : ArticleRow) → (set a).current_version ≡ a.current_version
  pub next : (a : ArticleRow) → (set a).status ≡ to
  pub articles_end : t'.articles ≡ update_rows id set t.articles
  pub versions_end : t'.article_versions ≡ t.article_versions
  pub reviewed : Reviewed id before.current_version action t t'

-- What CreateArticle leaves, with its rows.
abbrev pub Drafted : Moment → ArticleInput → Tables → Tables → Type 0
Drafted at i t t' =
    (c : Created at i t t') × (t'.articles ≡ t.articles ++ draft at i c.id ∷ [])
    × (t'.article_versions
        ≡ t.article_versions ++ edition at i c.id 1 [] (bytes "initial version") ∷ [])

-- What UpdateArticle leaves.
abbrev pub Edited : Host → Moment → Str → ArticleInput → Tables → Tables → Type 0
Edited host at id i t t' =
    (c : Revised id (bytes "update")
      (λ a. next_version_row at i (scan_article host at t.article_versions a) id) t t')
    × (t'.articles ≡ update_rows id (revision at i c.before) t.articles)
    × (t'.article_versions
        ≡ t.article_versions
          ++ edition at i id (c.before.current_version + 1)
              (current_text t.article_versions c.before) (bytes "update content")
            ∷ [])

-- What ApplyAction leaves.
abbrev pub Moved : Moment → Str → Str → Str → Tables → Tables → Type 0
Moved at id action by t t' =
    (c : Acted id action t t') × (t'.articles ≡ update_rows id (moved_to at c.to by) t.articles)

update_rows-same :
    (id : Str) (f g : ArticleRow → ArticleRow) (rows : List ArticleRow)
    → ((x : ArticleRow) → f x ≡ g x)
    → update_rows id f rows ≡ update_rows id g rows
unfolding update_rows
update_rows-same id f g [] h = refl
update_rows-same id f g (x ∷ rows) h = rw (h x, update_rows-same id f g rows h) refl

pub create_rows-Created :
    (at : Moment) (i : ArticleInput) (id : Str) (t : Tables)
    → After (create_rows at i id) t (λ _. Drafted at i t)
unfolding create_rows
create_rows-Created at i id t = After-bind _ _ t _ (
    After-insert_article (new_article_row at i id) t _ (λ unused. After-bind _ _ _ _ (
      After-insert_version (new_version_row at i id) _ _ (λ unversioned.
        After-weaken _ _ _ _
          (annexes-OnlyReviewed _ _ id 1 (bytes "create") _ _ _ _ (replace_tags-KeepsCore id i.tags)
            (when-KeepsCore _ _ (upsert_reference-KeepsCore _ _ _ _)))
          (λ _ w r. (
            record {
              id = id;
              unused = unused;
              unversioned = unversioned;
              articles_end = r.0;
              versions_end = r.1.0;
              reviewed = Reviewed-from id 1 (bytes "create") t _ w refl r.1.1;
            },
            r.0,
            r.1.0 ∙ ap (λ v. t.article_versions ++ v ∷ []) (new_version_row-edition at i id),
          ))))))

pub update_rows_of-Revised :
    (host : Host) (at : Moment) (id : Str) (i : ArticleInput) (t : Tables)
    → After (update_rows_of host at id i) t (λ _. Edited host at id i t)
unfolding update_rows_of scan_article
update_rows_of-Revised host at id i t = After-bind _ _ t _ (
    After-core host at id t _ (λ a found.
      let c : Article = scan_article host at t.article_versions a in
      raise_if-then _ _ _ t _ (λ titled. After-bind _ _ t _ (
        After-update id (updated_row at i c) t _ (
          After-bind _ _ _ _ (
            After-insert_version (next_version_row at i c id) _ _ (λ unversioned.
              After-weaken _ _ _ _
                (annexes-OnlyReviewed _ _ id (a.current_version + 1) (bytes "update") _ _ _ _
                  (when-KeepsCore _ _ (replace_tags-KeepsCore id i.tags))
                  (when-KeepsCore _ _ (upsert_reference-KeepsCore _ _ _ _)))
                (λ _ w r. (
                  record {
                    before = a;
                    set = updated_row at i c;
                    found = found;
                    next_version = λ _. refl;
                    same_id = λ _. refl;
                    same_status = λ _. refl;
                    unversioned = unversioned;
                    articles_end = r.0;
                    versions_end = r.1.0;
                    row_id = refl;
                    row_version = refl;
                    reviewed = Reviewed-from id _ _ t _ w refl r.1.1;
                  },
                  r.0
                      ∙ update_rows-same id _ _ t.articles
                          (updated_row-revision host at i t.article_versions a),
                  r.1.0
                      ∙ ap (λ v. t.article_versions ++ v ∷ [])
                          (next_version_row-edition host at i t.article_versions a id),
                )))))))))

-- RollbackArticle: the next version has the content of the target.
pub record RolledBack (at : Moment) (id : Str) (target : ℕ) (by comment : Str) (t t' : Tables)
    : Type 0 where
  pub target_row : VersionRow
  pub target_found : find_version id target t.article_versions ≡ some target_row
  pub revised :
      Revised id
        (bytes "rollback")
        (λ a. rollback_version at id target (a.current_version + 1) target_row.content by comment)
        t
        t'
  pub articles_end : t'.articles ≡ update_rows id (returned at by revised.before) t.articles
  pub versions_end :
      t'.article_versions
      ≡ t.article_versions
        ++ copy_of at id target (revised.before.current_version + 1) by comment target_row ∷ []

pub rollback_rows-RolledBack :
    (host : Host) (at : Moment) (id : Str) (target : ℕ) (by comment : Str) (t : Tables)
    → After
        (rollback_rows host at id target by comment)
        t
        (λ _. RolledBack at id target by comment t)
unfolding rollback_rows scan_article
rollback_rows-RolledBack host at id target by comment t = After-bind _ _ t _ (
    After-core host at id t _ (λ a found. select-then _ _ t _ (
      or_raise-then _ _ _ t _ (λ v target_found. After-bind _ _ t _ (
        After-insert_version
          (rollback_version at id target (a.current_version + 1) v.content by comment) t _
          (λ unversioned. After-bind _ _ _ _ (
            After-update id (rolled_back (a.current_version + 1) by at.stamp) _ _ (
              After-weaken _ _ _ _
                (After-insert_review id (a.current_version + 1) (bytes "rollback") comment by
                  at.stamp _)
                (λ _ w r. record {
                  target_row = v;
                  target_found = target_found;
                  revised = record {
                    before = a;
                    set = rolled_back (a.current_version + 1) by at.stamp;
                    found = found;
                    next_version = λ _. refl;
                    same_id = λ _. refl;
                    same_status = λ _. refl;
                    unversioned = unversioned;
                    articles_end = r.0;
                    versions_end = r.1.0;
                    row_id = refl;
                    row_version = refl;
                    reviewed = Reviewed-from id _ _ t _ w refl r.1.1;
                  };
                  articles_end = r.0;
                  versions_end = r.1.0;
                })))))))))

pub act_rows-Acted :
    (host : Host) (at : Moment) (id action by comment : Str) (t : Tables)
    → lower_trim action ≡ action
    → After (act_rows host at id action by comment) t (λ _. Moved at id action by t)
unfolding act_rows scan_article
act_rows-Acted host at id action by comment t ea = After-bind _ _ t _ (
    After-core host at id t _ (λ a found. raise_if-then _ _ _ t _ (λ ok.
      let c = normalize_article_status_or_draft a.status in
      let m = is_kb_action_allowed-Move c action ea (ground arith) in
      After-bind _ _ t _ (
        After-when _ _ t _
          (λ moved.
            After-update id
              (with_status (next_status action (normalize_article_status_or_draft c)) by at.stamp) t
              _
              (After-weaken _ _ _ _
                (After-insert_review id a.current_version action comment by at.stamp _)
                (λ _ w r. (
                  record {
                    before = a;
                    set =
                        with_status (next_status action (normalize_article_status_or_draft c)) by
                          at.stamp;
                    found = found;
                    to = next_status action (normalize_article_status_or_draft c);
                    move =
                        subst
                          (λ s.
                            Move action s
                              (next_status action (normalize_article_status_or_draft c)))
                          (status_idem a.status) m;
                    same_id = λ _. refl;
                    same_version = λ _. refl;
                    next = λ _. refl;
                    articles_end = r.0;
                    versions_end = r.1.0;
                    reviewed = Reviewed-from id _ _ t _ w refl r.1.1;
                  },
                  r.0,
                ))))
          (λ same. absurd (ground (arith, Move-other _ _ _ m)))))))
