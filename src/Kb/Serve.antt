-- ===== src/Kb/Serve.antt =====
-- go-watch-file/internal/kb/service.go: the four writes as requests to the service. Each has its whole effect on
-- articles, versions and reviews or none.
use go_watch_file.Base.{ℕ, refl, ◌++◌}
use go_watch_file.Base.Str.{Str, bytes, itoa}
use go_watch_file.Base.Trim.{trim_space}
use go_watch_file.Kb.Types.{Tables, Article, ArticleInput}
use go_watch_file.Kb.Normal.{normalize_operator, lower_trim}
use go_watch_file.Kb.Store.{Kb, M}
use go_watch_file.Kb.Queries.{Host, Moment}
use go_watch_file.Kb.Writes.{create_article, update_article, apply_action, rollback_article}
use go_watch_file.Kb.Commits.{
  Commits, Does, transaction-Does, raise_if-Reads, new_id-Reads, read_after-Does, read_before-Does,
}
use go_watch_file.Kb.Statements.{get_article-Reads}
use go_watch_file.Kb.Status.{lower_trim_idem}
use go_watch_file.Kb.Effects.{given}
use go_watch_file.Kb.Changes.{
  Drafted, Edited, Moved, RolledBack, create_rows-Created, update_rows_of-Revised,
  rollback_rows-RolledBack, act_rows-Acted,
}

pub data Request : Type 0 where
  creates : Moment → ArticleInput → Request
  updates : Moment → Str → ArticleInput → Request
  acts : Moment → Str → Str → Str → Str → Request
  rolls_back : Moment → Str → ℕ → Str → Str → Request

unfoldable pub serve : Host → Request → M Article
serve host (creates at i) = create_article host at i
serve host (updates at id i) = update_article host at id i
serve host (acts at id action operator comment) = apply_action host at id action operator comment
serve host (rolls_back at id target operator comment) =
    rollback_article host at id target operator comment

-- What a request promises of the tables when it commits.
abbrev pub Effect : Host → Request → Tables → Tables → Type 0
Effect host (creates at i) t t' = Drafted at i t t'
Effect host (updates at id i) t t' = Edited host at (trim_space id) i t t'
Effect host (acts at id action operator comment) t t' =
    Moved at (trim_space id) (lower_trim action) (normalize_operator operator) t t'
Effect host (rolls_back at id target operator comment) t t' =
    RolledBack at (trim_space id) target (normalize_operator operator)
      (given comment (bytes "rollback to version " ++ itoa target)) t t'

serve-Does : (host : Host) (r : Request) (t : Tables) → Does (serve host r) t (Effect host r t)
unfolding serve create_article update_article apply_action rollback_article
serve-Does host (creates at i) t = read_before-Does _ _ t _ (raise_if-Reads _ _) (λ _.
    read_before-Does _ _ t _ (new_id-Reads (bytes "kb")) (λ id.
      read_after-Does _ _ t _ (λ _. get_article-Reads host at id)
        (transaction-Does _ t _ (create_rows-Created at i id t))))
serve-Does host (updates at id i) t = read_before-Does _ _ t _ (raise_if-Reads _ _) (λ _.
    read_after-Does _ _ t _ (λ _. get_article-Reads host at _)
      (transaction-Does _ t _ (update_rows_of-Revised host at (trim_space id) i t)))
serve-Does host (acts at id action operator comment) t =
    read_before-Does _ _ t _ (raise_if-Reads _ _) (λ _.
      read_before-Does _ _ t _ (raise_if-Reads _ _) (λ _.
        read_after-Does _ _ t _ (λ _. get_article-Reads host at _)
          (transaction-Does _ t _ (
            act_rows-Acted host at (trim_space id) (lower_trim action) _ _ t
              (lower_trim_idem action)))))
serve-Does host (rolls_back at id target operator comment) t =
    read_before-Does _ _ t _ (raise_if-Reads _ _) (λ _.
      read_before-Does _ _ t _ (raise_if-Reads _ _) (λ _.
        read_after-Does _ _ t _ (λ _. get_article-Reads host at _)
          (transaction-Does _ t _ (rollback_rows-RolledBack host at (trim_space id) target _ _ t))))

-- Every write of the knowledge base, on every branch, leaves the tables as they were or has its whole
-- effect; if it returns an article, it has had its effect. A creation adds the draft and the first version
-- of the input's texts under an id that was free. An update replaces the article's row by one with the
-- texts that are given, the next version number, the operator and the time, and adds that version, with
-- the text that is given or else the one before; the status and the rest of the row stay. An action sets
-- the status to which it leads from the one before, the operator and the time. A rollback sets the next
-- version number, the operator and the time, and adds that version with the text of the target version.
-- Each adds a review row of the article with the version and the action.
pub serve-Commits :
    (host : Host) (r : Request) (k : Kb)
    → Commits k.tables (Effect host r k.tables) (serve host r k)
unfolding Does
serve-Commits host r k = serve-Does host r k.tables k refl
