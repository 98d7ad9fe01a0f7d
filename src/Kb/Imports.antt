-- ===== src/Kb/Imports.antt =====
-- go-watch-file/internal/kb/service.go: an import of a directory, as writes of the knowledge base one after the
-- other.
use go_watch_file.Base.{
  ◌≡◌, refl, sym, subst, Bool, true, false, Option, none, some, List, [], ◌∷◌, arith, if◌then◌else◌,
}
use go_watch_file.Base.Str.{Str, bytes, is_empty}
use go_watch_file.Base.Trim.{trim_space}
use go_watch_file.Kb.Types.{Tables, Article, ImportResult}
use go_watch_file.Kb.Store.{Kb, Result, ok, failed, select}
use go_watch_file.Kb.Queries.{Host, Moment}
use go_watch_file.Kb.Writes.{create_article, update_article}
use go_watch_file.Kb.Docs.{
  DocEntry, doc_input, count_update, count_import, write_doc, import_content, import_entry,
  import_entries, is_doc, read_doc, import_root, import_docs, find_article_id_by_reference,
}
use go_watch_file.Kb.Serve.{creates, updates, serve}
use go_watch_file.Kb.History.{Step, serve-Step, Numbered, Step-Numbered}
use go_watch_file.Kb.Reviews.{Approved, Step-Approved}

select-tables : {A : Type 0} (look : Tables → A) (k : Kb) → (select look k).0.tables ≡ k.tables
unfolding select
select-tables look k = ground arith

count_update-store :
    (path : Str) (r : ImportResult) (x : Kb × Result Article) → (count_update path r x).0 ≡ x.0
unfolding count_update
count_update-store path r (k, ok a) = refl
count_update-store path r (k, failed e) = refl

count_import-store :
    (path : Str) (r : ImportResult) (x : Kb × Result Article) → (count_import path r x).0 ≡ x.0
unfolding count_import
count_import-store path r (k, ok a) = refl
count_import-store path r (k, failed e) = refl

-- What every write keeps, an import keeps.
module _ (P : Tables → Type 0) (step : (t t' : Tables) → Step t t' → P t → P t') where
  write_doc-keeps :
      (host : Host) (at : Moment) (operator path content : Str) (r : ImportResult)
      (found : Kb × Result (Option Str))
      → P found.0.tables
      → P (write_doc host at operator path content r found).0.tables
  unfolding write_doc serve
  write_doc-keeps host at operator path content r (k, failed e) p = p
  write_doc-keeps host at operator path content r (k, ok (some id)) p =
      let input = doc_input host operator path content (bytes "sync docs import") in
      rw (count_update-store _ r (update_article host at id input k))
        (step _ _ (serve-Step host (updates at id input) k) p)
  write_doc-keeps host at operator path content r (k, ok none) p =
      let input = doc_input host operator path content (bytes "initial docs import") in
      rw (count_import-store _ r (create_article host at input k))
        (step _ _ (serve-Step host (creates at input) k) p)

  store_if :
      (b : Bool) (x y : Kb × ImportResult)
      → P x.0.tables
      → P y.0.tables
      → P (if b then x else y).0.tables
  store_if true x y p q = p
  store_if false x y p q = q

  import_content-keeps :
      (host : Host) (at : Moment) (operator path raw : Str) (r : ImportResult) (k : Kb)
      → P k.tables
      → P (import_content host at operator path raw r k).0.tables
  unfolding import_content find_article_id_by_reference
  import_content-keeps host at operator path raw r k p =
      store_if (is_empty (trim_space raw)) _ _ p (
        write_doc-keeps host at operator path (trim_space raw) r _
          (subst P (sym (select-tables _ k)) p))

  read_doc-keeps :
      (host : Host) (at : Moment) (operator path : Str) (r : ImportResult) (k : Kb)
      (contents : Option Str)
      → P k.tables
      → P (read_doc host at operator path r k contents).0.tables
  unfolding read_doc
  read_doc-keeps host at operator path r k none p = p
  read_doc-keeps host at operator path r k (some raw) p =
      import_content-keeps host at operator path raw r k p

  import_entry-keeps :
      (host : Host) (at : Moment) (operator : Str) (d : DocEntry) (r : ImportResult) (k : Kb)
      → P k.tables
      → P (import_entry host at operator d r k).0.tables
  unfolding import_entry
  import_entry-keeps host at operator d r k p =
      store_if (is_doc host d) _ _ (read_doc-keeps host at operator d.path r k d.contents p) p

  -- The walk goes on or fails.
  walk_if :
      (b : Bool) (x y : Kb × (ImportResult × Bool))
      → P x.0.tables
      → P y.0.tables
      → P (if b then x else y).0.tables
  walk_if true x y p q = p
  walk_if false x y p q = q

  import_entries-keeps :
      (host : Host) (at : Moment) (operator : Str) (ds : List DocEntry) (r : ImportResult) (k : Kb)
      → P k.tables
      → P (import_entries host at operator ds r k).0.tables
  unfolding import_entries
  import_entries-keeps host at operator [] r k p = p
  import_entries-keeps host at operator (d ∷ ds) r k p =
      walk_if d.walk_failed _ _ p
        (import_entries-keeps host at operator ds _ _ (import_entry-keeps host at operator d r k p))

-- An import keeps the versions numbered and the published articles approved, whichever reads and
-- writes fail and wherever the walk ends.
pub import_docs-Sound :
    (host : Host) (at : Moment) (walk : Str → List DocEntry) (root_path operator : Str) (k : Kb)
    → Numbered k.tables
    → Approved k.tables
    → let k' = (import_docs host at walk root_path operator k).0 in
      Numbered k'.tables × Approved k'.tables
unfolding import_docs
import_docs-Sound host at walk root_path operator k n a = (
  import_entries-keeps Numbered Step-Numbered host at _ (walk (import_root root_path)) _ k n,
  import_entries-keeps Approved Step-Approved host at _ (walk (import_root root_path)) _ k a,
)
