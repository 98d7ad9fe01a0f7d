-- ===== src/Kb/Tally.antt =====
-- go-watch-file/internal/kb/service.go: the counts of an import.
use go_watch_file.Base.{
  ℕ, ◌+◌, ◌≡◌, refl, subst, Bool, true, false, Option, none, some, List, [], ◌∷◌, arith,
  if◌then◌else◌, length, length-append,
}
use go_watch_file.Base.Str.{Str, is_empty, count}
use go_watch_file.Base.Trim.{trim_space}
use go_watch_file.Kb.Types.{Article, ImportResult}
use go_watch_file.Kb.Normal.{normalize_operator, sort_strings, insert_string}
use go_watch_file.Kb.Store.{Kb, Result, ok, failed}
use go_watch_file.Kb.Queries.{Host, Moment}
use go_watch_file.Kb.Docs.{
  DocEntry, count_update, count_import, write_doc, import_content, import_entry, import_entries,
  is_doc, read_doc, import_root, import_docs,
}
use go_watch_file.Kb.Fates.{
  Fate, Trail, imports_in, updates_in, skips_in, paths_in, entries-Accounted,
}

-- The Markdown files among the entries.
unfoldable pub count_docs : Host → List DocEntry → ℕ
count_docs host [] = 0
count_docs host (d ∷ ds) = if is_doc host d then count_docs host ds + 1 else count_docs host ds

length-insert_string : (x : Str) (xs : List Str) → length (insert_string x xs) ≡ length xs + 1
unfolding insert_string
length-insert_string x [] = refl
length-insert_string x (y ∷ ys) = ground (arith, length-insert_string x ys)

length-sort_strings : (xs : List Str) → length (sort_strings xs) ≡ length xs
unfolding sort_strings
length-sort_strings [] = refl
length-sort_strings (x ∷ xs) =
    omega (arith, length-insert_string x (sort_strings xs), length-sort_strings xs)

-- The files in the result are those imported or updated; `n` were seen.
abbrev Tallied : ℕ → ImportResult → Type 0
Tallied n r = (r.imported + r.updated + r.skipped ≡ n) × (length r.files ≡ r.imported + r.updated)

count_update-Tallied :
    (n : ℕ) (path : Str) (r : ImportResult) (x : Kb × Result Article)
    → Tallied n r
    → Tallied (n + 1) (count_update path r x).1
unfolding count_update
count_update-Tallied n path r (k, ok a) t = omega (arith, length-append r.files (path ∷ []))
count_update-Tallied n path r (k, failed e) t = omega arith

count_import-Tallied :
    (n : ℕ) (path : Str) (r : ImportResult) (x : Kb × Result Article)
    → Tallied n r
    → Tallied (n + 1) (count_import path r x).1
unfolding count_import
count_import-Tallied n path r (k, ok a) t = omega (arith, length-append r.files (path ∷ []))
count_import-Tallied n path r (k, failed e) t = omega arith

write_doc-Tallied :
    (n : ℕ) (host : Host) (at : Moment) (operator path content : Str) (r : ImportResult)
    (found : Kb × Result (Option Str))
    → Tallied n r
    → Tallied (n + 1) (write_doc host at operator path content r found).1
unfolding write_doc
write_doc-Tallied n host at operator path content r (k, failed e) t = omega arith
write_doc-Tallied n host at operator path content r (k, ok (some id)) t =
    count_update-Tallied n _ r _ t
write_doc-Tallied n host at operator path content r (k, ok none) t = count_import-Tallied n _ r _ t

tally_if :
    (n m : ℕ) (b : Bool) (x y : Kb × ImportResult)
    → Tallied n x.1
    → Tallied m y.1
    → Tallied (if b then n else m) (if b then x else y).1
tally_if n m true x y s t = s
tally_if n m false x y s t = t

same_tally :
    (n : ℕ) (b : Bool) (x y : Kb × ImportResult)
    → Tallied n x.1
    → Tallied n y.1
    → Tallied n (if b then x else y).1
same_tally n true x y s t = s
same_tally n false x y s t = t

read_doc-Tallied :
    (n : ℕ) (host : Host) (at : Moment) (operator path : Str) (r : ImportResult) (k : Kb)
    (contents : Option Str)
    → Tallied n r
    → Tallied (n + 1) (read_doc host at operator path r k contents).1
unfolding read_doc import_content
read_doc-Tallied n host at operator path r k none t = omega arith
read_doc-Tallied n host at operator path r k (some raw) t =
    same_tally (n + 1) (is_empty (trim_space raw)) _ _ (omega arith)
      (write_doc-Tallied n host at operator path (trim_space raw) r _ t)

import_entry-Tallied :
    (n : ℕ) (host : Host) (at : Moment) (operator : Str) (d : DocEntry) (r : ImportResult) (k : Kb)
    → Tallied n r
    → Tallied (if is_doc host d then n + 1 else n) (import_entry host at operator d r k).1
unfolding import_entry
import_entry-Tallied n host at operator d r k t =
    tally_if (n + 1) n (is_doc host d) _ _
      (read_doc-Tallied n host at operator d.path r k d.contents t) t

step_count : (b : Bool) (n m : ℕ) → (if b then n + 1 else n) + m ≡ n + (if b then m + 1 else m)
step_count true n m = omega arith
step_count false n m = refl

walk_done :
    (n : ℕ) (b : Bool) (k : Kb) (r : ImportResult) (x : Kb × (ImportResult × Bool))
    → (x.1.1 ≡ true → Tallied n x.1.0)
    → (if b then (k, (r, false)) else x).1.1 ≡ true
    → Tallied n (if b then (k, (r, false)) else x).1.0
walk_done n true k r x h e = absurd cc
walk_done n false k r x h e = h e

import_entries-Tallied :
    (n : ℕ) (host : Host) (at : Moment) (operator : Str) (ds : List DocEntry) (r : ImportResult)
    (k : Kb)
    → Tallied n r
    → (import_entries host at operator ds r k).1.1 ≡ true
    → Tallied (n + count_docs host ds) (import_entries host at operator ds r k).1.0
unfolding import_entries count_docs
import_entries-Tallied n host at operator [] r k t =
    λ done. omega (arith, length-sort_strings r.files)
import_entries-Tallied n host at operator (d ∷ ds) r k t =
    let next = import_entry host at operator d r k in
    walk_done (n + count_docs host (d ∷ ds)) d.walk_failed k r
      (import_entries host at operator ds next.1 next.0)
      (λ done.
        subst (λ m. Tallied m (import_entries host at operator ds next.1 next.0).1.0)
          (step_count (is_doc host d) n (count_docs host ds))
          (import_entries-Tallied (if is_doc host d then n + 1 else n) host at operator ds next.1
            next.0 (import_entry-Tallied n host at operator d r k t) done))

-- Of an import whose walk does not fail, each entry of the walk has its fate, from the store that the
-- entries before it leave (`Goes`): the result counts those imported, those updated and those skipped,
-- which together are all the Markdown files, and lists each path as often as it was imported or updated,
-- and no other path.
pub import_docs-Tallied :
    (host : Host) (at : Moment) (walk : Str → List DocEntry) (root_path operator : Str) (k : Kb)
    → (import_docs host at walk root_path operator k).1.1 ≡ true
    → let x = import_docs host at walk root_path operator k in
      let r = x.1.0 in
      (os : List Fate) × Trail host at
        (normalize_operator operator)
        (walk (import_root root_path))
        k
        x.0
        os
      × (r.imported ≡ imports_in os)
      × (r.updated ≡ updates_in os)
      × (r.skipped ≡ skips_in os)
      × ((p : Str) → count p r.files ≡ count p (paths_in os))
      × (r.imported + r.updated + r.skipped ≡ count_docs host (walk (import_root root_path)))
      × (length r.files ≡ r.imported + r.updated)
unfolding import_docs count
import_docs-Tallied host at walk root_path operator k h =
    let none_yet : ImportResult = record { imported = 0; updated = 0; skipped = 0; files = [] } in
    let entries = walk (import_root root_path) in
    let total =
      import_entries-Tallied 0 host at (normalize_operator operator) entries none_yet k (refl, refl)
        h in
    let (os, trail, sums) =
      entries-Accounted host at (normalize_operator operator) entries none_yet k h in
    (
      os,
      trail,
      omega (arith, sums.imports),
      omega (arith, sums.updates),
      omega (arith, sums.skips),
      λ p. omega (arith, sums.lists p),
      omega (arith, total.0),
      total.1,
    )
