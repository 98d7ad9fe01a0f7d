-- ===== src/Kb/Fates.antt =====
-- go-watch-file/internal/kb/service.go: what becomes of each file that an import walks over.
use go_watch_file.Base.{
  ℕ, ◌+◌, ◌≡◌, refl, Bool, true, false, Option, none, some, List, [], ◌∷◌, arith, if_elim,
}
use go_watch_file.Base.Str.{Str, bytes, is_empty, count, count-append}
use go_watch_file.Base.Trim.{trim_space}
use go_watch_file.Kb.Types.{Article, ImportResult}
use go_watch_file.Kb.Normal.{sort_strings, insert_string}
use go_watch_file.Kb.Store.{Kb, KbError, Result, ok, failed}
use go_watch_file.Kb.Writes.{create_article, update_article}
use go_watch_file.Kb.Queries.{Host, Moment}
use go_watch_file.Kb.Docs.{
  DocEntry, count_update, count_import, write_doc, import_content, import_entry, import_entries,
  is_doc, read_doc, find_article_id_by_reference, doc_input, skip,
}

-- What becomes of an entry of the walk.
pub data Fate : Type 0 where
  passed : Fate
  imported : Str → Fate
  updated : Str → Fate
  skipped : Fate

abbrev pub FoundArticle : Type 0
FoundArticle = Kb × Result (Option Str)

-- The article of the import's reference, which is looked for before a write.
abbrev pub found_article : Host → DocEntry → Kb → FoundArticle
found_article host d = find_article_id_by_reference (bytes "import") (host.to_slash d.path)

-- How an entry comes to its fate, from the store `k`, and what the store then is: a Markdown file that
-- has text is imported if no article has its reference and the creation returns an article; it is
-- updated if an article has it and the update returns an article; it is skipped if it could not be read,
-- is blank, could not be looked for, or its write returned an error.
pub data Goes (host : Host) (at : Moment) (operator : Str) (d : DocEntry) (k : Kb)
    : Kb → Fate → Type 0 where
  no_doc : is_doc host d ≡ false → Goes host at operator d k k passed
  unread : is_doc host d ≡ true → d.contents ≡ none → Goes host at operator d k k skipped
  blank :
      (raw : Str)
      → is_doc host d ≡ true
      → d.contents ≡ some raw
      → is_empty (trim_space raw) ≡ true
      → Goes host at operator d k k skipped
  unknown :
      {k1 : Kb} (raw : Str) (e : KbError)
      → is_doc host d ≡ true
      → d.contents ≡ some raw
      → is_empty (trim_space raw) ≡ false
      → found_article host d k ≡ (k1, failed e)
      → Goes host at operator d k k1 skipped
  creates :
      {k1 k2 : Kb} (raw : Str) (r : Result Article)
      → is_doc host d ≡ true
      → d.contents ≡ some raw
      → is_empty (trim_space raw) ≡ false
      → found_article host d k ≡ (k1, ok none)
      → create_article host at
          (doc_input host operator d.path (trim_space raw) (bytes "initial docs import"))
          k1
        ≡ (k2, r)
      → Goes host at operator d k k2
          (elim r [ ok a ↦ imported (host.to_slash d.path) | failed e ↦ skipped ])
  revises :
      {k1 k2 : Kb} (raw id : Str) (r : Result Article)
      → is_doc host d ≡ true
      → d.contents ≡ some raw
      → is_empty (trim_space raw) ≡ false
      → found_article host d k ≡ (k1, ok (some id))
      → update_article host at id
          (doc_input host operator d.path (trim_space raw) (bytes "sync docs import"))
          k1
        ≡ (k2, r)
      → Goes host at operator d k k2
          (elim r [ ok a ↦ updated (host.to_slash d.path) | failed e ↦ skipped ])

-- The entries one after the other.
abbrev pub Trail : Host → Moment → Str → List DocEntry → Kb → Kb → List Fate → Type 0
Trail host at operator [] k k' [] = k' ≡ k
Trail host at operator [] k k' (o ∷ os) = ⊥
Trail host at operator (d ∷ ds) k k' [] = ⊥
Trail host at operator (d ∷ ds) k k' (o ∷ os) =
    (k1 : Kb) × Goes host at operator d k k1 o × Trail host at operator ds k1 k' os

abbrev pub imports_in : List Fate → ℕ
imports_in [] = 0
imports_in (imported p ∷ os) = imports_in os + 1
imports_in (_ ∷ os) = imports_in os

abbrev pub updates_in : List Fate → ℕ
updates_in [] = 0
updates_in (updated p ∷ os) = updates_in os + 1
updates_in (_ ∷ os) = updates_in os

abbrev pub skips_in : List Fate → ℕ
skips_in [] = 0
skips_in (skipped ∷ os) = skips_in os + 1
skips_in (_ ∷ os) = skips_in os

-- The paths of those imported or updated.
abbrev pub paths_in : List Fate → List Str
paths_in [] = []
paths_in (imported p ∷ os) = p ∷ paths_in os
paths_in (updated p ∷ os) = p ∷ paths_in os
paths_in (_ ∷ os) = paths_in os

-- The result `r'` after the fates `os` from `r`: its counts, and how often it lists each file.
pub record Sums (os : List Fate) (r r' : ImportResult) : Type 0 where
  pub imports : r'.imported ≡ r.imported + imports_in os
  pub updates : r'.updated ≡ r.updated + updates_in os
  pub skips : r'.skipped ≡ r.skipped + skips_in os
  pub lists : (p : Str) → count p r'.files ≡ count p r.files + count p (paths_in os)

abbrev Fares : Host → Moment → Str → DocEntry → Kb → ImportResult → Kb × ImportResult → Type 0
Fares host at operator d k r x = (o : Fate) × Goes host at operator d k x.0 o × Sums (o ∷ []) r x.1

skip-Sums : (r : ImportResult) → Sums (skipped ∷ []) r (skip r)
unfolding count
skip-Sums r = record {
  imports = omega arith;
  updates = omega arith;
  skips = omega arith;
  lists = λ p. omega arith;
}

create-Fares :
    (host : Host) (at : Moment) (operator : Str) (d : DocEntry) (k k1 : Kb) (r : ImportResult)
    (raw : Str) (x : Kb × Result Article)
    → is_doc host d ≡ true
    → d.contents ≡ some raw
    → is_empty (trim_space raw) ≡ false
    → found_article host d k ≡ (k1, ok none)
    → create_article host at
        (doc_input host operator d.path (trim_space raw) (bytes "initial docs import"))
        k1
      ≡ x
    → Fares host at operator d k r (count_import (host.to_slash d.path) r x)
unfolding count_import count
create-Fares host at operator d k k1 r raw (k2, ok a) md read full found made = (
  imported (host.to_slash d.path),
  creates raw (ok a) md read full found made,
  record {
    imports = omega arith;
    updates = omega arith;
    skips = omega arith;
    lists = λ p. omega (arith, count-append p r.files (host.to_slash d.path ∷ []));
  },
)
create-Fares host at operator d k k1 r raw (k2, failed e) md read full found made =
    (skipped, creates raw (failed e) md read full found made, skip-Sums r)

update-Fares :
    (host : Host) (at : Moment) (operator : Str) (d : DocEntry) (k k1 : Kb) (r : ImportResult)
    (raw id : Str) (x : Kb × Result Article)
    → is_doc host d ≡ true
    → d.contents ≡ some raw
    → is_empty (trim_space raw) ≡ false
    → found_article host d k ≡ (k1, ok (some id))
    → update_article host at id
        (doc_input host operator d.path (trim_space raw) (bytes "sync docs import"))
        k1
      ≡ x
    → Fares host at operator d k r (count_update (host.to_slash d.path) r x)
unfolding count_update count
update-Fares host at operator d k k1 r raw id (k2, ok a) md read full found made = (
  updated (host.to_slash d.path),
  revises raw id (ok a) md read full found made,
  record {
    imports = omega arith;
    updates = omega arith;
    skips = omega arith;
    lists = λ p. omega (arith, count-append p r.files (host.to_slash d.path ∷ []));
  },
)
update-Fares host at operator d k k1 r raw id (k2, failed e) md read full found made =
    (skipped, revises raw id (failed e) md read full found made, skip-Sums r)

write-Fares :
    (host : Host) (at : Moment) (operator : Str) (d : DocEntry) (k : Kb) (r : ImportResult)
    (raw : Str) (found : FoundArticle)
    → is_doc host d ≡ true
    → d.contents ≡ some raw
    → is_empty (trim_space raw) ≡ false
    → found_article host d k ≡ found
    → Fares host at operator d k r (write_doc host at operator d.path (trim_space raw) r found)
unfolding write_doc
write-Fares host at operator d k r raw (k1, failed e) md read full looked =
    (skipped, unknown raw e md read full looked, skip-Sums r)
write-Fares host at operator d k r raw (k1, ok none) md read full looked =
    create-Fares host at operator d k k1 r raw _ md read full looked refl
write-Fares host at operator d k r raw (k1, ok (some id)) md read full looked =
    update-Fares host at operator d k k1 r raw id _ md read full looked refl

read-Fares :
    (host : Host) (at : Moment) (operator : Str) (d : DocEntry) (k : Kb) (r : ImportResult)
    (contents : Option Str)
    → is_doc host d ≡ true
    → d.contents ≡ contents
    → Fares host at operator d k r (read_doc host at operator d.path r k contents)
unfolding read_doc import_content
read-Fares host at operator d k r none md read = (skipped, unread md read, skip-Sums r)
read-Fares host at operator d k r (some raw) md read =
    if_elim (Fares host at operator d k r) (is_empty (trim_space raw))
      (λ bare. (skipped, blank raw md read bare, skip-Sums r))
      (λ full. write-Fares host at operator d k r raw _ md read full refl)

entry-Fares :
    (host : Host) (at : Moment) (operator : Str) (d : DocEntry) (r : ImportResult) (k : Kb)
    → Fares host at operator d k r (import_entry host at operator d r k)
unfolding import_entry count
entry-Fares host at operator d r k =
    if_elim (Fares host at operator d k r) (is_doc host d)
      (λ md. read-Fares host at operator d k r d.contents md refl)
      (λ other. (
        passed,
        no_doc other,
        record {
          imports = omega arith;
          updates = omega arith;
          skips = omega arith;
          lists = λ p. omega arith;
        },
      ))

imports_in-cons :
    (o : Fate) (os : List Fate) → imports_in (o ∷ os) ≡ imports_in (o ∷ []) + imports_in os
imports_in-cons o os = ground arith

updates_in-cons :
    (o : Fate) (os : List Fate) → updates_in (o ∷ os) ≡ updates_in (o ∷ []) + updates_in os
updates_in-cons o os = ground arith

skips_in-cons : (o : Fate) (os : List Fate) → skips_in (o ∷ os) ≡ skips_in (o ∷ []) + skips_in os
skips_in-cons o os = ground arith

paths_in-cons :
    (p : Str) (o : Fate) (os : List Fate)
    → count p (paths_in (o ∷ os)) ≡ count p (paths_in (o ∷ [])) + count p (paths_in os)
unfolding count
paths_in-cons p o os = ground arith

Sums-then :
    (o : Fate) (os : List Fate) (r r1 r2 : ImportResult)
    → Sums (o ∷ []) r r1
    → Sums os r1 r2
    → Sums (o ∷ os) r r2
Sums-then o os r r1 r2 a b = record {
  imports = omega (arith, a.imports, b.imports, imports_in-cons o os);
  updates = omega (arith, a.updates, b.updates, updates_in-cons o os);
  skips = omega (arith, a.skips, b.skips, skips_in-cons o os);
  lists = λ p. omega (arith, a.lists p, b.lists p, paths_in-cons p o os);
}

count-insert_string : (p x : Str) (xs : List Str) → count p (insert_string x xs) ≡ count p (x ∷ xs)
unfolding insert_string count
count-insert_string p x [] = refl
count-insert_string p x (y ∷ ys) = ground (arith, count-insert_string p x ys)

count-sort_strings : (p : Str) (xs : List Str) → count p (sort_strings xs) ≡ count p xs
unfolding sort_strings count
count-sort_strings p [] = refl
count-sort_strings p (x ∷ xs) =
    omega (arith, count-insert_string p x (sort_strings xs), count-sort_strings p xs)

-- What a walk that does not fail leads to.
abbrev pub Accounted :
    Host → Moment → Str → List DocEntry → ImportResult → Kb → Kb × (ImportResult × Bool) → Type 0
Accounted host at operator ds r k x =
    x.1.1 ≡ true → (os : List Fate) × Trail host at operator ds k x.0 os × Sums os r x.1.0

pub entries-Accounted :
    (host : Host) (at : Moment) (operator : Str) (ds : List DocEntry) (r : ImportResult) (k : Kb)
    → Accounted host at operator ds r k (import_entries host at operator ds r k)
unfolding import_entries count
entries-Accounted host at operator [] r k = λ done. (
  [],
  refl,
  record {
    imports = omega arith;
    updates = omega arith;
    skips = omega arith;
    lists = λ p. omega (arith, count-sort_strings p r.files);
  },
)
entries-Accounted host at operator (d ∷ ds) r k =
    let next = import_entry host at operator d r k in
    let (o, goes, sums) = entry-Fares host at operator d r k in
    if_elim (Accounted host at operator (d ∷ ds) r k) d.walk_failed (λ ended done. absurd cc)
      (λ goes_on done.
        let (os, trail, rest) = entries-Accounted host at operator ds next.1 next.0 done in
        (o ∷ os, (next.0, goes, trail), Sums-then o os r next.1 _ sums rest))
