-- ===== src/Kb/Bounds.antt =====
-- go-watch-file/internal/kb/service.go: how much the lists and the search return, and that the search ends.
use go_watch_file.Base.{
  ℕ, zero, suc, ◌+◌, ◌≤◌, ◌≡◌, refl, ap, Bool, true, false, List, [], ◌∷◌, ◌++◌, map, arith,
  if◌then◌else◌, ◌==◌, leb, ◌||◌, length, take, length-take,
}
use Prim.Native.Nat.{min}
use go_watch_file.Base.Str.{Str, is_empty}
use go_watch_file.Base.Trim.{trim_space}
use go_watch_file.Kb.Types.{Tables, Article, ArticleRow, ListQuery}
use go_watch_file.Kb.Store.{Kb, Result, ok, failed, M, bind_result, ◌>>=◌, pure}
use go_watch_file.Kb.Queries.{Host, Moment, scan_article}
use go_watch_file.Kb.Logic.{Holds, After, After-pure, After-any, After-if, select-then, known-then}
use go_watch_file.Kb.Lists.{
  clamp, page_rows, list_page_size, fill_tags, list_articles, first_page, max_page_size,
}
use go_watch_file.Kb.Search.{
  gather, max_pages, articles_of, best, search_by_tokens, search, no_articles, like_query,
  page_query, wanted_status,
}
use go_watch_file.Kb.Tokens.{tokenize_search_query, none_left}

-- At most `n` of them.
abbrev AtMost : ℕ → List Article → Tables → Type 0
AtMost n xs t = length xs ≤ n

length-map : (f : ArticleRow → Article) (rows : List ArticleRow) → length (map f rows) ≡ length rows
length-map f [] = refl
length-map f (a ∷ rows) = ap suc (length-map f rows)

After-fill_tags :
    (items : List Article) (t : Tables)
    → After (fill_tags items) t (λ out _. length out ≡ length items)
unfolding fill_tags
After-fill_tags [] t = After-pure [] t _ refl
After-fill_tags (a ∷ rest) t = known-then _ _ t _ _ (After-any _ t) (λ tags u _.
    known-then _ _ u _ _ (After-fill_tags rest u) (λ filled v e. After-pure _ v _ (ap suc e)))

pub list_articles-Bounded :
    (host : Host) (at : Moment) (q : ListQuery) (t : Tables)
    → After (list_articles host at q) t (λ r _. length r.0 ≤ list_page_size q)
unfolding list_articles page_rows
list_articles-Bounded host at q t = select-then _ _ t _ (
    select-then _ _ t _ (
      known-then _ _ t _ _ (After-fill_tags _ t)
        (λ filled u e. After-pure _ u _ (page_le filled e))))
  where
    page_le :
        (filled : List Article)
        → length filled
          ≡ length (map (scan_article host at t.article_versions) (page_rows host q t))
        → length filled ≤ list_page_size q
    page_le filled e =
        let n = length (page_rows host q t) in
        let f = length-map (scan_article host at t.article_versions) (page_rows host q t) in
        let g : length (page_rows host q t) ≡ min (list_page_size q) _ =
          length-take (list_page_size q) _ in
        omega (arith, e, f, g)

none-AtMost : (n : ℕ) (t : Tables) → After (pure []) t (AtMost n)
none-AtMost n t = After-pure [] t (AtMost n) (omega arith)

page_limit :
    (raw : ℕ) (items : List Article)
    → length items ≤ clamp 20 max_page_size (clamp 10 max_page_size raw)
    → length items ≤ clamp 10 max_page_size raw
page_limit raw items h = ground arith

clamp_le : (other most x : ℕ) → clamp other most x ≤ most
clamp_le other most x = ground arith

first_page-Bounded :
    (host : Host) (at : Moment) (q : ListQuery) (t : Tables)
    → After (first_page (list_articles host at q)) t (AtMost (list_page_size q))
first_page-Bounded host at q t =
    known-then _ _ t _ _ (list_articles-Bounded host at q t) (λ r u h. After-pure _ u _ h)

length-articles_of : (xs : List (Article × ℕ)) → length (articles_of xs) ≡ length xs
length-articles_of [] = refl
length-articles_of (x ∷ xs) = ap suc (length-articles_of xs)

best-Bounded :
    (limit : ℕ) (tokens : List Str) (xs : List Article) → length (best limit tokens xs) ≤ limit
unfolding best
best-Bounded limit tokens xs =
    rw (length-articles_of (take limit _), length-take limit _) (omega arith)

search_by_tokens-Bounded :
    (host : Host) (at : Moment) (query : Str) (limit : ℕ) (archived : Bool) (t : Tables)
    → After (search_by_tokens host at query limit archived) t (AtMost limit)
unfolding search_by_tokens
search_by_tokens-Bounded host at query limit archived t =
    let tokens = tokenize_search_query host query in
    let found : M (List Article) =
      gather host at (wanted_status archived) archived max_pages 1 [] in
    let scored_best : List Article → M (List Article) =
      λ candidates. pure (best limit tokens candidates) in
    After-if (none_left tokens) (pure []) (found >>= scored_best) t (AtMost limit)
      (λ _. none-AtMost limit t)
      (λ _.
        known-then found scored_best t (λ _ _. Unit {0}) (AtMost limit) (After-any found t)
          (λ candidates u _. After-pure _ u (AtMost limit) (best-Bounded limit tokens candidates)))

-- A search returns no more articles than it was asked for, 10 if it was not, and never more than 100.
pub search-Bounded :
    (host : Host) (at : Moment) (query : Str) (raw : ℕ) (archived : Bool) (k : Kb)
    → Holds (λ out _. length out ≤ clamp 10 max_page_size raw) (search host at query raw archived k)
unfolding search After
search-Bounded host at query raw archived k =
    let q = trim_space query in
    let limit = clamp 10 max_page_size raw in
    let first : M (List Article) =
      first_page (list_articles host at (like_query q archived limit)) in
    let next : List Article → M (List Article) = λ items.
      if no_articles items then search_by_tokens host at q limit archived else pure items in
    After-if (is_empty q) (pure []) (first >>= next) k.tables (AtMost limit)
      (λ _. none-AtMost limit k.tables)
      (λ _.
        known-then first next k.tables (AtMost (clamp 20 max_page_size limit)) (AtMost limit)
          (first_page-Bounded host at _ k.tables)
          (λ items u h.
            After-if (no_articles items) (search_by_tokens host at q limit archived) (pure items) u
              (AtMost limit) (λ _. search_by_tokens-Bounded host at q limit archived u)
              (λ _. After-pure items u (AtMost limit) (page_limit raw items h))))
      k refl

bind_result_same :
    {A B : Type 0} (f g : A → M B) (r : Kb × Result A)
    → ((a : A) (k : Kb) → f a k ≡ g a k)
    → bind_result f r ≡ bind_result g r
bind_result_same f g (k, ok a) h = h a k
bind_result_same f g (k, failed e) h = refl

if_same :
    (x y z : Bool) (m n n' : M (List Article)) (k : Kb)
    → (z ≡ false → n k ≡ n' k)
    → (if x || y || z then m else n) k ≡ (if x || y || z then m else n') k
if_same true y z m n n' k h = refl
if_same false true z m n n' k h = refl
if_same false false true m n n' k h = refl
if_same false false false m n n' k h = h refl

plus_suc : (a b : ℕ) → suc a + b ≡ suc (a + b)
plus_suc a b = omega arith

-- Reading the candidates ends: with the fuel that searchByTokens has, more of it changes nothing.
pub gather_enough :
    (host : Host) (at : Moment) (status : Str) (archived : Bool) (fuel more page : ℕ)
    (candidates : List Article) (k : Kb)
    → max_pages + 1 ≤ fuel + page
    → page ≤ max_pages
    → gather host at status archived (fuel + more) page candidates k
      ≡ gather host at status archived fuel page candidates k
unfolding gather ◌>>=◌
gather_enough host at status archived zero more page candidates k h p = absurd (omega arith)
gather_enough host at status archived (suc fuel) more page candidates k h p =
    rw (plus_suc fuel more) (
      bind_result_same _ _ (list_articles host at (page_query status archived page) k) (λ r k'.
        let all = candidates ++ r.0 in
        if_same (length r.0 == 0) (leb r.1 (length all)) (leb max_pages page) (pure all)
          (gather host at status archived (fuel + more) (page + 1) all)
          (gather host at status archived fuel (page + 1) all) k'
          (λ early.
            gather_enough host at status archived fuel more (page + 1) all k' (omega arith)
              (ground arith))))
