-- ===== src/Kb/History.antt =====
-- go-watch-file/internal/kb/service.go: the versions of every article over any sequence of writes.
use go_watch_file.Base.{
  ℕ, zero, suc, ◌+◌, ◌≡◌, refl, sym, ap, subst, ◌∙◌, Bool, true, false, Option, none, some, List,
  [], ◌∷◌, ◌++◌, inl, inr, arith, if◌then◌else◌,
}
use mathlib.Core.List.{append-nil}
use go_watch_file.Base.Str.{Str, str_eq, str_eq_iff}
use go_watch_file.Kb.Types.{Tables, Article, ArticleInput, ArticleRow, VersionRow}
use go_watch_file.Kb.Store.{Kb, Result, ok, failed, find_article, find_version, update_rows}
use go_watch_file.Kb.Queries.{Host, Moment}
use go_watch_file.Kb.Commits.{Commits}
use go_watch_file.Kb.Changes.{Created, Revised, Acted}
use go_watch_file.Kb.Serve.{Request, serve, Effect, serve-Commits}

-- The version numbers of an article, in the order of the table.
unfoldable pub numbers : Str → List VersionRow → List ℕ
numbers id [] = []
numbers id (v ∷ rest) =
    if str_eq v.article_id id then v.version ∷ numbers id rest else numbers id rest

version_of : Option ArticleRow → ℕ
version_of none = 0
version_of (some a) = a.current_version

-- 0 for an article that there is not.
unfoldable pub current_of : Str → List ArticleRow → ℕ
unfolding version_of
current_of id articles = version_of (find_article id articles)

unfoldable pub upto : ℕ → List ℕ
upto zero = []
upto (suc n) = upto n ++ suc n ∷ []

-- The versions of every article are 1, 2, … up to its current one.
unfoldable pub Numbered : Tables → Type 0
Numbered t = (id : Str) → numbers id t.article_versions ≡ upto (current_of id t.articles)

numbers-append :
    (id : Str) (vs : List VersionRow) (v : VersionRow)
    → numbers id (vs ++ v ∷ [])
      ≡ numbers id vs ++ (if str_eq v.article_id id then v.version ∷ [] else [])
unfolding numbers
numbers-append id [] v = ground arith
numbers-append id (w ∷ vs) v = ground (arith, numbers-append id vs v)

pub find_article-append :
    (id : Str) (rows : List ArticleRow) (a : ArticleRow)
    → find_article a.id rows ≡ none
    → find_article id (rows ++ a ∷ []) ≡ (if str_eq a.id id then some a else find_article id rows)
unfolding find_article
find_article-append id [] a h = refl
find_article-append id (b ∷ rows) a h = ground (
  arith,
  find_article-append id rows a,
  str_eq_iff b.id id,
  str_eq_iff b.id a.id,
  str_eq_iff a.id id,
)

unfoldable pub found_or : Option ArticleRow → (ArticleRow → ArticleRow) → Option ArticleRow
found_or none set = none
found_or (some a) set = some (set a)

-- An update of one article leaves the others.
pub find_article-update_rows :
    (id key : Str) (set : ArticleRow → ArticleRow) (rows : List ArticleRow)
    → ((a : ArticleRow) → (set a).id ≡ a.id)
    → find_article id (update_rows key set rows)
      ≡ (if str_eq key id then found_or (find_article id rows) set else find_article id rows)
unfolding find_article update_rows found_or
find_article-update_rows id key set [] same = ground arith
find_article-update_rows id key set (a ∷ rows) same = ground (
  arith,
  find_article-update_rows id key set rows same,
  same a,
  str_eq_iff a.id id,
  str_eq_iff a.id key,
  str_eq_iff key id,
)

pub find_version-append :
    (id : Str) (n : ℕ) (v w : VersionRow) (vs : List VersionRow)
    → find_version id n vs ≡ some v
    → find_version id n (vs ++ w ∷ []) ≡ some v
unfolding find_version
find_version-append id n v w [] h = absurd cc
find_version-append id n v w (x ∷ vs) h = ground (arith, find_version-append id n v w vs)

-- A step of the store, whatever the request was.
pub data Step (t t' : Tables) : Type 0 where
  stays : t' ≡ t → Step t t'
  creates : (at : Moment) (i : ArticleInput) → Created at i t t' → Step t t'
  revises :
      (id action : Str) (row : ArticleRow → VersionRow) → Revised id action row t t' → Step t t'
  acts : (id action : Str) → Acted id action t t' → Step t t'

Effect-Step : (host : Host) (r : Request) (t t' : Tables) → Effect host r t t' → Step t t'
Effect-Step host (Request.creates at i) t t' e = Step.creates at i e.0
Effect-Step host (Request.updates at id i) t t' e = Step.revises _ _ _ e.0
Effect-Step host (Request.acts at id action operator comment) t t' e = Step.acts _ _ e.0
Effect-Step host (Request.rolls_back at id target operator comment) t t' e =
    Step.revises _ _ _ e.revised

Commits-Step :
    (host : Host) (req : Request) (t : Tables) (r : Kb × Result Article)
    → Commits t (Effect host req t) r
    → Step t r.0.tables
Commits-Step host req t (k, ok a) c = Effect-Step host req t k.tables c
Commits-Step host req t (k, failed e) (inl same) = stays same
Commits-Step host req t (k, failed e) (inr c) = Effect-Step host req t k.tables c

pub serve-Step : (host : Host) (r : Request) (k : Kb) → Step k.tables (serve host r k).0.tables
serve-Step host r k = Commits-Step host r k.tables (serve host r k) (serve-Commits host r k)

-- The writes one after the other.
unfoldable pub serve_all : Host → List Request → Kb → Kb
serve_all host [] k = k
serve_all host (r ∷ rs) k = serve_all host rs (serve host r k).0

-- What every step keeps, a run keeps.
pub serve_all-keeps :
    (P : Tables → Type 0)
    → ((t t' : Tables) → Step t t' → P t → P t')
    → (host : Host) (rs : List Request) (k : Kb) → P k.tables
    → P (serve_all host rs k).tables
unfolding serve_all
serve_all-keeps P step host [] k p = p
serve_all-keeps P step host (r ∷ rs) k p =
    serve_all-keeps P step host rs (serve host r k).0 (step _ _ (serve-Step host r k) p)

current_of-set :
    (id key : Str) (set : ArticleRow → ArticleRow) (rows : List ArticleRow) (a : ArticleRow) (n : ℕ)
    → ((b : ArticleRow) → (set b).id ≡ b.id)
    → ((b : ArticleRow) → (set b).current_version ≡ n)
    → find_article key rows ≡ some a
    → current_of id (update_rows key set rows) ≡ (if str_eq key id then n else current_of id rows)
unfolding current_of version_of found_or
current_of-set id key set rows a n same version found =
    rw (find_article-update_rows id key set rows same)
      (ground (arith, str_eq_iff key id, version a))

current_of-same :
    (id key : Str) (set : ArticleRow → ArticleRow) (rows : List ArticleRow)
    → ((b : ArticleRow) → (set b).id ≡ b.id)
    → ((b : ArticleRow) → (set b).current_version ≡ b.current_version)
    → current_of id (update_rows key set rows) ≡ current_of id rows
unfolding current_of version_of found_or
current_of-same id key set rows same version =
    rw (find_article-update_rows id key set rows same)
      (in_set (find_article id rows) (str_eq key id))
  where
    in_set :
        (o : Option ArticleRow) (b : Bool)
        → version_of (if b then found_or o set else o) ≡ version_of o
    in_set none true = refl
    in_set none false = refl
    in_set (some a) true = version a
    in_set (some a) false = refl

upto_next : (n : ℕ) → upto (n + 1) ≡ upto n ++ (n + 1) ∷ []
unfolding upto
upto_next n = let e : suc n ≡ n + 1 = omega arith in subst (λ m. upto m ≡ upto n ++ m ∷ []) e refl

-- One more number, or none.
grow :
    (b : Bool) (xs : List ℕ) (n old : ℕ)
    → xs ≡ upto old
    → (b ≡ true → n ≡ old + 1)
    → xs ++ (if b then n ∷ [] else []) ≡ upto (if b then n else old)
grow true xs n old h next = rw (h, next refl) (sym (upto_next old))
grow false xs n old h next = rw h (append-nil (upto old))

-- The version `v` is added for the article `key`.
grow-numbers :
    (id key : Str) (v : VersionRow) (vs : List VersionRow) (old new : ℕ)
    → v.article_id ≡ key
    → numbers id vs ≡ upto old
    → (str_eq key id ≡ true → v.version ≡ old + 1)
    → new ≡ (if str_eq key id then v.version else old)
    → numbers id (vs ++ v ∷ []) ≡ upto new
grow-numbers id key v vs old new e h next en =
    rw (numbers-append id vs v, e, en) (grow (str_eq key id) (numbers id vs) v.version old h next)

create-Numbered :
    (id : Str) (a : ArticleRow) (v : VersionRow) (t : Tables)
    → find_article a.id t.articles ≡ none
    → a.current_version ≡ 1
    → v.article_id ≡ a.id
    → v.version ≡ 1
    → numbers id t.article_versions ≡ upto (current_of id t.articles)
    → numbers id (t.article_versions ++ v ∷ []) ≡ upto (current_of id (t.articles ++ a ∷ []))
unfolding current_of version_of
create-Numbered id a v t unused e1 e2 e3 n =
    grow-numbers id a.id v t.article_versions (current_of id t.articles) _ e2 n
      (λ y. ground (arith, str_eq_iff a.id id))
      (ground (arith, find_article-append id t.articles a unused))

revise-Numbered :
    (id key : Str) (set : ArticleRow → ArticleRow) (a : ArticleRow) (v : VersionRow) (t : Tables)
    → find_article key t.articles ≡ some a
    → ((b : ArticleRow) → (set b).id ≡ b.id)
    → ((b : ArticleRow) → (set b).current_version ≡ a.current_version + 1)
    → v.article_id ≡ key
    → v.version ≡ a.current_version + 1
    → numbers id t.article_versions ≡ upto (current_of id t.articles)
    → numbers id (t.article_versions ++ v ∷ [])
      ≡ upto (current_of id (update_rows key set t.articles))
unfolding current_of version_of
revise-Numbered id key set a v t found same next e2 e3 n =
    grow-numbers id key v t.article_versions (current_of id t.articles) _ e2 n
      (λ y. ground (arith, str_eq_iff key id))
      (current_of-set id key set t.articles a (a.current_version + 1) same next found
        ∙ ap (λ m. if str_eq key id then m else current_of id t.articles) (sym e3))

numbered_to :
    (id : Str) (t t' : Tables) (vs : List VersionRow) (rows : List ArticleRow)
    → t'.article_versions ≡ vs
    → t'.articles ≡ rows
    → numbers id vs ≡ upto (current_of id rows)
    → numbers id t'.article_versions ≡ upto (current_of id t'.articles)
numbered_to id t t' vs rows ev er h = rw (ev, er) h

pub Step-Numbered : (t t' : Tables) → Step t t' → Numbered t → Numbered t'
unfolding Numbered
Step-Numbered t t' (stays e) n = subst Numbered (sym e) n
Step-Numbered t t' (Step.creates at i c) n = λ id.
    numbered_to id t t' _ _ c.versions_end c.articles_end
      (create-Numbered id _ _ t c.unused refl refl refl (n id))
Step-Numbered t t' (revises key action row r) n = λ id.
    numbered_to id t t' _ _ r.versions_end r.articles_end (
      revise-Numbered id key r.set r.before (row r.before) t r.found r.same_id r.next_version
        r.row_id r.row_version (n id))
Step-Numbered t t' (Step.acts key action a) n = λ id.
    numbered_to id t t' _ _ a.versions_end a.articles_end
      (n id ∙ ap upto (sym (current_of-same id key a.set t.articles a.same_id a.same_version)))

-- Over any writes, failing ones included, the versions of every article are 1, 2, … up to its current
-- version, each once and in this order, if they were before.
pub serve_all-Numbered :
    (host : Host) (rs : List Request) (k : Kb)
    → Numbered k.tables
    → Numbered (serve_all host rs k).tables
serve_all-Numbered host rs k n = serve_all-keeps Numbered Step-Numbered host rs k n

Step-kept :
    (id : Str) (n : ℕ) (v : VersionRow) (t t' : Tables)
    → Step t t'
    → find_version id n t.article_versions ≡ some v
    → find_version id n t'.article_versions ≡ some v
Step-kept id n v t t' (stays e) h = rw e h
Step-kept id n v t t' (Step.creates at i c) h =
    rw c.versions_end (find_version-append id n v _ t.article_versions h)
Step-kept id n v t t' (revises key action row r) h =
    rw r.versions_end (find_version-append id n v _ t.article_versions h)
Step-kept id n v t t' (Step.acts key action a) h = rw a.versions_end h

-- No write ever changes or loses a version that was stored.
pub serve_all_kept :
    (host : Host) (rs : List Request) (k : Kb) (id : Str) (n : ℕ) (v : VersionRow)
    → find_version id n k.tables.article_versions ≡ some v
    → find_version id n (serve_all host rs k).tables.article_versions ≡ some v
serve_all_kept host rs k id n v h =
    serve_all-keeps (λ t. find_version id n t.article_versions ≡ some v) (Step-kept id n v) host rs
      k h
