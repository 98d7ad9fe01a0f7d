-- ===== src/Kb/Commits.antt =====
-- go-watch-file/internal/kb/service.go: a write has its whole effect or none, and a read changes nothing.
use go_watch_file.Base.{
  ◌≡◌, refl, sym, subst, ◌∙◌, Bool, true, false, Option, none, some, ◌⊎◌, inl, inr, arith,
  if◌then◌else◌,
}
use go_watch_file.Base.Str.{Str}
use go_watch_file.Kb.Types.{Tables}
use go_watch_file.Kb.Store.{
  KbError, Result, ok, failed, Kb, M, bind_result, ◌>>=◌, pure, raise, raise_if, or_raise,
  first_fault, rest_faults, database_error, select, new_id, finish, transaction,
}
use go_watch_file.Kb.Logic.{Holds, After}

-- What a transaction leaves: its whole effect, or the tables as they were.
abbrev pub Commits : {A : Type 0} → Tables → (Tables → Type 0) → Kb × Result A → Type 0
Commits t Q (k, ok a) = Q k.tables
Commits t Q (k, failed e) = (k.tables ≡ t) ⊎ Q k.tables

Commits-if :
    {A : Type 0} (t : Tables) (Q : Tables → Type 0) (b : Bool) (r s : Kb × Result A)
    → Commits t Q r
    → Commits t Q s
    → Commits t Q (if b then r else s)
Commits-if t Q true r s hr hs = hr
Commits-if t Q false r s hr hs = hs

Commits-finish :
    {A : Type 0} (t : Tables) (Q : Tables → Type 0) (r : Kb × Result A)
    → Holds (λ _. Q) r
    → Commits t Q (finish t r)
Commits-finish t Q (k, failed e) h = inl refl
Commits-finish t Q (k, ok a) h =
    let k' : Kb = record k { faults = rest_faults k.faults } in
    Commits-if t Q (first_fault k.faults) (record k' { tables = t }, failed database_error)
      (k', ok a) (inl refl) h

transaction-Commits :
    {A : Type 0} (body : M A) (k : Kb) (Q : Tables → Type 0)
    → After body k.tables (λ _. Q)
    → Commits k.tables Q (transaction body k)
unfolding transaction After
transaction-Commits body k Q h =
    let k' : Kb = record k { faults = rest_faults k.faults } in
    Commits-if k.tables Q (first_fault k.faults) (k', failed database_error)
      (finish k.tables (body k')) (inl refl) (Commits-finish k.tables Q (body k') (h k' refl))

-- A call that leaves the tables alone.
unfoldable pub Reads : {A : Type 0} → M A → Type 0
Reads m = (k : Kb) → (m k).0.tables ≡ k.tables

bind_result-Reads :
    {A B : Type 0} (f : A → M B) (r : Kb × Result A)
    → ((a : A) → Reads (f a))
    → (bind_result f r).0.tables ≡ r.0.tables
unfolding Reads
bind_result-Reads f (k, ok a) h = h a k
bind_result-Reads f (k, failed e) h = refl

pub bind-Reads :
    {A B : Type 0} (m : M A) (f : A → M B) → Reads m → ((a : A) → Reads (f a)) → Reads (m >>= f)
unfolding ◌>>=◌ Reads
bind-Reads m f r h = λ k. bind_result-Reads f (m k) h ∙ r k

pub select-Reads : {A : Type 0} (look : Tables → A) → Reads (select look)
unfolding select Reads
select-Reads look k = ground arith

pub pure-Reads : {A : Type 0} (a : A) → Reads (pure a)
unfolding pure Reads
pure-Reads a k = refl

pub raise_if-Reads : (b : Bool) (e : KbError) → Reads (raise_if b e)
unfolding raise_if Reads
raise_if-Reads b e k = refl

pub or_raise-Reads : {A : Type 0} (o : Option A) (e : KbError) → Reads (or_raise o e)
unfolding or_raise raise pure Reads
or_raise-Reads none e k = refl
or_raise-Reads (some a) e k = refl

pub new_id-Reads : (kind : Str) → Reads (new_id kind)
unfolding new_id Reads
new_id-Reads kind k = refl

Commits-same :
    {A : Type 0} (t u : Tables) (Q : Tables → Type 0) (r : Kb × Result A)
    → r.0.tables ≡ u
    → Q u
    → Commits t Q r
Commits-same t u Q (k, ok a) e q = subst Q (sym e) q
Commits-same t u Q (k, failed x) e q = inr (subst Q (sym e) q)

then_result-Commits :
    {A B : Type 0} (f : A → M B) (t : Tables) (Q : Tables → Type 0) (r : Kb × Result A)
    → ((a : A) → Reads (f a))
    → Commits t Q r
    → Commits t Q (bind_result f r)
unfolding Reads
then_result-Commits f t Q (k, failed e) h c = c
then_result-Commits f t Q (k, ok a) h c = Commits-same t k.tables Q (f a k) (h a k) c

before_result-Commits :
    {A B : Type 0} (f : A → M B) (t : Tables) (Q : Tables → Type 0) (r : Kb × Result A)
    → r.0.tables ≡ t
    → ((a : A) (k : Kb) → k.tables ≡ t → Commits t Q (f a k))
    → Commits t Q (bind_result f r)
before_result-Commits f t Q (k, ok a) e h = h a k e
before_result-Commits f t Q (k, failed x) e h = inl e

-- A call from the tables `t` that leaves them or has the effect `Q`.
unfoldable pub Does : {A : Type 0} → M A → Tables → (Tables → Type 0) → Type 0
Does m t Q = (k : Kb) → k.tables ≡ t → Commits t Q (m k)

pub transaction-Does :
    {A : Type 0} (body : M A) (t : Tables) (Q : Tables → Type 0)
    → After body t (λ _. Q)
    → Does (transaction body) t Q
unfolding Does After
transaction-Does body t Q h = λ k e.
    subst (λ u. Commits u Q (transaction body k)) e
      (transaction-Commits body k Q (λ k' e'. h k' (e' ∙ e)))

-- A read after it.
pub read_after-Does :
    {A B : Type 0} (m : M A) (f : A → M B) (t : Tables) (Q : Tables → Type 0)
    → ((a : A) → Reads (f a))
    → Does m t Q
    → Does (m >>= f) t Q
unfolding Does Reads ◌>>=◌
read_after-Does m f t Q h d = λ k e. then_result-Commits f t Q (m k) h (d k e)

-- A read, a guard or a new id before it.
pub read_before-Does :
    {A B : Type 0} (m : M A) (f : A → M B) (t : Tables) (Q : Tables → Type 0)
    → Reads m
    → ((a : A) → Does (f a) t Q)
    → Does (m >>= f) t Q
unfolding Does Reads ◌>>=◌
read_before-Does m f t Q r d = λ k e. before_result-Commits f t Q (m k) (r k ∙ e) d
