-- ===== src/Kb/Logic.antt =====
-- go-watch-file/internal/kb/service.go: what holds after a call that returns, composed statement by statement.
use go_watch_file.Base.{
  ◌≡◌, refl, sym, ap, subst, ◌∙◌, Bool, true, false, Option, none, some, if◌then◌else◌,
}
use go_watch_file.Base.Str.{Str}
use go_watch_file.Kb.Types.{Tables}
use go_watch_file.Kb.Store.{
  KbError, Result, ok, failed, Kb, M, bind_result, ◌>>=◌, pure, raise, raise_if, when, or_raise,
  written, first_fault, rest_faults, database_error, exec, select, new_id,
}

-- A property of the value and the tables of a call that returns.
abbrev pub Holds : {A : Type 0} → (A → Tables → Type 0) → Kb × Result A → Type 0
Holds Q (k, ok a) = Q a k.tables
Holds Q (k, failed e) = Unit

-- What a call from the tables `t` establishes.
unfoldable pub After : {A : Type 0} → M A → Tables → (A → Tables → Type 0) → Type 0
After m t Q = (k : Kb) → k.tables ≡ t → Holds Q (m k)

Holds-if :
    {A : Type 0} (Q : A → Tables → Type 0) (b : Bool) (r s : Kb × Result A)
    → Holds Q r
    → Holds Q s
    → Holds Q (if b then r else s)
Holds-if Q true r s hr hs = hr
Holds-if Q false r s hr hs = hs

Holds-bind :
    {A B : Type 0} (f : A → M B) (Q : B → Tables → Type 0) (r : Kb × Result A)
    → Holds (λ a t. After (f a) t Q) r
    → Holds Q (bind_result f r)
unfolding After
Holds-bind f Q (k, ok a) h = h k refl
Holds-bind f Q (k, failed e) h = tt

pub After-bind :
    {A B : Type 0} (m : M A) (f : A → M B) (t : Tables) (Q : B → Tables → Type 0)
    → After m t (λ a t'. After (f a) t' Q)
    → After (m >>= f) t Q
unfolding ◌>>=◌ After
After-bind m f t Q h = λ k e. Holds-bind f Q (m k) (h k e)

Holds-weaken :
    {A : Type 0} (P Q : A → Tables → Type 0) (r : Kb × Result A)
    → ((a : A) (t : Tables) → P a t → Q a t)
    → Holds P r
    → Holds Q r
Holds-weaken P Q (k, ok a) w h = w a k.tables h
Holds-weaken P Q (k, failed e) w h = tt

pub After-weaken :
    {A : Type 0} (m : M A) (t : Tables) (P Q : A → Tables → Type 0)
    → After m t P
    → ((a : A) (t' : Tables) → P a t' → Q a t')
    → After m t Q
unfolding After
After-weaken m t P Q h w = λ k e. Holds-weaken P Q (m k) w (h k e)

Holds-any : {A : Type 0} (r : Kb × Result A) → Holds (λ _ _. Unit {0}) r
Holds-any (k, ok a) = tt
Holds-any (k, failed e) = tt

pub After-any : {A : Type 0} (m : M A) (t : Tables) → After m t (λ _ _. Unit {0})
unfolding After
After-any m t = λ k e. Holds-any (m k)

pub After-if :
    {A : Type 0} (b : Bool) (m n : M A) (t : Tables) (Q : A → Tables → Type 0)
    → (b ≡ true → After m t Q)
    → (b ≡ false → After n t Q)
    → After (if b then m else n) t Q
After-if true m n t Q y f = y refl
After-if false m n t Q y f = f refl

pub After-pure :
    {A : Type 0} (a : A) (t : Tables) (Q : A → Tables → Type 0) → Q a t → After (pure a) t Q
unfolding pure After
After-pure a t Q q = λ k e. subst (Q a) (sym e) q

pub After-raise_if :
    (b : Bool) (e : KbError) (t : Tables) (Q : Unit {0} → Tables → Type 0)
    → (b ≡ false → Q tt t)
    → After (raise_if b e) t Q
unfolding raise_if After
After-raise_if true e t Q q = λ k h. tt
After-raise_if false e t Q q = λ k h. subst (Q tt) (sym h) (q refl)

pub After-or_raise :
    {A : Type 0} (o : Option A) (e : KbError) (t : Tables) (Q : A → Tables → Type 0)
    → ((a : A) → o ≡ some a → Q a t)
    → After (or_raise o e) t Q
unfolding or_raise raise pure After
After-or_raise none e t Q q = λ k h. tt
After-or_raise (some a) e t Q q = λ k h. subst (Q a) (sym h) (q a refl)

pub After-when :
    (b : Bool) (m : M (Unit {0})) (t : Tables) (Q : Unit {0} → Tables → Type 0)
    → (b ≡ true → After m t Q)
    → (b ≡ false → Q tt t)
    → After (when b m) t Q
unfolding when After
After-when true m t Q y n = y refl
After-when false m t Q y n = λ k h. subst (Q tt) (sym h) (n refl)

Holds-written :
    (o : Option Tables) (k : Kb) (Q : Unit {0} → Tables → Type 0)
    → ((t : Tables) → o ≡ some t → Q tt t)
    → Holds Q (written o k)
Holds-written none k Q q = tt
Holds-written (some t) k Q q = q t refl

pub After-exec :
    (change : Tables → Option Tables) (t : Tables) (Q : Unit {0} → Tables → Type 0)
    → ((t' : Tables) → change t ≡ some t' → Q tt t')
    → After (exec change) t Q
unfolding exec After
After-exec change t Q q = λ k e.
    let k' : Kb = record k { faults = rest_faults k.faults } in
    Holds-if Q (first_fault k.faults) (k', failed database_error) (written (change k.tables) k') tt
      (Holds-written (change k.tables) k' Q (λ t' h. q t' (ap change (sym e) ∙ h)))

pub After-select :
    {A : Type 0} (look : Tables → A) (t : Tables) (Q : A → Tables → Type 0)
    → Q (look t) t
    → After (select look) t Q
unfolding select After
After-select look t Q q = λ k e.
    let k' : Kb = record k { faults = rest_faults k.faults } in
    Holds-if Q (first_fault k.faults) (k', failed database_error) (k', ok (look k.tables)) tt
      (subst (λ u. Q (look u) u) (sym e) q)

pub After-new_id :
    (kind : Str) (t : Tables) (Q : Str → Tables → Type 0)
    → ((id : Str) → Q id t)
    → After (new_id kind) t Q
unfolding new_id After
After-new_id kind t Q q = λ k e. subst (Q _) (sym e) (q _)

-- The first statement of a block.
pub select-then :
    {A B : Type 0} (look : Tables → A) (f : A → M B) (t : Tables) (Q : B → Tables → Type 0)
    → After (f (look t)) t Q
    → After (select look >>= f) t Q
select-then look f t Q h =
    After-bind (select look) f t Q (After-select look t (λ a u. After (f a) u Q) h)

pub new_id-then :
    {B : Type 0} (kind : Str) (f : Str → M B) (t : Tables) (Q : B → Tables → Type 0)
    → ((id : Str) → After (f id) t Q)
    → After (new_id kind >>= f) t Q
new_id-then kind f t Q h =
    After-bind (new_id kind) f t Q (After-new_id kind t (λ a u. After (f a) u Q) h)

pub raise_if-then :
    {B : Type 0} (b : Bool) (e : KbError) (f : Unit {0} → M B) (t : Tables)
    (Q : B → Tables → Type 0)
    → (b ≡ false → After (f tt) t Q)
    → After (raise_if b e >>= f) t Q
raise_if-then b e f t Q h =
    After-bind (raise_if b e) f t Q (After-raise_if b e t (λ a u. After (f a) u Q) h)

pub or_raise-then :
    {A B : Type 0} (o : Option A) (e : KbError) (f : A → M B) (t : Tables) (Q : B → Tables → Type 0)
    → ((a : A) → o ≡ some a → After (f a) t Q)
    → After (or_raise o e >>= f) t Q
or_raise-then o e f t Q h =
    After-bind (or_raise o e) f t Q (After-or_raise o e t (λ a u. After (f a) u Q) h)

-- A part known by what it establishes.
pub known-then :
    {A B : Type 0} (m : M A) (f : A → M B) (t : Tables) (P : A → Tables → Type 0)
    (Q : B → Tables → Type 0)
    → After m t P
    → ((a : A) (u : Tables) → P a u → After (f a) u Q)
    → After (m >>= f) t Q
known-then m f t P Q hm h = After-bind m f t Q (After-weaken m t P (λ a u. After (f a) u Q) hm h)
