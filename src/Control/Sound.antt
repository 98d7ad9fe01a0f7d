-- ===== src/Control/Sound.antt =====
-- go-watch-file/internal/api: the tasks of the control plane and their rows, over any sequence of requests.
use go_watch_file.Base.{
  ℕ, Bool, ◌≡◌, refl, sym, ap, ◌∙◌, subst, Option, none, some, List, [], ◌∷◌, inl, inr, arith,
  Bool-cases,
}
use mathlib.Core.Path.{subst₂}
use mathlib.Core.Option
use go_watch_file.Base.Str.{Str, str_eq, str_eq_iff}
use go_watch_file.Base.Assoc.{lookup, insert, lookup-insert}
use go_watch_file.Control.Types.{success, TaskState, CreateTaskRequest}
use go_watch_file.Control.Db.{Handler, task_row}
use go_watch_file.Control.Tasks.{new_task}
use go_watch_file.Control.Machine.{rows, put_row, Change, kept, skipped, moved, created}
use go_watch_file.Control.Keys.{Distinct, insert-Distinct}
use go_watch_file.Control.Life.{
  IsValid, new_task-IsValid, Edge-IsValid, Edge-not-success, SameTask, Edge-SameTask, SameTask-refl,
}

some_eq : (a b : TaskState) → ◌≡◌ {A = Option TaskState} (some a) (some b) → a ≡ b
some_eq a b e = cc

-- The row of each task, and no other row.
abbrev pub Mirrors : Option (List (Str × TaskState)) → List (Str × TaskState) → Type 0
Mirrors none m = Unit
Mirrors (some r) m = (k : Str) → lookup k r ≡ Option.map task_row (lookup k m)

-- The tasks stand under their ids, each is valid, and the rows of the store are theirs.
pub record Sound (h : Handler) : Type 0 where
  pub distinct : Distinct h.tasks
  pub valid : (k : Str) (t : TaskState) → lookup k h.tasks ≡ some t → IsValid t
  pub mirrors : Mirrors (rows h.store) h.tasks

lookup-id :
    (k : Str) (t : TaskState) (m : List (Str × TaskState))
    → Distinct m
    → lookup k m ≡ some t
    → t.id ≡ k
unfolding lookup
lookup-id k t [] d e = cc
lookup-id k t ((j, u) ∷ m) d e = ground (arith, d.1, str_eq_iff j k, lookup-id k t m d.2)

insert-Valid :
    (key : Str) (u : TaskState) (m : List (Str × TaskState))
    → IsValid u
    → ((k : Str) (t : TaskState) → lookup k m ≡ some t → IsValid t)
    → (k : Str) (t : TaskState) → lookup k (insert key u m) ≡ some t
    → IsValid t
insert-Valid key u m v old k t e = elim (Bool-cases (str_eq key k)) [
  | inl same ↦
      let eq : ◌≡◌ {A = Option TaskState} (some u) (some t) = rw (lookup-insert, same) at e in
      subst IsValid (some_eq u t eq) v
  | inr other ↦ old k t (rw (lookup-insert, other) at e)
]

put-Mirrors :
    (key : Str) (u : TaskState) (r : Option (List (Str × TaskState))) (m : List (Str × TaskState))
    → Mirrors r m
    → Mirrors (put_row key (task_row u) r) (insert key u m)
put-Mirrors key u none m h = tt
put-Mirrors key u (some r) m h =
    λ k. rw (lookup-insert key k (task_row u) r, lookup-insert key k u m) (ground (arith, h k))

pub insert-Sound :
    (key : Str) (u : TaskState) (h g : Handler)
    → u.id ≡ key
    → IsValid u
    → g.tasks ≡ insert key u h.tasks
    → rows g.store ≡ put_row key (task_row u) (rows h.store)
    → Sound h
    → Sound g
insert-Sound key u h g same v e f s = record {
  distinct = subst Distinct (sym e) (insert-Distinct key u h.tasks same s.distinct);
  valid =
      subst (λ m. (k : Str) (t : TaskState) → lookup k m ≡ some t → IsValid t) (sym e)
        (insert-Valid key u h.tasks v s.valid);
  mirrors = subst₂ Mirrors (sym f) (sym e) (put-Mirrors key u (rows h.store) h.tasks s.mirrors);
}

new_task-id : (id : Str) (req : CreateTaskRequest) (now : ℕ) → (new_task id req now).id ≡ id
unfolding new_task
new_task-id id req now = refl

pub Change-Sound :
    (now : ℕ) (makes : Bool) (h g : Handler) → Change now makes h g → Sound h → Sound g
Change-Sound now makes h g (kept e f n) s = record {
  distinct = subst Distinct (sym e) s.distinct;
  valid = subst (λ m. (k : Str) (t : TaskState) → lookup k m ≡ some t → IsValid t) (sym e) s.valid;
  mirrors = subst₂ Mirrors (sym f) (sym e) s.mirrors;
}
Change-Sound now makes h g (skipped m e f n) s = record {
  distinct = subst Distinct (sym e) s.distinct;
  valid = subst (λ m. (k : Str) (t : TaskState) → lookup k m ≡ some t → IsValid t) (sym e) s.valid;
  mirrors = subst₂ Mirrors (sym f) (sym e) s.mirrors;
}
Change-Sound now makes h g (moved key t u l edge e f n) s =
    let same : u.id ≡ key = (Edge-SameTask now t u edge).0 ∙ lookup-id key t h.tasks s.distinct l in
    insert-Sound key u h g same (Edge-IsValid now t u edge (s.valid key t l)) e
      (subst (λ k. rows g.store ≡ put_row k (task_row u) (rows h.store)) same f) s
Change-Sound now makes h g (created key req m next n l e f) s =
    insert-Sound key (new_task key req now) h g (new_task-id key req now)
      (new_task-IsValid key req now) e f s

-- A task stays the same task, and if it succeeded it stays as it is.
abbrev pub Kept : Str → TaskState → Handler → Type 0
Kept k t g =
    (u : TaskState) × (lookup k g.tasks ≡ some u) × SameTask t u × (t.status ≡ success → u ≡ t)

pub Change-Kept :
    (now : ℕ) (makes : Bool) (k : Str) (t : TaskState) (h g : Handler)
    → Change now makes h g
    → lookup k h.tasks ≡ some t
    → Kept k t g
Change-Kept now makes k t h g (kept e f n) l = (t, rw e l, SameTask-refl t, λ s. refl)
Change-Kept now makes k t h g (skipped m e f n) l = (t, rw e l, SameTask-refl t, λ s. refl)
Change-Kept now makes k t h g (moved key v u l' edge e f n) l = elim (Bool-cases (str_eq key k)) [
  | inl same ↦
      let at : key ≡ k = (str_eq_iff key k).0 same in
      let one : v ≡ t = some_eq v t (sym l' ∙ ap (λ i. lookup i h.tasks) at ∙ l) in
      (
        u,
        rw e (lookup-insert key k u h.tasks ∙ rw same),
        subst (λ x. SameTask x u) one (Edge-SameTask now v u edge),
        λ s. absurd (Edge-not-success now v u edge (ap (λ (x : TaskState). x.status) one ∙ s)),
      )
  | inr other ↦ (t, rw e (lookup-insert key k u h.tasks ∙ (rw other l)), SameTask-refl t, λ s. refl)
]
Change-Kept now makes k t h g (created key req m next n l' e f) l =
    elim (Bool-cases (str_eq key k)) [
      | inl same ↦
          absurd (no_task (sym l' ∙ ap (λ i. lookup i h.tasks) ((str_eq_iff key k).0 same) ∙ l))
      | inr other ↦
          (t, rw e (lookup-insert key k _ h.tasks ∙ (rw other l)), SameTask-refl t, λ s. refl)
    ]
  where
    no_task : {x : TaskState} → ◌≡◌ {A = Option TaskState} none (some x) → ⊥
    no_task e = cc
