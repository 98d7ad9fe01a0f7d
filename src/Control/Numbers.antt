-- ===== src/Control/Numbers.antt =====
-- go-watch-file/internal/api/control_handlers.go, nextControlTaskIDLocked: the numbers of the tasks.
use go_watch_file.Base.{
  ℕ, ◌+◌, ◌^◌, ◌≤◌, ◌<◌, ◌≡◌, refl, sym, ap, subst, ◌∙◌, Bool, true, false, some, List, inl, inr,
  arith, Bool-cases, drop,
}
use mathlib.Core.Path.{subst₂}
use go_watch_file.Base.Str.{Str, str_eq, str_eq_iff, pad6-injective}
use go_watch_file.Base.Assoc.{lookup, insert, lookup-insert}
use go_watch_file.Control.Types.{TaskState}
use go_watch_file.Control.Db.{Handler}
use go_watch_file.Control.Tasks.{task_id_of, new_task}
use go_watch_file.Control.Machine.{Change, kept, moved, skipped, created, Changes, here, after}
use go_watch_file.Control.Agents.{u64}

-- Every task stands under the id of a number that was given out.
abbrev pub Numbered : Handler → Type 0
Numbered h =
    (k : Str) (t : TaskState)
    → lookup k h.tasks ≡ some t
    → (n : ℕ) × (k ≡ task_id_of n) × (n ≤ h.next_task_seq)

pub task_id_of-injective : (n m : ℕ) → task_id_of n ≡ task_id_of m → n ≡ m
unfolding task_id_of
task_id_of-injective n m e = pad6-injective n m (ap (drop 4) e)

pub u64_small : (n : ℕ) → n + 1 < 2 ^ 64 → u64 (n + 1) ≡ n + 1
u64_small n h = omega arith

-- The entries of `m` have numbers up to `n`.
abbrev UpTo : ℕ → List (Str × TaskState) → Type 0
UpTo n m = (k : Str) (t : TaskState) → lookup k m ≡ some t → (i : ℕ) × (k ≡ task_id_of i) × (i ≤ n)

insert-UpTo :
    (n i : ℕ) (key : Str) (u : TaskState) (m : List (Str × TaskState))
    → key ≡ task_id_of i
    → i ≤ n
    → UpTo n m
    → UpTo n (insert key u m)
insert-UpTo n i key u m e le num k t l = elim (Bool-cases (str_eq key k)) [
  | inl same ↦ (i, sym ((str_eq_iff key k).0 same) ∙ e, le)
  | inr other ↦ num k t (rw (lookup-insert, other) at l)
]

UpTo-mono : (n m : ℕ) (ts : List (Str × TaskState)) → n ≤ m → UpTo n ts → UpTo m ts
UpTo-mono n m ts le num k t l = let (i, e, b) = num k t l in (i, e, omega arith)

Change-Numbered :
    (now : ℕ) (makes : Bool) (h g : Handler)
    → Change now makes h g
    → h.next_task_seq + 1 < 2 ^ 64
    → Numbered h
    → Numbered g
Change-Numbered now makes h g (kept e f n) room num = subst₂ UpTo (sym n) (sym e) num
Change-Numbered now makes h g (moved key t u l edge e f n) room num =
    let (i, at, le) = num key t l in
    subst₂ UpTo (sym n) (sym e) (insert-UpTo h.next_task_seq i key u h.tasks at le num)
Change-Numbered now makes h g (skipped m e f n) room num =
    let up : g.next_task_seq ≡ h.next_task_seq + 1 = n ∙ u64_small h.next_task_seq room in
    subst₂ UpTo (sym up) (sym e) (UpTo-mono h.next_task_seq _ h.tasks (omega arith) num)
Change-Numbered now makes h g (created key req m next n l e f) room num =
    let up : g.next_task_seq ≡ h.next_task_seq + 1 = n ∙ u64_small h.next_task_seq room in
    subst (UpTo g.next_task_seq) (sym e) (
      insert-UpTo g.next_task_seq g.next_task_seq key (new_task key req now) h.tasks next
        (omega arith) (UpTo-mono h.next_task_seq _ h.tasks (omega (arith, up)) num))

-- A request that makes no task gives out no number.
Change-seq : (now : ℕ) (h g : Handler) → Change now false h g → g.next_task_seq ≡ h.next_task_seq
Change-seq now h g (kept e f n) = n
Change-seq now h g (moved key t u l edge e f n) = n
Change-seq now h g (skipped m e f n) = absurd cc
Change-seq now h g (created key req m next n l e f) = absurd cc

abbrev pub Counted : Handler → Handler → Type 0
Counted h g = Numbered g × (g.next_task_seq ≤ h.next_task_seq + 1)

Changes-Counted :
    {now : ℕ} {h g : Handler}
    → Changes now false h g
    → h.next_task_seq + 1 < 2 ^ 64
    → Numbered h
    → Numbered g × (g.next_task_seq ≡ h.next_task_seq)
Changes-Counted here room num = (num, refl)
Changes-Counted {now} {h} (after {g} {k} cs c) room num =
    let (num', same) = Changes-Counted cs room num in
    (Change-Numbered now false g k c (rw same room) num', Change-seq now g k c ∙ same)

pub Change-Counted :
    (now : ℕ) (h g : Handler)
    → Change now true h g
    → h.next_task_seq + 1 < 2 ^ 64
    → Numbered h
    → Counted h g
Change-Counted now h g c room num = (Change-Numbered now true h g c room num, most c)
  where
    most : Change now true h g → g.next_task_seq ≤ h.next_task_seq + 1
    most (kept e f n) = omega (arith, n)
    most (moved key t u l edge e f n) = omega (arith, n)
    most (skipped m e f n) = omega (arith, n, u64_small h.next_task_seq room)
    most (created key req m next n l e f) = omega (arith, n, u64_small h.next_task_seq room)

pub steady-Counted :
    {now : ℕ} {h g : Handler}
    → Changes now false h g
    → h.next_task_seq + 1 < 2 ^ 64
    → Numbered h
    → Counted h g
steady-Counted cs room num =
    let (num', same) = Changes-Counted cs room num in (num', omega (arith, same))
