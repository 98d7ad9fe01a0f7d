-- ===== src/Control/Order.antt =====
-- go-watch-file/internal/api/control_dispatch.go, controlAssignNextTaskLocked: which of the waiting tasks is
-- assigned.
use go_watch_file.Base.{
  ℕ, ◌+◌, ◌<◌, ◌&&◌, ◌≡◌, refl, sym, true, false, Option, none, some, List, [], ◌∷◌, ◌⊎◌, inl, inr,
  arith, if_elim, Bool-cases, subst, if◌then◌else◌,
}
use go_watch_file.Base.Str.{Str, bytes, str_eq, str_eq_iff, to_lower}
use go_watch_file.Base.Trim.{trim_space}
use go_watch_file.Control.Types.{TaskState, pending, assigned, is_pending}
use go_watch_file.Control.Db.{Handler, persist_task}
use go_watch_file.Control.Timeouts.{store_task}
use go_watch_file.Control.Sort.{str_less, priority_weight, precedes, sort_tasks}
use go_watch_file.Control.Dispatch.{
  mem_str, accepts, candidates, assigned_state, assign_first, assign_next,
}
use go_watch_file.Control.Sorted.{
  First, Headed, Among, sort_tasks-Headed, sort_tasks-Among, sort_tasks-rest, precedes_irrefl,
  sort_tasks-empty, All-Among,
}

-- The order of waiting tasks, apart from the comparison of the source: tasks that say "high" stand
-- above all others, and those that say "low" below.
unfoldable pub level : Str → ℕ
level raw =
    if str_eq (to_lower (trim_space raw)) (bytes "high")
    then 2
    else if str_eq (to_lower (trim_space raw)) (bytes "low")
    then 0
    else 1

-- The order of texts by their bytes.
abbrev pub Less : Str → Str → Type 0
Less [] [] = ⊥
Less [] (y ∷ ys) = Unit
Less (x ∷ xs) [] = ⊥
Less (x ∷ xs) (y ∷ ys) = (x < y) ⊎ ((x ≡ y) × Less xs ys)

-- Of a higher priority, or of the same and older, or of the same age too and with a smaller id.
pub data Before (v t : TaskState) : Type 0 where
  higher : level t.priority < level v.priority → Before v t
  older : level v.priority ≡ level t.priority → v.created_at < t.created_at → Before v t
  smaller :
      level v.priority ≡ level t.priority
      → v.created_at ≡ t.created_at
      → Less v.id t.id
      → Before v t

-- The tasks of the map.
abbrev pub In : TaskState → List (Str × TaskState) → Type 0
In v [] = ⊥
In v ((k, u) ∷ m) = (v ≡ u) ⊎ In v m

abbrev pub OneOf : Str → List Str → Type 0
OneOf x [] = ⊥
OneOf x (y ∷ ys) = (y ≡ x) ⊎ OneOf x ys

-- A task that waits and is of a type that is taken: any type, if no type is named.
abbrev pub Waiting : List Str → TaskState → Type 0
Waiting kinds v = (v.status ≡ pending) × ((kinds ≡ []) ⊎ OneOf v.kind kinds)

abbrev pub Best : List Str → List (Str × TaskState) → TaskState → Type 0
Best kinds m t =
    In t m × Waiting kinds t × ((v : TaskState) → In v m → Waiting kinds v → ¬ Before v t)

-- What an assignment answers: an error, as the best task's row could not be written, or nothing, as
-- no task of the map fits, or the best task, assigned to the agent, its row being written.
abbrev pub Chosen : Str → List Str → ℕ → Handler → Option (Option TaskState) → Type 0
Chosen agent kinds now h none =
    (t : TaskState) × Best kinds h.tasks t
    × ((persist_task (assigned_state t agent now) h).1 ≡ false)
Chosen agent kinds now h (some none) = (v : TaskState) → In v h.tasks → ¬ Waiting kinds v
Chosen agent kinds now h (some (some u)) =
    (t : TaskState) × Best kinds h.tasks t
    × (u ≡ record t { status = assigned; assigned_agent_id = agent; updated_at = now })
    × ((persist_task u h).1 ≡ true)

weight-level : (p : Str) → priority_weight p ≡ level p + 1
unfolding priority_weight level str_eq
weight-level p = weigh (to_lower (trim_space p))
  where
    weigh :
        (s : Str)
        → (if str_eq s (bytes "high")
            then 3
            else if str_eq s (bytes "normal")
            then 2
            else if str_eq s (bytes "low")
            then 1
            else 2)
          ≡ (if str_eq s (bytes "high") then 2 else if str_eq s (bytes "low") then 0 else 1) + 1
    weigh s = elim (Bool-cases (str_eq s (bytes "normal"))) [
      | inl normal ↦ rw ((str_eq_iff s (bytes "normal")).0 normal) refl
      | inr other ↦ ground arith
    ]

Less-str_less : (a b : Str) → Less a b → str_less a b ≡ true
unfolding str_less
Less-str_less [] [] h = absurd h
Less-str_less [] (y ∷ ys) h = refl
Less-str_less (x ∷ xs) [] h = absurd h
Less-str_less (x ∷ xs) (y ∷ ys) (inl lt) = ground arith
Less-str_less (x ∷ xs) (y ∷ ys) (inr (e, lt)) = ground (arith, e, Less-str_less xs ys lt)

Before-precedes : (v t : TaskState) → Before v t → precedes v t ≡ true
unfolding precedes
Before-precedes v t (higher lt) = ground (arith, weight-level v.priority, weight-level t.priority)
Before-precedes v t (older e lt) = ground (arith, weight-level v.priority, weight-level t.priority)
Before-precedes v t (smaller e f lt) =
    ground (arith, weight-level v.priority, weight-level t.priority, Less-str_less v.id t.id lt)

not-Before : (v t : TaskState) → precedes v t ≡ false → ¬ Before v t
not-Before v t h b = absurd (let on = Before-precedes v t b in cc)

mem_str-OneOf : (x : Str) (ks : List Str) → mem_str x ks ≡ true → OneOf x ks
unfolding mem_str
mem_str-OneOf x [] h = absurd cc
mem_str-OneOf x (k ∷ ks) h = elim (Bool-cases (str_eq k x)) [
  | inl same ↦ inl ((str_eq_iff k x).0 same)
  | inr other ↦ inr (mem_str-OneOf x ks (ground arith))
]

OneOf-mem_str : (x : Str) (ks : List Str) → OneOf x ks → mem_str x ks ≡ true
unfolding mem_str
OneOf-mem_str x [] h = absurd h
OneOf-mem_str x (k ∷ ks) (inl e) = ground (arith, (str_eq_iff k x).1 e)
OneOf-mem_str x (k ∷ ks) (inr m) = ground (arith, OneOf-mem_str x ks m)

accepts-Waiting :
    (kinds : List Str) (v : TaskState)
    → (is_pending v.status && accepts kinds v) ≡ true
    → Waiting kinds v
accepts-Waiting [] v h = (ground arith, inl refl)
accepts-Waiting (k ∷ ks) v h = (ground arith, inr (mem_str-OneOf v.kind (k ∷ ks) (ground arith)))

Waiting-accepts :
    (kinds : List Str) (v : TaskState)
    → Waiting kinds v
    → (is_pending v.status && accepts kinds v) ≡ true
Waiting-accepts [] v (p, a) = rw p refl
Waiting-accepts (k ∷ ks) v (p, inl e) = absurd cc
Waiting-accepts (k ∷ ks) v (p, inr m) = rw p (OneOf-mem_str v.kind (k ∷ ks) m)

candidates_sound :
    (v : TaskState) (kinds : List Str) (m : List (Str × TaskState))
    → Among v (candidates kinds m)
    → In v m × Waiting kinds v
unfolding candidates
candidates_sound v kinds [] a = absurd a
candidates_sound v kinds ((k, u) ∷ m) a =
    elim (Bool-cases (is_pending u.status && accepts kinds u)) [
      | inl fits ↦
          let a' : (v ≡ u) ⊎ Among v (candidates kinds m) = rw fits at a in
          elim a' [
            | inl e ↦ (inl e, subst (Waiting kinds) (sym e) (accepts-Waiting kinds u fits))
            | inr b ↦ let (i, w) = candidates_sound v kinds m b in (inr i, w)
          ]
      | inr misfit ↦ let (i, w) = candidates_sound v kinds m (rw misfit at a) in (inr i, w)
    ]

candidates_complete :
    (v : TaskState) (kinds : List Str) (m : List (Str × TaskState))
    → In v m
    → Waiting kinds v
    → Among v (candidates kinds m)
unfolding candidates
candidates_complete v kinds [] i w = absurd i
candidates_complete v kinds ((k, u) ∷ m) (inl e) w =
    rw (subst (λ x. (is_pending x.status && accepts kinds x) ≡ true) e (Waiting-accepts kinds v w))
      (inl e)
candidates_complete v kinds ((k, u) ∷ m) (inr i) w =
    let rest = candidates_complete v kinds m i w in
    if_elim (Among v) (is_pending u.status && accepts kinds u) (λ fits. inr rest) (λ misfit. rest)

First-Best :
    (t : TaskState) (kinds : List Str) (m : List (Str × TaskState))
    → Among t (candidates kinds m)
    → First t (candidates kinds m)
    → Best kinds m t
First-Best t kinds m a f =
    let (i, w) = candidates_sound t kinds m a in
    (
      i,
      w,
      λ v j u. not-Before v t (
          All-Among (λ x. precedes x t ≡ false) v (candidates kinds m) f
            (candidates_complete v kinds m j u)),
    )

assign_first-Chosen :
    (sorted : List TaskState) (agent : Str) (kinds : List Str) (now : ℕ) (h : Handler)
    → sort_tasks (candidates kinds h.tasks) ≡ sorted
    → Chosen agent kinds now h (assign_first sorted agent now h).1
unfolding assign_first store_task assigned_state
assign_first-Chosen [] agent kinds now h e = λ v i w.
    subst (Among v) (sort_tasks-empty (candidates kinds h.tasks) e)
      (candidates_complete v kinds h.tasks i w)
assign_first-Chosen (t ∷ sorted) agent kinds now h e =
    let ts = candidates kinds h.tasks in
    let among : Among t ts = sort_tasks-Among t ts (subst (Among t) (sym e) (inl refl)) in
    let first : First t ts =
      sort_tasks-rest (λ v. precedes v t ≡ false) ts
        (subst (First t) (sym e) (precedes_irrefl t, subst Headed e (sort_tasks-Headed ts))) in
    let best = First-Best t kinds h.tasks among first in
    elim (Bool-cases (persist_task (assigned_state t agent now) h).1) [
      | inl ok ↦ rw ok (t, best, refl, ok)
      | inr bad ↦ rw bad (t, best, bad)
    ]

-- An assignment answers an error only if the row of the best task could not be written, or that there is
-- none as no task of the map waits that is of a type that the agent takes, or it answers the best such
-- task, assigned to the agent, and its row could be written. The best task is one of the map that waits and is of such a type, and no
-- other of these has a higher priority ("high" over all else, "low" under all else, whatever its case),
-- or the same priority and an earlier time of creation, or both the same and a smaller id.
pub assign_next-Chosen :
    (agent : Str) (kinds : List Str) (now : ℕ) (h : Handler)
    → Chosen agent kinds now h (assign_next agent kinds now h).1
unfolding assign_next
assign_next-Chosen agent kinds now h =
    assign_first-Chosen (sort_tasks (candidates kinds h.tasks)) agent kinds now h refl
