-- ===== src/Control/Sorted.antt =====
-- go-watch-file/internal/api/control_dispatch.go, controlAssignNextTaskLocked: the sorted candidates.
use go_watch_file.Base.{
  ◌≡◌, refl, sym, true, false, List, [], ◌∷◌, ◌⊎◌, inl, inr, arith, if_elim, Bool-cases, subst, All,
}
use go_watch_file.Base.Str.{Str}
use go_watch_file.Control.Types.{TaskState}
use go_watch_file.Control.Sort.{str_less, precedes, insert_sorted, sort_tasks}

str_less-asym : (a b : Str) → str_less a b ≡ true → str_less b a ≡ false
unfolding str_less
str_less-asym [] [] h = refl
str_less-asym [] (y ∷ ys) h = refl
str_less-asym (x ∷ xs) [] h = cc
str_less-asym (x ∷ xs) (y ∷ ys) h = ground (arith, str_less-asym xs ys)

-- What is before `c` is before whatever is not before `c`.
str_less-before : (a b c : Str) → str_less a c ≡ true → str_less b c ≡ false → str_less a b ≡ true
unfolding str_less
str_less-before [] [] [] h k = cc
str_less-before [] [] (z ∷ zs) h k = cc
str_less-before [] (y ∷ ys) c h k = refl
str_less-before (x ∷ xs) b [] h k = cc
str_less-before (x ∷ xs) [] (z ∷ zs) h k = cc
str_less-before (x ∷ xs) (y ∷ ys) (z ∷ zs) h k = ground (arith, str_less-before xs ys zs)

precedes-asym : (a b : TaskState) → precedes a b ≡ true → precedes b a ≡ false
unfolding precedes
precedes-asym a b h = ground (arith, str_less-asym a.id b.id)

precedes-before :
    (a b c : TaskState) → precedes a c ≡ true → precedes b c ≡ false → precedes a b ≡ true
unfolding precedes
precedes-before a b c h k = ground (arith, str_less-before a.id b.id c.id)

-- Nothing in the list comes before `t`.
abbrev pub First : TaskState → List TaskState → Type 0
First t ts = All (λ v. precedes v t ≡ false) ts

abbrev pub Headed : List TaskState → Type 0
Headed [] = Unit
Headed (t ∷ ts) = First t ts

abbrev pub Among : TaskState → List TaskState → Type 0
Among t [] = ⊥
Among t (u ∷ us) = (t ≡ u) ⊎ Among t us

First-mono :
    (t u : TaskState) (ts : List TaskState) → precedes u t ≡ false → First u ts → First t ts
First-mono t u [] h f = tt
First-mono t u (v ∷ vs) h f =
    (ground (arith, h, f.0, precedes-before v u t), First-mono t u vs h f.1)

insert_sorted-First :
    (v t : TaskState) (us : List TaskState)
    → precedes t v ≡ false
    → First v us
    → First v (insert_sorted t us)
unfolding insert_sorted
insert_sorted-First v t [] h f = (h, tt)
insert_sorted-First v t (u ∷ us) h f =
    if_elim (First v) (precedes u t) (λ on. (f.0, insert_sorted-First v t us h f.1))
      (λ here. (h, f))

insert_sorted-Headed :
    (t : TaskState) (us : List TaskState) → Headed us → Headed (insert_sorted t us)
unfolding insert_sorted
insert_sorted-Headed t [] h = tt
insert_sorted-Headed t (u ∷ us) h =
    if_elim Headed (precedes u t) (λ on. insert_sorted-First u t us (precedes-asym u t on) h)
      (λ here. (here, First-mono t u us here h))

pub sort_tasks-Headed : (ts : List TaskState) → Headed (sort_tasks ts)
unfolding sort_tasks
sort_tasks-Headed [] = tt
sort_tasks-Headed (t ∷ ts) = insert_sorted-Headed t (sort_tasks ts) (sort_tasks-Headed ts)

-- The sorting neither adds nor drops a task.
insert_sorted-Among :
    (v t : TaskState) (us : List TaskState) → Among v (insert_sorted t us) → (v ≡ t) ⊎ Among v us
unfolding insert_sorted
insert_sorted-Among v t [] m = m
insert_sorted-Among v t (u ∷ us) m = elim (Bool-cases (precedes u t)) [
  | inl on ↦
      let m1 : (v ≡ u) ⊎ Among v (insert_sorted t us) = rw on at m in
      elim m1 [
        | inl e ↦ inr (inl e)
        | inr m2 ↦ elim (insert_sorted-Among v t us m2) [ inl e ↦ inl e | inr a ↦ inr (inr a) ]
      ]
  | inr here ↦ rw here at m
]

pub sort_tasks-Among : (v : TaskState) (ts : List TaskState) → Among v (sort_tasks ts) → Among v ts
unfolding sort_tasks
sort_tasks-Among v [] m = m
sort_tasks-Among v (t ∷ ts) m = elim (insert_sorted-Among v t (sort_tasks ts) m) [
  | inl e ↦ inl e
  | inr a ↦ inr (sort_tasks-Among v ts a)
]

insert_sorted-rest :
    (P : TaskState → Type 0) (t : TaskState) (us : List TaskState)
    → All P (insert_sorted t us)
    → P t × All P us
unfolding insert_sorted
insert_sorted-rest P t [] h = h
insert_sorted-rest P t (u ∷ us) h = elim (Bool-cases (precedes u t)) [
  | inl on ↦
      let h' : P u × All P (insert_sorted t us) = rw on at h in
      let (a, b) = insert_sorted-rest P t us h'.1 in (a, (h'.0, b))
  | inr here ↦ rw here at h
]

pub sort_tasks-rest :
    (P : TaskState → Type 0) (ts : List TaskState) → All P (sort_tasks ts) → All P ts
unfolding sort_tasks
sort_tasks-rest P [] h = tt
sort_tasks-rest P (t ∷ ts) h =
    let (a, b) = insert_sorted-rest P t (sort_tasks ts) h in (a, sort_tasks-rest P ts b)

pub precedes_irrefl : (t : TaskState) → precedes t t ≡ false
precedes_irrefl t = elim (Bool-cases (precedes t t)) [
  | inl on ↦ precedes-asym t t on
  | inr off ↦ off
]

pub sort_tasks-empty : (ts : List TaskState) → sort_tasks ts ≡ [] → ts ≡ []
sort_tasks-empty [] e = refl
sort_tasks-empty (t ∷ ts) e =
    absurd (sort_tasks-rest (λ v. ⊥) (t ∷ ts) (subst (All (λ v. ⊥)) (sym e) tt)).0

pub All-Among :
    (P : TaskState → Type 0) (v : TaskState) (ts : List TaskState) → All P ts → Among v ts → P v
All-Among P v [] a i = absurd i
All-Among P v (t ∷ ts) a (inl e) = subst P (sym e) a.0
All-Among P v (t ∷ ts) a (inr i) = All-Among P v ts a.1 i
