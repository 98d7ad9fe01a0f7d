-- ===== src/Control/Sort.antt =====
-- go-watch-file/internal/api/control_dispatch.go, controlAssignNextTaskLocked: the order of the candidates.
-- `sort.Slice` is an insertion sort by the same comparison: with tasks whose IDs differ, the order
-- that any sort gives.
use go_watch_file.Base.{ℕ, Bool, true, false, not, List, [], ◌∷◌, if◌then◌else◌, ltb, ◌==◌}
use go_watch_file.Base.Str.{Str, bytes, str_eq, to_lower}
use go_watch_file.Base.Trim.{trim_space}
use go_watch_file.Control.Types.{TaskState}

-- controlPriorityWeight
unfoldable pub priority_weight : Str → ℕ
priority_weight raw =
    let p = to_lower (trim_space raw) in
    if str_eq p (bytes "high")
    then 3
    else if str_eq p (bytes "normal")
    then 2
    else if str_eq p (bytes "low")
    then 1
    else 2

-- `a < b` on strings: by bytes.
unfoldable pub str_less : Str → Str → Bool
str_less [] [] = false
str_less [] (y ∷ ys) = true
str_less (x ∷ xs) [] = false
str_less (x ∷ xs) (y ∷ ys) = let rest = str_less xs ys in if x == y then rest else ltb x y

-- The comparison that `sort.Slice` is given.
unfoldable pub precedes : TaskState → TaskState → Bool
precedes a b =
    let pa = priority_weight a.priority in
    let pb = priority_weight b.priority in
    if not (pa == pb)
    then ltb pb pa
    else if not (a.created_at == b.created_at)
    then ltb a.created_at b.created_at
    else str_less a.id b.id

unfoldable pub insert_sorted : TaskState → List TaskState → List TaskState
insert_sorted t [] = t ∷ []
insert_sorted t (u ∷ us) =
    let rest = insert_sorted t us in if precedes u t then u ∷ rest else t ∷ u ∷ us

unfoldable pub sort_tasks : List TaskState → List TaskState
sort_tasks [] = []
sort_tasks (t ∷ ts) = insert_sorted t (sort_tasks ts)
