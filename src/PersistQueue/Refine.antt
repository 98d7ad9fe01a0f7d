-- ===== src/PersistQueue/Refine.antt =====
-- go-watch-file/internal/persistqueue/file_queue.go: the queue as its callers see it, a list of paths, and that
-- each operation does to the list what it promises or fails and changes nothing.
use go_watch_file.Base.{
  ℕ, zero, suc, ◌+◌, ◌≡◌, refl, ap, subst, Bool, true, false, not, ◌&&◌, ◌||◌, Option, none, some,
  List, [], ◌∷◌, ◌++◌, ◌⊎◌, inl, inr, arith, if◌then◌else◌, Bool-cases, Option-cases, length,
}
use go_watch_file.Base.Str.{Str, str_eq, str_eq_refl, is_empty}
use go_watch_file.Base.Assoc.{lookup}
use go_watch_file.PersistQueue.Disk.{
  Os, Blob, items_json, write_file_atomic, Written, write_file_atomic-Written,
}
use go_watch_file.Base.Trim.{trim_space}
use go_watch_file.PersistQueue.Search.{find_first, find_last, without, first_from, last_below}
use go_watch_file.PersistQueue.{
  Store, Error, empty_item, save_failed, Result, ok, err, with_items, count_failure, save_locked,
  u64, save_or_restore, enqueue, dequeue, dequeue_from, remove_at, remove_one, remove_last_one,
  reset, record_recovered,
}
use go_watch_file.PersistQueue.Durable.{
  Op, enqueues, removes_one, removes_last_one, dequeues, resets, recovers, step,
}

-- The first occurrence goes.
pub erase_first : Str → List Str → List Str
erase_first x [] = []
erase_first x (y ∷ ys) = if str_eq y x then ys else y ∷ erase_first x ys

pub occurs : Str → List Str → Bool
occurs x [] = false
occurs x (y ∷ ys) = str_eq y x || occurs x ys

-- The last occurrence goes.
pub erase_last : Str → List Str → List Str
erase_last x [] = []
erase_last x (y ∷ ys) = if str_eq y x && not (occurs x ys) then ys else y ∷ erase_last x ys

-- What an operation promises to do to the list.
pub promised : Op → List Str → List Str
promised (enqueues p) xs = if is_empty (trim_space p) then xs else xs ++ trim_space p ∷ []
promised (removes_one p) xs = if is_empty (trim_space p) then xs else erase_first (trim_space p) xs
promised (removes_last_one p) xs =
    if is_empty (trim_space p) then xs else erase_last (trim_space p) xs
promised dequeues [] = []
promised dequeues (x ∷ xs) = xs
promised resets xs = []
promised (recovers n) xs = xs

-- Deleting what a search found; nothing if it found nothing.
abbrev cut : Option ℕ → List Str → List Str
cut none xs = xs
cut (some i) xs = without i xs

abbrev shift : Option ℕ → Option ℕ
shift none = none
shift (some i) = some (suc i)

first_from-suc :
    (x : Str) (k : ℕ) (xs : List Str) → first_from x (suc k) xs ≡ shift (first_from x k xs)
unfolding first_from
first_from-suc x k [] = refl
first_from-suc x k (y ∷ ys) = ground (arith, first_from-suc x (suc k) ys)

cut-shift : (y : Str) (ys : List Str) (o : Option ℕ) → cut (shift o) (y ∷ ys) ≡ y ∷ cut o ys
unfolding without
cut-shift y ys none = refl
cut-shift y ys (some i) = refl

cut-find_first : (x : Str) (xs : List Str) → cut (find_first x xs) xs ≡ erase_first x xs
unfolding find_first first_from erase_first without
cut-find_first x [] = refl
cut-find_first x (y ∷ ys) = elim (Bool-cases (str_eq y x)) [
  | inl e ↦ rw e
  | inr e ↦
      rw (e, first_from-suc x 0 ys, cut-shift y ys (first_from x 0 ys))
        (ap (◌∷◌ y) (cut-find_first x ys))
]

-- The search from the back over a longer list: what it finds further on, or else the head.
abbrev or_head : Bool → Option ℕ → Option ℕ
or_head hit (some i) = some (suc i)
or_head true none = some 0
or_head false none = none

last_below-cons :
    (n : ℕ) (x y : Str) (ys : List Str)
    → last_below (suc n) x (y ∷ ys) ≡ or_head (str_eq y x) (last_below n x ys)
unfolding last_below
last_below-cons zero x y ys = ground arith
last_below-cons (suc n) x y ys = ground (arith, last_below-cons n x y ys)

find_last-cons :
    (x y : Str) (ys : List Str) → find_last x (y ∷ ys) ≡ or_head (str_eq y x) (find_last x ys)
unfolding find_last
find_last-cons x y ys = last_below-cons (length ys) x y ys

abbrev found : Option ℕ → Bool
found none = false
found (some i) = true

find_last-occurs : (x : Str) (xs : List Str) → found (find_last x xs) ≡ occurs x xs
unfolding occurs
find_last-occurs x [] = unfold find_last last_below in refl
find_last-occurs x (y ∷ ys) = ground (arith, find_last-cons x y ys, find_last-occurs x ys)

cut-find_last : (x : Str) (xs : List Str) → cut (find_last x xs) xs ≡ erase_last x xs
unfolding erase_last without
cut-find_last x [] = unfold find_last last_below in refl
cut-find_last x (y ∷ ys) = elim (Option-cases (find_last x ys)) [
  | inl e ↦ ground (arith, e, find_last-cons x y ys, find_last-occurs x ys, cut-find_last x ys)
  | inr (i, e) ↦ ground (arith, e, find_last-cons x y ys, find_last-occurs x ys, cut-find_last x ys)
]

-- What an operation answers: its error, or `none`.
abbrev pub error_of : {A : Type 0} → Result A → Option Error
error_of (ok a) = none
error_of (err e) = some e

unfoldable pub answer : Op → Store → Option Error
answer (enqueues p) s = error_of (enqueue p s).1
answer (removes_one p) s = error_of (remove_one p s).1
answer (removes_last_one p) s = error_of (remove_last_one p s).1
answer dequeues s = error_of (dequeue s).1
answer resets s = error_of (reset s).1
answer (recovers n) s = none

abbrev pub file_of : Store → Store → Option Blob
file_of s t = lookup s.queue.path t.os.files

abbrev Failures : ℕ → Store → Type 0
Failures n t = t.queue.persist_write_failure_total ≡ n

-- Without an error the list is the promised one, no failure is counted, and the file holds the list, or
-- there was nothing to write. With one the list is as before: either the path is blank, and nothing
-- happened, or the write failed: the file is as before and one failure is counted.
abbrev pub Refines : List Str → Store → Store → Option Error → Type 0
Refines xs s t none =
    (t.queue.items ≡ xs)
    × (t.queue.persist_write_failure_total ≡ s.queue.persist_write_failure_total)
    × ((file_of s t ≡ some (items_json xs)) ⊎ ((t.queue.items ≡ s.queue.items) × (t.os ≡ s.os)))
Refines xs s t (some e) =
    (t.queue.items ≡ s.queue.items)
    × (((e ≡ empty_item) × (xs ≡ s.queue.items) × (t ≡ s))
        ⊎ ((e ≡ save_failed)
            × (t.queue.persist_write_failure_total ≡ u64 (s.queue.persist_write_failure_total + 1))
            × (file_of s t ≡ file_of s s)))

-- Likewise for the end of an operation, which says whether it could write.
abbrev Saves : List Str → Store → Store × Bool → Type 0
Saves xs s (t, true) =
    (t.queue.items ≡ xs)
    × Failures s.queue.persist_write_failure_total t
    × (file_of s t ≡ some (items_json xs))
Saves xs s (t, false) =
    (t.queue.items ≡ s.queue.items)
    × Failures (u64 (s.queue.persist_write_failure_total + 1)) t
    × (file_of s t ≡ file_of s s)

-- The name of the temporary file is another.
abbrev pub TempApart : Store → Type 0
TempApart s = str_eq s.os.temp s.queue.path ≡ false

after_write-Saves :
    (xs : List Str) (s : Store) (w : Os × Bool)
    → Written s.queue.path (items_json xs) s.os w s.queue.path
    → let s' : Store = record (with_items xs s) { os = w.0 } in
      let kept : Store × Bool = (s', true) in
      let undone : Store × Bool = (with_items s.queue.items (count_failure s'), false) in
      Saves xs s (if w.1 then kept else undone)
after_write-Saves xs s (o, true) h = (refl, refl, rw (str_eq_refl s.queue.path) at h.1)
after_write-Saves xs s (o, false) h = (refl, refl, h.1)

save_or_restore-Saves :
    (xs : List Str) (s : Store) → TempApart s → Saves xs s (save_or_restore xs s)
unfolding save_or_restore save_locked
save_or_restore-Saves xs s apart =
    after_write-Saves xs s (write_file_atomic s.queue.path (items_json xs) s.os)
      (write_file_atomic-Written s.queue.path s.queue.path (items_json xs) s.os apart)

abbrev Tells : {A : Type 0} → List Str → Store → Store × Result A → Type 0
Tells xs s (t, r) = Refines xs s t (error_of r)

-- The answer of an operation that wrote or failed to.
saved-Tells :
    {A : Type 0} (xs : List Str) (s : Store) (a : A) (r : Store × Bool)
    → Saves xs s r
    → let said : Result A = if r.1 then ok a else err save_failed in
      Refines xs s r.0 (error_of said)
saved-Tells xs s a (t, true) h = (h.0, h.1, inl h.2)
saved-Tells xs s a (t, false) h = (h.0, inr (refl, h.1, h.2))

idle-Tells :
    {A : Type 0} (xs : List Str) (s : Store) (a : A)
    → s.queue.items ≡ xs
    → Refines xs s s (error_of (ok a))
idle-Tells xs s a e = (e, refl, inr (refl, refl))

blank-Tells : (s : Store) → Refines s.queue.items s s (some empty_item)
blank-Tells s = (refl, inl (refl, refl, refl))

if-Tells :
    {A : Type 0} (b : Bool) (xs ys : List Str) (s : Store) (x y : Store × Result A)
    → Tells xs s x
    → Tells ys s y
    → Tells (if b then xs else ys) s (if b then x else y)
if-Tells true xs ys s x y h k = h
if-Tells false xs ys s x y h k = k

dequeue_from-Tells :
    (xs : List Str) (s : Store)
    → TempApart s
    → s.queue.items ≡ xs
    → Tells (promised dequeues xs) s (dequeue_from xs s)
unfolding dequeue_from promised
dequeue_from-Tells [] s apart e = idle-Tells {A = Option Str} [] s none e
dequeue_from-Tells (x ∷ xs) s apart e =
    saved-Tells xs s (some x) (save_or_restore xs s) (save_or_restore-Saves xs s apart)

remove_at-Tells :
    (i : Option ℕ) (s : Store) → TempApart s → Tells (cut i s.queue.items) s (remove_at i s)
unfolding remove_at
remove_at-Tells none s apart = idle-Tells s.queue.items s false refl
remove_at-Tells (some i) s apart =
    let xs = without i s.queue.items in
    saved-Tells xs s true (save_or_restore xs s) (save_or_restore-Saves xs s apart)

enqueue-Tells :
    (p : Str) (s : Store)
    → TempApart s
    → Tells (promised (enqueues p) s.queue.items) s (enqueue p s)
unfolding enqueue promised
enqueue-Tells p s apart =
    let xs = s.queue.items ++ trim_space p ∷ [] in
    if-Tells (is_empty (trim_space p)) s.queue.items xs s _ _ (blank-Tells s)
      (saved-Tells xs s tt (save_or_restore xs s) (save_or_restore-Saves xs s apart))

remove_one-Tells :
    (p : Str) (s : Store)
    → TempApart s
    → Tells (promised (removes_one p) s.queue.items) s (remove_one p s)
unfolding remove_one promised
remove_one-Tells p s apart =
    let x = trim_space p in
    if-Tells (is_empty x) s.queue.items (erase_first x s.queue.items) s _ _ (blank-Tells s) (
      subst (λ ys. Tells ys s (remove_at (find_first x s.queue.items) s))
        (cut-find_first x s.queue.items) (remove_at-Tells (find_first x s.queue.items) s apart))

remove_last_one-Tells :
    (p : Str) (s : Store)
    → TempApart s
    → Tells (promised (removes_last_one p) s.queue.items) s (remove_last_one p s)
unfolding remove_last_one promised
remove_last_one-Tells p s apart =
    let x = trim_space p in
    if-Tells (is_empty x) s.queue.items (erase_last x s.queue.items) s _ _ (blank-Tells s) (
      subst (λ ys. Tells ys s (remove_at (find_last x s.queue.items) s))
        (cut-find_last x s.queue.items) (remove_at-Tells (find_last x s.queue.items) s apart))

-- Where the temporary file has another name than the queue's: an operation that answers without an
-- error turned the list into the one that it promises (append the trimmed path, drop the first, delete
-- the first or the last occurrence, clear), counted no failure, and left it in the file or had nothing
-- to write. One that answers with an error left the list as it was: its path was blank and nothing
-- happened, or its write failed, the file is as before and one failure more is counted.
pub step-Refines :
    (o : Op) (s : Store)
    → TempApart s
    → Refines (promised o s.queue.items) s (step o s) (answer o s)
unfolding step answer dequeue reset promised record_recovered
step-Refines (enqueues p) s apart = enqueue-Tells p s apart
step-Refines (removes_one p) s apart = remove_one-Tells p s apart
step-Refines (removes_last_one p) s apart = remove_last_one-Tells p s apart
step-Refines dequeues s apart = dequeue_from-Tells s.queue.items s apart refl
step-Refines resets s apart =
    saved-Tells [] s tt (save_or_restore [] s) (save_or_restore-Saves [] s apart)
step-Refines (recovers zero) s apart = (refl, refl, inr (refl, refl))
step-Refines (recovers (suc n)) s apart = (refl, refl, inr (refl, refl))
