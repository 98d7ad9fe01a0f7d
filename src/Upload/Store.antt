-- ===== src/Upload/Store.antt =====
-- go-watch-file/internal/upload/worker_pool.go, QueueStore: the persistent queue as the pool sees it, and that
-- go-watch-file/internal/persistqueue/file_queue.go is one.
use go_watch_file.Base.{
  ℕ, zero, suc, ◌+◌, ◌≤◌, ◌≡◌, refl, Bool, true, false, Option, none, some, List, [], ◌∷◌, ◌++◌,
  arith, if◌then◌else◌,
}
use go_watch_file.Base.Str.{Str, str_eq, is_empty, count, count-append}
use go_watch_file.Base.Trim.{trim_space}
use go_watch_file.PersistQueue.Search.{
  find_first, find_last, without, find_first-First, find_last-Holds, count-without,
}
use go_watch_file.PersistQueue
use go_watch_file.PersistQueue.{Store, Result, ok, err, remove_at, save_locked, save_or_restore}

-- One occurrence, or none.
abbrev pub once : Str → Str → ℕ
once p x = if str_eq p x then 1 else 0

-- A path as the pool holds it.
abbrev pub IsClean : Str → Type 0
IsClean p = (trim_space p ≡ p) × (is_empty p ≡ false)

-- `enqueue` says whether it returned nil; a removal gives `none` on an error and else whether it
-- found the path. A removal may fail, and then takes nothing.
pub record QueueStore : Type 1 where
  pub State : Type 0
  pub items : State → List Str
  pub enqueue : Str → State → State × Bool
  pub remove_one : Str → State → State × Option Bool
  pub remove_last_one : Str → State → State × Option Bool
  pub record_recovered : ℕ → State → State
  pub enqueue_adds :
      (p x : Str) (s : State)
      → IsClean p
      → count x (items (enqueue p s).0)
        ≡ (if (enqueue p s).1 then once p x else 0) + count x (items s)
  pub remove_one_takes :
      (p x : Str) (s : State)
      → IsClean p
      → count x (items s) ≤ count x (items (remove_one p s).0) + once p x
  pub remove_last_one_takes :
      (p x : Str) (s : State)
      → IsClean p
      → count x (items s) ≤ count x (items (remove_last_one p s).0) + once p x
  pub record_recovered_keeps : (n : ℕ) (s : State) → items (record_recovered n s) ≡ items s

abbrev pub is_ok : Result (Unit {0}) → Bool
is_ok (ok x) = true
is_ok (err e) = false

abbrev pub to_option : Result Bool → Option Bool
to_option (ok b) = some b
to_option (err e) = none

unfoldable pub file_enqueue : Str → Store → Store × Bool
file_enqueue p s = let (s', r) = PersistQueue.enqueue p s in (s', is_ok r)

unfoldable pub file_remove_one : Str → Store → Store × Option Bool
file_remove_one p s = let (s', r) = PersistQueue.remove_one p s in (s', to_option r)

unfoldable pub file_remove_last_one : Str → Store → Store × Option Bool
file_remove_last_one p s = let (s', r) = PersistQueue.remove_last_one p s in (s', to_option r)

-- Saving either installs the new items or leaves the old.
saved_items :
    (xs : List Str) (s : Store)
    → (save_or_restore xs s).0.queue.items
      ≡ (if (save_or_restore xs s).1 then xs else s.queue.items)
unfolding save_or_restore save_locked
saved_items xs s = ground arith

pub file_enqueue-adds :
    (p x : Str) (s : Store)
    → IsClean p
    → count x (file_enqueue p s).0.queue.items
      ≡ (if (file_enqueue p s).1 then once p x else 0) + count x s.queue.items
unfolding file_enqueue PersistQueue.enqueue count
file_enqueue-adds p x s (same, filled) =
    rw (same, filled)
      (ground
        (arith, saved_items (s.queue.items ++ p ∷ []) s, count-append x s.queue.items (p ∷ [])))

remove_at-takes :
    (p x : Str) (o : Option ℕ) (s : Store)
    → ((i : ℕ) → o ≡ some i → count x (without i s.queue.items) + once p x ≡ count x s.queue.items)
    → count x s.queue.items ≤ count x (remove_at o s).0.queue.items + once p x
unfolding remove_at
remove_at-takes p x none s h = omega arith
remove_at-takes p x (some i) s h = ground (arith, saved_items (without i s.queue.items) s, h i refl)

pub file_remove_one-takes :
    (p x : Str) (s : Store)
    → IsClean p
    → count x s.queue.items ≤ count x (file_remove_one p s).0.queue.items + once p x
unfolding file_remove_one PersistQueue.remove_one
file_remove_one-takes p x s (same, filled) =
    rw (same, filled)
      (remove_at-takes p x (find_first p s.queue.items) s
        (λ i e. count-without x p i s.queue.items (find_first-First p s.queue.items e).0))

pub file_remove_last_one-takes :
    (p x : Str) (s : Store)
    → IsClean p
    → count x s.queue.items ≤ count x (file_remove_last_one p s).0.queue.items + once p x
unfolding file_remove_last_one PersistQueue.remove_last_one
file_remove_last_one-takes p x s (same, filled) =
    rw (same, filled)
      (remove_at-takes p x (find_last p s.queue.items) s
        (λ i e. count-without x p i s.queue.items (find_last-Holds p s.queue.items e)))

pub record_recovered-keeps :
    (n : ℕ) (s : Store) → (PersistQueue.record_recovered n s).queue.items ≡ s.queue.items
unfolding PersistQueue.record_recovered
record_recovered-keeps zero s = refl
record_recovered-keeps (suc n) s = refl

-- The file queue is such a store, whichever of its writes fail.
abbrev pub file_store : QueueStore
file_store = record {
  State = Store;
  items = λ s. s.queue.items;
  enqueue = file_enqueue;
  remove_one = file_remove_one;
  remove_last_one = file_remove_last_one;
  record_recovered = PersistQueue.record_recovered;
  enqueue_adds = file_enqueue-adds;
  remove_one_takes = file_remove_one-takes;
  remove_last_one_takes = file_remove_last_one-takes;
  record_recovered_keeps = record_recovered-keeps;
}
