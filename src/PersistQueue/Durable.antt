-- ===== src/PersistQueue/Durable.antt =====
-- go-watch-file/internal/persistqueue/file_queue.go: what a run of operations leaves on disk, and what a restart
-- reads back.
use go_watch_file.Base.{
  ℕ, zero, suc, ◌≡◌, refl, ◌∙◌, Bool, false, Option, none, some, List, [], ◌∷◌, ◌++◌, arith,
  if◌then◌else◌, subst,
}
use go_watch_file.Base.Str.{Str, str_eq, str_eq_refl, is_empty}
use go_watch_file.Base.Trim.{trim_space}
use go_watch_file.Base.Assoc.{lookup}
use go_watch_file.PersistQueue.Disk.{
  Os, Blob, blank, items_json, corrupt, fails, later, write_file_atomic-Written,
}
use go_watch_file.PersistQueue.Search.{find_first, find_last, without}
use go_watch_file.PersistQueue.{
  Store, ok, save_locked, with_items, save_or_restore, enqueue, dequeue, dequeue_from, remove_at,
  remove_one, remove_last_one, reset, record_recovered, load, load_blob, fresh_queue,
  new_file_queue,
}

-- The items that a file stands for, if it can be read.
unfoldable pub disk_items : Option Blob → Option (List Str)
disk_items none = some []
disk_items (some blank) = some []
disk_items (some (items_json xs)) = some xs
disk_items (some (corrupt raw)) = none

-- The file holds the items in memory, and the name of the temporary file is another.
pub record Synced (s : Store) : Type 0 where
  pub on_disk : disk_items (lookup s.queue.path s.os.files) ≡ some s.queue.items
  pub temp_apart : str_eq s.os.temp s.queue.path ≡ false

-- What saving does: all of it, or nothing but the count of the failure.
pub record Saved (next : List Str) (s : Store) (r : Store × Bool) : Type 0 where
  pub synced : Synced r.0
  pub path_kept : r.0.queue.path ≡ s.queue.path
  pub items_after : r.0.queue.items ≡ (if r.1 then next else s.queue.items)

pub save_or_restore-Saved :
    (next : List Str) (s : Store) → Synced s → Saved next s (save_or_restore next s)
unfolding save_or_restore save_locked disk_items
save_or_restore-Saved next s v = ground (
  arith,
  write_file_atomic-Written s.queue.path s.queue.path (items_json next) s.os v.temp_apart,
  str_eq_refl s.queue.path,
)

-- The operations that a caller may make, in the order in which they take the mutex.
pub data Op : Type 0 where
  enqueues removes_one removes_last_one : Str → Op
  dequeues resets : Op
  recovers : ℕ → Op

unfoldable pub step : Op → Store → Store
step (enqueues p) s = (enqueue p s).0
step (removes_one p) s = (remove_one p s).0
step (removes_last_one p) s = (remove_last_one p s).0
step dequeues s = (dequeue s).0
step resets s = (reset s).0
step (recovers n) s = record_recovered n s

unfoldable pub run : List Op → Store → Store
run [] s = s
run (o ∷ os) s = run os (step o s)

abbrev pub Kept : Store → Store → Type 0
Kept s t = Synced t × (t.queue.path ≡ s.queue.path)

pub enqueue-Kept : (p : Str) (s : Store) → Synced s → Kept s (enqueue p s).0
unfolding enqueue
enqueue-Kept p s v = ground (arith, save_or_restore-Saved (s.queue.items ++ trim_space p ∷ []) s v)

dequeue_from-Kept : (xs : List Str) (s : Store) → Synced s → Kept s (dequeue_from xs s).0
unfolding dequeue_from
dequeue_from-Kept [] s v = (v, refl)
dequeue_from-Kept (x ∷ xs) s v = ground (arith, save_or_restore-Saved xs s v)

remove_at-Kept : (i : Option ℕ) (s : Store) → Synced s → Kept s (remove_at i s).0
unfolding remove_at
remove_at-Kept none s v = (v, refl)
remove_at-Kept (some i) s v = ground (arith, save_or_restore-Saved (without i s.queue.items) s v)

pub remove_one-Kept : (p : Str) (s : Store) → Synced s → Kept s (remove_one p s).0
unfolding remove_one
remove_one-Kept p s v = ground (arith, remove_at-Kept (find_first (trim_space p) s.queue.items) s v)

pub remove_last_one-Kept : (p : Str) (s : Store) → Synced s → Kept s (remove_last_one p s).0
unfolding remove_last_one
remove_last_one-Kept p s v =
    ground (arith, remove_at-Kept (find_last (trim_space p) s.queue.items) s v)

pub record_recovered-Kept : (n : ℕ) (s : Store) → Synced s → Kept s (record_recovered n s)
unfolding record_recovered
record_recovered-Kept zero s v = (v, refl)
record_recovered-Kept (suc n) s v = ground arith

-- Every operation, its failing branches included, leaves the file equal to the items in memory.
pub step-Kept : (o : Op) (s : Store) → Synced s → Kept s (step o s)
unfolding step dequeue reset
step-Kept (enqueues p) s v = enqueue-Kept p s v
step-Kept (removes_one p) s v = remove_one-Kept p s v
step-Kept (removes_last_one p) s v = remove_last_one-Kept p s v
step-Kept dequeues s v = dequeue_from-Kept s.queue.items s v
step-Kept resets s v = ground (arith, save_or_restore-Saved [] s v)
step-Kept (recovers n) s v = record_recovered-Kept n s v

run-Kept : (os : List Op) (s : Store) → Synced s → Kept s (run os s)
unfolding run
run-Kept [] s v = (v, refl)
run-Kept (o ∷ os) s v =
    let (w, e) = step-Kept o s v in let (x, f) = run-Kept os (step o s) w in (x, f ∙ e)

-- What opening a file gives: the items that it stands for.
load_blob-items :
    (stamp : Str) (b : Option Blob) (s : Store) {xs : List Str}
    → s.queue.items ≡ []
    → disk_items b ≡ some xs
    → (t : Store) × (load_blob stamp b s ≡ (t, ok tt)) × (t.queue.items ≡ xs)
unfolding load_blob disk_items
load_blob-items stamp none s e h = (s, refl, ground arith)
load_blob-items stamp (some blank) s e h = (with_items [] s, refl, ground arith)
load_blob-items stamp (some (items_json ys)) s e h = (with_items ys s, refl, ground arith)
load_blob-items stamp (some (corrupt raw)) s e h = cc

pub new_file_queue-items :
    (stamp path : Str) (o : Os) {xs : List Str}
    → trim_space path ≡ path
    → is_empty path ≡ false
    → fails o.faults ≡ false
    → disk_items (lookup path o.files) ≡ some xs
    → (t : Store) × ((new_file_queue stamp path o).1 ≡ ok t) × (t.queue.items ≡ xs)
unfolding new_file_queue load fresh_queue
new_file_queue-items stamp path o {xs} clean filled reads h =
    let s : Store = record {
      queue = fresh_queue path;
      os = record o { faults = later o.faults };
    } in
    let (t, e, f) = load_blob-items stamp (lookup path o.files) s {xs = xs} refl h in
    (t, rw (clean, filled, reads, e) refl, f)

-- From a queue whose file is in step with it, at a path that is trimmed and not empty: after any
-- operations, whichever of their writes failed, a restart that can read the file finds exactly the
-- items that the queue held.
pub run-reopen :
    (os : List Op) (s : Store) (stamp : Str)
    → Synced s
    → trim_space s.queue.path ≡ s.queue.path
    → is_empty s.queue.path ≡ false
    → fails (run os s).os.faults ≡ false
    → (t : Store) × ((new_file_queue stamp s.queue.path (run os s).os).1 ≡ ok t)
      × (t.queue.items ≡ (run os s).queue.items)
run-reopen os s stamp v clean filled reads =
    let (w, e) = run-Kept os s v in
    new_file_queue-items stamp s.queue.path (run os s).os clean filled reads (
      subst (λ p. disk_items (lookup p (run os s).os.files) ≡ some (run os s).queue.items) e
        w.on_disk)
