-- ===== src/PersistQueue.antt =====
-- go-watch-file/internal/persistqueue/file_queue.go: the queue of file paths that survives a restart. A method
-- takes the queue together with the file system. The receiver is not nil, and the mutex makes each
-- method one step.
pub mod Disk
pub mod Search
pub mod Durable
pub mod Refine
pub mod Tests
use go_watch_file.Base.{
  ℕ, zero, suc, ◌+◌, ◌%◌, ◌^◌, ◌≡◌, Bool, true, false, Option, none, some, List, [], ◌∷◌, ◌++◌,
  if◌then◌else◌, take, drop, length,
}
use go_watch_file.Base.Str.{Str, bytes, is_empty}
use go_watch_file.Base.Trim.{trim_space}
use go_watch_file.Base.Assoc.{lookup}
use Disk.{Os, Blob, blank, items_json, corrupt, fails, later, write_file_atomic}
use Search.{find_first, find_last, without}

pub record FileQueue : Type 0 where
  pub path : Str
  pub items : List Str
  pub recovered_total : ℕ
  pub corrupt_fallback_total : ℕ
  pub persist_write_failure_total : ℕ

pub record Store : Type 0 where
  pub queue : FileQueue
  pub os : Os

pub data Error : Type 0 where
  empty_path empty_item save_failed read_failed backup_failed rebuild_failed : Error

pub data Result {ℓ} (A : Type ℓ) : Type ℓ where
  ok : A → Result A
  err : Error → Result A

-- `x++` and `x += n` on uint64.
abbrev pub u64 : ℕ → ℕ
u64 n = n % 2 ^ 64

-- saveLocked
unfoldable pub save_locked : Store → Store × Bool
save_locked s =
    let (o, done) = write_file_atomic s.queue.path (items_json s.queue.items) s.os in
    (record s { os = o }, done)

-- `q.persistWriteFailureTotal++`
abbrev pub count_failure : Store → Store
count_failure s = record s {
  queue = record s.queue {
    persist_write_failure_total = u64 (s.queue.persist_write_failure_total + 1);
  };
}

abbrev pub with_items : List Str → Store → Store
with_items xs s = record s { queue = record s.queue { items = xs } }

-- The end of each operation: save the new items; on a failure count it and restore the old ones.
unfoldable pub save_or_restore : List Str → Store → Store × Bool
unfolding save_locked
save_or_restore next s =
    let (s', done) = save_locked (with_items next s) in
    if done then (s', true) else (with_items s.queue.items (count_failure s'), false)

unfoldable pub enqueue : Str → Store → Store × Result (Unit {0})
unfolding save_or_restore
enqueue item s =
    let trimmed = trim_space item in
    if is_empty trimmed
    then (s, err empty_item)
    else let (s', done) = save_or_restore (s.queue.items ++ trimmed ∷ []) s in
      (s', if done then ok tt else err save_failed)

pub dequeue_from : List Str → Store → Store × Result (Option Str)
unfolding save_or_restore
dequeue_from [] s = (s, ok none)
dequeue_from (item ∷ rest) s =
    let (s', done) = save_or_restore rest s in
    (s', if done then ok (some item) else err save_failed)

pub dequeue : Store → Store × Result (Option Str)
unfolding dequeue_from
dequeue s = dequeue_from s.queue.items s

-- The end of RemoveOne and RemoveLastOne, at the index found.
unfoldable pub remove_at : Option ℕ → Store → Store × Result Bool
unfolding save_or_restore
remove_at none s = (s, ok false)
remove_at (some i) s =
    let (s', done) = save_or_restore (without i s.queue.items) s in
    (s', if done then ok true else err save_failed)

unfoldable pub remove_one : Str → Store → Store × Result Bool
unfolding remove_at
remove_one item s =
    let trimmed = trim_space item in
    if is_empty trimmed then (s, err empty_item) else remove_at (find_first trimmed s.queue.items) s

unfoldable pub remove_last_one : Str → Store → Store × Result Bool
unfolding remove_at
remove_last_one item s =
    let trimmed = trim_space item in
    if is_empty trimmed then (s, err empty_item) else remove_at (find_last trimmed s.queue.items) s

pub items : Store → List Str
items s = s.queue.items

pub reset : Store → Store × Result (Unit {0})
unfolding save_or_restore
reset s = let (s', done) = save_or_restore [] s in (s', if done then ok tt else err save_failed)

-- RecordRecovered of a count that is not negative.
unfoldable pub record_recovered : ℕ → Store → Store
record_recovered zero s = s
record_recovered (suc n) s = record s {
  queue = record s.queue { recovered_total = u64 (s.queue.recovered_total + suc n) };
}

-- buildCorruptBackupPath; `stamp` is the formatted time.
pub corrupt_backup_path : Str → Str → Str
corrupt_backup_path stamp path = path ++ bytes ".corrupt-" ++ stamp ++ bytes ".bak"

-- The rest of fallbackFromCorruptedStoreLocked, once the damaged text is backed up.
pub rebuild_empty : Store → Store × Result (Unit {0})
unfolding save_locked
rebuild_empty s =
    let (s', done) = save_locked (record s { queue = record s.queue { items = [] } }) in
    if done then (s', ok tt) else (count_failure s', err rebuild_failed)

-- fallbackFromCorruptedStoreLocked
pub fallback_from_corrupted : Str → Str → Store → Store × Result (Unit {0})
unfolding rebuild_empty corrupt_backup_path
fallback_from_corrupted stamp raw s =
    let q = record s.queue { corrupt_fallback_total = u64 (s.queue.corrupt_fallback_total + 1) } in
    let (o, backed) = write_file_atomic (corrupt_backup_path stamp q.path) (corrupt raw) s.os in
    let s' : Store = record { queue = q; os = o } in
    if backed then rebuild_empty s' else (s', err backup_failed)

-- `load`, on what the file holds.
pub load_blob : Str → Option Blob → Store → Store × Result (Unit {0})
unfolding fallback_from_corrupted
load_blob stamp none s = (s, ok tt)
load_blob stamp (some blank) s = (record s { queue = record s.queue { items = [] } }, ok tt)
load_blob stamp (some (items_json xs)) s =
    (record s { queue = record s.queue { items = xs } }, ok tt)
load_blob stamp (some (corrupt raw)) s = fallback_from_corrupted stamp raw s

-- `os.ReadFile` is one call that may fail; a missing file is no failure.
pub load : Str → Store → Store × Result (Unit {0})
unfolding load_blob fails later
load stamp s =
    let s' : Store = record s { os = record s.os { faults = later s.os.faults } } in
    if fails s.os.faults
    then (s', err read_failed)
    else load_blob stamp (lookup s.queue.path s.os.files) s'

pub fresh_queue : Str → FileQueue
fresh_queue path = record {
  path = path;
  items = [];
  recovered_total = 0;
  corrupt_fallback_total = 0;
  persist_write_failure_total = 0;
}

-- `NewFileQueue`: on an error the caller gets no queue, but the file system may have changed.
pub new_file_queue : Str → Str → Os → Os × Result Store
unfolding load fresh_queue
new_file_queue stamp path o =
    let cleaned = trim_space path in
    if is_empty cleaned
    then (o, err empty_path)
    else opened (load stamp (record { queue = fresh_queue cleaned; os = o }))
  where
    opened : Store × Result (Unit {0}) → Os × Result Store
    opened (s, ok x) = (s.os, ok s)
    opened (s, err e) = (s.os, err e)
