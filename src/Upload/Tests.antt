-- ===== src/Upload/Tests.antt =====
-- go-watch-file/internal/upload/worker_pool.go: the pool on concrete runs.
use go_watch_file.Base.{◌≤◌, ◌≡◌, refl, Option, none, some, [], ◌∷◌, arith}
use go_watch_file.Base.Str.{Str, bytes, str_eq, count}
use go_watch_file.Base.Trim.{trim_space}
use go_watch_file.Base.Assoc.{lookup, insert, delete}
use go_watch_file.PersistQueue.Disk.{write_file_atomic, fails, later}
use go_watch_file.PersistQueue.{Store, ok, new_file_queue, enqueue, save_or_restore, save_locked}
use go_watch_file.PersistQueue.Durable.{disk_items}
use go_watch_file.Upload.Store.{file_store, file_enqueue}
use go_watch_file.Upload.{
  Pool, new_worker_pool, warn_if_queue_near_full, send_or_roll_back, persist_and_send, add_file,
  start_upload,
}
use go_watch_file.Upload.Safe.{pending, IsSafe, adds, takes, Reach, here, next, Reach-IsSafe}
use go_watch_file.Upload.Failures.{Run, begin, goes, Run-Covered}
use go_watch_file.Base.{◌+◌, false}
use go_watch_file.Upload.{finish_upload}
use go_watch_file.Upload.Safe.{Covered, finishes}
use go_watch_file.Upload.Restart.{Has, SyncedAt, crash-recovers}

abbrev demo_store : Store
demo_store = record {
  queue = record {
    path = bytes "q";
    items = [];
    recovered_total = 0;
    corrupt_fallback_total = 0;
    persist_write_failure_total = 0;
  };
  os = record { files = []; temp = bytes "t"; dir = λ path. bytes "."; faults = [] };
}

-- A pool of one worker with room for two paths.
abbrev demo_pool : Pool file_store
unfolding new_worker_pool
demo_pool = new_worker_pool file_store 1 2 (some demo_store)

-- Two paths are added, and the worker takes the first.
abbrev one_added : Pool file_store
one_added = (add_file file_store (bytes "a") 1 demo_pool).0

abbrev two_added : Pool file_store
two_added = (add_file file_store (bytes "b") 2 one_added).0

abbrev demo_crashed : Pool file_store
demo_crashed = start_upload file_store two_added.queue two_added

demo_pool-IsSafe : IsSafe file_store demo_pool
unfolding new_worker_pool count
demo_pool-IsSafe = record {
  clean_queue = tt;
  clean_busy = tt;
  clean_recovering = tt;
  flying = refl;
  bounded = omega arith;
  staffed = omega arith;
  persisted = λ x. omega arith;
}

demo_pool-Synced : Has file_store (SyncedAt (bytes "q")) demo_pool.store
unfolding new_worker_pool disk_items str_eq lookup
demo_pool-Synced = (record { on_disk = refl; temp_apart = refl }, refl)

demo-Reach : Reach file_store demo_pool demo_crashed
unfolding add_file persist_and_send send_or_roll_back warn_if_queue_near_full trim_space
    file_enqueue enqueue save_or_restore save_locked write_file_atomic lookup insert delete fails
    later start_upload new_worker_pool str_eq
demo-Reach = next (next (next here (adds (bytes "a") 1)) (adds (bytes "b") 2)) (takes refl)

Reach-IsSafe_example : IsSafe file_store demo_crashed
Reach-IsSafe_example = Reach-IsSafe file_store demo_pool-IsSafe demo-Reach

-- What the pool's store is at the crash.
abbrev store_of : Option Store → Store
store_of none = demo_store
store_of (some s) = s

abbrev crashed_store : Store
crashed_store = store_of demo_crashed.store

crashed_store-eq : demo_crashed.store ≡ some crashed_store
unfolding add_file persist_and_send send_or_roll_back warn_if_queue_near_full trim_space
    file_enqueue enqueue save_or_restore save_locked write_file_atomic lookup insert delete fails
    later start_upload new_worker_pool str_eq
crashed_store-eq = refl

-- Both paths wait on disk, the one being uploaded included.
crashed_store-items : crashed_store.queue.items ≡ bytes "a" ∷ bytes "b" ∷ []
unfolding add_file persist_and_send send_or_roll_back warn_if_queue_near_full trim_space
    file_enqueue enqueue save_or_restore save_locked write_file_atomic lookup insert delete fails
    later start_upload new_worker_pool str_eq
crashed_store-items = refl

crash-recovers_example :
    (t : Store) × ((new_file_queue (bytes "20240102T030405") (bytes "q") crashed_store.os).1 ≡ ok t)
    × ((x : Str)
        → pending file_store demo_crashed x
          ≤ count x (new_worker_pool file_store 3 100 (some t)).recovering)
unfolding add_file persist_and_send send_or_roll_back warn_if_queue_near_full trim_space
    file_enqueue enqueue save_or_restore save_locked write_file_atomic lookup insert delete fails
    later start_upload new_worker_pool str_eq
crash-recovers_example =
    crash-recovers demo_pool demo_crashed crashed_store (bytes "20240102T030405") (bytes "q") 3 100
      demo_pool-IsSafe demo_pool-Synced demo-Reach crashed_store-eq refl refl refl

-- The upload of the one path fails.
abbrev demo_busy : Pool file_store
demo_busy = start_upload file_store one_added.queue one_added

abbrev demo_failed : Pool file_store
demo_failed = finish_upload file_store 0 (bytes "a") false demo_busy

demo-Run : Run file_store demo_pool (bytes "a" ∷ []) demo_failed
unfolding add_file persist_and_send send_or_roll_back warn_if_queue_near_full trim_space
    file_enqueue enqueue save_or_restore save_locked write_file_atomic lookup insert delete fails
    later start_upload new_worker_pool str_eq
demo-Run =
    goes (goes (goes begin (adds (bytes "a") 1)) (takes refl)) (finishes 0 (bytes "a") false refl)

Run-Covered_example :
    Covered file_store demo_failed.store
      (λ x. pending file_store demo_failed x + count x (bytes "a" ∷ []))
Run-Covered_example = Run-Covered file_store demo-Run demo_pool-IsSafe
