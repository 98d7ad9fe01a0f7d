-- ===== src/PersistQueue/Tests.antt =====
-- go-watch-file/internal/persistqueue/file_queue.go: the queue on concrete runs.
use go_watch_file.Base.{◌≡◌, refl, true, false, List, [], ◌∷◌}
use go_watch_file.Base.Str.{Str, bytes, str_eq}
use go_watch_file.Base.Trim.{trim_space}
use go_watch_file.Base.Assoc.{lookup, insert, delete}
use go_watch_file.PersistQueue.Disk.{
  Os, items_json, write_file_atomic, write_file_atomic-Written, Written, fails, later,
}
use go_watch_file.PersistQueue.{
  enqueue, remove_one, remove_at, save_or_restore, save_locked, Store, ok, new_file_queue,
}
use go_watch_file.PersistQueue.Durable.{
  Op, enqueues, removes_one, run, step, disk_items, Synced, run-reopen,
}
use go_watch_file.PersistQueue.Search.{find_first, first_from, without}
use go_watch_file.PersistQueue.Refine.{Refines, answer, promised, step-Refines}

-- The third call of the second save fails.
abbrev demo_os : Os
demo_os = record {
  files = [];
  temp = bytes "q.tmp";
  dir = λ path. bytes ".";
  faults = false ∷ false ∷ false ∷ false ∷ false ∷ false ∷ false ∷ false ∷ true ∷ [];
}

abbrev demo_store : Store
demo_store = record {
  queue = record {
    path = bytes "q.json";
    items = [];
    recovered_total = 0;
    corrupt_fallback_total = 0;
    persist_write_failure_total = 0;
  };
  os = demo_os;
}

abbrev demo_ops : List Op
demo_ops =
    enqueues (bytes " a.log")
    ∷ enqueues (bytes "b.log")
    ∷ enqueues (bytes "c.log")
    ∷ removes_one (bytes "a.log")
    ∷ []

abbrev demo_stamp : Str
demo_stamp = bytes "20240102T030405"

demo_store-Synced : Synced demo_store
unfolding disk_items str_eq lookup
demo_store-Synced = record { on_disk = refl; temp_apart = refl }

demo_items : (run demo_ops demo_store).queue.items ≡ bytes "c.log" ∷ []
unfolding run step enqueue remove_one remove_at save_or_restore save_locked write_file_atomic
    trim_space find_first first_from without str_eq lookup insert delete fails later
demo_items = refl

run-reopen_example :
    (t : Store) × ((new_file_queue demo_stamp (bytes "q.json") (run demo_ops demo_store).os).1
      ≡ ok t)
    × (t.queue.items ≡ (run demo_ops demo_store).queue.items)
unfolding run step enqueue remove_one remove_at save_or_restore save_locked write_file_atomic
    trim_space find_first first_from without str_eq lookup insert delete fails later
run-reopen_example = run-reopen demo_ops demo_store demo_stamp demo_store-Synced refl refl refl

step-Refines_example :
    Refines
      (promised (enqueues (bytes " a.log")) [])
      demo_store
      (step (enqueues (bytes " a.log")) demo_store)
      (answer (enqueues (bytes " a.log")) demo_store)
unfolding str_eq
step-Refines_example = step-Refines (enqueues (bytes " a.log")) demo_store refl

write_file_atomic-Written_example :
    Written
      (bytes "q.json")
      (items_json (bytes "a.log" ∷ []))
      demo_os
      (write_file_atomic (bytes "q.json") (items_json (bytes "a.log" ∷ [])) demo_os)
      (bytes "q.json")
unfolding str_eq
write_file_atomic-Written_example =
    write_file_atomic-Written (bytes "q.json") (bytes "q.json") (items_json (bytes "a.log" ∷ []))
      demo_os refl
