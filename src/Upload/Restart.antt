-- ===== src/Upload/Restart.antt =====
-- go-watch-file/internal/upload/worker_pool.go over go-watch-file/internal/persistqueue/file_queue.go: a crash and a restart.
use go_watch_file.Base.{
  ℕ, ◌≤◌, ◌≡◌, false, Option, none, some, List, [], ◌∷◌, arith, leb, ltb, length, if_elim, subst,
  ap, ◌∙◌,
}
use go_watch_file.Base.Str.{Str, is_empty, count}
use go_watch_file.Base.Trim.{trim_space}
use go_watch_file.Base.Assoc.{lookup}
use go_watch_file.PersistQueue.{Store, ok, new_file_queue}
use go_watch_file.PersistQueue.Disk.{fails}
use go_watch_file.PersistQueue.Durable.{
  Synced, disk_items, enqueue-Kept, remove_one-Kept, remove_last_one-Kept, record_recovered-Kept,
  new_file_queue-items,
}
use go_watch_file.Upload.Store.{
  QueueStore, file_store, file_enqueue, file_remove_one, file_remove_last_one,
}
use go_watch_file.Upload.{
  AddError, Pool, new_worker_pool, send_or_roll_back, persist_and_send, add_file, start_upload,
  ack_persisted_item, finish_upload, recover_next, count_recovered, record_recovered_count,
  roll_back, shut_down,
}
use go_watch_file.Upload.Safe.{
  pending, Covered, IsSafe, Step, adds, takes, finishes, recovers, records, shuts, Reach, here,
  next, Reach-IsSafe,
}

-- A property of the store that its operations keep holds of the pool's store in every run.
module _ (q : QueueStore) (I : q.State → Type 0) where
  open q use {State, enqueue, remove_one, remove_last_one, record_recovered}

  abbrev pub Has : Option State → Type 0
  Has none = Unit
  Has (some s) = I s

  pub record Keeps : Type 0 where
    pub enqueue_keeps : (p : Str) (s : State) → I s → I (enqueue p s).0
    pub remove_one_keeps : (p : Str) (s : State) → I s → I (remove_one p s).0
    pub remove_last_one_keeps : (p : Str) (s : State) → I s → I (remove_last_one p s).0
    pub record_recovered_keeps : (n : ℕ) (s : State) → I s → I (record_recovered n s)

  module _ (k : Keeps) where
    roll_back-Has : (path : Str) (o : Option State) → Has o → Has (roll_back q path o)
    unfolding roll_back
    roll_back-Has path none h = tt
    roll_back-Has path (some s) h = k.remove_last_one_keeps path s h

    send-Has :
        (path : Str) (now : ℕ) (p : Pool q)
        → Has p.store
        → Has (send_or_roll_back q path now p).0.store
    unfolding send_or_roll_back
    send-Has path now p h =
        if_elim (λ (r : Pool q × Option AddError). Has r.0.store) (ltb (length p.queue) p.capacity)
          (λ room. h) (λ full. roll_back-Has path p.store h)

    persist-Has :
        (o : Option State) (path : Str) (now : ℕ) (p : Pool q)
        → Has p.store
        → Has o
        → Has (persist_and_send q o path now p).0.store
    unfolding persist_and_send
    persist-Has none path now p h g = send-Has path now p h
    persist-Has (some s) path now p h g =
        let s' = k.enqueue_keeps path s g in
        if_elim (λ (r : Pool q × Option AddError). Has r.0.store) (enqueue path s).1
          (λ done. send-Has path now (record p { store = some (enqueue path s).0 }) s')
          (λ failed. s')

    add_file-Has :
        (path : Str) (now : ℕ) (p : Pool q) → Has p.store → Has (add_file q path now p).0.store
    unfolding add_file
    add_file-Has path now p h =
        if_elim (λ (r : Pool q × Option AddError). Has r.0.store) p.closed (λ shut. h)
          (λ up.
            if_elim (λ (r : Pool q × Option AddError). Has r.0.store) (is_empty (trim_space path))
              (λ bare. h) (λ filled. persist-Has p.store (trim_space path) now p h h))

    start_upload-Has : (xs : List Str) (p : Pool q) → Has p.store → Has (start_upload q xs p).store
    unfolding start_upload
    start_upload-Has [] p h = h
    start_upload-Has (x ∷ xs) p h = h

    ack-Has : (path : Str) (o : Option State) → Has o → Has (ack_persisted_item q path o)
    unfolding ack_persisted_item
    ack-Has path none h = tt
    ack-Has path (some s) h = k.remove_one_keeps path s h

    recover_next-Has : (xs : List Str) (p : Pool q) → Has p.store → Has (recover_next q xs p).store
    unfolding recover_next
    recover_next-Has [] p h = h
    recover_next-Has (x ∷ xs) p h =
        if_elim (λ (r : Pool q). Has r.store) (is_empty (trim_space x)) (λ bare. h)
          (λ filled.
            if_elim (λ (r : Pool q). Has r.store) (ltb (length p.queue) p.capacity) (λ room. h)
              (λ full. h))

    count_recovered-Has : (n : ℕ) (o : Option State) → Has o → Has (count_recovered q n o)
    unfolding count_recovered
    count_recovered-Has n none h = tt
    count_recovered-Has n (some s) h =
        if_elim Has (leb n 0) (λ z. h) (λ z. k.record_recovered_keeps n s h)

    Step-Has : {p r : Pool q} → Step q p r → Has p.store → Has r.store
    unfolding finish_upload record_recovered_count shut_down
    Step-Has {p} (adds path now) h = add_file-Has path now p h
    Step-Has {p} (takes e) h = start_upload-Has p.queue p h
    Step-Has {p} (finishes i x success e) h =
        if_elim Has success (λ won. ack-Has x p.store h) (λ lost. h)
    Step-Has {p} recovers h = recover_next-Has p.recovering p h
    Step-Has {p} records h = count_recovered-Has p.recovered_count p.store h
    Step-Has shuts h = h

    pub Reach-Has : {p r : Pool q} → Reach q p r → Has p.store → Has r.store
    Reach-Has here h = h
    Reach-Has (next r st) h = Step-Has st (Reach-Has r h)

-- The file of the queue at `path` holds the items in memory.
abbrev pub SyncedAt : Str → Store → Type 0
SyncedAt path s = Synced s × (s.queue.path ≡ path)

Synced-Keeps : (path : Str) → Keeps file_store (SyncedAt path)
unfolding file_enqueue file_remove_one file_remove_last_one
Synced-Keeps path = record {
  enqueue_keeps = λ p s h. let (a, b) = enqueue-Kept p s h.0 in (a, b ∙ h.1);
  remove_one_keeps = λ p s h. let (a, b) = remove_one-Kept p s h.0 in (a, b ∙ h.1);
  remove_last_one_keeps = λ p s h. let (a, b) = remove_last_one-Kept p s h.0 in (a, b ∙ h.1);
  record_recovered_keeps = λ n s h. let (a, b) = record_recovered-Kept n s h.0 in (a, b ∙ h.1);
}

synced_at :
    (p r : Pool file_store) (s : Store) (path : Str)
    → Has file_store (SyncedAt path) p.store
    → Reach file_store p r
    → r.store ≡ some s
    → SyncedAt path s
synced_at p r s path h reach e =
    subst (Has file_store (SyncedAt path)) e
      (Reach-Has file_store (SyncedAt path) (Synced-Keeps path) reach h)

-- Take any run of a pool over the file queue, with any interleaving and any writes failing, from a
-- safe pool whose file is in step, at a path that is trimmed and not empty; stop it between two steps,
-- and let the next start be able to read the file. Then the queue opens, and a new pool has every path
-- to recover that was queued, being uploaded or still to be recovered, at least as often as the old
-- pool held it.
pub crash-recovers :
    (p r : Pool file_store) (s : Store) (stamp path : Str) (workers size : ℕ)
    → IsSafe file_store p
    → Has file_store (SyncedAt path) p.store
    → Reach file_store p r
    → r.store ≡ some s
    → trim_space path ≡ path
    → is_empty path ≡ false
    → fails s.os.faults ≡ false
    → (t : Store) × ((new_file_queue stamp path s.os).1 ≡ ok t)
      × ((x : Str)
          → pending file_store r x
            ≤ count x (new_worker_pool file_store workers size (some t)).recovering)
unfolding new_worker_pool
crash-recovers p r s stamp path workers size v h reach e clean filled reads =
    let (synced, at) = synced_at p r s path h reach e in
    let held =
      subst (λ o. Covered file_store o (pending file_store r)) e
        (Reach-IsSafe file_store v reach).persisted in
    let (t, opens, same) =
      new_file_queue-items stamp path s.os {xs = s.queue.items} clean filled reads
        (subst (λ d. disk_items (lookup d s.os.files) ≡ some s.queue.items) at synced.on_disk) in
    (t, opens, λ x. omega (arith, held x, ap (count x) same))
