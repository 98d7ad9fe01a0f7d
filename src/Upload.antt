-- ===== src/Upload.antt =====
-- go-watch-file/internal/upload/worker_pool.go: the bounded queue of paths and the workers that empty it. A
-- method returns the new pool; time is an argument, and 0 is the zero time.
pub mod Store
pub mod Safe
pub mod Restart
pub mod Failures
pub mod Tests
use go_watch_file.Base.{
  ℕ, zero, suc, ◌+◌, ◌*◌, ◌-◌, ◌≡◌, Bool, true, false, not, ◌&&◌, ◌||◌, Option, none, some, List,
  [], ◌∷◌, ◌++◌, if◌then◌else◌, length, ltb, leb, ◌==◌,
}
use go_watch_file.Base.Str.{Str, is_empty}
use go_watch_file.Base.Trim.{trim_space}
use go_watch_file.PersistQueue.Search.{without}
use Store.{QueueStore}

pub data AddError : Type 0 where
  pool_closed empty_path persist_failed queue_full : AddError

-- 10 * time.Second, in nanoseconds.
abbrev pub queue_warn_interval : ℕ
queue_warn_interval = 10000000000

module _ (q : QueueStore) where
  open q use {State, enqueue, remove_one, remove_last_one, items, record_recovered}

  -- `queue` is the content of the channel, `capacity` its buffer, `busy` the paths that workers are
  -- uploading, and `recovering` what recoverPersistedItems has still to send.
  pub record Pool : Type 0 where
    pub queue : List Str
    pub capacity : ℕ
    pub workers : ℕ
    pub busy : List Str
    pub in_flight : ℕ
    pub closed : Bool
    pub last_queue_warn : ℕ
    pub recovering : List Str
    pub recovered_count : ℕ
    pub store : Option State

  -- NewWorkerPool up to the recovery; a size that is not positive is given as 0.
  unfoldable pub new_worker_pool : ℕ → ℕ → Option State → Pool
  new_worker_pool workers size store = record {
    queue = [];
    capacity = if leb size 0 then 100 else size;
    workers = if leb workers 0 then 3 else workers;
    busy = [];
    in_flight = 0;
    closed = false;
    last_queue_warn = 0;
    recovering = to_recover store;
    recovered_count = 0;
    store = store;
  }
    where
      to_recover : Option State → List Str
      to_recover none = []
      to_recover (some s) = items s

  -- The time of the last warning after warnIfQueueNearFullLocked. The ratio is compared with 0.8 over
  -- whole numbers, which agrees with the division of floats for a capacity below 2^50.
  unfoldable pub queue_warn_after : ℕ → Pool → ℕ
  queue_warn_after now p =
      if leb p.capacity 0
      then p.last_queue_warn
      else if ltb (5 * length p.queue) (4 * p.capacity)
      then p.last_queue_warn
      else if not (p.last_queue_warn == 0) && ltb now (p.last_queue_warn + queue_warn_interval)
      then p.last_queue_warn
      else now

  unfoldable pub warn_if_queue_near_full : ℕ → Pool → Pool
  warn_if_queue_near_full now p = record p { last_queue_warn = queue_warn_after now p }

  -- The roll back of AddFile when the channel is full; an error is logged.
  unfoldable pub roll_back : Str → Option State → Option State
  roll_back path none = none
  roll_back path (some s) = some (remove_last_one path s).0

  -- The non-blocking send of AddFile, once the path is persisted.
  unfoldable pub send_or_roll_back : Str → ℕ → Pool → Pool × Option AddError
  unfolding warn_if_queue_near_full queue_warn_after roll_back
  send_or_roll_back path now p =
      if ltb (length p.queue) p.capacity
      then (warn_if_queue_near_full now (record p { queue = p.queue ++ path ∷ [] }), none)
      else (record p { store = roll_back path p.store }, some queue_full)

  unfoldable pub persist_and_send : Option State → Str → ℕ → Pool → Pool × Option AddError
  unfolding send_or_roll_back
  persist_and_send none path now p = send_or_roll_back path now p
  persist_and_send (some s) path now p =
      let (s', done) = enqueue path s in
      let p' : Pool = record p { store = some s' } in
      if done then send_or_roll_back path now p' else (p', some persist_failed)

  -- AddFile
  unfoldable pub add_file : Str → ℕ → Pool → Pool × Option AddError
  unfolding persist_and_send
  add_file path now p =
      let trimmed = trim_space path in
      if p.closed
      then (p, some pool_closed)
      else if is_empty trimmed
      then (p, some empty_path)
      else persist_and_send p.store trimmed now p

  -- A worker receives the oldest path: `filePath, ok := <-p.uploadQueue`, `inFlight + 1`.
  unfoldable pub start_upload : List Str → Pool → Pool
  start_upload [] p = p
  start_upload (x ∷ rest) p = record p {
    queue = rest;
    busy = p.busy ++ x ∷ [];
    in_flight = p.in_flight + 1;
  }

  -- ackPersistedItem. Its error is logged, and the path then stays persisted.
  unfoldable pub ack_persisted_item : Str → Option State → Option State
  ack_persisted_item path none = none
  ack_persisted_item path (some s) = some (remove_one path s).0

  -- The rest of a round of a worker, for the path that stands at `i` among those in flight: a
  -- success is acknowledged, a failure is logged and stays persisted.
  unfoldable pub finish_upload : ℕ → Str → Bool → Pool → Pool
  unfolding ack_persisted_item
  finish_upload i path success p = record p {
    busy = without i p.busy;
    in_flight = p.in_flight - 1;
    store = if success then ack_persisted_item path p.store else p.store;
  }

  -- One round of recoverPersistedItems. A blank item is skipped; the send waits for room.
  unfoldable pub recover_next : List Str → Pool → Pool
  recover_next [] p = p
  recover_next (x ∷ rest) p =
      let trimmed = trim_space x in
      let p' : Pool = record p { recovering = rest } in
      if is_empty trimmed
      then p'
      else if ltb (length p.queue) p.capacity
      then record p' { queue = p.queue ++ trimmed ∷ []; recovered_count = p.recovered_count + 1 }
      else p

  -- recordRecoveredCount
  unfoldable pub count_recovered : ℕ → Option State → Option State
  count_recovered n none = none
  count_recovered n (some s) = if leb n 0 then some s else some (record_recovered n s)

  unfoldable pub record_recovered_count : Pool → Pool
  unfolding count_recovered
  record_recovered_count p = record p { store = count_recovered p.recovered_count p.store }

  -- The first half of ShutdownGraceful and ShutdownNow; a second call changes nothing.
  unfoldable pub shut_down : Pool → Pool
  shut_down p = record p { closed = true }

  unfoldable pub get_stats : Pool → record { queue_length : ℕ; workers : ℕ; in_flight : ℕ }
  get_stats p = record {
    queue_length = length p.queue;
    workers = p.workers;
    in_flight = p.in_flight;
  }
