-- ===== src/Upload/Safe.antt =====
-- go-watch-file/internal/upload/worker_pool.go: every interleaving of the callers, the workers and the recovery.
-- A path that the pool has taken in stays persisted until its upload succeeds.
use go_watch_file.Base.{
  ℕ, zero, suc, ◌+◌, ◌≤◌, ◌≡◌, refl, Bool, true, false, Option, none, some, List, [], ◌∷◌, arith,
  if◌then◌else◌, length, length-append, ltb, leb, All, All-append, Bool-cases, inl, inr, subst, ap,
  if_elim,
}
use go_watch_file.Base.Str.{Str, is_empty, count, count-append}
use go_watch_file.Base.Trim.{trim_space, trim_space_idem}
use go_watch_file.PersistQueue.Search.{get_elem?, without, count-without}
use go_watch_file.Upload.Store.{QueueStore, IsClean, once}
use go_watch_file.Upload.{
  AddError, Pool, send_or_roll_back, persist_and_send, add_file, start_upload, ack_persisted_item,
  finish_upload, recover_next, count_recovered, record_recovered_count, roll_back, shut_down,
}

pub All-without : (P : Str → Type 0) (i : ℕ) (xs : List Str) → All P xs → All P (without i xs)
unfolding without
All-without P zero [] h = tt
All-without P (suc i) [] h = tt
All-without P zero (x ∷ xs) h = h.1
All-without P (suc i) (x ∷ xs) h = (h.0, All-without P i xs h.1)

pub All-get :
    (P : Str → Type 0) (i : ℕ) (xs : List Str) {x : Str} → get_elem? xs i ≡ some x → All P xs → P x
All-get P i [] e h = cc
All-get P zero (y ∷ ys) e h = subst P (heads y _ e) h.0
  where
    heads : (a b : Str) → ◌≡◌ {A = Option Str} (some a) (some b) → a ≡ b
    heads a b k = cc
All-get P (suc i) (y ∷ ys) e h = All-get P i ys e h.1

pub length-without :
    (i : ℕ) (xs : List Str) {x : Str}
    → get_elem? xs i ≡ some x
    → length (without i xs) + 1 ≡ length xs
unfolding without
length-without i [] e = cc
length-without zero (y ∷ ys) e = omega arith
length-without (suc i) (y ∷ ys) e = omega (arith, length-without i ys e)

module _ (q : QueueStore) where
  open q use {
    State, items, enqueue, remove_one, remove_last_one, record_recovered, enqueue_adds,
    remove_one_takes, remove_last_one_takes, record_recovered_keeps,
  }

  -- The occurrences of a path that the pool has still to upload.
  abbrev pub pending : Pool q → Str → ℕ
  pending p x = count x p.queue + count x p.busy + count x p.recovering

  -- With a store, each of them is persisted.
  abbrev pub Covered : Option State → (Str → ℕ) → Type 0
  Covered none n = Unit
  Covered (some s) n = (x : Str) → n x ≤ count x (items s)

  pub record IsSafe (p : Pool q) : Type 0 where
    pub clean_queue : All IsClean p.queue
    pub clean_busy : All IsClean p.busy
    pub clean_recovering : All IsClean p.recovering
    pub flying : p.in_flight ≡ length p.busy
    pub bounded : length p.queue ≤ p.capacity
    pub staffed : length p.busy ≤ p.workers
    pub persisted : Covered p.store (pending p)

  -- One step of a caller, a worker, the recovery, or a shutdown. The environment chooses the order,
  -- the paths, the times and whether an upload succeeds.
  pub data Step (p : Pool q) : Pool q → Type 0 where
    adds : (path : Str) (now : ℕ) → Step p (add_file q path now p).0
    takes : ltb (length p.busy) p.workers ≡ true → Step p (start_upload q p.queue p)
    finishes :
        (i : ℕ) (x : Str) (success : Bool)
        → get_elem? p.busy i ≡ some x
        → Step p (finish_upload q i x success p)
    recovers : Step p (recover_next q p.recovering p)
    records : Step p (record_recovered_count q p)
    shuts : Step p (shut_down q p)

  pub data Reach (p : Pool q) : Pool q → Type 0 where
    here : Reach p p
    next : {r s : Pool q} → Reach p r → Step r s → Reach p s

  pub Covered-mono :
      (o : Option State) (m n : Str → ℕ) → Covered o n → ((x : Str) → m x ≤ n x) → Covered o m
  Covered-mono none m n h le = tt
  Covered-mono (some s) m n h le = λ x. omega (arith, h x, le x)

  start_upload-IsSafe :
      (xs : List Str) (p : Pool q)
      → p.queue ≡ xs
      → ltb (length p.busy) p.workers ≡ true
      → IsSafe p
      → IsSafe (start_upload q xs p)
  unfolding start_upload count
  start_upload-IsSafe [] p e h v = v
  start_upload-IsSafe (x ∷ rest) p e h v =
      let clean : All IsClean (x ∷ rest) = subst (All IsClean) e v.clean_queue in
      let longer = length-append p.busy (x ∷ []) in
      let shorter = ap length e in
      record {
        clean_queue = clean.1;
        clean_busy = All-append IsClean p.busy (x ∷ []) v.clean_busy (clean.0, tt);
        clean_recovering = v.clean_recovering;
        flying = omega (arith, v.flying);
        bounded = omega arith;
        staffed = ground (arith, longer);
        persisted =
            Covered-mono p.store _ (pending p) v.persisted
              (λ y. omega (arith, count-append y p.busy (x ∷ []), ap (count y) e));
      }

  ack-Covered :
      (x : Str) (success : Bool) (o : Option State) (m n : Str → ℕ)
      → IsClean x
      → Covered o n
      → ((y : Str) → m y + once x y ≡ n y)
      → Covered (if success then ack_persisted_item q x o else o) m
  unfolding ack_persisted_item
  ack-Covered x true none m n c h e = tt
  ack-Covered x false none m n c h e = tt
  ack-Covered x true (some s) m n c h e = λ y. omega (arith, h y, e y, remove_one_takes x y s c)
  ack-Covered x false (some s) m n c h e = λ y. omega (arith, h y, e y)

  finish_upload-IsSafe :
      (i : ℕ) (x : Str) (success : Bool) (p : Pool q)
      → get_elem? p.busy i ≡ some x
      → IsSafe p
      → IsSafe (finish_upload q i x success p)
  unfolding finish_upload
  finish_upload-IsSafe i x success p e v =
      let shorter = length-without i p.busy e in
      record {
        clean_queue = v.clean_queue;
        clean_busy = All-without IsClean i p.busy v.clean_busy;
        clean_recovering = v.clean_recovering;
        flying = omega (arith, v.flying);
        bounded = v.bounded;
        staffed = omega (arith, v.staffed);
        persisted =
            ack-Covered x success p.store _ (pending p) (All-get IsClean i p.busy e v.clean_busy)
              v.persisted (λ y. omega (arith, count-without y x i p.busy e));
      }

  recover_next-IsSafe :
      (xs : List Str) (p : Pool q) → p.recovering ≡ xs → IsSafe p → IsSafe (recover_next q xs p)
  unfolding recover_next count
  recover_next-IsSafe [] p e v = v
  recover_next-IsSafe (x ∷ rest) p e v =
      let clean : All IsClean (x ∷ rest) = subst (All IsClean) e v.clean_recovering in
      let (same, filled) = clean.0 in
      elim (Bool-cases (ltb (length p.queue) p.capacity)) [
        | inl room ↦
            rw (same, filled, room)
              (record {
                clean_queue = All-append IsClean p.queue (x ∷ []) v.clean_queue (clean.0, tt);
                clean_busy = v.clean_busy;
                clean_recovering = clean.1;
                flying = v.flying;
                bounded = ground (arith, length-append p.queue (x ∷ []));
                staffed = v.staffed;
                persisted =
                    Covered-mono p.store _ (pending p) v.persisted
                      (λ y. omega (arith, count-append y p.queue (x ∷ []), ap (count y) e));
              })
        | inr full ↦ rw (same, filled, full) v
      ]

  count_recovered-Covered :
      (k : ℕ) (o : Option State) (n : Str → ℕ) → Covered o n → Covered (count_recovered q k o) n
  unfolding count_recovered
  count_recovered-Covered k none n h = tt
  count_recovered-Covered k (some s) n h = elim (Bool-cases (leb k 0)) [
    | inl z ↦ rw z h
    | inr z ↦ rw z (λ x. omega (arith, h x, ap (count x) (record_recovered_keeps k s)))
  ]

  -- A change of the store alone.
  store-IsSafe :
      (o : Option State) (p : Pool q)
      → IsSafe p
      → Covered o (pending p)
      → IsSafe (record p { store = o })
  store-IsSafe o p v h = record {
    clean_queue = v.clean_queue;
    clean_busy = v.clean_busy;
    clean_recovering = v.clean_recovering;
    flying = v.flying;
    bounded = v.bounded;
    staffed = v.staffed;
    persisted = h;
  }

  record_recovered_count-IsSafe : (p : Pool q) → IsSafe p → IsSafe (record_recovered_count q p)
  unfolding record_recovered_count
  record_recovered_count-IsSafe p v =
      store-IsSafe _ p v (count_recovered-Covered p.recovered_count p.store (pending p) v.persisted)

  roll_back-Covered :
      (path : Str) (o : Option State) (n : Str → ℕ)
      → IsClean path
      → Covered o (λ x. n x + once path x)
      → Covered (roll_back q path o) n
  unfolding roll_back
  roll_back-Covered path none n c h = tt
  roll_back-Covered path (some s) n c h = λ x. omega (arith, h x, remove_last_one_takes path x s c)

  -- The pool between Enqueue and the send: the path is persisted once more than it is held.
  send-IsSafe :
      (path : Str) (now : ℕ) (p : Pool q)
      → IsClean path
      → IsSafe p
      → Covered p.store (λ x. pending p x + once path x)
      → IsSafe (send_or_roll_back q path now p).0
  unfolding send_or_roll_back count
  send-IsSafe path now p c v h = elim (Bool-cases (ltb (length p.queue) p.capacity)) [
    | inl room ↦ rw room (record {
      clean_queue = All-append IsClean p.queue (path ∷ []) v.clean_queue (c, tt);
      clean_busy = v.clean_busy;
      clean_recovering = v.clean_recovering;
      flying = v.flying;
      bounded = ground (arith, length-append p.queue (path ∷ []));
      staffed = v.staffed;
      persisted =
          Covered-mono p.store _ (λ x. pending p x + once path x) h
            (λ y. omega (arith, count-append y p.queue (path ∷ [])));
    })
    | inr full ↦ rw full (store-IsSafe _ p v (roll_back-Covered path p.store (pending p) c h))
  ]

  enqueue-Covered :
      (path : Str) (s : State) (n : Str → ℕ)
      → IsClean path
      → Covered (some s) n
      → Covered
          (some (enqueue path s).0)
          (λ x. n x + (if (enqueue path s).1 then once path x else 0))
  enqueue-Covered path s n c h = λ x. omega (arith, h x, enqueue_adds path x s c)

  persist_and_send-IsSafe :
      (o : Option State) (path : Str) (now : ℕ) (p : Pool q)
      → p.store ≡ o
      → IsClean path
      → IsSafe p
      → IsSafe (persist_and_send q o path now p).0
  unfolding persist_and_send
  persist_and_send-IsSafe none path now p e c v = send-IsSafe path now p c v (rw e tt)
  persist_and_send-IsSafe (some s) path now p e c v =
      let held : Covered (some s) (pending p) = subst (λ o. Covered o (pending p)) e v.persisted in
      let more = enqueue-Covered path s (pending p) c held in
      let p' : Pool q = record p { store = some (enqueue path s).0 } in
      let v' : IsSafe p' = store-IsSafe _ p v (λ x. omega (arith, more x)) in
      elim (Bool-cases (enqueue path s).1) [
        | inl done ↦ rw done (send-IsSafe path now p' c v' (rw done at more))
        | inr failed ↦ rw failed v'
      ]

  add_file-IsSafe :
      (path : Str) (now : ℕ) (p : Pool q) → IsSafe p → IsSafe (add_file q path now p).0
  unfolding add_file
  add_file-IsSafe path now p v =
      if_elim (λ (r : Pool q × Option AddError). IsSafe r.0) p.closed (λ shut. v)
        (λ up.
          if_elim (λ (r : Pool q × Option AddError). IsSafe r.0) (is_empty (trim_space path))
            (λ bare. v)
            (λ filled.
              persist_and_send-IsSafe p.store (trim_space path) now p refl
                (trim_space_idem path, filled) v))

  -- One step keeps the pool safe.
  pub Step-IsSafe : {p r : Pool q} → Step p r → IsSafe p → IsSafe r
  unfolding shut_down
  Step-IsSafe {p} (adds path now) v = add_file-IsSafe path now p v
  Step-IsSafe {p} (takes h) v = start_upload-IsSafe p.queue p refl h v
  Step-IsSafe {p} (finishes i x success e) v = finish_upload-IsSafe i x success p e v
  Step-IsSafe {p} recovers v = recover_next-IsSafe p.recovering p refl v
  Step-IsSafe {p} records v = record_recovered_count-IsSafe p v
  Step-IsSafe shuts v = ground arith

  -- Over any interleaving of callers, workers, recovery and shutdown, from a safe pool, whichever
  -- writes of the store fail: the queue stays within its capacity, no more uploads run than there are
  -- workers, the counter equals them, the paths held are trimmed and not empty, and each path that
  -- waits, is being uploaded or is still to be recovered is persisted at least as often as it is held.
  pub Reach-IsSafe : {p r : Pool q} → IsSafe p → Reach p r → IsSafe r
  Reach-IsSafe v here = v
  Reach-IsSafe v (next r st) = Step-IsSafe st (Reach-IsSafe v r)
