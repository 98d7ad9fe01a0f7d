-- ===== src/Upload/Failures.antt =====
-- go-watch-file/internal/upload/worker_pool.go, worker: a path whose upload failed stays persisted.
use go_watch_file.Base.{
  ℕ, ◌+◌, ◌≡◌, refl, sym, subst, Bool, true, false, Option, none, some, List, [], ◌∷◌, ◌++◌, arith,
  if◌then◌else◌, length, ltb, All, Bool-cases, inl, inr,
}
use mathlib.Core.List.{append-nil}
use go_watch_file.Base.Str.{Str, is_empty, count, count-append}
use go_watch_file.Base.Trim.{trim_space}
use go_watch_file.PersistQueue.Search.{get_elem?, count-without}
use go_watch_file.Upload.Store.{QueueStore, IsClean}
use go_watch_file.Upload.{
  AddError, Pool, warn_if_queue_near_full, queue_warn_after, send_or_roll_back, persist_and_send,
  add_file, start_upload, finish_upload, recover_next, record_recovered_count, shut_down,
}
use go_watch_file.Upload.Safe.{
  pending, Covered, IsSafe, Step, adds, takes, finishes, recovers, records, shuts, Step-IsSafe,
  All-get, Covered-mono,
}

All-insert :
    (P : Str → Type 0) (xs ys : List Str) {x : Str} → P x → All P (xs ++ ys) → All P (xs ++ x ∷ ys)
All-insert P [] ys h r = (h, r)
All-insert P (y ∷ xs) ys h r = (r.0, All-insert P xs ys h r.1)

module _ (q : QueueStore) where
  open q use {State, items, enqueue}

  -- The path whose upload a step saw fail.
  abbrev pub failed : {p r : Pool q} → Step q p r → List Str
  failed (finishes i x false e) = x ∷ []
  failed _ = []

  -- A run, with the paths whose uploads failed in it.
  pub data Run (p : Pool q) : List Str → Pool q → Type 0 where
    begin : Run p [] p
    goes :
        {fs : List Str} {r s : Pool q} → Run p fs r → (st : Step q r s) → Run p (failed st ++ fs) s

  -- The pool as if it had the failed paths still to recover.
  abbrev owing : List Str → Pool q → Pool q
  owing fs p = record p { recovering = p.recovering ++ fs }

  send-owing :
      (fs : List Str) (path : Str) (now : ℕ) (p : Pool q)
      → (send_or_roll_back q path now (owing fs p)).0 ≡ owing fs (send_or_roll_back q path now p).0
  unfolding send_or_roll_back warn_if_queue_near_full queue_warn_after
  send-owing fs path now p = elim (Bool-cases (ltb (length p.queue) p.capacity)) [
    | inl room ↦ rw room refl
    | inr full ↦ rw full refl
  ]

  persist-owing :
      (o : Option State) (fs : List Str) (path : Str) (now : ℕ) (p : Pool q)
      → (persist_and_send q o path now (owing fs p)).0
        ≡ owing fs (persist_and_send q o path now p).0
  unfolding persist_and_send
  persist-owing none fs path now p = send-owing fs path now p
  persist-owing (some s) fs path now p = elim (Bool-cases (enqueue path s).1) [
    | inl stored ↦ rw stored (send-owing fs path now (record p { store = some (enqueue path s).0 }))
    | inr unstored ↦ rw unstored refl
  ]

  Owing-if :
      (fs : List Str) (b : Bool) (x y x' y' : Pool q × Option AddError)
      → x.0 ≡ owing fs x'.0
      → y.0 ≡ owing fs y'.0
      → (if b then x else y).0 ≡ owing fs (if b then x' else y').0
  Owing-if fs true x y x' y' e f = e
  Owing-if fs false x y x' y' e f = f

  add_file-owing :
      (fs : List Str) (path : Str) (now : ℕ) (p : Pool q)
      → (add_file q path now (owing fs p)).0 ≡ owing fs (add_file q path now p).0
  unfolding add_file
  add_file-owing fs path now p = Owing-if fs p.closed _ _ _ _ refl (
      Owing-if fs (is_empty (trim_space path)) _ _ _ _ refl
        (persist-owing p.store fs (trim_space path) now p))

  start-owing :
      (xs fs : List Str) (p : Pool q)
      → start_upload q xs (owing fs p) ≡ owing fs (start_upload q xs p)
  unfolding start_upload
  start-owing [] fs p = refl
  start-owing (x ∷ xs) fs p = refl

  recover-owing :
      (x : Str) (rest fs : List Str) (p : Pool q)
      → recover_next q (x ∷ rest ++ fs) (owing fs p) ≡ owing fs (recover_next q (x ∷ rest) p)
  unfolding recover_next
  recover-owing x rest fs p = elim (Bool-cases (is_empty (trim_space x))) [
    | inl bare ↦ rw bare refl
    | inr filled ↦ elim (Bool-cases (ltb (length p.queue) p.capacity)) [
      | inl room ↦ rw (filled, room) refl
      | inr full ↦ rw (filled, full) refl
    ]
  ]

  recovering-owing :
      (xs fs : List Str) (p : Pool q)
      → p.recovering ≡ xs
      → IsSafe q (owing fs p)
      → IsSafe q (owing fs (recover_next q xs p))
  recovering-owing [] fs p e v = unfold recover_next in v
  recovering-owing (x ∷ rest) fs p e v = subst (IsSafe q) (recover-owing x rest fs p) (
      subst (λ xs. IsSafe q (recover_next q (xs ++ fs) (owing fs p))) e
        (Step-IsSafe q {p = owing fs p} recovers v))

  -- A failed upload leaves the store alone, and the path is owed.
  failure-IsSafe :
      (i : ℕ) (x : Str) (fs : List Str) (p : Pool q)
      → get_elem? p.busy i ≡ some x
      → IsSafe q (owing fs p)
      → IsSafe q (owing (x ∷ fs) (finish_upload q i x false p))
  unfolding finish_upload count
  failure-IsSafe i x fs p e v =
      let w = Step-IsSafe q {p = owing fs p} (finishes i x false e) v in
      let clean : IsClean x = All-get IsClean i p.busy e v.clean_busy in
      record {
        clean_queue = w.clean_queue;
        clean_busy = w.clean_busy;
        clean_recovering = All-insert IsClean p.recovering fs clean v.clean_recovering;
        flying = w.flying;
        bounded = w.bounded;
        staffed = w.staffed;
        persisted = Covered-mono q p.store _ (pending q (owing fs p)) v.persisted (λ y. omega (
          arith,
          count-without y x i p.busy e,
          count-append y p.recovering (x ∷ fs),
          count-append y p.recovering fs,
        ));
      }

  Step-owing :
      (fs : List Str) {p r : Pool q} (st : Step q p r)
      → IsSafe q (owing fs p)
      → IsSafe q (owing (failed st ++ fs) r)
  unfolding finish_upload record_recovered_count shut_down
  Step-owing fs {p} (adds path now) v =
      subst (IsSafe q) (add_file-owing fs path now p) (Step-IsSafe q (adds path now) v)
  Step-owing fs {p} (takes e) v =
      subst (IsSafe q) (start-owing p.queue fs p) (Step-IsSafe q {p = owing fs p} (takes e) v)
  Step-owing fs {p} (finishes i x true e) v = Step-IsSafe q {p = owing fs p} (finishes i x true e) v
  Step-owing fs {p} (finishes i x false e) v = failure-IsSafe i x fs p e v
  Step-owing fs {p} recovers v = recovering-owing p.recovering fs p refl v
  Step-owing fs {p} records v = Step-IsSafe q {p = owing fs p} records v
  Step-owing fs {p} shuts v = Step-IsSafe q {p = owing fs p} shuts v

  Run-owing : {p r : Pool q} {fs : List Str} → Run p fs r → IsSafe q p → IsSafe q (owing fs r)
  Run-owing {p} begin v =
      subst (λ xs. IsSafe q (record p { recovering = xs })) (sym (append-nil p.recovering)) v
  Run-owing (goes {fs} run st) v = Step-owing fs st (Run-owing run v)

  -- Over any interleaving from a safe pool, whichever writes of the store fail: each path is persisted
  -- at least as often as it waits, is being uploaded, is still to be recovered, or had an upload fail
  -- in this run, all these together.
  pub Run-Covered :
      {p r : Pool q} {fs : List Str}
      → Run p fs r
      → IsSafe q p
      → Covered q r.store (λ x. pending q r x + count x fs)
  Run-Covered {p} {r} {fs} run v =
      Covered-mono q r.store _ (pending q (owing fs r)) (Run-owing run v).persisted
        (λ x. omega (arith, count-append x r.recovering fs))
