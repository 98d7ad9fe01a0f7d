-- ===== src/Watch/Delivery.antt =====
-- go-watch-file/internal/watcher/file_watcher.go: a file that was written to is handed on once.
use go_watch_file.Base.{
  ℕ, ◌+◌, ◌≤◌, ◌<◌, ◌≡◌, refl, sym, ap, ◌∙◌, Bool, true, false, not, Option, none, some, List, [],
  ◌∷◌, if◌then◌else◌, ◌⊎◌, inl, inr, arith, ◌&&◌, ltb, leb, Bool-cases, Option-cases,
}
use go_watch_file.Base.Str.{Str, str_eq, str_eq_iff}
use go_watch_file.Base.Assoc.{lookup, lookup-insert, lookup-delete}
use go_watch_file.Paths.Split.{PathHost}
use go_watch_file.Paths.Objects.{split_watch_dirs}
use go_watch_file.Watch.Files.{
  WatchConfig, FileWatcher, World, Call, has_stamp, has_path, remove_path, should_log_file_event,
  update_file_write_time, write_complete, handle_write_complete, cleanup_file_state, first_call,
  remove_call, hand_over,
}
use go_watch_file.Watch.Dirs.{
  WalkResult, walked, watch_limit_reached, walk_failed, is_watched_dir, remove_watch_tree,
  add_watch_for_dirs,
}
use go_watch_file.Watch.Events.{
  Event, is_target_file_event, handle_target_file_event, with_watcher, handle_create, handle_gone,
  handle_event, Act, passes, happens, fires, completes, hands, resets, act, run, new_world, start,
  started, starts, fire, complete,
}
use go_watch_file.Watch.Frame.{
  KeepsFiles, SameFiles, should_log-SameFiles, watcher-SameFiles, handle_created_path-KeepsFiles,
  remove_watch_tree-KeepsFiles, add_watch_for_dirs-Walked,
}
use go_watch_file.Watch.Armed.{IsArmed}
use go_watch_file.Watch.Reached.{run-IsArmed, new_world-IsArmed}

-- How often the path was handed on.
unfoldable pub calls_of : Str → List Call → ℕ
calls_of p [] = 0
calls_of p (c ∷ cs) = if str_eq c.path p then 1 + calls_of p cs else calls_of p cs

-- How often the path was let through: handed on, or about to be.
abbrev passed_of : Str → World → ℕ
passed_of p w = calls_of p w.calls + calls_of p w.handing

-- An act that is neither an event on the path nor a reset.
unfoldable pub spares : Str → Act → Bool
spares p (happens e) = not (str_eq e.path p)
spares p (resets walk walk_back config) = false
spares p (passes d) = true
spares p (starts walk) = true
spares p (fires q deadline) = true
spares p (completes q) = true
spares p (hands q) = true

unfoldable pub all_spare : Str → List Act → Bool
unfolding spares
all_spare p [] = true
all_spare p (a ∷ acts) = spares p a && all_spare p acts

-- Every timer of the path that was due has fired, and its callbacks have run to their ends.
pub record IsDrained (p : Str) (w : World) : Type 0 where
  pub idle : has_path p w.running ≡ false
  pub handed : calls_of p w.handing ≡ 0
  pub undue : (d : ℕ) → has_stamp p d w.live ≡ true → w.now < d

-- The path waits as it did and was let through n times, or it waits no more and was so once more.
record Tracks (p : Str) (u s n : ℕ) (w : World) : Type 0 where
  window : w.watcher.silence_window ≡ s
  phase :
      ((lookup p w.watcher.last_write_time ≡ some u) × (passed_of p w ≡ n))
      ⊎ ((lookup p w.watcher.last_write_time ≡ none) × (passed_of p w ≡ n + 1))

-- The path has the same time, and was let through as often.
record SamePath (p : Str) (v w : World) : Type 0 where
  same_window : w.watcher.silence_window ≡ v.watcher.silence_window
  same_time : lookup p w.watcher.last_write_time ≡ lookup p v.watcher.last_write_time
  same_count : passed_of p w ≡ passed_of p v

SamePath-refl : (p : Str) (w : World) → SamePath p w w
SamePath-refl p w = record { same_window = refl; same_time = refl; same_count = refl }

SamePath-trans : (p : Str) (u v w : World) → SamePath p u v → SamePath p v w → SamePath p u w
SamePath-trans p u v w h k = record {
  same_window = k.same_window ∙ h.same_window;
  same_time = k.same_time ∙ h.same_time;
  same_count = k.same_count ∙ h.same_count;
}

files-SamePath : (p : Str) (v w : World) → SameFiles v w → SamePath p v w
files-SamePath p v w k = record {
  same_window = k.kept.same_window;
  same_time = ap (lookup p) k.kept.same_times;
  same_count = rw (k.same_calls, k.same_handing) refl;
}

if-SamePath :
    (p : Str) (u : World) (b : Bool) (v w : World)
    → SamePath p u v
    → SamePath p u w
    → SamePath p u (if b then v else w)
if-SamePath p u true v w h k = h
if-SamePath p u false v w h k = k

write-SamePath :
    (p q : Str) (w : World) → str_eq q p ≡ false → SamePath p w (update_file_write_time q w)
unfolding update_file_write_time
write-SamePath p q w n = record {
  same_window = refl;
  same_time = ground (arith, lookup-insert q p w.now w.watcher.last_write_time);
  same_count = refl;
}

cleanup-SamePath :
    (p q : Str) (w : World) → str_eq q p ≡ false → SamePath p w (cleanup_file_state q w)
unfolding cleanup_file_state
cleanup-SamePath p q w n = record {
  same_window = refl;
  same_time = ground (arith, lookup-delete q p w.watcher.last_write_time);
  same_count = refl;
}

watcher-SamePath :
    (p : Str) (w : World) (fw : FileWatcher)
    → KeepsFiles w.watcher fw
    → SamePath p w (with_watcher w fw)
watcher-SamePath p w fw k = files-SamePath p w (with_watcher w fw) (watcher-SameFiles w fw k)

event-SamePath :
    (host : PathHost) (p : Str) (e : Event) (w : World)
    → str_eq e.path p ≡ false
    → SamePath p w (handle_event host e w)
unfolding handle_event handle_target_file_event handle_create handle_gone
event-SamePath host p e w n =
    let w1 =
      if is_target_file_event host w.watcher e then handle_target_file_event e.path w else w in
    let w2 = if e.is_create then handle_create host e w1 else w1 in
    let logged = should_log_file_event e.path w in
    let s1 : SamePath p w w1 =
      if-SamePath p w (is_target_file_event host w.watcher e) (handle_target_file_event e.path w) w
        (SamePath-trans p w logged _ (files-SamePath p w logged (should_log-SameFiles e.path w))
          (write-SamePath p e.path logged n))
        (SamePath-refl p w) in
    let s2 : SamePath p w1 w2 =
      if-SamePath p w1 e.is_create (handle_create host e w1) w1
        (watcher-SamePath p w1 _ (handle_created_path-KeepsFiles host e.path e.created w1.watcher))
        (SamePath-refl p w1) in
    let cleaned = cleanup_file_state e.path w2 in
    let s3 = cleanup-SamePath p e.path w2 n in
    let gone : SamePath p w2 (handle_gone host e.path w2) =
      if-SamePath p w2 (is_watched_dir e.path cleaned.watcher)
        (with_watcher cleaned (remove_watch_tree host e.path cleaned.watcher)) cleaned
        (SamePath-trans p w2 cleaned _ s3
          (watcher-SamePath p cleaned _ (remove_watch_tree-KeepsFiles host e.path _)))
        s3 in
    SamePath-trans p w w1 _ s1 (
      SamePath-trans p w1 w2 _ s2
        (if-SamePath p w2 e.is_gone (handle_gone host e.path w2) w2 gone (SamePath-refl p w2)))

started-SamePath :
    (p : Str) (w : World) (r : FileWatcher × WalkResult)
    → KeepsFiles w.watcher r.0
    → SamePath p w (started w r).0
started-SamePath p w (fw, walked) k = watcher-SamePath p w fw k
started-SamePath p w (fw, watch_limit_reached) k = watcher-SamePath p w fw k
started-SamePath p w (fw, walk_failed e) k = watcher-SamePath p w fw k

same-Tracks :
    (p : Str) (u s n : ℕ) (v w : World) → SamePath p v w → Tracks p u s n v → Tracks p u s n w
same-Tracks p u s n v w k t = record {
  window = k.same_window ∙ t.window;
  phase = elim t.phase [
    | inl (waits, count) ↦ inl (k.same_time ∙ waits, k.same_count ∙ count)
    | inr (free, count) ↦ inr (k.same_time ∙ free, k.same_count ∙ count)
  ];
}

if-Tracks :
    (p : Str) (u s n : ℕ) (b : Bool) (v w : World)
    → Tracks p u s n v
    → Tracks p u s n w
    → Tracks p u s n (if b then v else w)
if-Tracks p u s n true v w h k = h
if-Tracks p u s n false v w h k = k

complete-Tracks :
    (p q : Str) (u s n : ℕ) (w : World) (running : List Str) (last : Option ℕ)
    → lookup q w.watcher.last_write_time ≡ last
    → Tracks p u s n w
    → Tracks p u s n (write_complete q (record w { running = running }) last)
unfolding write_complete calls_of
complete-Tracks p q u s n w running none e t = record { window = t.window; phase = t.phase }
complete-Tracks p q u s n w running (some last) e t =
    let times = w.watcher.last_write_time in
    if-Tracks p u s n (ltb w.now (last + w.watcher.silence_window)) _ _
      (record { window = t.window; phase = t.phase })
      (record {
        window = t.window;
        phase = elim (Bool-cases (str_eq q p)) [
          | inl same ↦ elim t.phase [
            | inl (waits, count) ↦ inr (ground (arith, lookup-delete q p times), ground arith)
            | inr (free, count) ↦
                absurd (let f = sym (ap (λ r. lookup r times) ((str_eq_iff q p).0 same)) ∙ e in cc)
          ]
          | inr other ↦ elim t.phase [
            | inl (waits, count) ↦ inl (ground (arith, lookup-delete q p times), ground arith)
            | inr (free, count) ↦ inr (ground (arith, lookup-delete q p times), ground arith)
          ]
        ];
      })

first_call-count :
    (p q : Str) (c : Call) (cs : List Call)
    → first_call q cs ≡ some c
    → calls_of p cs ≡ calls_of p (c ∷ []) + calls_of p (remove_call q cs)
unfolding first_call remove_call calls_of
first_call-count p q c [] e = absurd cc
first_call-count p q c (d ∷ cs) e = elim (Bool-cases (str_eq d.path q)) [
  | inl here ↦
      let same : ◌≡◌ {A = Option Call} (some d) (some c) = rw here at e in
      rw (here, sym (some_call d c same)) (ground arith)
  | inr there ↦
      let rest = first_call-count p q c cs (rw there at e) in rw there (ground (arith, rest))
]
  where
    some_call : (a b : Call) → ◌≡◌ {A = Option Call} (some a) (some b) → a ≡ b
    some_call a b e = cc

hand_over-SamePath : (p q : Str) (w : World) → SamePath p w (hand_over q w)
unfolding hand_over calls_of
hand_over-SamePath p q w = elim (Option-cases (first_call q w.handing)) [
  | inl e ↦ rw (e, hand_over) (SamePath-refl p w)
  | inr (c, e) ↦
      let count = first_call-count p q c w.handing e in
      rw (e, hand_over)
        (record { same_window = refl; same_time = refl; same_count = ground (arith, count) })
]

act-Tracks :
    (host : PathHost) (p : Str) (u s n : ℕ) (a : Act) (w : World)
    → spares p a ≡ true
    → Tracks p u s n w
    → Tracks p u s n (act host a w)
unfolding act fire complete start spares handle_write_complete
act-Tracks host p u s n (passes d) w h t = record { window = t.window; phase = t.phase }
act-Tracks host p u s n (starts walk) w h t =
    let dirs = split_watch_dirs host w.watcher.config.watch_dir in
    same-Tracks p u s n w _
      (started-SamePath p w (add_watch_for_dirs host walk dirs w.watcher)
        (add_watch_for_dirs-Walked host walk dirs w.watcher))
      t
act-Tracks host p u s n (happens e) w h t =
    same-Tracks p u s n w _ (event-SamePath host p e w (ground arith)) t
act-Tracks host p u s n (fires q deadline) w h t =
    same-Tracks p u s n w _
      (if-SamePath p w (has_stamp q deadline w.live && leb deadline w.now) _ w
        (record { same_window = refl; same_time = refl; same_count = refl }) (SamePath-refl p w))
      t
act-Tracks host p u s n (completes q) w h t =
    if-Tracks p u s n (has_path q w.running) _ w
      (complete-Tracks p q u s n w (remove_path q w.running) _ refl t) t
act-Tracks host p u s n (hands q) w h t = same-Tracks p u s n w _ (hand_over-SamePath p q w) t
act-Tracks host p u s n (resets walk walk_back config) w h t = absurd cc

run-Tracks :
    (host : PathHost) (p : Str) (u s n : ℕ) (acts : List Act) (w : World)
    → all_spare p acts ≡ true
    → Tracks p u s n w
    → Tracks p u s n (run host acts w)
unfolding run all_spare
run-Tracks host p u s n [] w h t = t
run-Tracks host p u s n (a ∷ acts) w h t =
    run-Tracks host p u s n acts (act host a w) (ground arith)
      (act-Tracks host p u s n a w (ground arith) t)

drained-Tracks :
    (p : Str) (u s n : ℕ) (w : World)
    → IsArmed w
    → IsDrained p w
    → u + s ≤ w.now
    → Tracks p u s n w
    → calls_of p w.calls ≡ n + 1
drained-Tracks p u s n w i d late t = elim t.phase [
  | inr (free, count) ↦ omega (arith, count, d.handed)
  | inl (waits, count) ↦ elim (i.pending p u waits) [
    | inl armed ↦ absurd (omega (arith, d.undue _ armed, t.window))
    | inr (runs, due) ↦ absurd (let idle = d.idle in cc)
  ]
]

-- After any acts from a new watcher that leave a path waiting since a write at u, let further acts come
-- that are no event on the path and no reset. If at their end the window of silence has passed since u,
-- all due timers of the path have fired and their callbacks have run to their ends, then AddFile was
-- called for the path in those acts once and no more, besides the calls that callbacks which had let it
-- through before those acts still had to make.
pub run-calls_of :
    (host : PathHost) (config : WatchConfig) (earlier acts : List Act) (p : Str) (u : ℕ)
    → let w = run host earlier (new_world host config) in
      lookup p w.watcher.last_write_time ≡ some u
      → all_spare p acts ≡ true
      → IsDrained p (run host acts w)
      → u + w.watcher.silence_window ≤ (run host acts w).now
      → calls_of p (run host acts w).calls ≡ calls_of p w.calls + calls_of p w.handing + 1
run-calls_of host config earlier acts p u waits spared drained late =
    let w = run host earlier (new_world host config) in
    let armed = run-IsArmed host earlier (new_world host config) (new_world-IsArmed host config) in
    drained-Tracks p u w.watcher.silence_window (passed_of p w) (run host acts w)
      (run-IsArmed host acts w armed) drained late
      (run-Tracks host p u _ _ acts w spared (record { window = refl; phase = inl (waits, refl) }))
