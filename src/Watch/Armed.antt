-- ===== src/Watch/Armed.antt =====
-- go-watch-file/internal/watcher/file_watcher.go: a file that waits has a timer, or a callback that comes late enough.
use go_watch_file.Base.{
  ℕ, ◌+◌, ◌≤◌, ◌<◌, ◌≡◌, refl, sym, ap, ◌∙◌, Bool, true, false, Option, none, some, List, [], ◌∷◌,
  if◌then◌else◌, ◌⊎◌, inl, inr, arith, ◌==◌, ◌&&◌, ltb, leb, ==_iff, Bool-cases,
}
use go_watch_file.Base.Str.{Str, str_eq, str_eq_iff}
use go_watch_file.Base.Assoc.{lookup, insert, delete, lookup-insert, lookup-delete}
use go_watch_file.Watch.Files.{
  FileWatcher, World, Stamps, has_stamp, remove_stamp, has_path, remove_path, stop_timer,
  update_file_write_time, write_complete, cleanup_file_state,
}
use go_watch_file.Watch.Events.{fire}
use go_watch_file.Watch.Frame.{SameFiles}

pub has_stamp-remove :
    (p q : Str) (d e : ℕ) (live : Stamps)
    → has_stamp q e live ≡ true
    → (str_eq p q && d == e) ≡ false
    → has_stamp q e (remove_stamp p d live) ≡ true
unfolding has_stamp remove_stamp
has_stamp-remove p q d e [] h n = absurd cc
has_stamp-remove p q d e ((r, f) ∷ live) h n =
    ground (arith, has_stamp-remove p q d e live, str_eq_iff r p, str_eq_iff r q, str_eq_iff p q)

pub has_path-remove :
    (p q : Str) (ps : List Str)
    → has_path q ps ≡ true
    → str_eq p q ≡ false
    → has_path q (remove_path p ps) ≡ true
unfolding has_path remove_path
has_path-remove p q [] h n = absurd cc
has_path-remove p q (r ∷ ps) h n =
    ground (arith, has_path-remove p q ps, str_eq_iff r p, str_eq_iff r q, str_eq_iff p q)

stop-keeps :
    (p q : Str) (o : Option ℕ) (e : ℕ) (live : Stamps)
    → str_eq p q ≡ false
    → has_stamp q e live ≡ true
    → has_stamp q e (stop_timer p o live) ≡ true
stop-keeps p q none e live n h = h
stop-keeps p q (some d) e live n h = has_stamp-remove p q d e live h (ground arith)

-- A timer of the path at the deadline, or a callback of it that runs after the deadline.
abbrev pub Pending : World → Str → ℕ → Type 0
Pending w p deadline =
    (has_stamp p deadline w.live ≡ true) ⊎ ((has_path p w.running ≡ true) × (deadline ≤ w.now))

-- Whatever waits is armed, by the timer that the map holds.
pub record IsArmed (w : World) : Type 0 where
  pub held :
      (p : Str) (u : ℕ)
      → lookup p w.watcher.last_write_time ≡ some u
      → lookup p w.watcher.write_timers ≡ some (u + w.watcher.silence_window)
  pub pending :
      (p : Str) (u : ℕ)
      → lookup p w.watcher.last_write_time ≡ some u
      → Pending w p (u + w.watcher.silence_window)

pub same-IsArmed : (v w : World) → SameFiles v w → IsArmed v → IsArmed w
same-IsArmed v w k i =
    let times = k.kept.same_times in
    let window = k.kept.same_window in
    record {
      held = λ p u h.
          ap (lookup p) k.kept.same_timers
          ∙ i.held p u (ap (lookup p) (sym times) ∙ h)
          ∙ ap (λ s. some (u + s)) (sym window);
      pending = λ p u h.
          rw (window, k.same_live, k.same_running, k.same_now)
            (i.pending p u (ap (lookup p) (sym times) ∙ h));
    }

pub later-IsArmed : (w : World) (d : ℕ) → IsArmed w → IsArmed (record w { now = w.now + d })
later-IsArmed w d i = record {
  held = i.held;
  pending = λ p u h. elim (i.pending p u h) [
    | inl armed ↦ inl armed
    | inr (runs, due) ↦ inr (runs, omega arith)
  ];
}

-- A pending file stays so when the timer of another one is stopped.
stop-Pending :
    (w : World) (p q : Str) (o : Option ℕ) (deadline : ℕ)
    → str_eq p q ≡ false
    → Pending w q deadline
    → Pending (record w { live = stop_timer p o w.live }) q deadline
stop-Pending w p q o deadline n (inl armed) = inl (stop-keeps p q o deadline w.live n armed)
stop-Pending w p q o deadline n (inr runs) = inr runs

set_Pending :
    (w : World) (p q : Str) (o : Option ℕ) (d deadline : ℕ)
    → str_eq p q ≡ false
    → Pending w q deadline
    → Pending (record w { live = (p, d) ∷ stop_timer p o w.live }) q deadline
unfolding has_stamp
set_Pending w p q o d deadline n (inl armed) =
    inl (ground (arith, stop-keeps p q o deadline w.live n armed))
set_Pending w p q o d deadline n (inr runs) = inr runs

insert_other :
    (p q : Str) (v u : ℕ) (m : Stamps)
    → str_eq p q ≡ false
    → lookup q (insert p v m) ≡ some u
    → lookup q m ≡ some u
insert_other p q v u m n h = ground (arith, lookup-insert p q v m)

insert_same :
    (p q : Str) (v u : ℕ) (m : Stamps)
    → str_eq p q ≡ true
    → lookup q (insert p v m) ≡ some u
    → v ≡ u
insert_same p q v u m e h = ground (arith, lookup-insert p q v m)

delete_other :
    (p q : Str) (u : ℕ) (m : Stamps)
    → lookup q (delete p m) ≡ some u
    → (str_eq p q ≡ false) × (lookup q m ≡ some u)
delete_other p q u m h = ground (arith, lookup-delete p q m)

pub write-IsArmed : (p : Str) (w : World) → IsArmed w → IsArmed (update_file_write_time p w)
unfolding update_file_write_time has_stamp
write-IsArmed p w i =
    let times = w.watcher.last_write_time in
    let timers = w.watcher.write_timers in
    record {
      held = λ q u h. elim (Bool-cases (str_eq p q)) [
        | inl same ↦
            let e = insert_same p q w.now u times same h in
            ground (arith, lookup-insert p q (w.now + w.watcher.silence_window) timers, e)
        | inr other ↦
            let old = i.held q u (insert_other p q w.now u times other h) in
            ground (arith, lookup-insert p q (w.now + w.watcher.silence_window) timers, old)
      ];
      pending = λ q u h. elim (Bool-cases (str_eq p q)) [
        | inl same ↦
            let e = insert_same p q w.now u times same h in
            inl (
              ground (
                arith,
                e,
                ==_iff (w.now + w.watcher.silence_window) (u + w.watcher.silence_window),
              ))
        | inr other ↦
            set_Pending w p q (lookup p timers) (w.now + w.watcher.silence_window) _ other
              (i.pending q u (insert_other p q w.now u times other h))
      ];
    }

pub cleanup-IsArmed : (p : Str) (w : World) → IsArmed w → IsArmed (cleanup_file_state p w)
unfolding cleanup_file_state
cleanup-IsArmed p w i =
    let times = w.watcher.last_write_time in
    record {
      held = λ q u h.
          let (other, old) = delete_other p q u times h in
          ground (arith, lookup-delete p q w.watcher.write_timers, i.held q u old);
      pending = λ q u h.
          let (other, old) = delete_other p q u times h in
          stop-Pending w p q (lookup p w.watcher.write_timers) _ other (i.pending q u old);
    }

pub no_times-IsArmed :
    (w : World) (fw : FileWatcher) (live : Stamps)
    → fw.last_write_time ≡ []
    → IsArmed (record w { watcher = fw; live = live })
unfolding lookup
no_times-IsArmed w fw live e = record {
  held = λ p u h. absurd (let f = ap (lookup p) (sym e) ∙ h in cc);
  pending = λ p u h. absurd (let f = ap (lookup p) (sym e) ∙ h in cc);
}

pub if-IsArmed :
    (b : Bool) (v w : World)
    → (b ≡ true → IsArmed v)
    → (b ≡ false → IsArmed w)
    → IsArmed (if b then v else w)
if-IsArmed true v w h k = h refl
if-IsArmed false v w h k = k refl

fired :
    (w : World) (p q : Str) (d deadline : ℕ)
    → d ≤ w.now
    → Pending w q deadline
    → Pending (record w { live = remove_stamp p d w.live; running = p ∷ w.running }) q deadline
unfolding has_path
fired w p q d deadline due (inr (runs, late)) = inr (ground arith, late)
fired w p q d deadline due (inl armed) = elim (Bool-cases (str_eq p q && d == deadline)) [
  | inl same ↦ inr (ground (arith, ==_iff d deadline), ground (arith, ==_iff d deadline))
  | inr other ↦ inl (has_stamp-remove p q d deadline w.live armed other)
]

pub fire-IsArmed : (p : Str) (d : ℕ) (w : World) → IsArmed w → IsArmed (fire p d w)
unfolding fire
fire-IsArmed p d w i =
    if-IsArmed (has_stamp p d w.live && leb d w.now)
      (record w { live = remove_stamp p d w.live; running = p ∷ w.running }) w
      (λ e. record {
        held = i.held;
        pending = λ q u h. fired w p q d _ (ground arith) (i.pending q u h);
      })
      (λ _. i)

-- After its callback has run, a path waits only for a timer that is still to fire.
completed_other :
    (w : World) (p q : Str) (deadline : ℕ)
    → str_eq p q ≡ false
    → Pending w q deadline
    → Pending (record w { running = remove_path p w.running }) q deadline
completed_other w p q deadline n (inl armed) = inl armed
completed_other w p q deadline n (inr (runs, late)) =
    inr (has_path-remove p q w.running runs n, late)

completed_early :
    (w : World) (p q : Str) (deadline : ℕ)
    → (str_eq p q ≡ true → w.now < deadline)
    → Pending w q deadline
    → Pending (record w { running = remove_path p w.running }) q deadline
completed_early w p q deadline early (inl armed) = inl armed
completed_early w p q deadline early (inr (runs, late)) = elim (Bool-cases (str_eq p q)) [
  | inl same ↦ absurd (let e = early same in omega arith)
  | inr other ↦ completed_other w p q deadline other (inr (runs, late))
]

early_of :
    (w : World) (p q : Str) (last u : ℕ)
    → str_eq p q ≡ true
    → lookup p w.watcher.last_write_time ≡ some last
    → lookup q w.watcher.last_write_time ≡ some u
    → ltb w.now (last + w.watcher.silence_window) ≡ true
    → w.now < u + w.watcher.silence_window
early_of w p q last u same e h early =
    let f = sym (ap (λ r. lookup r w.watcher.last_write_time) ((str_eq_iff p q).0 same)) ∙ e in
    ground (arith, f, h)

pub write_complete-IsArmed :
    (p : Str) (w : World) (last : Option ℕ)
    → lookup p w.watcher.last_write_time ≡ last
    → IsArmed w
    → IsArmed (write_complete p (record w { running = remove_path p w.running }) last)
unfolding write_complete
write_complete-IsArmed p w none e i = record {
  held = i.held;
  pending = λ q u h.
      completed_early w p q _
        (λ same. absurd (
          let f =
            sym (ap (λ r. lookup r w.watcher.last_write_time) ((str_eq_iff p q).0 same)) ∙ e in
          cc))
        (i.pending q u h);
}
write_complete-IsArmed p w (some last) e i =
    if-IsArmed (ltb w.now (last + w.watcher.silence_window))
      (record w { running = remove_path p w.running }) _
      (λ early. record {
        held = i.held;
        pending = λ q u h.
            completed_early w p q _ (λ same. early_of w p q last u same e h early)
              (i.pending q u h);
      })
      (λ silent. record {
        held = λ q u h.
            let (other, old) = delete_other p q u w.watcher.last_write_time h in
            ground (arith, lookup-delete p q w.watcher.write_timers, i.held q u old);
        pending = λ q u h.
            let (other, old) = delete_other p q u w.watcher.last_write_time h in
            completed_other w p q _ other (i.pending q u old);
      })
