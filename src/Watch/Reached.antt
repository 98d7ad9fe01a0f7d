-- ===== src/Watch/Reached.antt =====
-- go-watch-file/internal/watcher/file_watcher.go: whatever the watcher goes through, a file that waits is armed.
use go_watch_file.Base.{◌≡◌, refl, ◌∙◌, inl, inr, Option-cases, List, [], ◌∷◌, if◌then◌else◌}
use go_watch_file.Base.Str.{Str}
use go_watch_file.Base.Assoc.{lookup}
use go_watch_file.Paths.Split.{PathHost}
use go_watch_file.Paths.Objects.{split_watch_dirs}
use go_watch_file.Watch.Files.{
  WatchConfig, FileWatcher, World, has_path, should_log_file_event, handle_write_complete,
  first_call, hand_over, cleanup_file_state, reset_file_state,
}
use go_watch_file.Watch.Dirs.{
  WalkEntry, WalkResult, walked, watch_limit_reached, walk_failed, is_watched_dir,
  remove_watch_tree, remove_all_watches, add_watch_for_dirs,
}
use go_watch_file.Watch.Events.{
  Event, is_target_file_event, handle_target_file_event, with_watcher, handle_create, handle_gone,
  handle_event, configured, restored, after_adding, reset, Act, passes, happens, fires, completes,
  hands, resets, act, run, new_world, start, started, starts, complete,
}
use go_watch_file.Watch.Frame.{
  KeepsFiles, should_log-SameFiles, watcher-SameFiles, handle_created_path-KeepsFiles,
  remove_watch_tree-KeepsFiles, add_watch_for_dirs-Walked,
}
use go_watch_file.Watch.Armed.{
  IsArmed, same-IsArmed, later-IsArmed, write-IsArmed, cleanup-IsArmed, no_times-IsArmed,
  if-IsArmed, fire-IsArmed, write_complete-IsArmed,
}

complete-IsArmed : (p : Str) (w : World) → IsArmed w → IsArmed (complete p w)
unfolding complete handle_write_complete
complete-IsArmed p w i =
    if-IsArmed (has_path p w.running) _ w
      (λ _. write_complete-IsArmed p w (lookup p w.watcher.last_write_time) refl i) (λ _. i)

hand_over-IsArmed : (p : Str) (w : World) → IsArmed w → IsArmed (hand_over p w)
unfolding hand_over
hand_over-IsArmed p w i = elim (Option-cases (first_call p w.handing)) [
  | inl e ↦ rw (e, hand_over) i
  | inr (c, e) ↦ rw (e, hand_over) (record { held = i.held; pending = i.pending })
]

watcher-IsArmed :
    (w : World) (fw : FileWatcher)
    → KeepsFiles w.watcher fw
    → IsArmed w
    → IsArmed (with_watcher w fw)
watcher-IsArmed w fw k i = same-IsArmed w (with_watcher w fw) (watcher-SameFiles w fw k) i

event-IsArmed :
    (host : PathHost) (e : Event) (w : World) → IsArmed w → IsArmed (handle_event host e w)
unfolding handle_event handle_target_file_event handle_create handle_gone
event-IsArmed host e w i =
    let w1 =
      if is_target_file_event host w.watcher e then handle_target_file_event e.path w else w in
    let w2 = if e.is_create then handle_create host e w1 else w1 in
    let i1 : IsArmed w1 =
      if-IsArmed (is_target_file_event host w.watcher e) (handle_target_file_event e.path w) w
        (λ _.
          write-IsArmed e.path (should_log_file_event e.path w)
            (same-IsArmed w _ (should_log-SameFiles e.path w) i))
        (λ _. i) in
    let i2 : IsArmed w2 =
      if-IsArmed e.is_create (handle_create host e w1) w1
        (λ _.
          watcher-IsArmed w1 _ (handle_created_path-KeepsFiles host e.path e.created w1.watcher) i1)
        (λ _. i1) in
    let cleaned = cleanup_file_state e.path w2 in
    let i3 = cleanup-IsArmed e.path w2 i2 in
    if-IsArmed e.is_gone (handle_gone host e.path w2) w2
      (λ _.
        if-IsArmed (is_watched_dir e.path cleaned.watcher)
          (with_watcher cleaned (remove_watch_tree host e.path cleaned.watcher)) cleaned
          (λ _. watcher-IsArmed cleaned _ (remove_watch_tree-KeepsFiles host e.path _) i3)
          (λ _. i3))
      (λ _. i2)

started-IsArmed :
    (w : World) (r : FileWatcher × WalkResult)
    → KeepsFiles w.watcher r.0
    → IsArmed w
    → IsArmed (started w r).0
started-IsArmed w (fw, walked) k i = watcher-IsArmed w fw k i
started-IsArmed w (fw, watch_limit_reached) k i = watcher-IsArmed w fw k i
started-IsArmed w (fw, walk_failed e) k i = watcher-IsArmed w fw k i

after_adding-IsArmed :
    (host : PathHost) (walk : Str → List WalkEntry) (previous : WatchConfig) (w : World)
    (r : FileWatcher × WalkResult)
    → r.0.last_write_time ≡ []
    → IsArmed (after_adding host walk previous w r).0
unfolding restored remove_all_watches
after_adding-IsArmed host walk previous w (fw, walked) e = no_times-IsArmed w fw w.live e
after_adding-IsArmed host walk previous w (fw, watch_limit_reached) e =
    no_times-IsArmed w fw w.live e
after_adding-IsArmed host walk previous w (fw, walk_failed err) e = no_times-IsArmed w _ w.live (
    (add_watch_for_dirs-Walked host walk (split_watch_dirs host previous.watch_dir) _).same_times
    ∙ e)

pub act-IsArmed : (host : PathHost) (a : Act) (w : World) → IsArmed w → IsArmed (act host a w)
unfolding act start reset reset_file_state configured remove_all_watches
act-IsArmed host (passes d) w i = later-IsArmed w d i
act-IsArmed host (starts walk) w i =
    let dirs = split_watch_dirs host w.watcher.config.watch_dir in
    started-IsArmed w (add_watch_for_dirs host walk dirs w.watcher)
      (add_watch_for_dirs-Walked host walk dirs w.watcher) i
act-IsArmed host (happens e) w i = event-IsArmed host e w i
act-IsArmed host (fires p deadline) w i = fire-IsArmed p deadline w i
act-IsArmed host (completes p) w i = complete-IsArmed p w i
act-IsArmed host (hands p) w i = hand_over-IsArmed p w i
act-IsArmed host (resets walk walk_back config) w i =
    let cleared = reset_file_state w in
    let fw = configured host config (remove_all_watches cleared.watcher) in
    let dirs = split_watch_dirs host config.watch_dir in
    after_adding-IsArmed host walk_back w.watcher.config cleared
      (add_watch_for_dirs host walk dirs fw)
      (add_watch_for_dirs-Walked host walk dirs fw).same_times

pub run-IsArmed :
    (host : PathHost) (acts : List Act) (w : World) → IsArmed w → IsArmed (run host acts w)
unfolding run
run-IsArmed host [] w i = i
run-IsArmed host (a ∷ acts) w i = run-IsArmed host acts (act host a w) (act-IsArmed host a w i)

pub new_world-IsArmed : (host : PathHost) (config : WatchConfig) → IsArmed (new_world host config)
unfolding new_world lookup
new_world-IsArmed host config = record { held = λ p u h. absurd cc; pending = λ p u h. absurd cc }
