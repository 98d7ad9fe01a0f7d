-- ===== src/Dashboard/Tally.antt =====
-- go-watch-file/internal/state/state.go: what the history and the counts show after any of the calls.
use go_watch_file.Base.{
  ℕ, ◌+◌, ◌≤◌, ◌≡◌, refl, sym, ap, ◌∙◌, subst, Bool, true, false, List, [], ◌∷◌, ◌++◌, length,
  arith, if◌then◌else◌,
}
use mathlib.Core.List.{append-nil, append_assoc}
use go_watch_file.Base.Str.{Str, bytes, is_empty}
use go_watch_file.Base.Newest.{newest, newest-newest, length-newest}
use go_watch_file.Paths.Split.{PathHost}
use go_watch_file.Dashboard.Switches.{normalize_control_path}
use go_watch_file.Dashboard.Records.{
  auto_queued, manual_queued, manual_upload, auto_uploaded, reason, UploadHistory, ChartPoint,
  RuntimeState, max_upload_records, max_queue_points, max_notifications, new_runtime_state,
  set_auto_upload,
}
use go_watch_file.Dashboard.Marks.{
  mark, entry_of, mark_queued, mark_manual_queued, mark_skipped, mark_uploaded, mark_failed,
  record_notification, set_queue_stats, append_upload,
}

-- The calls that change the state while it is in use, with what the system says in each.
pub data Op : Type 0 where
  switches_to : Str → Bool → Bool → Op
  queues : Str → ℕ → ℕ → Op
  queues_by_hand : Str → ℕ → ℕ → Op
  skips : Str → Op
  uploads_to : Str → Str → ℕ → Bool → ℕ → ℕ → Op
  fails : Str → Str → ℕ → ℕ → Op
  notifies : Str → ℕ → Op
  measures : ℕ → ℕ → ℕ → Str → Op

unfoldable pub step : PathHost → Op → RuntimeState → RuntimeState
step host (switches_to path is_dir enabled) s = set_auto_upload host path is_dir enabled s
step host (queues path size now) s = mark_queued host path size now s
step host (queues_by_hand path size now) s = mark_manual_queued host path size now s
step host (skips path) s = mark_skipped host path s
step host (uploads_to path url latency manual size now) s =
    mark_uploaded host path url latency manual size now s
step host (fails path why size now) s = mark_failed host path why size now s
step host (notifies channel now) s = record_notification channel now s
step host (measures queued in_flight workers label) s =
    set_queue_stats queued in_flight workers label s

unfoldable pub steps : PathHost → List Op → RuntimeState → RuntimeState
unfolding step
steps host [] s = s
steps host (op ∷ ops) s = steps host ops (step host op s)

-- The entry that a call adds to the history.
abbrev pub entries : PathHost → Op → List UploadHistory
entries host (queues path size now) =
    entry_of host path [] size (bytes "pending") 0 now auto_queued ∷ []
entries host (queues_by_hand path size now) =
    entry_of host path [] size (bytes "pending") 0 now manual_queued ∷ []
entries host (uploads_to path url latency manual size now) =
    entry_of host path url size (bytes "success") latency now
      (if manual then manual_upload else auto_uploaded)
    ∷ []
entries host (fails path why size now) =
    entry_of host path [] size (bytes "failed") 0 now (reason why) ∷ []
entries host (switches_to path is_dir enabled) = []
entries host (skips path) = []
entries host (notifies channel now) = []
entries host (measures queued in_flight workers label) = []

abbrev pub all_entries : PathHost → List Op → List UploadHistory
all_entries host [] = []
all_entries host (op ∷ ops) = entries host op ++ all_entries host ops

abbrev succeeds : Op → ℕ
succeeds (uploads_to path url latency manual size now) = 1
succeeds op = 0

abbrev fails_once : Op → ℕ
fails_once (fails path why size now) = 1
fails_once op = 0

abbrev pub count_ops : (Op → ℕ) → List Op → ℕ
count_ops f [] = 0
count_ops f (op ∷ ops) = f op + count_ops f ops

-- What one call does to the history and the counts, and to the lengths of the other lists.
record IsStep (host : PathHost) (op : Op) (s t : RuntimeState) : Type 0 where
  history : t.uploads ≡ newest max_upload_records (s.uploads ++ entries host op)
  succeeded : t.successes ≡ s.successes + succeeds op
  failed_too : t.failures ≡ s.failures + fails_once op
  points : length s.queue ≤ max_queue_points → length t.queue ≤ max_queue_points
  notified : length s.notifications ≤ max_notifications → length t.notifications ≤ max_notifications

-- The history holds what it can.
abbrev IsCut : RuntimeState → Type 0
IsCut s = s.uploads ≡ newest max_upload_records s.uploads

no_entry : (s : RuntimeState) → IsCut s → s.uploads ≡ newest max_upload_records (s.uploads ++ [])
no_entry s c = c ∙ ap (newest max_upload_records) (sym (append-nil s.uploads))

if-IsStep :
    (host : PathHost) (op : Op) (s : RuntimeState) (b : Bool) (t u : RuntimeState)
    → IsStep host op s t
    → IsStep host op s u
    → IsStep host op s (if b then t else u)
if-IsStep host op s true t u h k = h
if-IsStep host op s false t u h k = k

step-IsStep :
    (host : PathHost) (op : Op) (s : RuntimeState) → IsCut s → IsStep host op s (step host op s)
unfolding step set_auto_upload mark_queued mark_manual_queued mark_skipped mark_uploaded mark_failed
    record_notification set_queue_stats mark append_upload
step-IsStep host (switches_to path is_dir enabled) s c =
    if-IsStep host (switches_to path is_dir enabled) s
      (is_empty (normalize_control_path host path s.host_name)) s _
      (record {
        history = no_entry s c;
        succeeded = omega arith;
        failed_too = omega arith;
        points = λ h. h;
        notified = λ h. h;
      })
      (record {
        history = no_entry s c;
        succeeded = omega arith;
        failed_too = omega arith;
        points = λ h. h;
        notified = λ h. h;
      })
step-IsStep host (queues path size now) s c = record {
  history = refl;
  succeeded = omega arith;
  failed_too = omega arith;
  points = λ h. h;
  notified = λ h. h;
}
step-IsStep host (queues_by_hand path size now) s c = record {
  history = refl;
  succeeded = omega arith;
  failed_too = omega arith;
  points = λ h. h;
  notified = λ h. h;
}
step-IsStep host (skips path) s c = record {
  history = no_entry s c;
  succeeded = omega arith;
  failed_too = omega arith;
  points = λ h. h;
  notified = λ h. h;
}
step-IsStep host (uploads_to path url latency manual size now) s c = record {
  history = refl;
  succeeded = omega arith;
  failed_too = omega arith;
  points = λ h. h;
  notified = λ h. h;
}
step-IsStep host (fails path why size now) s c = record {
  history = refl;
  succeeded = omega arith;
  failed_too = omega arith;
  points = λ h. h;
  notified = λ h. h;
}
step-IsStep host (notifies channel now) s c = record {
  history = no_entry s c;
  succeeded = omega arith;
  failed_too = omega arith;
  points = λ h. h;
  notified = λ h. length-newest max_notifications (s.notifications ++ (now, channel) ∷ []);
}
step-IsStep host (measures queued in_flight workers label) s c = record {
  history = no_entry s c;
  succeeded = omega arith;
  failed_too = omega arith;
  points = λ h.
      let point : ChartPoint = record {
        label = label;
        uploads = s.successes;
        failures = s.failures;
        queue = queued + in_flight;
      } in
      length-newest max_queue_points (s.queue ++ point ∷ []);
  notified = λ h. h;
}

newest-IsCut :
    (s : RuntimeState) (olds : List UploadHistory)
    → s.uploads ≡ newest max_upload_records olds
    → IsCut s
newest-IsCut s olds e =
    e
    ∙ ap (newest max_upload_records) (sym (append-nil olds))
    ∙ sym (newest-newest max_upload_records olds [])
    ∙ ap (newest max_upload_records) (append-nil (newest max_upload_records olds))
    ∙ ap (newest max_upload_records) (sym e)

-- What a state shows after more calls, when it showed the newest of `olds` before.
record Shows (host : PathHost) (olds : List UploadHistory) (ops : List Op) (s t : RuntimeState)
    : Type 0 where
  all_shown : t.uploads ≡ newest max_upload_records (olds ++ all_entries host ops)
  all_succeeded : t.successes ≡ s.successes + count_ops succeeds ops
  all_failed : t.failures ≡ s.failures + count_ops fails_once ops
  few_points : length t.queue ≤ max_queue_points
  few_notified : length t.notifications ≤ max_notifications

steps-Shows :
    (host : PathHost) (ops : List Op) (s : RuntimeState) (olds : List UploadHistory)
    → s.uploads ≡ newest max_upload_records olds
    → length s.queue ≤ max_queue_points
    → length s.notifications ≤ max_notifications
    → Shows host olds ops s (steps host ops s)
unfolding steps
steps-Shows host [] s olds e q n = record {
  all_shown = e ∙ ap (newest max_upload_records) (sym (append-nil olds));
  all_succeeded = omega arith;
  all_failed = omega arith;
  few_points = q;
  few_notified = n;
}
steps-Shows host (op ∷ ops) s olds e q n =
    let one = step-IsStep host op s (newest-IsCut s olds e) in
    let here : (step host op s).uploads ≡ newest max_upload_records (olds ++ entries host op) =
      one.history
      ∙ ap (λ us. newest max_upload_records (us ++ entries host op)) e
      ∙ newest-newest max_upload_records olds (entries host op) in
    let more =
      steps-Shows host ops (step host op s) (olds ++ entries host op) here (one.points q)
        (one.notified n) in
    record {
      all_shown =
          more.all_shown
          ∙ ap (newest max_upload_records)
              (append_assoc olds (entries host op) (all_entries host ops));
      all_succeeded = omega (arith, more.all_succeeded, one.succeeded);
      all_failed = omega (arith, more.all_failed, one.failed_too);
      few_points = more.few_points;
      few_notified = more.few_notified;
    }

-- The newest 200 entries of the calls, in their order; all the successes and all the failures; at most
-- 32 points of the chart and 200 notifications.
pub record IsTallied (host : PathHost) (ops : List Op) (s : RuntimeState) : Type 0 where
  shown : s.uploads ≡ newest max_upload_records (all_entries host ops)
  few_shown : length s.uploads ≤ max_upload_records
  successes : s.successes ≡ count_ops succeeds ops
  failures : s.failures ≡ count_ops fails_once ops
  few_points : length s.queue ≤ max_queue_points
  few_notified : length s.notifications ≤ max_notifications

-- From a new state, over any calls: the history is the newest 200 entries that they made, the counts are
-- the uploads and the failures, and the chart and the notifications stay within 32 and 200.
pub steps-IsTallied :
    (host : PathHost) (host_name watch_dir file_ext watch_exclude : Str) (workers : ℕ)
    (ops : List Op)
    → IsTallied host ops
        (steps host ops (new_runtime_state host host_name watch_dir file_ext watch_exclude workers))
unfolding new_runtime_state newest
steps-IsTallied host host_name watch_dir file_ext watch_exclude workers ops =
    let all =
      steps-Shows host ops
        (new_runtime_state host host_name watch_dir file_ext watch_exclude workers) [] refl
        (omega arith) (omega arith) in
    record {
      shown = all.all_shown;
      few_shown =
          subst (λ us. length us ≤ max_upload_records) (sym all.all_shown)
            (length-newest max_upload_records (all_entries host ops));
      successes = omega (arith, all.all_succeeded);
      failures = omega (arith, all.all_failed);
      few_points = all.few_points;
      few_notified = all.few_notified;
    }
