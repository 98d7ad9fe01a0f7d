-- ===== src/Dashboard/Marks.antt =====
-- go-watch-file/internal/state/state.go: what is noted of a file on its way, and of the queue.
use go_watch_file.Base.{ℕ, ◌+◌, Bool, false, none, some, [], ◌∷◌, ◌++◌, if◌then◌else◌}
use go_watch_file.Base.Str.{Str, bytes}
use go_watch_file.Base.Assoc.{lookup, insert}
use go_watch_file.Base.Newest.{newest}
use go_watch_file.Paths.Split.{PathHost}
use go_watch_file.Dashboard.Switches.{normalize_path}
use go_watch_file.Dashboard.Records.{
  FileStatus, queued, uploaded, failed, Note, auto_queued, manual_queued, switched_off,
  manual_upload, auto_uploaded, reason, FileState, UploadHistory, ChartPoint, RuntimeState,
  max_upload_records, max_queue_points, max_notifications, auto_upload_enabled,
}

-- fetchOrInitStateLocked
unfoldable pub fetch_or_init : PathHost → RuntimeState → Str → FileState
unfolding lookup auto_upload_enabled
fetch_or_init host s norm = elim (lookup norm s.file_state) [
  | some f ↦ f
  | none ↦ record { status = queued; note = reason []; auto_on = auto_upload_enabled host s norm }
]

-- appendUploadLocked
unfoldable pub append_upload : UploadHistory → RuntimeState → RuntimeState
unfolding newest
append_upload u s = record s { uploads = newest max_upload_records (s.uploads ++ u ∷ []) }

-- What a mark does to the file and the history.
unfoldable pub mark :
    PathHost → Str → FileStatus → Note → UploadHistory → RuntimeState → RuntimeState
unfolding normalize_path fetch_or_init insert auto_upload_enabled append_upload
mark host path status note entry s =
    let norm = normalize_path host path in
    let f = record (fetch_or_init host s norm) {
      status = status;
      note = note;
      auto_on = auto_upload_enabled host s path;
    } in
    append_upload entry (record s { file_state = insert norm f s.file_state })

abbrev pub entry_of : PathHost → Str → Str → ℕ → Str → ℕ → ℕ → Note → UploadHistory
entry_of host path target size result latency now note = record {
  file = host.base (normalize_path host path);
  target = target;
  size = size;
  result = result;
  latency = latency;
  at = now;
  note = note;
}

-- MarkQueued and MarkManualQueued, by recordState.
unfoldable pub mark_queued : PathHost → Str → ℕ → ℕ → RuntimeState → RuntimeState
unfolding mark
mark_queued host path size now s =
    mark host path queued auto_queued
      (entry_of host path [] size (bytes "pending") 0 now auto_queued) s

unfoldable pub mark_manual_queued : PathHost → Str → ℕ → ℕ → RuntimeState → RuntimeState
unfolding mark
mark_manual_queued host path size now s =
    mark host path queued manual_queued
      (entry_of host path [] size (bytes "pending") 0 now manual_queued) s

-- MarkSkipped
unfoldable pub mark_skipped : PathHost → Str → RuntimeState → RuntimeState
unfolding normalize_path fetch_or_init insert
mark_skipped host path s =
    let norm = normalize_path host path in
    let f = record (fetch_or_init host s norm) {
      status = queued;
      note = switched_off;
      auto_on = false;
    } in
    record s { file_state = insert norm f s.file_state }

-- MarkUploaded
unfoldable pub mark_uploaded : PathHost → Str → Str → ℕ → Bool → ℕ → ℕ → RuntimeState → RuntimeState
unfolding mark
mark_uploaded host path url latency manual size now s =
    let note = if manual then manual_upload else auto_uploaded in
    let marked =
      mark host path uploaded note (entry_of host path url size (bytes "success") latency now note)
        s in
    record marked { successes = marked.successes + 1 }

-- MarkFailed
unfoldable pub mark_failed : PathHost → Str → Str → ℕ → ℕ → RuntimeState → RuntimeState
unfolding mark
mark_failed host path why size now s =
    let marked =
      mark host path failed (reason why)
        (entry_of host path [] size (bytes "failed") 0 now (reason why)) s in
    record marked { failures = marked.failures + 1 }

-- RecordNotification
unfoldable pub record_notification : Str → ℕ → RuntimeState → RuntimeState
unfolding newest
record_notification channel now s = record s {
  notifications = newest max_notifications (s.notifications ++ (now, channel) ∷ []);
}

-- SetQueueStats; `label` is the time of day.
unfoldable pub set_queue_stats : ℕ → ℕ → ℕ → Str → RuntimeState → RuntimeState
unfolding newest
set_queue_stats queue_length in_flight workers label s =
    let total = queue_length + in_flight in
    let point : ChartPoint = record {
      label = label;
      uploads = s.successes;
      failures = s.failures;
      queue = total;
    } in
    record s {
      queue_len = total;
      workers = workers;
      queue = newest max_queue_points (s.queue ++ point ∷ []);
    }
