-- ===== src/Service/Uploads.antt =====
-- go-watch-file/internal/service/file_service.go: files on their way into the queue and out of it. The state, the pool and
-- the object store are there; what the pool answers is given, as are the clock and os.Stat (`Moment`).
use go_watch_file.Base.{
  ℕ, ◌+◌, ◌%◌, ◌^◌, Bool, true, false, not, Option, none, some, List, [], ◌∷◌, if◌then◌else◌, ◌==◌,
  ◌&&◌, ltb, length, take,
}
use go_watch_file.Base.Str.{Str, bytes, str_eq, is_empty}
use go_watch_file.Base.Trim.{trim_space}
use go_watch_file.Paths.Split.{PathHost, mem_str, add_str}
use go_watch_file.Dashboard.Records.{RuntimeState, auto_upload_enabled}
use go_watch_file.Dashboard.Marks.{
  mark_queued, mark_manual_queued, mark_skipped, mark_uploaded, mark_failed, record_notification,
  set_queue_stats,
}
use go_watch_file.Service.Attempts.{
  Step, upload_file_with_retry, UploadError, refused, cancelled, Outcome, uploaded, failed, Tried,
}

pub record FileService : Type 0 where
  pub state : RuntimeState
  pub manual_once : List Str
  pub queue_full : ℕ
  pub queue_shed : ℕ
  pub retry_total : ℕ
  pub upload_failure : ℕ
  pub fail_reasons : List (Str × ℕ)

-- The size of the file, the time, and its label on the chart.
pub record Moment : Type 0 where
  pub size : ℕ
  pub now : ℕ
  pub label : Str

-- The settings of the breaker; `below` is the test of the float64 quotient against the threshold.
pub record Breaker : Type 0 where
  pub is_enabled : Bool
  pub queue_size : ℕ
  pub below : ℕ → ℕ → Bool

pub data PoolError : Type 0 where
  full : Str → PoolError
  refusing : Str → PoolError

-- What GetStats says before, what AddFile answers, and GetStats after it.
pub record PoolView : Type 0 where
  pub waiting : ℕ
  pub answer : Option PoolError
  pub queue_length : ℕ
  pub in_flight : ℕ
  pub workers : ℕ

pub data EnqueueError : Type 0 where
  saturated : EnqueueError
  pool_failed : PoolError → EnqueueError

abbrev pub count_64 : ℕ → ℕ
count_64 n = (n + 1) % 2 ^ 64

-- normalizeManualPath
unfoldable pub normalize_manual_path : PathHost → Str → Str
normalize_manual_path host path =
    let absolute : Str = elim (host.abs path) [
      | none ↦ host.clean path
      | some whole ↦ host.clean whole
    ] in
    if is_empty (trim_space path) then [] else absolute

-- resolveUploadQueueSize
unfoldable pub resolve_queue_size : ℕ → ℕ
resolve_queue_size n = if n == 0 then 100 else n

-- shouldShedByQueueSaturation
unfoldable pub should_shed : Breaker → PoolView → Bool
unfolding resolve_queue_size
should_shed b pool = b.is_enabled && not (b.below pool.waiting (resolve_queue_size b.queue_size))

abbrev pub with_stats : PoolView → Moment → RuntimeState → RuntimeState
with_stats pool m s = set_queue_stats pool.queue_length pool.in_flight pool.workers m.label s

abbrev pub error_text : PoolError → Str
error_text (full text) = text
error_text (refusing text) = text

-- recordQueueFull, if the queue was full.
abbrev pub note_full : PoolError → FileService → FileService
note_full (full text) fs = record fs { queue_full = count_64 fs.queue_full }
note_full (refusing text) fs = fs

abbrev pub failing : PathHost → PoolView → Moment → Str → Str → FileService → FileService
failing host pool m path why fs = record fs {
  state = with_stats pool m (mark_failed host path why m.size m.now fs.state);
}

-- What enqueueFile does with the answer of AddFile.
abbrev pub answered :
    PathHost
    → PoolView
    → Moment
    → Str
    → Option PoolError
    → FileService
    → FileService × Option EnqueueError
answered host pool m path none fs = (record fs { state = with_stats pool m fs.state }, none)
answered host pool m path (some e) fs =
    (failing host pool m path (error_text e) (note_full e fs), some (pool_failed e))

-- The part of enqueueFile after the marks.
unfoldable pub offer :
    PathHost
    → Breaker
    → PoolView
    → Moment
    → Str
    → Bool
    → FileService
    → FileService × Option EnqueueError
unfolding should_shed mark_failed set_queue_stats
offer host b pool m path manual fs =
    if not manual && should_shed b pool
    then (
      failing host pool m path (bytes "upload queue saturated")
          (record fs { queue_shed = count_64 fs.queue_shed }),
      some saturated,
    )
    else answered host pool m path pool.answer fs

-- The mark of a manual upload, and the flag of its path.
unfoldable pub mark_manual : PathHost → Moment → Str → FileService → FileService
unfolding normalize_manual_path add_str mark_manual_queued
mark_manual host m path fs =
    let norm = normalize_manual_path host path in
    record fs {
      state = mark_manual_queued host path m.size m.now fs.state;
      manual_once = if is_empty norm then fs.manual_once else add_str norm fs.manual_once;
    }

-- enqueueFile
unfoldable pub enqueue_file :
    PathHost
    → Breaker
    → PoolView
    → Moment
    → Str
    → Bool
    → FileService
    → FileService × Option EnqueueError
unfolding offer mark_manual auto_upload_enabled mark_queued mark_skipped
enqueue_file host b pool m path manual fs =
    if manual
    then offer host b pool m path true (mark_manual host m path fs)
    else if not (auto_upload_enabled host fs.state path)
    then (record fs { state = mark_skipped host path fs.state }, none)
    else offer host b pool m path false
        (record fs { state = mark_queued host path m.size m.now fs.state })

unfoldable pub without_str : Str → List Str → List Str
without_str x [] = []
without_str x (y ∷ ys) = let rest = without_str x ys in if str_eq y x then rest else y ∷ rest

-- consumeManualOnce
unfoldable pub consume_manual_once : PathHost → Str → FileService → Bool × FileService
unfolding normalize_manual_path mem_str without_str
consume_manual_once host path fs =
    let norm = normalize_manual_path host path in
    if is_empty norm
    then (false, fs)
    else if mem_str norm fs.manual_once
    then (true, record fs { manual_once = without_str norm fs.manual_once })
    else (false, fs)

-- What processFile does before the upload: it is skipped, or goes on as a manual one or not.
pub data Start : Type 0 where
  skipped : Start
  goes_on : Bool → Start

abbrev pub begun : PathHost → Str → Bool × FileService → Start × FileService
begun host path (manual, fs) =
    if not manual && not (auto_upload_enabled host fs.state path)
    then (skipped, record fs { state = mark_skipped host path fs.state })
    else (goes_on manual, fs)

unfoldable pub begin_processing : PathHost → Str → FileService → Start × FileService
unfolding consume_manual_once mark_skipped
begin_processing host path fs = begun host path (consume_manual_once host path fs)

-- normalizeFailureReason
unfoldable pub normalize_failure_reason : Str → Str
normalize_failure_reason text =
    let reason = trim_space text in
    if is_empty reason
    then bytes "unknown"
    else if ltb 120 (length reason)
    then take 120 reason
    else reason

-- `fs.failReasons[reason]++`
unfoldable pub bump : Str → List (Str × ℕ) → List (Str × ℕ)
bump reason [] = (reason, 1) ∷ []
bump reason ((r, n) ∷ rest) =
    let more = bump reason rest in if str_eq r reason then (r, count_64 n) ∷ rest else (r, n) ∷ more

-- recordUploadFailure
unfoldable pub record_upload_failure : Str → FileService → FileService
unfolding bump normalize_failure_reason
record_upload_failure text fs = record fs {
  upload_failure = count_64 fs.upload_failure;
  fail_reasons = bump (normalize_failure_reason text) fs.fail_reasons;
}

abbrev pub upload_error_text : UploadError → Str
upload_error_text (refused text) = text
upload_error_text cancelled = bytes "context canceled"

-- sendDingTalk and sendEmailNotification: the channels that sent.
unfoldable pub notified : List Str → ℕ → RuntimeState → RuntimeState
unfolding record_notification
notified [] now s = s
notified (channel ∷ channels) now s = notified channels now (record_notification channel now s)

-- What processFile does with the result of the upload; the Boolean is false on an error.
unfoldable pub end_processing :
    PathHost → Moment → ℕ → List Str → Str → Bool → Outcome → FileService → FileService × Bool
unfolding record_upload_failure mark_failed mark_uploaded notified auto_upload_enabled
end_processing host m latency channels path manual (failed e) fs =
    let noted = record_upload_failure (upload_error_text e) fs in
    (
      record noted { state = mark_failed host path (upload_error_text e) m.size m.now noted.state },
      false,
    )
end_processing host m latency channels path manual (uploaded url) fs =
    let marked = mark_uploaded host path url latency manual m.size m.now fs.state in
    if not manual && not (auto_upload_enabled host marked path)
    then (record fs { state = marked }, true)
    else (record fs { state = notified channels m.now marked }, true)

-- recordRetryAttempt, once for each retry of an upload.
unfoldable pub record_retries : Tried → FileService → FileService
record_retries t fs = record fs { retry_total = (fs.retry_total + t.retries) % 2 ^ 64 }

-- processFile from its first part on, when nothing else happens to the service during the upload.
abbrev pub after_begin :
    PathHost → Moment → ℕ → List Str → Tried → Str → Start × FileService → FileService × Bool
after_begin host m latency channels t path (skipped, fs) = (fs, true)
after_begin host m latency channels t path (goes_on manual, fs) =
    end_processing host m latency channels path manual t.result (record_retries t fs)

-- processFile
unfoldable pub process_file :
    PathHost
    → Moment
    → ℕ
    → List Str
    → Bool
    → List ℕ
    → (ℕ → Step)
    → Str
    → FileService
    → FileService × Bool
unfolding begin_processing end_processing record_retries upload_file_with_retry
process_file host m latency channels enabled plan steps path fs =
    after_begin host m latency channels (upload_file_with_retry enabled plan steps) path
      (begin_processing host path fs)
