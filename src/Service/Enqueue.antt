-- ===== src/Service/Enqueue.antt =====
-- go-watch-file/internal/service/file_service.go: what enqueueFile makes of a file, on each of its ways out.
use go_watch_file.Base.{
  ◌+◌, ◌≡◌, refl, ap, ◌∙◌, Bool, true, false, Option, none, some, List, if◌then◌else◌,
}
use go_watch_file.Base.Str.{Str, str_eq, str_eq_refl}
use go_watch_file.Base.Assoc.{lookup, insert, lookup-insert}
use go_watch_file.Paths.Split.{PathHost}
use go_watch_file.Dashboard.Switches.{normalize_path}
use go_watch_file.Dashboard.Records.{
  FileStatus, queued, failed, FileState, Note, UploadHistory, RuntimeState,
}
use go_watch_file.Dashboard.Marks.{append_upload, mark}
use go_watch_file.Service.Uploads.{FileService, EnqueueError}

abbrev status_in : Option FileState → Option FileStatus
status_in none = none
status_in (some f) = some f.status

-- The status of a file.
unfoldable pub status_of : Str → RuntimeState → Option FileStatus
unfolding lookup
status_of norm s = status_in (lookup norm s.file_state)

insert-status :
    (norm : Str) (f : FileState) (files : List (Str × FileState))
    → status_in (lookup norm (insert norm f files)) ≡ some f.status
insert-status norm f files =
    ap status_in (lookup-insert norm norm f files ∙ by_refl (str_eq norm norm) (str_eq_refl norm))
  where
    by_refl : (b : Bool) → b ≡ true → (if b then some f else lookup norm files) ≡ some f
    by_refl true e = refl
    by_refl false e = absurd cc

mark-status :
    (host : PathHost) (path : Str) (status : FileStatus) (note : Note) (entry : UploadHistory)
    (s : RuntimeState)
    → status_of (normalize_path host path) (mark host path status note entry s) ≡ some status
unfolding status_of mark append_upload
mark-status host path status note entry s = insert-status (normalize_path host path) _ s.file_state

-- The file is queued and nothing is counted, or it failed and the failure is counted.
abbrev pub Answers : PathHost → Str → RuntimeState → Option EnqueueError → RuntimeState → Type 0
Answers host path s none t =
    (status_of (normalize_path host path) t ≡ some queued)
    × (t.failures ≡ s.failures)
    × (t.successes ≡ s.successes)
Answers host path s (some e) t =
    (status_of (normalize_path host path) t ≡ some failed)
    × (t.failures ≡ s.failures + 1)
    × (t.successes ≡ s.successes)

abbrev Ends : PathHost → Str → RuntimeState → FileService × Option EnqueueError → Type 0
Ends host path s r = Answers host path s r.1 r.0.state
