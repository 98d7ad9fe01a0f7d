-- ===== src/Service/Reasons.antt =====
-- go-watch-file/internal/service/file_service.go: the failures of uploads, counted in all and by reason.
use go_watch_file.Base.{
  ℕ, ◌+◌, ◌%◌, ◌^◌, ◌≡◌, Bool, true, false, List, [], ◌∷◌, if◌then◌else◌, arith,
}
use go_watch_file.Base.Str.{Str}
use go_watch_file.Paths.Split.{PathHost}
use go_watch_file.Service.Attempts.{Outcome, uploaded, failed}
use go_watch_file.Service.Uploads.{
  FileService, Moment, bump, normalize_failure_reason, record_upload_failure, end_processing,
  upload_error_text,
}

-- The counts of a map added up.
abbrev pub total : List (Str × ℕ) → ℕ
total [] = 0
total ((r, n) ∷ rest) = n + total rest

total-bump :
    (reason : Str) (m : List (Str × ℕ)) → total (bump reason m) % 2 ^ 64 ≡ (total m + 1) % 2 ^ 64
unfolding bump
total-bump reason [] = omega arith
total-bump reason ((r, n) ∷ rest) = ground (arith, total-bump reason rest)

-- The failures by reason add up to the failures, on 64 bits.
abbrev pub IsCounted : FileService → Type 0
IsCounted fs = total fs.fail_reasons % 2 ^ 64 ≡ fs.upload_failure % 2 ^ 64

record_upload_failure-IsCounted :
    (text : Str) (fs : FileService) → IsCounted fs → IsCounted (record_upload_failure text fs)
unfolding record_upload_failure
record_upload_failure-IsCounted text fs h =
    omega (arith, total-bump (normalize_failure_reason text) fs.fail_reasons, h)

-- The end of an upload, as end_processing is told of it.
pub record Ending : Type 0 where
  pub moment : Moment
  pub latency : ℕ
  pub channels : List Str
  pub path : Str
  pub manual : Bool
  pub outcome : Outcome

unfoldable pub finish : PathHost → Ending → FileService → FileService
unfolding end_processing
finish host e fs =
    (end_processing host e.moment e.latency e.channels e.path e.manual e.outcome fs).0

unfoldable pub finish_all : PathHost → List Ending → FileService → FileService
unfolding finish
finish_all host [] fs = fs
finish_all host (e ∷ es) fs = finish_all host es (finish host e fs)

if-IsCounted :
    (b : Bool) (x y : FileService × Bool)
    → IsCounted x.0
    → IsCounted y.0
    → IsCounted (if b then x else y).0
if-IsCounted true x y h k = h
if-IsCounted false x y h k = k

end_processing-IsCounted :
    (host : PathHost) (m : Moment) (latency : ℕ) (channels : List Str) (path : Str) (manual : Bool)
    (o : Outcome) (fs : FileService)
    → IsCounted fs
    → IsCounted (end_processing host m latency channels path manual o fs).0
unfolding end_processing
end_processing-IsCounted host m latency channels path manual (failed e) fs h =
    record_upload_failure-IsCounted (upload_error_text e) fs h
end_processing-IsCounted host m latency channels path manual (uploaded url) fs h =
    if-IsCounted _ _ _ h h

-- Over any ends of uploads, the failures counted by reason add up to the failures counted in all, both on
-- 64 bits, if they did before.
pub finish_all-IsCounted :
    (host : PathHost) (es : List Ending) (fs : FileService)
    → IsCounted fs
    → IsCounted (finish_all host es fs)
unfolding finish_all finish
finish_all-IsCounted host [] fs h = h
finish_all-IsCounted host (e ∷ es) fs h =
    finish_all-IsCounted host es (finish host e fs)
      (end_processing-IsCounted host e.moment e.latency e.channels e.path e.manual e.outcome fs h)
