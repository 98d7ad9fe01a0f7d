-- ===== src/Service/Manual.antt =====
-- go-watch-file/internal/service/file_service.go: an upload by hand goes through once.
use go_watch_file.Base.{
  ◌≡◌, refl, sym, ap, ◌∙◌, subst, Bool, true, false, not, Option, none, some, List, [], ◌∷◌, ◌++◌,
  if◌then◌else◌, arith,
}
use go_watch_file.Base.Str.{Str, str_eq_refl, is_empty}
use go_watch_file.Paths.Split.{PathHost, mem_str, add_str}
use go_watch_file.Dashboard.Records.{RuntimeState, auto_upload_enabled}
use go_watch_file.Dashboard.Marks.{mark_skipped}
use go_watch_file.Service.Uploads.{
  FileService, Moment, Breaker, PoolView, PoolError, full, refusing, answered, offer, mark_manual,
  enqueue_file, consume_manual_once, normalize_manual_path, without_str, Start, skipped, goes_on,
  begun, begin_processing,
}

mem-append : (x : Str) (xs : List Str) → mem_str x (xs ++ x ∷ []) ≡ true
unfolding mem_str
mem-append x [] = ground (arith, str_eq_refl x)
mem-append x (y ∷ ys) = ground (arith, mem-append x ys)

mem-add : (x : Str) (xs : List Str) → mem_str x (add_str x xs) ≡ true
unfolding add_str
mem-add x xs = ground (arith, mem-append x xs)

mem-without : (x : Str) (xs : List Str) → mem_str x (without_str x xs) ≡ false
unfolding mem_str without_str
mem-without x [] = refl
mem-without x (y ∷ ys) = ground (arith, mem-without x ys)

answered-manual :
    (host : PathHost) (pool : PoolView) (m : Moment) (path : Str) (o : Option PoolError)
    (fs : FileService)
    → (answered host pool m path o fs).0.manual_once ≡ fs.manual_once
answered-manual host pool m path none fs = refl
answered-manual host pool m path (some (full text)) fs = refl
answered-manual host pool m path (some (refusing text)) fs = refl

-- The path is marked, whatever the pool answers.
marked :
    (host : PathHost) (b : Breaker) (pool : PoolView) (m : Moment) (path : Str) (fs : FileService)
    → is_empty (normalize_manual_path host path) ≡ false
    → mem_str
        (normalize_manual_path host path)
        (enqueue_file host b pool m path true fs).0.manual_once
      ≡ true
unfolding enqueue_file offer mark_manual
marked host b pool m path fs n =
    let norm = normalize_manual_path host path in
    ap (mem_str norm) (answered-manual host pool m path pool.answer (mark_manual host m path fs))
    ∙ rw n (mem-add norm fs.manual_once)

-- An upload that starts: by hand once, and after that as the switch says.
abbrev pub GoesOnce : PathHost → Str → Start × FileService → Type 0
GoesOnce host path r =
    (r.0 ≡ goes_on true)
    × ((begin_processing host path r.1).0
        ≡ (if auto_upload_enabled host r.1.state path then goes_on false else skipped))

-- What is left when the flag was taken.
unflagged : PathHost → Str → FileService → FileService
unflagged host path fs = record fs {
  manual_once = without_str (normalize_manual_path host path) fs.manual_once;
}

start-flagged :
    (host : PathHost) (path : Str) (fs : FileService)
    → is_empty (normalize_manual_path host path) ≡ false
    → mem_str (normalize_manual_path host path) fs.manual_once ≡ true
    → begin_processing host path fs ≡ (goes_on true, unflagged host path fs)
unfolding begin_processing consume_manual_once unflagged
start-flagged host path fs n h = rw (n, h) refl

consume-plain :
    (host : PathHost) (path : Str) (fs : FileService)
    → mem_str (normalize_manual_path host path) fs.manual_once ≡ false
    → consume_manual_once host path fs ≡ (false, fs)
unfolding consume_manual_once unflagged
consume-plain host path fs h = by_test (is_empty (normalize_manual_path host path))
  where
    by_test :
        (b : Bool)
        → let plain : Bool × FileService = (false, fs) in
          let flagged : Bool × FileService = (true, unflagged host path fs) in
          (if b
            then plain
            else if mem_str (normalize_manual_path host path) fs.manual_once
            then flagged
            else plain)
          ≡ plain
    by_test true = refl
    by_test false = rw h refl

start-plain :
    (host : PathHost) (path : Str) (fs : FileService)
    → mem_str (normalize_manual_path host path) fs.manual_once ≡ false
    → (begin_processing host path fs).0
      ≡ (if auto_upload_enabled host fs.state path then goes_on false else skipped)
unfolding begin_processing
start-plain host path fs h =
    ap (λ c. (begun host path c).0) (consume-plain host path fs h)
    ∙ by_switch (auto_upload_enabled host fs.state path)
  where
    by_switch :
        (a : Bool)
        → let left : Start × FileService =
            (skipped, record fs { state = mark_skipped host path fs.state }) in
          let taken : Start × FileService = (goes_on false, fs) in
          (if not a then left else taken).0 ≡ (if a then goes_on false else skipped)
    by_switch true = refl
    by_switch false = refl

started-GoesOnce :
    (host : PathHost) (path : Str) (fs : FileService)
    → is_empty (normalize_manual_path host path) ≡ false
    → mem_str (normalize_manual_path host path) fs.manual_once ≡ true
    → GoesOnce host path (begin_processing host path fs)
unfolding unflagged
started-GoesOnce host path fs n h =
    subst (GoesOnce host path) (sym (start-flagged host path fs n h)) (
      refl,
      start-plain host path (unflagged host path fs)
          (mem-without (normalize_manual_path host path) fs.manual_once),
    )

-- A path whose normal form is not empty is enqueued by hand; then the state changes in any way, its switches too, but no flag does.
-- The next start of its upload goes on as one by hand even where automatic upload is off; the one after
-- that goes on only if automatic upload is on.
pub enqueue-GoesOnce :
    (host : PathHost) (b : Breaker) (pool : PoolView) (m : Moment) (path : Str) (fs : FileService)
    (state : RuntimeState)
    → is_empty (normalize_manual_path host path) ≡ false
    → GoesOnce host path (
        begin_processing host path
          (record (enqueue_file host b pool m path true fs).0 { state = state }))
enqueue-GoesOnce host b pool m path fs state n =
    started-GoesOnce host path _ n (marked host b pool m path fs n)
