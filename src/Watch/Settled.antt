-- ===== src/Watch/Settled.antt =====
-- go-watch-file/internal/watcher/file_watcher.go: a file is handed on only when nothing was written to it for the
-- window of silence.
use go_watch_file.Base.{ℕ, ◌+◌, ◌≤◌, ◌≡◌, true, some, [], ◌⊎◌, All}
use go_watch_file.Base.Str.{Str}
use go_watch_file.Base.Assoc.{lookup}
use go_watch_file.Watch.Files.{FileWatcher, World, Stamps, Call, has_stamp}

-- No write event on the path is noted for the window before the check.
abbrev pub IsQuiet : Stamps → Call → Type 0
IsQuiet noted c = (s : ℕ) → has_stamp c.path s noted ≡ true → (s + c.silence ≤ c.at) ⊎ (c.at ≤ s)

abbrev Timely : Stamps → ℕ → Call → Type 0
Timely noted now c = IsQuiet noted c × (c.at ≤ now)

-- What holds of the writes that were noted, the times that are kept and the calls.
record IsSettled (w : World) : Type 0 where
  past : (p : Str) (s : ℕ) → has_stamp p s w.noted ≡ true → s ≤ w.now
  latest :
      (p : Str) (s u : ℕ)
      → has_stamp p s w.noted ≡ true
      → lookup p w.watcher.last_write_time ≡ some u
      → s ≤ u
  quiet : All (Timely w.noted w.now) w.calls
  waiting : All (Timely w.noted w.now) w.handing

-- No time of a write is kept.
abbrev NoTimes : FileWatcher → Type 0
NoTimes fw = fw.last_write_time ≡ []
