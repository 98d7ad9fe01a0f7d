-- ===== src/PersistQueue/Disk.antt =====
-- go-watch-file/internal/persistqueue/file_queue.go, writeFileAtomic, over the operating system's calls.
use go_watch_file.Base.{
  ◌≡◌, Bool, true, false, not, ◌&&◌, some, List, [], ◌∷◌, arith, if◌then◌else◌,
}
use go_watch_file.Base.Str.{Str, bytes, str_eq, str_eq_iff, is_empty}
use go_watch_file.Base.Assoc.{lookup, insert, delete, lookup-insert, lookup-delete}

-- The bytes of a file, as `json.Unmarshal` into `fileQueueStore` sees them: none, the JSON text of
-- a list of items, or a text that it refuses.
pub data Blob : Type 0 where
  blank : Blob
  items_json : List Str → Blob
  corrupt : Str → Blob

-- The file system. `temp` is the name that `os.CreateTemp` picks next, `dir` is `filepath.Dir`, and
-- `faults` says of the coming calls, one by one, whether they fail; past its end all succeed.
pub record Os : Type 0 where
  pub files : List (Str × Blob)
  pub temp : Str
  pub dir : Str → Str
  pub faults : List Bool

-- Whether the next call fails.
unfoldable pub fails : List Bool → Bool
fails [] = false
fails (f ∷ fs) = f

unfoldable pub later : List Bool → List Bool
later [] = []
later (f ∷ fs) = fs

-- One call of the system that may fail, and what follows if it does not.
abbrev pub call : Os → (Os → Os × Bool) → (Os → Os × Bool) → Os × Bool
call o failed done =
    let o' : Os = record o { faults = later o.faults } in
    if fails o.faults then failed o' else done o'

-- `defer os.Remove(tmp.Name())`, whose own failure is ignored.
remove_temp : Bool → Os → Os × Bool
remove_temp ok o = call o (λ o. (o, ok)) (λ o. (record o { files = delete o.temp o.files }, ok))

-- `os.Rename` replaces the target in one step; then the temporary name is gone.
rename_temp : Str → Blob → Os → Os × Bool
rename_temp path blob o =
    call o (remove_temp false)
      (λ o. remove_temp true (record o { files = insert path blob (delete o.temp o.files) }))

-- `tmp.Chmod` and `tmp.Close`.
finish_temp : Str → Blob → Os → Os × Bool
finish_temp path blob o =
    call o (remove_temp false) (λ o. call o (remove_temp false) (rename_temp path blob))

-- `os.CreateTemp` and `tmp.Write`; a write that fails may leave a part of the text behind.
write_temp : Str → Blob → Os → Os × Bool
write_temp path blob o =
    call o (λ o. (o, false))
      (λ o.
        call (record o { files = insert o.temp (corrupt []) o.files }) (remove_temp false)
          (λ o. finish_temp path blob (record o { files = insert o.temp blob o.files })))

-- The result says whether the function returned nil.
unfoldable pub write_file_atomic : Str → Blob → Os → Os × Bool
unfolding write_temp finish_temp rename_temp remove_temp fails later
write_file_atomic path blob o =
    let dir = o.dir path in
    if not (is_empty dir) && not (str_eq dir (bytes "."))
    then call o (λ o. (o, false)) (write_temp path blob)
    else write_temp path blob o

-- What the file `p` holds after a write of `blob` to `path`: the whole new text if the write
-- succeeded and `p` is the target, and else what it held.
abbrev pub Written : Str → Blob → Os → Os × Bool → Str → Type 0
Written path blob o r p =
    (r.0.temp ≡ o.temp)
    × (lookup p r.0.files ≡ (if r.1 && str_eq path p then some blob else lookup p o.files))

remove_temp-Written :
    (path p : Str) (blob : Blob) (o : Os)
    → str_eq o.temp p ≡ false
    → Written path blob o (remove_temp false o) p
unfolding remove_temp
remove_temp-Written path p blob o h = ground (arith, lookup-delete o.temp p o.files)

remove_temp-keeps :
    (p : Str) (o : Os)
    → str_eq o.temp p ≡ false
    → ((remove_temp true o).0.temp ≡ o.temp)
      × (lookup p (remove_temp true o).0.files ≡ lookup p o.files)
      × ((remove_temp true o).1 ≡ true)
unfolding remove_temp
remove_temp-keeps p o h = ground (arith, lookup-delete o.temp p o.files)

rename_temp-Written :
    (path p : Str) (blob : Blob) (o : Os)
    → str_eq o.temp p ≡ false
    → Written path blob o (rename_temp path blob o) p
unfolding rename_temp
rename_temp-Written path p blob o h = ground (
  arith,
  str_eq_iff path p,
  remove_temp-Written path p blob (record o { faults = later o.faults }) h,
  remove_temp-keeps p
      (record o { faults = later o.faults; files = insert path blob (delete o.temp o.files) }) h,
  lookup-insert path p blob (delete o.temp o.files),
  lookup-delete o.temp p o.files,
)

finish_temp-Written :
    (path p : Str) (blob : Blob) (o : Os)
    → str_eq o.temp p ≡ false
    → Written path blob o (finish_temp path blob o) p
unfolding finish_temp
finish_temp-Written path p blob o h =
    let o1 : Os = record o { faults = later o.faults } in
    let o2 : Os = record o { faults = later (later o.faults) } in
    ground (
      arith,
      remove_temp-Written path p blob o1 h,
      remove_temp-Written path p blob o2 h,
      rename_temp-Written path p blob o2 h,
    )

write_temp-Written :
    (path p : Str) (blob : Blob) (o : Os)
    → str_eq o.temp p ≡ false
    → Written path blob o (write_temp path blob o) p
unfolding write_temp
write_temp-Written path p blob o h =
    let part : List (Str × Blob) = insert o.temp (corrupt []) o.files in
    let o2 : Os = record o { faults = later (later o.faults); files = part } in
    let o3 : Os = record o2 { files = insert o.temp blob part } in
    ground (
      arith,
      remove_temp-Written path p blob o2 h,
      finish_temp-Written path p blob o3 h,
      lookup-insert o.temp p (corrupt []) o.files,
      lookup-insert o.temp p blob part,
    )

-- A write is all or nothing, wherever it fails: every file other than the temporary one holds what
-- it held, except that after a success the target holds the whole new text; and the name of the
-- temporary file is as before.
pub write_file_atomic-Written :
    (path p : Str) (blob : Blob) (o : Os)
    → str_eq o.temp p ≡ false
    → Written path blob o (write_file_atomic path blob o) p
unfolding write_file_atomic
write_file_atomic-Written path p blob o h = ground (
  arith,
  write_temp-Written path p blob o h,
  write_temp-Written path p blob (record o { faults = later o.faults }) h,
)
