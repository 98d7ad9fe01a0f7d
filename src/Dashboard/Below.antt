-- ===== src/Dashboard/Below.antt =====
-- go-watch-file/internal/state/state.go: a switch of a directory decides for everything below it.
use go_watch_file.Base.{
  ℕ, zero, suc, ◌+◌, ◌<◌, ◌≡◌, refl, ap, Bool, true, false, none, some, [], ◌∷◌, if◌then◌else◌,
  length, arith, inl, inr, Bool-cases,
}
use go_watch_file.Base.Str.{Str, str_eq, str_eq_iff, str_eq_refl}
use go_watch_file.Base.Assoc.{lookup, lookup-insert}
use go_watch_file.Paths.Split.{PathHost}
use go_watch_file.Dashboard.Switches.{
  Switches, normalize_path, normalize_control_path, is_same_or_child_path, is_top, parent_dir,
  climb, auto_enabled, auto_upload, without_children, switched,
}

-- The parents of a path, each shorter than the one before, lead to the root through its children only.
pub data Below (host : PathHost) (root : Str) : Str → Type 0 where
  at : Below host root root
  up :
      (dir : Str)
      → is_top dir ≡ false
      → str_eq dir root ≡ false
      → is_same_or_child_path host dir root ≡ true
      → length (parent_dir host dir) < length dir
      → Below host root (parent_dir host dir)
      → Below host root dir

shorter-differs : (s t : Str) → length s < length t → str_eq s t ≡ false
shorter-differs s t h = elim (Bool-cases (str_eq s t)) [
  | inl same ↦ absurd (let e = ap length ((str_eq_iff s t).0 same) in omega arith)
  | inr other ↦ other
]

if_none :
    (host : PathHost) (key p q : Str) (v : Bool) (rest : Switches)
    → str_eq q p ≡ false
    → lookup p (without_children host key rest) ≡ none
    → lookup p (without_children host key ((q, v) ∷ rest)) ≡ none
unfolding lookup without_children
if_none host key p q v rest other h = ground arith

-- A child of the directory has no switch of its own any more.
lookup-without :
    (host : PathHost) (key p : Str) (auto_on : Switches)
    → str_eq p key ≡ false
    → is_same_or_child_path host p key ≡ true
    → lookup p (without_children host key auto_on) ≡ none
unfolding lookup without_children
lookup-without host key p [] n c = refl
lookup-without host key p ((q, v) ∷ rest) n c = elim (Bool-cases (str_eq q p)) [
  | inl same ↦ let e = (str_eq_iff q p).0 same in rw (e, n, c) (lookup-without host key p rest n c)
  | inr other ↦ if_none host key p q v rest other (lookup-without host key p rest n c)
]

lookup-switched :
    (host : PathHost) (key p : Str) (enabled : Bool) (auto_on : Switches)
    → str_eq p key ≡ false
    → is_same_or_child_path host p key ≡ true
    → lookup p (switched host key true enabled auto_on) ≡ none
unfolding switched
lookup-switched host key p enabled auto_on n c = ground (
  arith,
  lookup-insert key p enabled (without_children host key auto_on),
  lookup-without host key p auto_on n c,
  str_eq_iff key p,
  str_eq_iff p key,
)

lookup_key :
    (host : PathHost) (key : Str) (is_dir enabled : Bool) (auto_on : Switches)
    → lookup key (switched host key is_dir enabled auto_on) ≡ some enabled
unfolding switched
lookup_key host key is_dir enabled auto_on =
    let before = if is_dir then without_children host key auto_on else auto_on in
    ground (arith, lookup-insert key key enabled before, str_eq_refl key)

climb-Below :
    (host : PathHost) (root norm dir : Str) (n : ℕ) (enabled : Bool) (auto_on : Switches)
    → is_top root ≡ false
    → length dir < length norm
    → length dir < n
    → Below host root dir
    → climb host (switched host root true enabled auto_on) norm n dir ≡ enabled
unfolding climb
climb-Below host root norm dir zero enabled auto_on t s f b = absurd (omega arith)
climb-Below host root norm dir (suc n) enabled auto_on t s f at =
    rw (t, shorter-differs root norm s, lookup_key host root true enabled auto_on) refl
climb-Below host root norm dir (suc n) enabled auto_on t s f (up _ top other child shorter b) =
    rw
      (
        top,
        shorter-differs dir norm s,
        lookup-switched host root dir enabled auto_on other child,
        shorter-differs (parent_dir host dir) dir shorter,
      )
      (climb-Below host root norm (parent_dir host dir) n enabled auto_on t (omega arith)
        (omega arith) b)

enabled-Below :
    (host : PathHost) (root norm : Str) (enabled : Bool) (auto_on : Switches)
    → is_top root ≡ false
    → Below host root norm
    → auto_enabled host (switched host root true enabled auto_on) norm ≡ enabled
unfolding auto_enabled is_top
enabled-Below host root norm enabled auto_on t at =
    rw (lookup_key host root true enabled auto_on) (ground arith)
enabled-Below host root norm enabled auto_on t (up _ top other child shorter b) =
    rw
      (
        lookup-switched host root norm enabled auto_on other child,
        climb-Below host root norm (parent_dir host norm) (length norm + 2) enabled auto_on t
            shorter (omega arith) b,
      )
      (ground arith)

-- SetAutoUpload on a directory that is not empty, "." or "/" decides for every path whose parents lead
-- to that directory, whatever switches were set below it before: AutoUploadEnabled then answers what was set.
pub auto_upload-switched :
    (host : PathHost) (name root path : Str) (enabled : Bool) (auto_on : Switches)
    → is_top root ≡ false
    → Below host root (normalize_path host (normalize_control_path host path name))
    → auto_upload host name (switched host root true enabled auto_on) path ≡ enabled
unfolding auto_upload
auto_upload-switched host name root path enabled auto_on t b =
    enabled-Below host root _ enabled auto_on t b
