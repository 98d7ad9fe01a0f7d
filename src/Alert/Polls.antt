-- ===== src/Alert/Polls.antt =====
-- go-watch-file/internal/alert/tailer.go, `readFile`: one poll of a file that has grown.
use go_watch_file.Base.{
  ℕ, ◌+◌, ◌≡◌, ◌≢◌, refl, sym, ap, ◌∙◌, subst, Bool, true, false, not, Option, none, some, List, [],
  ◌∷◌, ◌++◌, arith, if◌then◌else◌, if_elim, ltb, ◌==◌, length, drop, length-append,
}
use mathlib.Core.List.{append-nil}
use go_watch_file.Base.Str.{Str, is_empty}
use go_watch_file.Base.Trim.{trim_space}
use go_watch_file.Alert.Tailer.{
  FileCursor, Look, split_lines, ends_line, deliver, take_in, read_data, read_from, read_stat,
  read_file,
}
use go_watch_file.Alert.Lines.{ended, rest, rest-append, ends_line-rest, deliver-ended, ended-rest}

-- What a poll meets: an error of `os.Stat`, an error of opening or reading, or neither.
pub data Weather : Type 0 where
  stat_fails : Weather
  read_fails : Weather
  clear : Weather

unfoldable pub look_at : Weather → Str → Look
look_at stat_fails contents = record { size = none; contents = some contents }
look_at read_fails contents = record { size = some (length contents); contents = none }
look_at clear contents = record { size = some (length contents); contents = some contents }

-- The polls of a file that starts as `contents`: before each, a chunk is appended.
unfoldable pub poll_all : Str → List (Str × Weather) → Str → FileCursor → FileCursor × List Str
poll_all path [] contents cur = (cur, [])
poll_all path ((chunk, w) ∷ polls) contents cur =
    let (cur', lines, ok) = read_file false path (look_at w (contents ++ chunk)) cur in
    let (cur'', later) = poll_all path polls (contents ++ chunk) cur' in (cur'', lines ++ later)

abbrev pub grown : List (Str × Weather) → Str → Str
grown [] contents = contents
grown ((chunk, w) ∷ polls) contents = grown polls (contents ++ chunk)

-- The cursor stands after the bytes `p`, and has those of them that belong to no ended line.
abbrev pub Reads : Str → FileCursor → Type 0
Reads p cur = (cur.offset ≡ length p) × (cur.remainder ≡ rest p) × (cur.inited ≡ false → p ≡ [])

-- What a poll does to a cursor after `p`, when `q` follows in the file: it goes to the end and hands
-- on the lines that end there, or it stays.
abbrev pub Advanced : Str → Str → FileCursor × List Str × Bool → Type 0
Advanced p q r = Reads (p ++ q) r.0 × (r.1 ≡ deliver (ended (rest p ++ q)))

abbrev pub Stayed : Str → FileCursor × List Str × Bool → Type 0
Stayed p r = Reads p r.0 × (r.1 ≡ [])

pub drop-length : (p q : Str) → drop (length p) (p ++ q) ≡ q
drop-length [] q = refl
drop-length (c ∷ p) q = drop-length p q

pub begun : {A : Type 0} (b : Bool) → b ≡ true → b ≡ false → A
begun b t f = absurd (clash (sym t ∙ f))
  where
    clash : true ≡ false → ⊥
    clash e = cc

pub take_in-Advanced :
    (p q : Str) (cur : FileCursor) → Reads p cur → cur.inited ≡ true → Advanced p q (take_in q cur)
take_in-Advanced p q cur (at, left, fresh) started =
    if_elim (Advanced p q) (ends_line (cur.remainder ++ q))
      (λ ends.
        let ends' : ends_line (rest p ++ q) ≡ true =
          subst (λ r. ends_line (r ++ q) ≡ true) left ends in
        (
          (
            ap (λ n. n + length q) at ∙ sym (length-append p q),
            sym (rest-append p q ∙ ends_line-rest (rest p ++ q) ends'),
            begun cur.inited started,
          ),
          ap (λ r. deliver (split_lines (r ++ q))) left ∙ deliver-ended (rest p ++ q) ends',
        ))
      (λ open_end. (
        (
          ap (λ n. n + length q) at ∙ sym (length-append p q),
          ap (λ r. rest (r ++ q)) left ∙ sym (rest-append p q),
          begun cur.inited started,
        ),
        ap (λ r. deliver (ended (r ++ q))) left,
      ))

-- Nothing follows, and nothing happens.
pub nothing-Advanced :
    (p q : Str) (cur : FileCursor) (ok : Bool)
    → length q ≡ 0
    → Reads p cur
    → Advanced p q (cur, [], ok)
unfolding deliver
nothing-Advanced p [] cur ok none_left reads =
    (subst (λ r. Reads r cur) (sym (append-nil p)) reads, sym (ap deliver (ended-rest p)))
nothing-Advanced p (c ∷ q) cur ok none_left reads = absurd (omega (arith, none_left))

pub read_data-Advanced :
    (p q : Str) (cur : FileCursor)
    → Reads p cur
    → cur.inited ≡ true
    → Advanced p q (read_data (some (p ++ q)) cur)
read_data-Advanced p q cur reads started =
    let got : drop cur.offset (p ++ q) ≡ q = ap (λ n. drop n (p ++ q)) reads.0 ∙ drop-length p q in
    subst (λ g. Advanced p q (if length g == 0 then (cur, [], true) else take_in g cur)) (sym got)
      (if_elim (Advanced p q) (length q == 0)
        (λ bare. nothing-Advanced p q cur true (ground (arith, bare)) reads)
        (λ more. take_in-Advanced p q cur reads started))

-- The file has not been cut, so the cursor is not reset.
pub read_from-at :
    (p q : Str) (contents : Option Str) (cur : FileCursor)
    (P : FileCursor × List Str × Bool → Type 0)
    → Reads p cur
    → P (if length (p ++ q) == cur.offset then (cur, [], true) else read_data contents cur)
    → P (read_from (length (p ++ q)) contents cur)
unfolding read_from
read_from-at p q contents cur P reads h =
    let same : (if ltb (length (p ++ q)) cur.offset
          then record cur { offset = 0; remainder = [] }
          else cur)
        ≡ cur =
      if_elim (λ r. r ≡ cur) (ltb (length (p ++ q)) cur.offset)
        (λ shorter. absurd (ground (arith, shorter, reads.0, length-append p q)))
        (λ longer. refl) in
    subst
      (λ (at : FileCursor).
        P (if length (p ++ q) == at.offset then (at, [], true) else read_data contents at))
      (sym same) h

pub read_from-Advanced :
    (p q : Str) (cur : FileCursor)
    → Reads p cur
    → cur.inited ≡ true
    → Advanced p q (read_from (length (p ++ q)) (some (p ++ q)) cur)
read_from-Advanced p q cur reads started =
    read_from-at p q (some (p ++ q)) cur (Advanced p q) reads (
      if_elim (Advanced p q) (length (p ++ q) == cur.offset)
        (λ same.
          nothing-Advanced p q cur true (ground (arith, same, reads.0, length-append p q)) reads)
        (λ more. read_data-Advanced p q cur reads started))

pub read_from-Stayed :
    (p q : Str) (cur : FileCursor) → Reads p cur → Stayed p (read_from (length (p ++ q)) none cur)
read_from-Stayed p q cur reads = read_from-at p q none cur (Stayed p) reads (
    if_elim (Stayed p) (length (p ++ q) == cur.offset) (λ same. (reads, refl))
      (λ more. (reads, refl)))

abbrev pub start : FileCursor
start = record { offset = 0; remainder = []; inited = true }

pub start-Reads : (p : Str) → p ≡ [] → Reads p start
start-Reads p e =
    subst (λ r. Reads r start) (sym e) (refl, unfold split_lines in refl, begun true refl)

pub by_start :
    (P : FileCursor × List Str × Bool → Type 0) (p : Str) (size : ℕ) (contents : Option Str)
    (cur : FileCursor)
    → Reads p cur
    → ((c : FileCursor) → Reads p c → c.inited ≡ true → P (read_from size contents c))
    → P (read_stat false (some size) contents cur)
by_start P p size contents cur reads h =
    if_elim P (not cur.inited) (λ new. h start (start-Reads p (reads.2 (ground (arith, new)))) refl)
      (λ old. h cur reads (ground (arith, old)))

-- A poll of a file that goes on.
pub read_file-grown :
    (path p q : Str) (w : Weather) (cur : FileCursor)
    → is_empty (trim_space path) ≡ false
    → Reads p cur
    → (w ≡ clear → Advanced p q (read_file false path (look_at w (p ++ q)) cur))
      × ((w ≢ clear) → Stayed p (read_file false path (look_at w (p ++ q)) cur))
unfolding read_file look_at
read_file-grown path p q stat_fails cur named reads =
    rw named (λ e. absurd (calm e), λ e. (reads, refl))
  where
    calm : stat_fails ≡ clear → ⊥
    calm e = cc
read_file-grown path p q read_fails cur named reads = rw named (
  λ e. absurd (calm e),
  λ e. by_start (Stayed p) p (length (p ++ q)) none cur reads (λ c r b. read_from-Stayed p q c r),
)
  where
    calm : read_fails ≡ clear → ⊥
    calm e = cc
read_file-grown path p q clear cur named reads = rw named (
  λ e.
      by_start (Advanced p q) p (length (p ++ q)) (some (p ++ q)) cur reads
        (λ c r b. read_from-Advanced p q c r b),
  λ e. absurd (e refl),
)
