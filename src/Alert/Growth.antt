-- ===== src/Alert/Growth.antt =====
-- go-watch-file/internal/alert/tailer.go, `readFile`: a file that grows between the polls.
use go_watch_file.Base.{◌≡◌, refl, sym, ap, ◌∙◌, subst, false, List, [], ◌∷◌, ◌++◌, ◌⊎◌, inl, inr}
use mathlib.Core.List.{append-nil, append_assoc}
use go_watch_file.Base.Str.{Str, is_empty}
use go_watch_file.Base.Trim.{trim_space}
use go_watch_file.Alert.Tailer.{FileCursor, split_lines, deliver, read_file, fresh_cursor}
use go_watch_file.Alert.Lines.{ended, rest, ended-append, deliver-append}
use go_watch_file.Alert.Polls.{
  Weather, look_at, poll_all, grown, Reads, Advanced, Stayed, read_file-grown, stat_fails,
  read_fails, clear,
}

-- What the polls have done: the cursor stands after `p'`, and the lines handed on are those ended in
-- it.
abbrev Covers : Str → Str → FileCursor × List Str → Type 0
Covers p contents r =
    (p' q' : Str) × (contents ≡ p' ++ q')
    × Reads p' r.0
    × (deliver (ended p) ++ r.1 ≡ deliver (ended p'))

deliver-ended-append :
    (p q : Str) → deliver (ended p) ++ deliver (ended (rest p ++ q)) ≡ deliver (ended (p ++ q))
deliver-ended-append p q =
    sym (ap deliver (ended-append p q) ∙ deliver-append (ended p) (ended (rest p ++ q)))

Covers-then :
    (p p' contents : Str) (first : List Str) (r : FileCursor × List Str)
    → deliver (ended p) ++ first ≡ deliver (ended p')
    → Covers p' contents r
    → Covers p contents (r.0, first ++ r.1)
Covers-then p p' contents first r h (p'', q'', e, reads, lines) = (
  p'',
  q'',
  e,
  reads,
  sym (append_assoc (deliver (ended p)) first r.1) ∙ ap (λ x. x ++ r.1) h ∙ lines,
)

poll_step :
    (path p q : Str) (w : Weather) (cur : FileCursor)
    → is_empty (trim_space path) ≡ false
    → Reads p cur
    → Advanced p q (read_file false path (look_at w (p ++ q)) cur)
      ⊎ Stayed p (read_file false path (look_at w (p ++ q)) cur)
poll_step path p q stat_fails cur named reads =
    inr ((read_file-grown path p q stat_fails cur named reads).1 (λ e. cc))
poll_step path p q read_fails cur named reads =
    inr ((read_file-grown path p q read_fails cur named reads).1 (λ e. cc))
poll_step path p q clear cur named reads =
    inl ((read_file-grown path p q clear cur named reads).0 refl)

poll_all-Covers :
    (path : Str) (polls : List (Str × Weather)) (p q contents : Str) (cur : FileCursor)
    → is_empty (trim_space path) ≡ false
    → contents ≡ p ++ q
    → Reads p cur
    → Covers p (grown polls contents) (poll_all path polls contents cur)
unfolding poll_all
poll_all-Covers path [] p q contents cur named e reads = (p, q, e, reads, append-nil _)
poll_all-Covers path ((chunk, w) ∷ polls) p q contents cur named e reads =
    let whole : contents ++ chunk ≡ p ++ (q ++ chunk) =
      ap (λ x. x ++ chunk) e ∙ append_assoc p q chunk in
    let r = read_file false path (look_at w (contents ++ chunk)) cur in
    let step =
      subst
        (λ x.
          Advanced p (q ++ chunk) (read_file false path (look_at w x) cur)
          ⊎ Stayed p (read_file false path (look_at w x) cur))
        (sym whole) (poll_step path p (q ++ chunk) w cur named reads) in
    elim step [
      | inl (reads', lines) ↦
          Covers-then p (p ++ (q ++ chunk)) _ r.1 (poll_all path polls (contents ++ chunk) r.0)
            (ap (λ x. deliver (ended p) ++ x) lines ∙ deliver-ended-append p (q ++ chunk))
            (poll_all-Covers path polls (p ++ (q ++ chunk)) [] (contents ++ chunk) r.0 named
              (whole ∙ sym (append-nil _)) reads')
      | inr (reads', lines) ↦
          Covers-then p p _ r.1 (poll_all path polls (contents ++ chunk) r.0)
            (ap (λ x. deliver (ended p) ++ x) lines ∙ append-nil _)
            (poll_all-Covers path polls p (q ++ chunk) (contents ++ chunk) r.0 named whole reads')
    ]

fresh-Reads : Reads [] fresh_cursor
unfolding fresh_cursor split_lines
fresh-Reads = (refl, refl, λ e. refl)

nothing_ended : deliver (ended []) ≡ []
unfolding split_lines deliver
nothing_ended = refl

-- A log file of a path that is not blank is read from its start, and only grows. Whatever the polls
-- met, errors included, once a poll meets no error, the lines handed on since the start are exactly
-- the lines of the file that have ended, without carriage returns at their ends, the blank ones left
-- out, each once and in order.
pub poll_all_complete :
    (path : Str) (polls : List (Str × Weather)) (chunk : Str)
    → is_empty (trim_space path) ≡ false
    → (poll_all path polls [] fresh_cursor).1
        ++ (read_file false path
            (look_at clear (grown polls [] ++ chunk))
            (poll_all path polls [] fresh_cursor).0).1
      ≡ deliver (ended (grown polls [] ++ chunk))
poll_all_complete path polls chunk named =
    let (p, q, e, reads, lines) =
      poll_all-Covers path polls [] [] [] fresh_cursor named refl fresh-Reads in
    let cur = (poll_all path polls [] fresh_cursor).0 in
    let whole : grown polls [] ++ chunk ≡ p ++ (q ++ chunk) =
      ap (λ x. x ++ chunk) e ∙ append_assoc p q chunk in
    let last = (read_file-grown path p (q ++ chunk) clear cur named reads).0 refl in
    let before : (poll_all path polls [] fresh_cursor).1 ≡ deliver (ended p) =
      sym (ap (λ x. x ++ (poll_all path polls [] fresh_cursor).1) nothing_ended) ∙ lines in
    subst
      (λ x.
        (poll_all path polls [] fresh_cursor).1 ++ (read_file false path (look_at clear x) cur).1
        ≡ deliver (ended x))
      (sym whole)
      (ap (λ x. x ++ (read_file false path (look_at clear (p ++ (q ++ chunk))) cur).1) before
        ∙ ap (λ x. deliver (ended p) ++ x) last.1
        ∙ deliver-ended-append p (q ++ chunk))
