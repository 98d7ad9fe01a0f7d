-- ===== src/Alert/Lines.antt =====
-- go-watch-file/internal/alert/tailer.go, `readFile`: the lines of a text that is read in pieces.
use go_watch_file.Base.{
  ℕ, ◌≡◌, refl, ap, ◌∙◌, true, false, List, [], ◌∷◌, ◌++◌, inl, inr, arith, if_elim, Bool-cases,
  ◌==◌, length, length-append,
}
use mathlib.Core.List.{append-nil}
use go_watch_file.Base.Str.{Str, is_empty}
use go_watch_file.Base.Trim.{trim_space}
use go_watch_file.Alert.Tailer.{
  add_first, split_lines, last_line, all_but_last, ends_line, trim_right_cr, deliver,
}

-- The lines of a text that have ended, and the rest.
abbrev pub ended : Str → List Str
ended s = all_but_last (split_lines s)

abbrev pub rest : Str → Str
rest s = last_line (split_lines s)

abbrev Cons : List Str → Type 0
Cons ls = (l : Str) × (more : List Str) × (ls ≡ l ∷ more)

add_first-Cons : (c : ℕ) (ls : List Str) → Cons (add_first c ls)
add_first-Cons c [] = (c ∷ [], [], refl)
add_first-Cons c (l ∷ ls) = (c ∷ l, ls, refl)

split-Cons : (s : Str) → Cons (split_lines s)
unfolding split_lines
split-Cons [] = ([], [], refl)
split-Cons (c ∷ s) =
    if_elim Cons (c == b'\n') (λ newline. ([], split_lines s, refl))
      (λ other. add_first-Cons c (split_lines s))

-- A line begins at the newline.
newline-append :
    (s d : Str) (ls : List Str)
    → Cons ls
    → split_lines (s ++ d) ≡ all_but_last ls ++ split_lines (last_line ls ++ d)
    → [] ∷ split_lines (s ++ d) ≡ all_but_last ([] ∷ ls) ++ split_lines (last_line ([] ∷ ls) ++ d)
newline-append s d [] (l, more, e) h = absurd (clash e)
  where
    clash : ◌≡◌ {A = List Str} [] (l ∷ more) → ⊥
    clash e' = cc
newline-append s d (l ∷ ls) some_line h = ap (λ r. [] ∷ r) h

other-append :
    (c : ℕ) (s d : Str) (ls : List Str)
    → (c == b'\n') ≡ false
    → split_lines (s ++ d) ≡ all_but_last ls ++ split_lines (last_line ls ++ d)
    → add_first c (split_lines (s ++ d))
      ≡ all_but_last (add_first c ls) ++ split_lines (last_line (add_first c ls) ++ d)
unfolding split_lines
other-append c s d [] other h = rw other (ap (add_first c) h)
other-append c s d (l ∷ []) other h = rw other (ap (add_first c) h)
other-append c s d (l ∷ m ∷ ls) other h = ap (add_first c) h

-- A text that goes on: its ended lines stay, and the rest goes on.
split-append : (s d : Str) → split_lines (s ++ d) ≡ ended s ++ split_lines (rest s ++ d)
unfolding split_lines
split-append [] d = refl
split-append (c ∷ s) d = elim (Bool-cases (c == b'\n')) [
  | inl newline ↦ rw newline (newline-append s d (split_lines s) (split-Cons s) (split-append s d))
  | inr other ↦ rw other (other-append c s d (split_lines s) other (split-append s d))
]

all_but_last-append : (xs ys : List Str) → Cons ys → all_but_last (xs ++ ys) ≡ xs ++ all_but_last ys
all_but_last-append [] ys h = refl
all_but_last-append (x ∷ []) ys (l, more, e) = rw e refl
all_but_last-append (x ∷ y ∷ xs) ys h = ap (λ r. x ∷ r) (all_but_last-append (y ∷ xs) ys h)

last_line-append : (xs ys : List Str) → Cons ys → last_line (xs ++ ys) ≡ last_line ys
last_line-append [] ys h = refl
last_line-append (x ∷ []) ys (l, more, e) = rw e refl
last_line-append (x ∷ y ∷ xs) ys h = last_line-append (y ∷ xs) ys h

pub ended-append : (s d : Str) → ended (s ++ d) ≡ ended s ++ ended (rest s ++ d)
ended-append s d =
    ap all_but_last (split-append s d)
    ∙ all_but_last-append (ended s) (split_lines (rest s ++ d)) (split-Cons (rest s ++ d))

pub rest-append : (s d : Str) → rest (s ++ d) ≡ rest (rest s ++ d)
rest-append s d =
    ap last_line (split-append s d)
    ∙ last_line-append (ended s) (split_lines (rest s ++ d)) (split-Cons (rest s ++ d))

pub deliver-append : (xs ys : List Str) → deliver (xs ++ ys) ≡ deliver xs ++ deliver ys
unfolding deliver
deliver-append [] ys = refl
deliver-append (x ∷ xs) ys = elim (Bool-cases (is_empty (trim_space (trim_right_cr x)))) [
  | inl blank ↦ rw blank (deliver-append xs ys)
  | inr full ↦ rw full (ap (λ r. trim_right_cr x ∷ r) (deliver-append xs ys))
]

-- The lines of a text that ends its last line.
abbrev Ends : List Str → Type 0
Ends ls = (l m : Str) × (more : List Str) × (ls ≡ l ∷ m ∷ more) × (last_line (m ∷ more) ≡ [])

add_first-Ends : (c : ℕ) (ls : List Str) → Ends ls → Ends (add_first c ls)
add_first-Ends c ls (l, m, more, e, last) = (c ∷ l, m, more, ap (add_first c) e, last)

cons-Ends : (ls : List Str) → Ends ls → Ends ([] ∷ ls)
cons-Ends ls (l, m, more, e, last) = ([], l, m ∷ more, ap (λ r. [] ∷ r) e, last)

ends_line-Ends : (s : Str) → ends_line s ≡ true → Ends (split_lines s)
unfolding split_lines ends_line
ends_line-Ends [] h = absurd (clash h)
  where
    clash : false ≡ true → ⊥
    clash e = cc
ends_line-Ends (c ∷ []) h = rw h ([], [], [], refl, refl)
ends_line-Ends (c ∷ d ∷ s) h =
    let more = ends_line-Ends (d ∷ s) h in
    if_elim Ends (c == b'\n') (λ newline. cons-Ends (split_lines (d ∷ s)) more)
      (λ other. add_first-Ends c (split_lines (d ∷ s)) more)

Ends-rest : (ls : List Str) → Ends ls → last_line ls ≡ []
Ends-rest ls (l, m, more, e, last) = ap last_line e ∙ last

pub ends_line-rest : (s : Str) → ends_line s ≡ true → rest s ≡ []
ends_line-rest s h = Ends-rest (split_lines s) (ends_line-Ends s h)

deliver-nil : deliver ([] ∷ []) ≡ []
unfolding deliver trim_right_cr trim_space
deliver-nil = refl

-- A blank last line is not handed on.
deliver-blank : (ls : List Str) → last_line ls ≡ [] → deliver ls ≡ deliver (all_but_last ls)
unfolding deliver trim_right_cr
deliver-blank [] h = refl
deliver-blank (l ∷ []) h = ap (λ x. deliver (x ∷ [])) h ∙ deliver-nil
deliver-blank (l ∷ m ∷ ls) h =
    let later = deliver-blank (m ∷ ls) h in
    elim (Bool-cases (is_empty (trim_space (trim_right_cr l)))) [
      | inl blank ↦ rw blank later
      | inr full ↦ rw full (ap (λ r. trim_right_cr l ∷ r) later)
    ]

pub deliver-ended : (s : Str) → ends_line s ≡ true → deliver (split_lines s) ≡ deliver (ended s)
deliver-ended s h = deliver-blank (split_lines s) (ends_line-rest s h)

nil_of_length : {A : Type 0} (xs : List A) → length xs ≡ 0 → xs ≡ []
nil_of_length [] h = refl
nil_of_length (x ∷ xs) h = absurd (omega (arith, h))

-- The rest of a text holds no ended line.
pub ended-rest : (s : Str) → ended (rest s ++ []) ≡ []
ended-rest s =
    let split = ended-append s [] in
    let same : ended (s ++ []) ≡ ended s = ap ended (append-nil s) in
    nil_of_length (ended (rest s ++ [])) (
      omega
        (arith, length-append (ended s) (ended (rest s ++ [])), ap length split, ap length same))
