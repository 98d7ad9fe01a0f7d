-- ===== src/PersistQueue/Search.antt =====
-- go-watch-file/internal/persistqueue/file_queue.go: the searches of RemoveOne and RemoveLastOne, and the
-- deletion of one index.
use go_watch_file.Base.{
  ℕ, zero, suc, ◌+◌, ◌≡◌, refl, Bool, true, false, Option, none, some, List, [], ◌∷◌, ◌++◌, arith,
  if◌then◌else◌, take, drop, length, length-append, Bool-cases, inl, inr, ap, subst,
}
use native.Mathlib.Numerals.{towards_suc}
use go_watch_file.Base.Str.{Str, str_eq, str_eq_iff, str_eq_refl, count}

abbrev pub get_elem? : List Str → ℕ → Option Str
get_elem? [] i = none
get_elem? (x ∷ xs) zero = some x
get_elem? (x ∷ xs) (suc i) = get_elem? xs i

-- `for i, val := range q.items { if val == trimmed { idx = i; break } }`, from the index `i`.
unfoldable pub first_from : Str → ℕ → List Str → Option ℕ
first_from x i [] = none
first_from x i (y ∷ ys) = let rest = first_from x (suc i) ys in if str_eq y x then some i else rest

unfoldable pub find_first : Str → List Str → Option ℕ
unfolding first_from
find_first x xs = first_from x 0 xs

abbrev pub holds : Str → Option Str → Bool
holds x none = false
holds x (some y) = str_eq y x

-- `for i := len(q.items) - 1; i >= 0; i--`, with the indices below the first argument to go.
unfoldable pub last_below : ℕ → Str → List Str → Option ℕ
last_below zero x xs = none
last_below (suc i) x xs =
    let rest = last_below i x xs in if holds x (get_elem? xs i) then some i else rest

unfoldable pub find_last : Str → List Str → Option ℕ
unfolding last_below
find_last x xs = last_below (length xs) x xs

-- `append(q.items[:idx], q.items[idx+1:]...)`, into a new slice.
unfoldable pub without : ℕ → List Str → List Str
without i xs = take i xs ++ drop (suc i) xs

first_from-Holds :
    (x : Str) (k : ℕ) (xs : List Str) {i : ℕ}
    → first_from x k xs ≡ some i
    → (j : ℕ) × (i ≡ k + j) × (get_elem? xs j ≡ some x) × (count x (take j xs) ≡ 0)
unfolding first_from count
first_from-Holds x k [] h = cc
first_from-Holds x k (y ∷ ys) {i} h = elim (Bool-cases (str_eq y x)) [
  | inl e ↦ (0, ground arith, ap some ((str_eq_iff y x).0 e), refl)
  | inr e ↦
      let (j, a, b, c) = first_from-Holds x (suc k) ys {i = i} (ground arith) in
      (suc j, ground arith, b, ground arith)
]

-- RemoveOne finds an occurrence with none before it.
pub find_first-First :
    (x : Str) (xs : List Str) {i : ℕ}
    → find_first x xs ≡ some i
    → (get_elem? xs i ≡ some x) × (count x (take i xs) ≡ 0)
unfolding find_first
find_first-First x xs {i} h =
    let (j, a, b, c) = first_from-Holds x 0 xs h in let e : i ≡ j = omega arith in (rw e b, rw e c)

first_from-none : (x : Str) (k : ℕ) (xs : List Str) → first_from x k xs ≡ none → count x xs ≡ 0
unfolding first_from count
first_from-none x k [] h = refl
first_from-none x k (y ∷ ys) h = ground (arith, first_from-none x (suc k) ys)

pub find_first-none : (x : Str) (xs : List Str) → find_first x xs ≡ none → count x xs ≡ 0
unfolding find_first
find_first-none x xs h = first_from-none x 0 xs h

holds_lem : (x : Str) (o : Option Str) → holds x o ≡ true → o ≡ some x
holds_lem x none h = cc
holds_lem x (some y) h = ap some ((str_eq_iff y x).0 h)

last_below-Holds :
    (n : ℕ) (x : Str) (xs : List Str) {i : ℕ} → last_below n x xs ≡ some i → get_elem? xs i ≡ some x
unfolding last_below
last_below-Holds zero x xs h = cc
last_below-Holds (suc n) x xs h = elim (Bool-cases (holds x (get_elem? xs n))) [
  | inl e ↦
      let same : ◌≡◌ {A = Option ℕ} (some n) (some _) = rw e at h in
      subst (λ o. get_elem? xs o ≡ some x) (ground arith) (holds_lem x (get_elem? xs n) e)
  | inr e ↦ last_below-Holds n x xs (ground arith)
]

-- RemoveLastOne finds an occurrence.
pub find_last-Holds :
    (x : Str) (xs : List Str) {i : ℕ} → find_last x xs ≡ some i → get_elem? xs i ≡ some x
unfolding find_last
find_last-Holds x xs h = last_below-Holds (length xs) x xs h

-- Deleting an index takes one occurrence of what stood there, and nothing else.
pub count-without :
    (p x : Str) (i : ℕ) (xs : List Str)
    → get_elem? xs i ≡ some x
    → count p (without i xs) + (if str_eq x p then 1 else 0) ≡ count p xs
unfolding count without
count-without p x i [] h = cc
count-without p x zero (y ∷ ys) h = ground arith
count-without p x (suc i) (y ∷ ys) h = omega (arith, count-without p x i ys h)

get_elem?-append_last : (x : Str) (xs : List Str) → get_elem? (xs ++ x ∷ []) (length xs) ≡ some x
get_elem?-append_last x [] = refl
get_elem?-append_last x (y ∷ ys) = get_elem?-append_last x ys

-- The occurrence that was appended last is the one that RemoveLastOne finds.
pub find_last-append : (x : Str) (xs : List Str) → find_last x (xs ++ x ∷ []) ≡ some (length xs)
unfolding find_last last_below
find_last-append x xs =
    rw (length-append xs (x ∷ []))
      (simp towards_suc (ground (arith, get_elem?-append_last x xs, str_eq_refl x)))

pub without-append : (x : Str) (xs : List Str) → without (length xs) (xs ++ x ∷ []) ≡ xs
unfolding without
without-append x [] = refl
without-append x (y ∷ ys) = ap (◌∷◌ y) (without-append x ys)
