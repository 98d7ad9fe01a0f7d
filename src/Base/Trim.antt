-- ===== src/Base/Trim.antt =====
-- `strings.TrimSpace` on the bytes of a UTF-8 text: it removes the white space of Unicode
-- (`unicode.IsSpace`), whose runes take one, two or three bytes, at both ends.
pub mod Lower
use mathlib.Core.List.{reverse-append, reverse-reverse, append_assoc}
use Prim.Native.Nat.{ℕ, zero, suc, ◌≤◌, ◌<◌}
use mathlib.Core.Path.{◌≡◌, refl, sym, ap, subst, ◌∙◌}
use mathlib.Core.Logic.{inl, inr}
use mathlib.Core.Bool.{Bool, ◌&&◌, ◌||◌}
use mathlib.Core.Option.{Option, none, some}
use mathlib.Core.List.{[], ◌∷◌, ◌++◌, reverse}
use native.Mathlib.Omega.{arith}
use go_watch_file.Base.Tests.{leb, ◌==◌, if◌then◌else◌, Option-cases, Bool-cases}
use go_watch_file.Base.Lists.{length}
use go_watch_file.Base.Str.{Str}

-- \t \n \v \f \r and the blank.
is_space1 : ℕ → Bool
is_space1 a = (leb 9 a && leb a 13) || a == 32

-- U+0085 and U+00A0.
is_space2 : ℕ → ℕ → Bool
is_space2 a b = a == 0xc2 && (b == 0x85 || b == 0xa0)

-- U+1680, U+2000 to U+200A, U+2028, U+2029, U+202F, U+205F, U+3000.
is_space3 : ℕ → ℕ → ℕ → Bool
is_space3 a b c =
    (a == 0xe1 && b == 0x9a && c == 0x80)
    || (a == 0xe2
        && b == 0x80
        && ((leb 0x80 c && leb c 0x8a) || c == 0xa8 || c == 0xa9 || c == 0xaf))
    || (a == 0xe2 && b == 0x81 && c == 0x9f)
    || (a == 0xe3 && b == 0x80 && c == 0x80)

-- What follows a white-space rune at the start; `three a b c` reads the bytes in their order.
module _ (one : ℕ → Bool) (two : ℕ → ℕ → Bool) (three : ℕ → ℕ → ℕ → Bool) where
  skip3 : ℕ → ℕ → Str → Option Str
  skip3 a b [] = none
  skip3 a b (c ∷ s) = if three a b c then some s else none

  skip2 : ℕ → Str → Option Str
  unfolding skip3
  skip2 a [] = none
  skip2 a (b ∷ s) = if two a b then some s else skip3 a b s

  skip : Str → Option Str
  unfolding skip2
  skip [] = none
  skip (a ∷ s) = if one a then some s else skip2 a s

  strip_fuel : ℕ → Str → Str
  strip_fuel zero s = s
  strip_fuel (suc f) s = elim (skip s) [ none ↦ s | some r ↦ strip_fuel f r ]

  strip : Str → Str
  unfolding strip_fuel skip
  strip s = strip_fuel (length s) s

  Suffix : Str → Str → Type 0
  Suffix s r = (p : Str) × (s ≡ p ++ r) × (length r < length s)

  skip-Suffix : (s r : Str) → skip s ≡ some r → Suffix s r
  unfolding skip Suffix
  skip-Suffix [] r h = cc
  skip-Suffix (a ∷ []) r h = (a ∷ [], ground arith, ground arith)
  skip-Suffix (a ∷ b ∷ []) r h = elim (Bool-cases (one a)) [
    | inl y ↦ (a ∷ [], ground arith, ground arith)
    | inr n ↦ (a ∷ b ∷ [], ground arith, ground arith)
  ]
  skip-Suffix (a ∷ b ∷ c ∷ s) r h = elim (Bool-cases (one a)) [
    | inl y ↦ (a ∷ [], ground arith, ground arith)
    | inr n ↦ elim (Bool-cases (two a b)) [
      | inl y ↦ (a ∷ b ∷ [], ground arith, ground arith)
      | inr m ↦ (a ∷ b ∷ c ∷ [], ground arith, ground arith)
    ]
  ]

  -- A prefix of what starts with no white space starts with none.
  skip-prefix : (p d : Str) → skip (p ++ d) ≡ none → skip p ≡ none
  unfolding skip
  skip-prefix [] d h = refl
  skip-prefix (a ∷ []) [] h = h
  skip-prefix (a ∷ []) (x ∷ d) h = ground arith
  skip-prefix (a ∷ b ∷ []) [] h = h
  skip-prefix (a ∷ b ∷ []) (x ∷ d) h = ground arith
  skip-prefix (a ∷ b ∷ c ∷ p) d h = ground arith

  strip-Stripped_fuel :
      (f : ℕ) (s : Str)
      → length s ≤ f
      → (skip (strip_fuel f s) ≡ none) × ((p : Str) × (s ≡ p ++ strip_fuel f s))
  unfolding strip_fuel Suffix
  strip-Stripped_fuel zero [] h = (unfold skip in refl, ([], refl))
  strip-Stripped_fuel zero (x ∷ s) h = absurd (omega arith)
  strip-Stripped_fuel (suc f) s h = elim (Option-cases (skip s)) [
    | inl e ↦ rw (e, strip_fuel) (e, ([], refl))
    | inr (r, e) ↦
        let (p, q, l) = skip-Suffix s r e in
        let (t, (u, v)) = strip-Stripped_fuel f r (omega arith) in
        rw (e, strip_fuel) (t, (p ++ u, q ∙ ap (◌++◌ p) v ∙ sym (append_assoc p u _)))
  ]

  -- What is left starts with no white space, and is a suffix.
  strip-Stripped : (s : Str) → (skip (strip s) ≡ none) × ((p : Str) × (s ≡ p ++ strip s))
  unfolding strip
  strip-Stripped s = strip-Stripped_fuel (length s) s (omega arith)

  strip_id : (s : Str) → skip s ≡ none → strip s ≡ s
  unfolding strip strip_fuel
  strip_id [] h = refl
  strip_id (a ∷ s) h = rw (h, strip_fuel)

-- The text after the white space at its start, if there is any.
lead : Str → Option Str
unfolding skip is_space1 is_space2 is_space3
lead s = skip is_space1 is_space2 is_space3 s

-- The same for a text whose bytes stand in the other order.
trail_rev : Str → Option Str
unfolding skip is_space1 is_space2 is_space3
trail_rev s = skip is_space1 (λ b a. is_space2 a b) (λ c b a. is_space3 a b c) s

strip_left : Str → Str
unfolding strip is_space1 is_space2 is_space3
strip_left s = strip is_space1 is_space2 is_space3 s

-- The last rune of a text is the first of its reverse, with its bytes in the other order.
strip_right_rev : Str → Str
unfolding strip is_space1 is_space2 is_space3
strip_right_rev s = strip is_space1 (λ b a. is_space2 a b) (λ c b a. is_space3 a b c) s

unfoldable pub trim_space : Str → Str
unfolding strip_left strip_right_rev
trim_space s = reverse (strip_right_rev (reverse (strip_left s)))

lead-strip_left : (s : Str) → lead (strip_left s) ≡ none
unfolding lead strip_left
lead-strip_left s = (strip-Stripped is_space1 is_space2 is_space3 s).0

strip_left_id : (s : Str) → lead s ≡ none → strip_left s ≡ s
unfolding lead strip_left
strip_left_id s h = strip_id is_space1 is_space2 is_space3 s h

lead-prefix : (p d : Str) → lead (p ++ d) ≡ none → lead p ≡ none
unfolding lead
lead-prefix p d h = skip-prefix is_space1 is_space2 is_space3 p d h

trail_rev-strip : (s : Str) → trail_rev (strip_right_rev s) ≡ none
unfolding trail_rev strip_right_rev
trail_rev-strip s = (strip-Stripped is_space1 (λ b a. is_space2 a b) (λ c b a. is_space3 a b c) s).0

strip_right_rev_id : (s : Str) → trail_rev s ≡ none → strip_right_rev s ≡ s
unfolding trail_rev strip_right_rev
strip_right_rev_id s h = strip_id is_space1 (λ b a. is_space2 a b) (λ c b a. is_space3 a b c) s h

-- Cutting white space at the end leaves a prefix.
right-prefix : (s : Str) → (d : Str) × (s ≡ reverse (strip_right_rev (reverse s)) ++ d)
unfolding strip_right_rev
right-prefix s =
    let (clean, (p, e)) =
      strip-Stripped is_space1 (λ b a. is_space2 a b) (λ c b a. is_space3 a b c) (reverse s) in
    (reverse p, sym (reverse-reverse s) ∙ ap reverse e ∙ reverse-append p _)

-- What both cuts leave is cut no further.
trimmed : (u : Str) → lead u ≡ none → trim_space (trim_space u) ≡ trim_space u
trimmed u h =
    let cut : Str = reverse (strip_right_rev (reverse u)) in
    let once : trim_space u ≡ cut =
      unfold trim_space in ap (λ x. reverse (strip_right_rev (reverse x))) (strip_left_id u h) in
    let (d, e) = right-prefix u in
    let clean : lead cut ≡ none = lead-prefix cut d (subst (λ x. lead x ≡ none) e h) in
    let twice : trim_space cut ≡ cut =
      unfold trim_space in
      rw (strip_left_id cut clean, reverse-reverse (strip_right_rev (reverse u)))
        (ap reverse (strip_right_rev_id _ (trail_rev-strip (reverse u)))) in
    ap trim_space once ∙ twice ∙ sym once

-- Trimming twice is trimming once.
pub trim_space_idem : (s : Str) → trim_space (trim_space s) ≡ trim_space s
trim_space_idem s =
    let same : trim_space (strip_left s) ≡ trim_space s =
      unfold trim_space in
      ap (λ x. reverse (strip_right_rev (reverse x))) (strip_left_id _ (lead-strip_left s)) in
    ap trim_space (sym same) ∙ trimmed (strip_left s) (lead-strip_left s) ∙ same

-- A trimmed text stands within the text.
pub trim_space-infix : (s : Str) → (p : Str) × (q : Str) × (s ≡ p ++ (trim_space s ++ q))
unfolding trim_space strip_left strip_right_rev
trim_space-infix s =
    let l = strip is_space1 is_space2 is_space3 s in
    let (n, (p, e)) = strip-Stripped is_space1 is_space2 is_space3 s in
    let (m, (q, f)) =
      strip-Stripped is_space1 (λ b a. is_space2 a b) (λ c b a. is_space3 a b c) (reverse l) in
    (
      p,
      reverse q,
      e ∙ ap (λ x. p ++ x) (sym (reverse-reverse l) ∙ ap reverse f ∙ reverse-append q _),
    )
