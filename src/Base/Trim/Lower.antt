-- ===== src/Base/Trim/Lower.antt =====
-- `strings.ToLower` after `strings.TrimSpace`: a second time changes nothing.
use Prim.Native.Nat.{ℕ, zero, suc}
use mathlib.Core.Path.{◌≡◌, refl, ap, ◌∙◌}
use mathlib.Core.Option.{Option, none, some}
use mathlib.Core.List.{reverse-reverse}
use mathlib.Core.List.{List, [], ◌∷◌, map, reverse}
use mathlib.Core.Option
use mathlib.Core.List
use mathlib.Core.Bool.{Bool, true, ◌&&◌, ◌||◌}
use mathlib.Core.Logic.{inl, inr}
use native.Mathlib.Omega.{arith}
use go_watch_file.Base.Tests.{leb, ◌==◌, Option-cases}
use go_watch_file.Base.Lists.{length}
use go_watch_file.Base.Str.{Str, to_lower, lower_byte}
use go_watch_file.Base.Trim.{
  is_space1, is_space2, is_space3, skip, skip2, skip3, strip_fuel, strip, strip_left,
  strip_right_rev, trim_space, trim_space_idem, lead, trail_rev, strip_left_id, strip_right_rev_id,
}

lower_byte_idem : (c : ℕ) → lower_byte (lower_byte c) ≡ lower_byte c
lower_byte_idem c = ground arith

pub to_lower_idem : (s : Str) → to_lower (to_lower s) ≡ to_lower s
unfolding to_lower
to_lower_idem [] = refl
to_lower_idem (c ∷ s) = ground (arith, lower_byte_idem c, to_lower_idem s)

length-to_lower : (s : Str) → length (to_lower s) ≡ length s
unfolding to_lower
length-to_lower [] = refl
length-to_lower (c ∷ s) = omega (arith, length-to_lower s)

is_space1_lower : (a : ℕ) → is_space1 (lower_byte a) ≡ is_space1 a
unfolding is_space1
is_space1_lower a = ground arith

is_space2_lower : (a b : ℕ) → is_space2 (lower_byte a) (lower_byte b) ≡ is_space2 a b
unfolding is_space2
is_space2_lower a b = ground arith

is_space3_lower :
    (a b c : ℕ) → is_space3 (lower_byte a) (lower_byte b) (lower_byte c) ≡ is_space3 a b c
unfolding is_space3
is_space3_lower a b c = ground arith

reverse_aux-to_lower :
    (s r : Str) → List.reverse_aux (to_lower s) (to_lower r) ≡ to_lower (List.reverse_aux s r)
unfolding to_lower
reverse_aux-to_lower [] r = refl
reverse_aux-to_lower (c ∷ s) r = reverse_aux-to_lower s (c ∷ r)

reverse-to_lower : (s : Str) → reverse (to_lower s) ≡ to_lower (reverse s)
reverse-to_lower s = (unfold to_lower in reverse_aux-to_lower s [])

-- What does not tell capitals from small letters strips the same.
module _ (one : ℕ → Bool) (two : ℕ → ℕ → Bool) (three : ℕ → ℕ → ℕ → Bool)
    (h1 : (a : ℕ) → one (lower_byte a) ≡ one a)
    (h2 : (a b : ℕ) → two (lower_byte a) (lower_byte b) ≡ two a b)
    (h3 : (a b c : ℕ) → three (lower_byte a) (lower_byte b) (lower_byte c) ≡ three a b c) where
  skip-to_lower :
      (s : Str) → skip one two three (to_lower s) ≡ Option.map to_lower (skip one two three s)
  unfolding skip skip2 skip3 to_lower
  skip-to_lower [] = refl
  skip-to_lower (a ∷ []) = ground (arith, h1 a)
  skip-to_lower (a ∷ b ∷ []) = ground (arith, h1 a, h2 a b)
  skip-to_lower (a ∷ b ∷ c ∷ s) = ground (arith, h1 a, h2 a b, h3 a b c)

  strip_fuel-to_lower :
      (f : ℕ) (s : Str)
      → strip_fuel one two three f (to_lower s) ≡ to_lower (strip_fuel one two three f s)
  unfolding strip_fuel
  strip_fuel-to_lower zero s = refl
  strip_fuel-to_lower (suc f) s = elim (Option-cases (skip one two three s)) [
    | inl e ↦ rw (strip_fuel, skip-to_lower s, e) refl
    | inr (r, e) ↦ rw (strip_fuel, skip-to_lower s, e) (strip_fuel-to_lower f r)
  ]

  strip-to_lower : (s : Str) → strip one two three (to_lower s) ≡ to_lower (strip one two three s)
  unfolding strip
  strip-to_lower s = rw (length-to_lower s) (strip_fuel-to_lower (length s) s)

trim_space-to_lower : (s : Str) → trim_space (to_lower s) ≡ to_lower (trim_space s)
unfolding trim_space strip_left strip_right_rev
trim_space-to_lower s =
    let l = strip is_space1 is_space2 is_space3 s in
    rw
      (
        strip-to_lower is_space1 is_space2 is_space3 is_space1_lower is_space2_lower is_space3_lower
            s,
        reverse-to_lower l,
        strip-to_lower is_space1 (λ b a. is_space2 a b) (λ c b a. is_space3 a b c) is_space1_lower
            (λ b a. is_space2_lower a b) (λ c b a. is_space3_lower a b c) (reverse l),
      )
      (reverse-to_lower _)

-- A trimmed text in lower case has nothing to trim.
pub trim_space-lower_trim :
    (s : Str) → trim_space (to_lower (trim_space s)) ≡ to_lower (trim_space s)
trim_space-lower_trim s = trim_space-to_lower (trim_space s) ∙ ap to_lower (trim_space_idem s)

pub lower-trim_idem :
    (s : Str) → to_lower (trim_space (to_lower (trim_space s))) ≡ to_lower (trim_space s)
lower-trim_idem s =
    ap to_lower (trim_space-to_lower (trim_space s) ∙ ap to_lower (trim_space_idem s))
    ∙ to_lower_idem (trim_space s)

-- Small letters, `-` and `_` only.
unfoldable pub is_plain : Str → Bool
is_plain [] = true
is_plain (c ∷ s) = ((leb b'a' c && leb c b'z') || c == b'-' || c == b'_') && is_plain s

is_plain-reverse_aux :
    (s r : Str) → is_plain s ≡ true → is_plain r ≡ true → is_plain (List.reverse_aux s r) ≡ true
unfolding is_plain
is_plain-reverse_aux [] r hs hr = hr
is_plain-reverse_aux (c ∷ s) r hs hr = is_plain-reverse_aux s (c ∷ r) (ground arith) (ground arith)

is_plain-to_lower : (s : Str) → is_plain s ≡ true → to_lower s ≡ s
unfolding is_plain to_lower
is_plain-to_lower [] h = refl
is_plain-to_lower (c ∷ s) h = ground (arith, is_plain-to_lower s)

lead-plain : (s : Str) → is_plain s ≡ true → lead s ≡ none
unfolding lead is_plain skip skip2 skip3 is_space1 is_space2 is_space3
lead-plain [] h = refl
lead-plain (a ∷ []) h = ground arith
lead-plain (a ∷ b ∷ []) h = ground arith
lead-plain (a ∷ b ∷ c ∷ s) h = ground arith

trail_rev-plain : (s : Str) → is_plain s ≡ true → trail_rev s ≡ none
unfolding trail_rev is_plain skip skip2 skip3 is_space1 is_space2 is_space3
trail_rev-plain [] h = refl
trail_rev-plain (a ∷ []) h = ground arith
trail_rev-plain (a ∷ b ∷ []) h = ground arith
trail_rev-plain (a ∷ b ∷ c ∷ s) h = ground arith

trim_space-plain : (s : Str) → is_plain s ≡ true → trim_space s ≡ s
unfolding trim_space is_plain
trim_space-plain s h =
    rw
      (
        strip_left_id s (lead-plain s h),
        strip_right_rev_id (reverse s)
            (trail_rev-plain (reverse s) (is_plain-reverse_aux s [] h refl)),
      )
      (reverse-reverse s)

-- A plain word is trimmed and in lower case.
pub lower-trim_plain : (s : Str) → is_plain s ≡ true → to_lower (trim_space s) ≡ s
lower-trim_plain s h = rw (trim_space-plain s h) (is_plain-to_lower s h)
