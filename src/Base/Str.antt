-- ===== src/Base/Str.antt =====
-- Go strings as lists of bytes, and the functions of the `strings` package that the source calls.
-- `to_lower` changes the ASCII letters only; the other bytes of a UTF-8 text stay.
use Prim.Native.Nat.{ℕ, zero, suc, ◌+◌, ◌-◌, ◌*◌, ◌/◌, ◌%◌, ◌≤◌}
use Prim.Native.Char.{code}
use Prim.Native.String.{String}
use mathlib.Core.Path.{◌≡◌, refl, sym, ap, ◌∙◌}
use mathlib.Core.Logic.{◌↔◌, inl, inr}
use mathlib.Core.Bool.{Bool, true, false, ◌&&◌, ◌||◌}
use mathlib.Core.List.{List, [], ◌∷◌, ◌++◌, map}
use native.Mathlib.Omega.{arith}
use go_watch_file.Base.Tests.{ltb, leb, ◌==◌, if◌then◌else◌, Bool-cases}
use go_watch_file.Base.Lists.{length}

abbrev pub Str : Type 0
Str = List ℕ

-- The bytes of an ASCII literal.
abbrev pub bytes : String → Str
bytes String.[] = []
bytes (String.◌∷◌ c s) = code c ∷ bytes s

unfoldable pub str_eq : Str → Str → Bool
str_eq [] [] = true
str_eq [] (y ∷ ys) = false
str_eq (x ∷ xs) [] = false
str_eq (x ∷ xs) (y ∷ ys) = x == y && str_eq xs ys

pub str_eq_refl : (s : Str) → str_eq s s ≡ true
unfolding str_eq
str_eq_refl [] = refl
str_eq_refl (x ∷ xs) = ground (arith, str_eq_refl xs)

pub str_eq→eq : (s t : Str) → str_eq s t ≡ true → s ≡ t
unfolding str_eq
str_eq→eq [] [] h = refl
str_eq→eq [] (y ∷ ys) h = cc
str_eq→eq (x ∷ xs) [] h = cc
str_eq→eq (x ∷ xs) (y ∷ ys) h = ground (arith, str_eq→eq xs ys)

pub str_eq_iff : (s t : Str) → (str_eq s t ≡ true) ↔ (s ≡ t)
str_eq_iff s t = (str_eq→eq s t, λ e. subst_eq s t e)
  where
    subst_eq : (u v : Str) → u ≡ v → str_eq u v ≡ true
    subst_eq u v e = rw e (str_eq_refl v)

-- `s == ""`.
abbrev pub is_empty : Str → Bool
is_empty [] = true
is_empty (x ∷ xs) = false

abbrev pub lower_byte : ℕ → ℕ
lower_byte c = if leb b'A' c && leb c b'Z' then c + 32 else c

-- `strings.ToLower`.
unfoldable pub to_lower : Str → Str
to_lower = map lower_byte

-- `strings.HasPrefix`.
unfoldable pub has_prefix : Str → Str → Bool
has_prefix s [] = true
has_prefix [] (p ∷ ps) = false
has_prefix (c ∷ s) (p ∷ ps) = c == p && has_prefix s ps

-- `strings.Contains`.
unfoldable pub contains : Str → Str → Bool
contains [] p = has_prefix [] p
contains (c ∷ s) p = has_prefix (c ∷ s) p || contains s p

digit : ℕ → ℕ
digit d = b'0' + d

-- `strconv.Itoa` of a number that is not negative; the fuel is more than the digits.
unfoldable pub digits_from : ℕ → ℕ → Str → Str
unfolding digit
digits_from zero n out = out
digits_from (suc f) n out =
    let here = digit (n % 10) ∷ out in
    let rest = digits_from f (n / 10) here in if ltb n 10 then here else rest

unfoldable pub itoa : ℕ → Str
unfolding digits_from
itoa n = digits_from (suc n) n []

-- How often a string stands in a list.
unfoldable pub count : Str → List Str → ℕ
count p [] = 0
count p (x ∷ xs) = (if str_eq x p then 1 else 0) + count p xs

pub count-append : (p : Str) (xs ys : List Str) → count p (xs ++ ys) ≡ count p xs + count p ys
unfolding count
count-append p [] ys = omega arith
count-append p (x ∷ xs) ys = omega (arith, count-append p xs ys)

-- The UTF-8 bytes of a code point.
utf8 : ℕ → Str
utf8 c =
    if ltb c 0x80
    then c ∷ []
    else if ltb c 0x800
    then (0xc0 + c / 64) ∷ (0x80 + c % 64) ∷ []
    else if ltb c 0x10000
    then (0xe0 + c / 4096) ∷ (0x80 + c / 64 % 64) ∷ (0x80 + c % 64) ∷ []
    else (0xf0 + c / 262144) ∷ (0x80 + c / 4096 % 64) ∷ (0x80 + c / 64 % 64) ∷ (0x80 + c % 64) ∷ []

-- The bytes of a literal.
unfoldable pub text : String → Str
unfolding utf8
text String.[] = []
text (String.◌∷◌ c s) = utf8 (code c) ++ text s

abbrev zeros : ℕ → Str
zeros zero = []
zeros (suc n) = b'0' ∷ zeros n

-- `fmt.Sprintf("%06d", n)`.
unfoldable pub pad6 : ℕ → Str
unfolding itoa
pad6 n = zeros (6 - length (itoa n)) ++ itoa n

-- The number that decimal digits write, after the number `n`.
unfoldable value_from : ℕ → Str → ℕ
value_from n [] = n
value_from n (c ∷ s) = value_from (10 * n + (c - b'0')) s

value_from-digits_from :
    (f n : ℕ) (out : Str) → suc n ≤ f → value_from 0 (digits_from f n out) ≡ value_from n out
unfolding value_from digits_from digit
value_from-digits_from zero n out h = absurd (omega arith)
value_from-digits_from (suc f) n out h = elim (Bool-cases (ltb n 10)) [
  | inl one ↦ rw one (ap (λ k. value_from k out) (ground arith))
  | inr more ↦ rw more (
      value_from-digits_from f (n / 10) ((b'0' + n % 10) ∷ out) (ground arith)
      ∙ ap (λ k. value_from k out) (omega arith))
]

value_from-zeros : (k : ℕ) (s : Str) → value_from 0 (zeros k ++ s) ≡ value_from 0 s
unfolding value_from
value_from-zeros zero s = refl
value_from-zeros (suc k) s = value_from-zeros k s

value_from-pad6 : (n : ℕ) → value_from 0 (pad6 n) ≡ n
unfolding pad6 itoa value_from
value_from-pad6 n =
    value_from-zeros (6 - length (itoa n)) (itoa n)
    ∙ value_from-digits_from (suc n) n [] (omega arith)

-- Numbers that are written alike are the same.
pub pad6-injective : (n m : ℕ) → pad6 n ≡ pad6 m → n ≡ m
pad6-injective n m e = sym (value_from-pad6 n) ∙ ap (value_from 0) e ∙ value_from-pad6 m
