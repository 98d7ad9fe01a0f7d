-- ===== src/Base/Newest.antt =====
-- The last elements of a list, at most n of them: `if len(xs) > n { xs = xs[len(xs)-n:] }`.
use Prim.Native.Nat.{ℕ, zero, suc, ◌+◌, ◌-◌, ◌≤◌}
use mathlib.Core.Path.{◌≡◌, refl, sym, ap, ◌∙◌}
use mathlib.Core.List.{List, [], ◌∷◌, ◌++◌}
use mathlib.Core.Bool.{Bool, true, false}
use native.Mathlib.Omega.{arith}
use go_watch_file.Base.Tests.{ltb, if◌then◌else◌}
use go_watch_file.Base.Lists.{length, drop, length-append, length-drop}

unfoldable pub newest {ℓ} : {A : Type ℓ} → ℕ → List A → List A
newest n xs = if ltb n (length xs) then drop (length xs - n) xs else xs

module _ {ℓ} {A : Type ℓ} where
  drop-nil : (k : ℕ) → ◌≡◌ {A = List A} (drop k []) []
  drop-nil zero = refl
  drop-nil (suc k) = refl

  pub drop-drop : (m n : ℕ) (xs : List A) → drop m (drop n xs) ≡ drop (n + m) xs
  drop-drop m zero xs = ap (λ k. drop k xs) (omega arith)
  drop-drop m (suc n) [] = drop-nil m ∙ sym (drop-nil (suc n + m))
  drop-drop m (suc n) (x ∷ xs) = drop-drop m n xs ∙ ap (λ k. drop k (x ∷ xs)) (add_suc n)
    where
      add_suc : (k : ℕ) → suc (k + m) ≡ suc k + m
      add_suc k = omega arith

  -- A cut within the first list leaves the second.
  pub drop-append : (n : ℕ) (xs ys : List A) → n ≤ length xs → drop n (xs ++ ys) ≡ drop n xs ++ ys
  drop-append zero xs ys le = refl
  drop-append (suc n) [] ys le = absurd (omega (arith, le))
  drop-append (suc n) (x ∷ xs) ys le = drop-append n xs ys (omega (arith, le))

  -- The test makes no difference.
  newest-drop : (n : ℕ) (xs : List A) → newest n xs ≡ drop (length xs - n) xs
  unfolding newest
  newest-drop n xs = by_test (ltb n (length xs)) refl
    where
      by_test :
          (b : Bool)
          → ltb n (length xs) ≡ b
          → (if b then drop (length xs - n) xs else xs) ≡ drop (length xs - n) xs
      by_test true e = refl
      by_test false e =
          let none_cut : 0 ≡ length xs - n = ground (arith, e) in ap (λ k. drop k xs) none_cut

  pub length-newest : (n : ℕ) (xs : List A) → length (newest n xs) ≤ n
  length-newest n xs = rw (newest-drop n xs) (omega (arith, length-drop (length xs - n) xs))

  -- Keeping the newest of what is kept and of what comes is keeping the newest of all.
  pub newest-newest : (n : ℕ) (xs ys : List A) → newest n (newest n xs ++ ys) ≡ newest n (xs ++ ys)
  newest-newest n xs ys =
      let k = length xs - n in
      let cut : drop k xs ++ ys ≡ drop k (xs ++ ys) = sym (drop-append k xs ys (omega arith)) in
      ap (λ l. newest n (l ++ ys)) (newest-drop n xs)
      ∙ ap (newest n) cut
      ∙ newest-drop n (drop k (xs ++ ys))
      ∙ drop-drop _ k (xs ++ ys)
      ∙ ap (λ m. drop m (xs ++ ys)) (omega (arith, length-drop k (xs ++ ys), length-append xs ys))
      ∙ sym (newest-drop n (xs ++ ys))
