-- ===== src/Paths/Subtree.antt =====
-- go-watch-file/internal/pathutil/exclude.go: what lies below an excluded directory is excluded.
use mathlib.Core.List.{reverse-append, reverse-reverse, append_assoc}
use go_watch_file.Base.{
  ℕ, ◌≡◌, refl, sym, ap, ◌∙◌, true, false, Option, none, some, List, [], ◌∷◌, ◌++◌, ◌==◌, arith,
  reverse, Bool-cases, inl, inr,
}
use go_watch_file.Base.Str.{Str, bytes, str_eq, str_eq_iff, is_empty, has_prefix, contains}
use go_watch_file.Paths.Split.{PathHost, has_suffix, trim_all, split_at}
use go_watch_file.Paths.Exclude.{
  ExcludeMatcher, match_segment_pattern, any_prefix, any_segment, any_name, is_norm_excluded,
  norm_path, is_excluded, is_dot,
}

has_prefix_self : (p t : Str) → has_prefix (p ++ t) p ≡ true
unfolding has_prefix
has_prefix_self [] t = refl
has_prefix_self (c ∷ p) t = ground (arith, has_prefix_self p t)

has_prefix-append : (s t p : Str) → has_prefix s p ≡ true → has_prefix (s ++ t) p ≡ true
unfolding has_prefix
has_prefix-append s t [] h = refl
has_prefix-append [] t (c ∷ p) h = absurd cc
has_prefix-append (d ∷ s) t (c ∷ p) h = ground (arith, has_prefix-append s t p)

contains-append : (s t p : Str) → contains s p ≡ true → contains (s ++ t) p ≡ true
unfolding contains
contains-append [] [] p h = h
contains-append [] (d ∷ t) p h = ground (arith, has_prefix-append [] (d ∷ t) p)
contains-append (c ∷ s) t p h = ground (arith, has_prefix-append (c ∷ s) t p, contains-append s t p)

contains_middle : (u p t : Str) → contains (u ++ (p ++ t)) p ≡ true
unfolding contains has_prefix
contains_middle [] [] [] = refl
contains_middle [] [] (d ∷ t) = refl
contains_middle [] (c ∷ p) t = ground (arith, has_prefix_self p t)
contains_middle (d ∷ u) p t = ground (arith, contains_middle u p t)

rest_of : (s p : Str) → has_prefix s p ≡ true → (t : Str) × (s ≡ p ++ t)
unfolding has_prefix
rest_of s [] h = (s, refl)
rest_of [] (c ∷ p) h = absurd cc
rest_of (d ∷ s) (c ∷ p) h = let (t, e) = rest_of s p (ground arith) in (t, ground arith)

suffix_of : (s p : Str) → has_suffix s p ≡ true → (u : Str) × (s ≡ u ++ p)
unfolding has_suffix
suffix_of s p h =
    let (t, e) = rest_of (reverse s) (reverse p) h in
    (
      reverse t,
      sym (reverse-reverse s)
          ∙ ap reverse e
          ∙ reverse-append (reverse p) t
          ∙ ap (λ x. reverse t ++ x) (reverse-reverse p),
    )

below :
    (s child p : Str)
    → has_suffix s (bytes "/" ++ p) ≡ true
    → contains (s ++ b'/' ∷ child) (bytes "/" ++ p ++ bytes "/") ≡ true
below s child p h =
    let (u, e) = suffix_of s (bytes "/" ++ p) h in
    let split : s ++ b'/' ∷ child ≡ u ++ ((bytes "/" ++ p ++ bytes "/") ++ child) =
      ap (λ x. x ++ b'/' ∷ child) e
      ∙ append_assoc u (bytes "/" ++ p) (b'/' ∷ child)
      ∙ ap (λ x. u ++ (b'/' ∷ x)) (sym (append_assoc p (bytes "/") child)) in
    rw split (contains_middle u (bytes "/" ++ p ++ bytes "/") child)

under :
    (s child p : Str) → str_eq s p ≡ true → has_prefix (s ++ b'/' ∷ child) (p ++ bytes "/") ≡ true
under s child p h =
    let e : s ++ b'/' ∷ child ≡ (p ++ bytes "/") ++ child =
      ap (λ x. x ++ b'/' ∷ child) ((str_eq_iff s p).0 h) ∙ sym (append_assoc p (bytes "/") child) in
    rw e (has_prefix_self (p ++ bytes "/") child)

match_segment_pattern-child :
    (s child p : Str)
    → match_segment_pattern s p ≡ true
    → match_segment_pattern (s ++ b'/' ∷ child) p ≡ true
unfolding match_segment_pattern
match_segment_pattern-child s child p h = ground (
  arith,
  under s child (trim_all b'/' p),
  has_prefix-append s (b'/' ∷ child) (trim_all b'/' p ++ bytes "/"),
  contains-append s (b'/' ∷ child) (bytes "/" ++ trim_all b'/' p ++ bytes "/"),
  below s child (trim_all b'/' p),
)

any_prefix-child :
    (s child : Str) (ps : List Str)
    → any_prefix s ps ≡ true
    → any_prefix (s ++ b'/' ∷ child) ps ≡ true
unfolding any_prefix
any_prefix-child s child [] h = absurd cc
any_prefix-child s child (p ∷ ps) h = ground (
  arith,
  under s child p,
  has_prefix-append s (b'/' ∷ child) (p ++ bytes "/"),
  any_prefix-child s child ps,
)

any_segment-child :
    (s child : Str) (ps : List Str)
    → any_segment s ps ≡ true
    → any_segment (s ++ b'/' ∷ child) ps ≡ true
unfolding any_segment
any_segment-child s child [] h = absurd cc
any_segment-child s child (p ∷ ps) h =
    ground (arith, match_segment_pattern-child s child p, any_segment-child s child ps)

split_at-cons : (s : Str) → (l : Str) × (ls : List Str) × (split_at b'/' s ≡ l ∷ ls)
unfolding split_at
split_at-cons [] = ([], [], refl)
split_at-cons (c ∷ s) =
    let (l, ls, e) = split_at-cons s in
    elim (Bool-cases (c == b'/')) [
      | inl slash ↦ ([], split_at b'/' s, rw slash refl)
      | inr other ↦ (c ∷ l, ls, rw (other, e) refl)
    ]

split_at-child :
    (s child : Str) → split_at b'/' (s ++ b'/' ∷ child) ≡ split_at b'/' s ++ split_at b'/' child
unfolding split_at
split_at-child [] child = refl
split_at-child (c ∷ s) child =
    let (l, ls, e) = split_at-cons s in ground (arith, split_at-child s child, e)

any_name-append :
    (names xs ys : List Str) → any_name names xs ≡ true → any_name names (xs ++ ys) ≡ true
unfolding any_name
any_name-append names [] ys h = absurd cc
any_name-append names (x ∷ xs) ys h = ground (arith, any_name-append names xs ys)

-- A name among the parts of a path is one among those of a path below it.
any_name-child :
    (names : List Str) (s child : Str)
    → any_name names (split_at b'/' s) ≡ true
    → any_name names (split_at b'/' (s ++ b'/' ∷ child)) ≡ true
any_name-child names s child h =
    rw (split_at-child s child) (any_name-append names (split_at b'/' s) (split_at b'/' child) h)

not_dot : (c : ℕ) (s child : Str) → is_dot (c ∷ (s ++ b'/' ∷ child)) ≡ false
unfolding str_eq
not_dot c [] child = ground arith
not_dot c (d ∷ s) child = ground arith

is_norm_excluded-child :
    (m : ExcludeMatcher) (s child : Str)
    → is_norm_excluded m s ≡ true
    → is_norm_excluded m (s ++ b'/' ∷ child) ≡ true
unfolding is_norm_excluded
is_norm_excluded-child m [] child h = absurd cc
is_norm_excluded-child m (c ∷ s) child h = ground (
  arith,
  not_dot c s child,
  any_prefix-child (c ∷ s) child m.abs_prefixes,
  any_segment-child (c ∷ s) child m.segment_patterns,
  any_name-child m.names (c ∷ s) child,
)

-- A path that is not empty and below an excluded one is excluded, where filepath.Clean and ToSlash put it below.
pub is_excluded-below :
    (host : PathHost) (m : Option ExcludeMatcher) (path inner child : Str)
    → norm_path host inner ≡ norm_path host path ++ b'/' ∷ child
    → is_empty inner ≡ false
    → is_excluded host m path ≡ true
    → is_excluded host m inner ≡ true
unfolding is_excluded
is_excluded-below host none path inner child e n h = absurd cc
is_excluded-below host (some m) path inner child e n h =
    rw (e, n) (is_norm_excluded-child m (norm_path host path) child (ground arith))
