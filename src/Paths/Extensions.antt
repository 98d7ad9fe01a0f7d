-- ===== src/Paths/Extensions.antt =====
-- go-watch-file/internal/match/matcher.go: the suffixes that ParseExtList returns, and that the text in which they
-- are shown is read back as the same suffixes.
use mathlib.Core.List.{append-nil, append_assoc}
use go_watch_file.Base.{
  ℕ, ◌≡◌, refl, sym, ap, subst, ◌∙◌, Bool, true, false, not, List, [], ◌∷◌, ◌++◌, ◌&&◌, arith,
  Bool-cases, inl, inr, All, All-append, if_elim,
}
use go_watch_file.Base.Str.{Str, bytes, str_eq, is_empty, has_prefix, to_lower}
use go_watch_file.Base.Trim.{trim_space, trim_space-infix}
use go_watch_file.Base.Trim.Lower.{to_lower_idem, trim_space-lower_trim}
use go_watch_file.Paths.Split.{mem_str, flush, fields, join_by}
use go_watch_file.Paths.Matcher.{
  ExtList, exts, invalid_ext, is_list_separator, split_list, is_ext, parse_exts, parse_ext_list,
  format_ext_list,
}

-- No separator in the text.
unfoldable has_none : (ℕ → Bool) → Str → Bool
has_none sep [] = true
has_none sep (c ∷ s) = not (sep c) && has_none sep s

has_none-left : (sep : ℕ → Bool) (s t : Str) → has_none sep (s ++ t) ≡ true → has_none sep s ≡ true
unfolding has_none
has_none-left sep [] t h = refl
has_none-left sep (c ∷ s) t h = ground (arith, has_none-left sep s t)

has_none-right : (sep : ℕ → Bool) (s t : Str) → has_none sep (s ++ t) ≡ true → has_none sep t ≡ true
unfolding has_none
has_none-right sep [] t h = h
has_none-right sep (c ∷ s) t h = has_none-right sep s t (ground arith)

has_none-append :
    (sep : ℕ → Bool) (s t : Str)
    → has_none sep s ≡ true
    → has_none sep t ≡ true
    → has_none sep (s ++ t) ≡ true
unfolding has_none
has_none-append sep [] t h k = k
has_none-append sep (c ∷ s) t h k = ground (arith, has_none-append sep s t)

trim_space-has_none :
    (sep : ℕ → Bool) (s : Str) → has_none sep s ≡ true → has_none sep (trim_space s) ≡ true
trim_space-has_none sep s h =
    let (p, q, e) = trim_space-infix s in
    has_none-left sep (trim_space s) q (has_none-right sep p _ (rw e at h))

to_lower-has_none :
    (s : Str) → has_none is_list_separator s ≡ true → has_none is_list_separator (to_lower s) ≡ true
unfolding has_none to_lower is_list_separator
to_lower-has_none [] h = refl
to_lower-has_none (c ∷ s) h = ground (arith, to_lower-has_none s)

flush-has_none :
    (sep : ℕ → Bool) (part : Str) (rest : List Str)
    → has_none sep part ≡ true
    → All (λ f. has_none sep f ≡ true) rest
    → All (λ f. has_none sep f ≡ true) (flush part rest)
flush-has_none sep [] rest h r = r
flush-has_none sep (p ∷ part) rest h r = (h, r)

-- The fields have no separator.
fields-has_none :
    (sep : ℕ → Bool) (part s : Str)
    → has_none sep part ≡ true
    → All (λ f. has_none sep f ≡ true) (fields sep part s)
unfolding fields has_none
fields-has_none sep part [] h = flush-has_none sep part [] h tt
fields-has_none sep part (c ∷ s) h =
    if_elim (All (λ f. has_none sep f ≡ true)) (sep c)
      (λ e. flush-has_none sep part _ h (fields-has_none sep [] s refl))
      (λ e.
        fields-has_none sep (part ++ c ∷ []) s
          (has_none-append sep part (c ∷ []) h (unfold has_none in ground arith)))

-- A suffix as ParseExtList returns it.
record IsExt (e : Str) : Type 0 where
  trimmed : trim_space e ≡ e
  lowered : to_lower e ≡ e
  dotted : is_ext e ≡ true
  whole : has_none is_list_separator e ≡ true

is_ext-to_lower : (s : Str) → is_ext s ≡ true → is_ext (to_lower s) ≡ true
unfolding is_ext to_lower has_prefix str_eq
is_ext-to_lower [] h = h
is_ext-to_lower (c ∷ []) h = ground arith
is_ext-to_lower (c ∷ d ∷ s) h = ground arith

normalized-IsExt :
    (part : Str)
    → has_none is_list_separator part ≡ true
    → is_ext (trim_space part) ≡ true
    → IsExt (to_lower (trim_space part))
normalized-IsExt part h e = record {
  trimmed = trim_space-lower_trim part;
  lowered = to_lower_idem (trim_space part);
  dotted = is_ext-to_lower (trim_space part) e;
  whole = to_lower-has_none (trim_space part) (trim_space-has_none is_list_separator part h);
}

-- None of the texts stands in `out` or before itself.
abbrev Fresh : List Str → List Str → Type 0
Fresh out [] = Unit
Fresh out (x ∷ xs) = (mem_str x out ≡ false) × Fresh (out ++ x ∷ []) xs

Fresh-append :
    (out xs : List Str) (x : Str)
    → Fresh out xs
    → mem_str x (out ++ xs) ≡ false
    → Fresh out (xs ++ x ∷ [])
Fresh-append out [] x f m = (subst (λ l. mem_str x l ≡ false) (append-nil out) m, tt)
Fresh-append out (y ∷ xs) x f m = (
  f.0,
  Fresh-append (out ++ y ∷ []) xs x f.1
      (subst (λ l. mem_str x l ≡ false) (sym (append_assoc out (y ∷ []) xs)) m),
)

-- What ParseExtList returns of a good list.
abbrev GoodExts : List Str → Type 0
GoodExts xs = All IsExt xs × Fresh [] xs

abbrev Parsed : ExtList → Type 0
Parsed (exts xs) = GoodExts xs
Parsed (invalid_ext v) = Unit

parse_exts-Parsed :
    (out parts : List Str)
    → GoodExts out
    → All (λ f. has_none is_list_separator f ≡ true) parts
    → Parsed (parse_exts out parts)
unfolding parse_exts
parse_exts-Parsed out [] g h = g
parse_exts-Parsed out (part ∷ parts) g h =
    let same = parse_exts-Parsed out parts g h.1 in
    if_elim Parsed (is_empty (trim_space part)) (λ _. same)
      (λ _.
        if_elim Parsed (not (is_ext (trim_space part))) (λ _. tt)
          (λ is_good.
            if_elim Parsed (mem_str (to_lower (trim_space part)) out) (λ _. same)
              (λ fresh.
                parse_exts-Parsed (out ++ to_lower (trim_space part) ∷ []) parts
                  (
                    All-append IsExt out _ g.0 (normalized-IsExt part h.0 (not_not _ is_good), tt),
                    Fresh-append [] out _ g.1 fresh,
                  )
                  h.1)))
  where
    not_not : (b : Bool) → not b ≡ false → b ≡ true
    not_not true e = refl
    not_not false e = cc

parse_ext_list-Parsed : (raw : Str) → Parsed (parse_ext_list raw)
unfolding parse_ext_list split_list
parse_ext_list-Parsed raw =
    parse_exts-Parsed [] _ (tt, tt)
      (fields-has_none is_list_separator [] raw (unfold has_none in refl))

is_ext-not_empty : (s : Str) → is_ext s ≡ true → is_empty s ≡ false
unfolding is_ext has_prefix
is_ext-not_empty [] h = cc
is_ext-not_empty (c ∷ s) h = refl

-- Good suffixes are read as they are.
parse_exts-same :
    (out xs : List Str) → All IsExt xs → Fresh out xs → parse_exts out xs ≡ exts (out ++ xs)
unfolding parse_exts
parse_exts-same out [] g f = ap exts (sym (append-nil out))
parse_exts-same out (x ∷ xs) g f =
    rw (g.0.trimmed, g.0.lowered, is_ext-not_empty x g.0.dotted, g.0.dotted, f.0)
      (parse_exts-same (out ++ x ∷ []) xs g.1 f.1 ∙ ap exts (append_assoc out (x ∷ []) xs))

fields_run :
    (sep : ℕ → Bool) (part e rest : Str)
    → has_none sep e ≡ true
    → fields sep part (e ++ rest) ≡ fields sep (part ++ e) rest
unfolding fields has_none
fields_run sep part [] rest h = ap (λ p. fields sep p rest) (sym (append-nil part))
fields_run sep part (c ∷ e) rest h =
    ground (arith, fields_run sep (part ++ c ∷ []) e rest, append_assoc part (c ∷ []) e)

flush_ext : (e : Str) (rest : List Str) → is_ext e ≡ true → flush e rest ≡ e ∷ rest
unfolding is_ext has_prefix
flush_ext [] rest h = absurd cc
flush_ext (c ∷ e) rest h = refl

fields_end : (sep : ℕ → Bool) (part : Str) → fields sep part [] ≡ flush part []
unfolding fields
fields_end sep part = refl

fields_comma :
    (part rest : Str)
    → fields is_list_separator part (bytes ", " ++ rest)
      ≡ flush part (fields is_list_separator [] rest)
unfolding fields is_list_separator
fields_comma part rest = refl

fields-join :
    (x : Str) (xs : List Str)
    → All IsExt (x ∷ xs)
    → fields is_list_separator [] (join_by (bytes ", ") (x ∷ xs)) ≡ x ∷ xs
unfolding join_by
fields-join x [] g =
    ap (fields is_list_separator []) (sym (append-nil x))
    ∙ fields_run is_list_separator [] x [] g.0.whole
    ∙ fields_end is_list_separator x
    ∙ flush_ext x [] g.0.dotted
fields-join x (y ∷ ys) g =
    fields_run is_list_separator [] x _ g.0.whole
    ∙ fields_comma x _
    ∙ flush_ext x _ g.0.dotted
    ∙ ap (λ l. x ∷ l) (fields-join y ys g.1)

read_back :
    (x : Str) (xs : List Str)
    → GoodExts (x ∷ xs)
    → parse_ext_list (join_by (bytes ", ") (x ∷ xs)) ≡ exts (x ∷ xs)
unfolding parse_ext_list split_list
read_back x xs g = rw (fields-join x xs g.0) (parse_exts-same [] (x ∷ xs) g.0 g.1)

blank_exts : (s x : Str) (xs : List Str) → is_empty s ≡ true → parse_ext_list s ≡ exts (x ∷ xs) → ⊥
unfolding parse_ext_list split_list fields parse_exts
blank_exts [] x xs blank e = cc
blank_exts (c ∷ s) x xs blank e = cc

shown_as :
    (raw x : Str) (xs : List Str)
    → parse_ext_list (trim_space raw) ≡ exts (x ∷ xs)
    → format_ext_list raw ≡ join_by (bytes ", ") (x ∷ xs)
unfolding format_ext_list
shown_as raw x xs e = elim (Bool-cases (is_empty (trim_space raw))) [
  | inl blank ↦ absurd (blank_exts (trim_space raw) x xs blank e)
  | inr more ↦ rw (more, e) refl
]

-- A setting of valid suffixes is shown as a text that is read back as the same suffixes.
pub format_ext_list-parse :
    (raw x : Str) (xs : List Str)
    → parse_ext_list (trim_space raw) ≡ exts (x ∷ xs)
    → parse_ext_list (format_ext_list raw) ≡ exts (x ∷ xs)
format_ext_list-parse raw x xs e =
    let good : GoodExts (x ∷ xs) = subst Parsed e (parse_ext_list-Parsed (trim_space raw)) in
    rw (shown_as raw x xs e) (read_back x xs good)
