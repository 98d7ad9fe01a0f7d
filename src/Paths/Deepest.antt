-- ===== src/Paths/Deepest.antt =====
-- go-watch-file/internal/pathutil/watch_dirs.go: of the watched directories that hold a file, the deepest is taken.
use go_watch_file.Base.{
  ◌≤◌, ◌≡◌, refl, sym, ap, subst, ◌∙◌, true, false, Option, none, some, List, [], ◌∷◌,
  if◌then◌else◌, ltb, arith, length, inl, inr, ◌⊎◌, Bool-cases, Option-cases,
}
use go_watch_file.Base.Str.{Str, bytes, has_prefix, str_eq, str_eq_refl, str_eq_iff, is_empty}
use go_watch_file.Paths.Split.{PathHost, mem_str}
use go_watch_file.Paths.Objects.{
  Result, ok, failed, outside_base_dir, Best, resolve_path, candidate, better, pick_dir,
  best_or_outside, no_dirs, relative_path_any, leaves, to_slash_path,
}

-- At most as long as the best so far.
abbrev Within : Best → Option Best → Type 0
Within c none = ⊥
Within c (some b) = c.size ≤ b.size

better-keeps : (best o : Option Best) (c : Best) → Within c best → Within c (better best o)
better-keeps none o c h = absurd h
better-keeps (some b) none c h = h
better-keeps (some b) (some d) c h = ground arith

better-new : (best : Option Best) (c : Best) → Within c (better best (some c))
better-new none c = omega arith
better-new (some b) c = ground arith

pick_dir-keeps :
    (host : PathHost) (full : Str) (dirs : List Str) (best : Option Best) (c : Best)
    → Within c best
    → Within c (pick_dir host full dirs best)
unfolding pick_dir
pick_dir-keeps host full [] best c h = h
pick_dir-keeps host full (d ∷ dirs) best c h =
    pick_dir-keeps host full dirs _ c (better-keeps best (candidate host full d) c h)

pick_dir-most :
    (host : PathHost) (full : Str) (dirs : List Str) (best : Option Best) (dir : Str) (c : Best)
    → mem_str dir dirs ≡ true
    → candidate host full dir ≡ some c
    → Within c (pick_dir host full dirs best)
unfolding pick_dir mem_str
pick_dir-most host full [] best dir c m e = absurd cc
pick_dir-most host full (d ∷ dirs) best dir c m e = elim (Bool-cases (str_eq d dir)) [
  | inl same ↦
      pick_dir-keeps host full dirs _ c (rw ((str_eq_iff d dir).0 same, e) (better-new best c))
  | inr other ↦ pick_dir-most host full dirs _ dir c (ground arith) e
]

-- The candidate of one of the directories.
pub record Chosen (host : PathHost) (full : Str) (dirs : List Str) (b : Best) : Type 0 where
  pub listed : mem_str b.base dirs ≡ true
  pub holds : candidate host full b.base ≡ some b

some_best : (a b : Best) → ◌≡◌ {A = Option Best} (some a) (some b) → a ≡ b
some_best a b e = cc

candidate-base :
    (host : PathHost) (full dir : Str) (b : Best) → candidate host full dir ≡ some b → b.base ≡ dir
unfolding candidate
candidate-base host full dir b h = ground arith

resolve_path-empty : (host : PathHost) (full : Str) → candidate host full [] ≡ none
unfolding candidate resolve_path
resolve_path-empty host full = refl

Chosen-here :
    (host : PathHost) (full d : Str) (dirs : List Str) (b : Best)
    → candidate host full d ≡ some b
    → Chosen host full (d ∷ dirs) b
unfolding mem_str
Chosen-here host full d dirs b e =
    let same = candidate-base host full d b e in
    record {
      listed = ground (arith, str_eq_refl d, same);
      holds = ap (candidate host full) same ∙ e;
    }

Chosen-later :
    (host : PathHost) (full d : Str) (dirs : List Str) (b : Best)
    → Chosen host full dirs b
    → Chosen host full (d ∷ dirs) b
unfolding mem_str
Chosen-later host full d dirs b c = record { listed = ground (arith, c.listed); holds = c.holds }

-- What the loop returns is the best that it was given or one of its directories.
From : PathHost → Str → List Str → Option Best → Option Best → Type 0
From host full dirs best r = (r ≡ best) ⊎ ((b : Best) × ((r ≡ some b) × Chosen host full dirs b))

better-cases : (best o : Option Best) → (better best o ≡ best) ⊎ (better best o ≡ o)
better-cases best none = inl refl
better-cases none (some c) = inr refl
better-cases (some b) (some c) = elim (Bool-cases (ltb b.size c.size)) [
  | inl e ↦ inr (ground arith)
  | inr e ↦ inl (ground arith)
]

pick_dir-From :
    (host : PathHost) (full : Str) (dirs : List Str) (best : Option Best)
    → From host full dirs best (pick_dir host full dirs best)
unfolding pick_dir From
pick_dir-From host full [] best = inl refl
pick_dir-From host full (d ∷ dirs) best =
    elim (pick_dir-From host full dirs (better best (candidate host full d))) [
      | inr (b, (e, c)) ↦ inr (b, (e, Chosen-later host full d dirs b c))
      | inl e ↦ elim (better-cases best (candidate host full d)) [
        | inl kept ↦ inl (e ∙ kept)
        | inr new ↦ elim (Option-cases (candidate host full d)) [
          | inl absent ↦ inl (e ∙ ap (better best) absent)
          | inr (b, found) ↦ inr (b, (e ∙ new ∙ found, Chosen-here host full d dirs b found))
        ]
      ]
    ]

pick_dir-Chosen :
    (host : PathHost) (full : Str) (dirs : List Str) (b : Best)
    → pick_dir host full dirs none ≡ some b
    → Chosen host full dirs b
unfolding From
pick_dir-Chosen host full dirs b e = elim (pick_dir-From host full dirs none) [
  | inl no_dir ↦ absurd cc
  | inr (c, (f, chosen)) ↦ subst (Chosen host full dirs) (some_best c b (sym f ∙ e)) chosen
]

-- A directory counts as one that holds the file, by its resolved path `base`: filepath.Rel gives a path
-- from `base` to the file, and it is not "." and does not begin with two dots.
pub record Holds (host : PathHost) (full dir base : Str) : Type 0 where
  pub resolved : resolve_path host dir ≡ some base
  pub rel : Str
  pub relative : host.rel base full ≡ some rel
  pub apart : str_eq rel (bytes ".") ≡ false
  pub within : has_prefix rel (bytes "..") ≡ false

-- What RelativePathAny promises of a file: of the directories that hold it the one whose resolved path is
-- longest, with the path relative to it, or the error that none of them does.
abbrev pub Deepest : PathHost → Str → List Str → Result Best → Type 0
Deepest host full dirs (ok b) =
    (base : Str) × (hold : Holds host full b.base base) × (mem_str b.base dirs ≡ true)
    × (b.rel ≡ to_slash_path host hold.rel)
    × ((dir other : Str)
        → mem_str dir dirs ≡ true
        → Holds host full dir other
        → length other ≤ length base)
Deepest host full dirs (failed e) =
    (e ≡ outside_base_dir)
    × ((dir base : Str) → mem_str dir dirs ≡ true → ¬ Holds host full dir base)

-- The same, as the loop has it.
abbrev Picked : PathHost → Str → List Str → Result Best → Type 0
Picked host full dirs (ok b) =
    Chosen host full dirs b
    × ((dir : Str) (c : Best)
        → mem_str dir dirs ≡ true
        → candidate host full dir ≡ some c
        → c.size ≤ b.size)
Picked host full dirs (failed e) =
    (e ≡ outside_base_dir)
    × ((dir : Str) → mem_str dir dirs ≡ true → candidate host full dir ≡ none)

parts-leaves :
    (rel : Str)
    → str_eq rel (bytes ".") ≡ false
    → has_prefix rel (bytes "..") ≡ false
    → leaves rel ≡ false
unfolding leaves
parts-leaves rel a b = ground arith

Holds-candidate :
    (host : PathHost) (full dir base : Str) (h : Holds host full dir base)
    → candidate host full dir
      ≡ some (record { base = dir; rel = to_slash_path host h.rel; size = length base })
unfolding candidate to_slash_path
Holds-candidate host full dir base h =
    let stays = parts-leaves h.rel h.apart h.within in
    rw (h.resolved, h.relative, stays, candidate) refl

leaves-parts :
    (rel : Str)
    → leaves rel ≡ false
    → (str_eq rel (bytes ".") ≡ false) × (has_prefix rel (bytes "..") ≡ false)
unfolding leaves
leaves-parts rel h = (ground arith, ground arith)

candidate-Holds :
    (host : PathHost) (full dir : Str) (b : Best)
    → candidate host full dir ≡ some b
    → (base : Str) × (hold : Holds host full dir base) × (b.rel ≡ to_slash_path host hold.rel)
      × (b.size ≡ length base)
unfolding candidate to_slash_path
candidate-Holds host full dir b e = elim (Option-cases (resolve_path host dir)) [
  | inl absent ↦
      absurd (let f : ◌≡◌ {A = Option Best} none (some b) = rw (absent, candidate) at e in cc)
  | inr (base, res) ↦ elim (Option-cases (host.rel base full)) [
    | inl absent ↦
        absurd
          (let f : ◌≡◌ {A = Option Best} none (some b) = rw (res, absent, candidate) at e in cc)
    | inr (rel, r) ↦ elim (Bool-cases (leaves rel)) [
      | inl out ↦
          absurd
            (let f : ◌≡◌ {A = Option Best} none (some b) = rw (res, r, out, candidate) at e in cc)
      | inr stays ↦
          let f : ◌≡◌ {A = Option Best}
              (some (record { base = dir; rel = to_slash_path host rel; size = length base }))
              (some b) =
            rw (res, r, stays, candidate) at e in
          let g = some_best _ b f in
          let (apart, within) = leaves-parts rel stays in
          (
            base,
            record { resolved = res; rel = rel; relative = r; apart = apart; within = within },
            ap (λ (c : Best). c.rel) (sym g),
            ap (λ (c : Best). c.size) (sym g),
          )
    ]
  ]
]

Picked-Deepest :
    (host : PathHost) (full : Str) (dirs : List Str) (r : Result Best)
    → Picked host full dirs r
    → Deepest host full dirs r
Picked-Deepest host full dirs (failed e) (same, none_of) = (
  same,
  λ dir base m h. absurd (let c = sym (Holds-candidate host full dir base h) ∙ none_of dir m in cc),
)
Picked-Deepest host full dirs (ok b) (chosen, most) =
    let (base, hold, rel, size) = candidate-Holds host full b.base b chosen.holds in
    (
      base,
      hold,
      chosen.listed,
      rel,
      λ dir other m h. omega (arith, most dir _ m (Holds-candidate host full dir other h), size),
    )

Within-none :
    (r : Option Best) (o : Option Best)
    → r ≡ none
    → ((c : Best) → o ≡ some c → Within c r)
    → o ≡ none
Within-none r none e h = refl
Within-none r (some c) e h = absurd (subst (Within c) e (h c refl))

named_base :
    (host : PathHost) (full : Str) (b : Best)
    → candidate host full b.base ≡ some b
    → is_empty b.base ≡ false
named_base host full b h = by_base b.base h
  where
    by_base : (s : Str) → candidate host full s ≡ some b → is_empty s ≡ false
    by_base [] e = absurd (let f = sym e ∙ resolve_path-empty host full in cc)
    by_base (c ∷ s) e = refl

Picked-some :
    (host : PathHost) (full : Str) (dirs : List Str) (r : Option Best)
    → r ≡ pick_dir host full dirs none
    → Picked host full dirs (best_or_outside r)
Picked-some host full dirs none e = (
  refl,
  λ dir m.
      Within-none none (candidate host full dir) refl
        (λ c f. subst (Within c) (sym e) (pick_dir-most host full dirs none dir c m f)),
)
Picked-some host full dirs (some b) e =
    let chosen = pick_dir-Chosen host full dirs b (sym e) in
    rw (named_base host full b chosen.holds)
      (chosen, λ dir c m f. subst (Within c) (sym e) (pick_dir-most host full dirs none dir c m f))

Picked-none :
    (host : PathHost) (full : Str) (dirs : List Str) (r : Result Best)
    → Picked host full dirs r
    → Picked host full dirs (if no_dirs dirs then failed outside_base_dir else r)
unfolding mem_str
Picked-none host full [] r d = (refl, λ dir m. absurd cc)
Picked-none host full (x ∷ dirs) r d = d

-- Of a file whose path resolves, RelativePathAny answers a listed directory that holds it and the path
-- of the file relative to that, such that no listed directory that holds it has a longer resolved path,
-- or it answers the error that the file is outside, and then no listed directory holds it. A directory
-- holds the file if filepath.Rel gives a path from the resolved directory to the file that is not "." and
-- does not begin with two dots: a file whose own name begins with two dots does not count as held by the
-- directory in which it stands.
pub relative_path_any-Deepest :
    (host : PathHost) (dirs : List Str) (path full : Str)
    → resolve_path host path ≡ some full
    → Deepest host full dirs (relative_path_any host dirs path)
unfolding relative_path_any
relative_path_any-Deepest host dirs path full e =
    Picked-Deepest host full dirs _
      (rw e (Picked-none host full dirs _ (Picked-some host full dirs _ refl)))
