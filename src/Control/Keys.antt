-- ===== src/Control/Keys.antt =====
-- go-watch-file/internal/api/server.go, handler.controlTasks: a Go map has one entry for a key, and each task
-- stands under its own id.
use go_watch_file.Base.{◌≡◌, refl, ◌∙◌, none, some, List, [], ◌∷◌, arith, Bool-cases, inl, inr}
use go_watch_file.Base.Str.{Str, str_eq, str_eq_iff, str_eq_refl}
use go_watch_file.Base.Assoc.{lookup, insert, lookup-insert}
use go_watch_file.Control.Types.{TaskState}

abbrev pub Distinct : List (Str × TaskState) → Type 0
Distinct [] = Unit
Distinct ((k, t) ∷ m) = (lookup k m ≡ none) × (t.id ≡ k) × Distinct m

-- What the map holds for each of the listed entries.
abbrev pub Holds : List (Str × TaskState) → List (Str × TaskState) → Type 0
Holds m [] = Unit
Holds m ((k, t) ∷ rest) = (lookup k m ≡ some t) × Holds m rest

pub insert-Distinct :
    (k : Str) (t : TaskState) (m : List (Str × TaskState))
    → t.id ≡ k
    → Distinct m
    → Distinct (insert k t m)
unfolding insert lookup
insert-Distinct k t [] e d = (refl, e, tt)
insert-Distinct k t ((j, u) ∷ m) e d = elim (Bool-cases (str_eq j k)) [
  | inl same ↦ let eq = (str_eq_iff j k).0 same in rw same (rw eq at d.0, e, d.2)
  | inr other ↦ rw other (
    lookup-insert k j t m ∙ ground (arith, d.0, str_eq_iff j k, str_eq_iff k j),
    d.1,
    insert-Distinct k t m e d.2,
  )
]

-- A write under a key that is not listed changes none of the listed entries.
pub Holds-insert :
    (k : Str) (u : TaskState) (m rest : List (Str × TaskState))
    → lookup k rest ≡ none
    → Holds m rest
    → Holds (insert k u m) rest
unfolding lookup
Holds-insert k u m [] free h = tt
Holds-insert k u m ((j, t) ∷ rest) free h = elim (Bool-cases (str_eq j k)) [
  | inl same ↦ ground arith
  | inr other ↦ (
    lookup-insert k j u m ∙ ground (arith, h.0, str_eq_iff j k, str_eq_iff k j),
    Holds-insert k u m rest (rw other at free) h.1,
  )
]

-- A longer map holds what a shorter one did, but under the new key.
Holds-cons :
    (j : Str) (u : TaskState) (m rest : List (Str × TaskState))
    → lookup j rest ≡ none
    → Holds m rest
    → Holds ((j, u) ∷ m) rest
unfolding lookup
Holds-cons j u m [] free h = tt
Holds-cons j u m ((k, t) ∷ rest) free h =
    (ground (arith, h.0, str_eq_iff j k, str_eq_iff k j), Holds-cons j u m rest (ground arith) h.1)

pub Distinct-Holds : (m : List (Str × TaskState)) → Distinct m → Holds m m
unfolding lookup
Distinct-Holds [] d = tt
Distinct-Holds ((j, u) ∷ m) d = (rw (str_eq_refl j), Holds-cons j u m m d.0 (Distinct-Holds m d.2))
