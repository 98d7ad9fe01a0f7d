-- ===== src/Base/Runes.antt =====
-- Go's `[]rune(s)` for a well-formed UTF-8 text: each rune is the list of its bytes.
use Prim.Native.Nat.{ℕ}
use mathlib.Core.Path.{◌≡◌, refl}
use mathlib.Core.Bool.{Bool, false, ◌&&◌}
use mathlib.Core.List.{List, [], ◌∷◌, ◌++◌}
use native.Mathlib.Omega.{arith}
use go_watch_file.Base.Tests.{ltb, leb, if◌then◌else◌}
use go_watch_file.Base.Str.{Str}

-- 10xxxxxx
abbrev continues : Str → Bool
continues [] = false
continues (c ∷ s) = leb 0x80 c && ltb c 0xc0

abbrev add_byte : ℕ → List Str → List Str
add_byte c [] = (c ∷ []) ∷ []
add_byte c (r ∷ rs) = if continues r then (c ∷ r) ∷ rs else (c ∷ []) ∷ r ∷ rs

unfoldable pub runes : Str → List Str
runes [] = []
runes (c ∷ s) = add_byte c (runes s)

-- `string(r)` of a slice of runes.
abbrev pub of_runes : List Str → Str
of_runes [] = []
of_runes (r ∷ rs) = r ++ of_runes rs

pub of_runes-runes : (s : Str) → of_runes (runes s) ≡ s
unfolding runes
of_runes-runes [] = refl
of_runes-runes (c ∷ s) = ground (arith, of_runes-runes s)
