-- ===== src/Prelude/Text/Pieces.antt =====
-- More of Go's package `strings`: cutting at a byte, and the order of texts.
use Prim.Native.Nat.{ℕ}
use mathlib.Core.Bool.{Bool, true, false, ◌&&◌, ◌||◌}
use mathlib.Core.List.{List, [], ◌∷◌, reverse}
use mathlib.Core.Option.{Option, none, some}
use open_whisker.Prelude.Tests.{ltb, ◌==◌, if◌then◌else◌}
use open_whisker.Prelude.Text.{Str, eqb}

-- strings.Cut at a separator of one byte
unfoldable pub cut : ℕ → Str → Option (Str × Str)
cut sep [] = none
cut sep (c ∷ s) = let rest = cut sep s in if c == sep then some ([], s) else prepend c rest
  where
    prepend : ℕ → Option (Str × Str) → Option (Str × Str)
    prepend c none = none
    prepend c (some (left, right)) = some (c ∷ left, right)

-- s < t
unfoldable pub text_ltb : Str → Str → Bool
text_ltb [] [] = false
text_ltb [] (d ∷ t) = true
text_ltb (c ∷ s) [] = false
text_ltb (c ∷ s) (d ∷ t) = ltb c d || (c == d && text_ltb s t)

-- A text between two bytes that are equal and quotes; other texts stay as they are.
unfoldable pub unquoted : (ℕ → Bool) → Str → Str
unquoted quote [] = []
unquoted quote (c ∷ s) = if quote c then without_last c s (reverse s) else c ∷ s
  where
    without_last : ℕ → Str → Str → Str
    without_last c s [] = c ∷ s
    without_last c s (d ∷ r) = if d == c then reverse r else c ∷ s

-- a map as an association list, whose keys are texts
module _ {V : Type 0} where
  -- m[k], with the test whether it is there
  unfoldable pub lookup : Str → List (Str × V) → Option V
  lookup k [] = none
  lookup k ((j, v) ∷ m) = if eqb j k then some v else lookup k m

  -- m[k] = v
  unfoldable pub insert : Str → V → List (Str × V) → List (Str × V)
  insert k v [] = (k, v) ∷ []
  insert k v ((j, w) ∷ m) = if eqb j k then (j, v) ∷ m else (j, w) ∷ insert k v m

  unfoldable pub keys : List (Str × V) → List Str
  keys [] = []
  keys ((j, v) ∷ m) = j ∷ keys m
