-- ===== src/Executor/Names.antt =====
-- The names of the files after a removal.
use open_whisker.Prelude.{◌≡◌, refl, false, none, List, [], ◌∷◌, arith}
use open_whisker.Prelude.Text.{Str, eqb}
use open_whisker.Prelude.Text.Laws.{eqb→eq}
use open_whisker.Prelude.Text.Pieces.{lookup}
use open_whisker.Executor.Disk.{Node, without}

pub lookup-without_same : (k : Str) (m : List (Str × Node)) → lookup k (without k m) ≡ none
unfolding lookup without
lookup-without_same k [] = refl
lookup-without_same k ((j, w) ∷ m) = ground (arith, lookup-without_same k m)

pub lookup-without_other :
    (path k : Str)
    → eqb k path ≡ false
    → (m : List (Str × Node)) → lookup path (without k m) ≡ lookup path m
unfolding lookup without
lookup-without_other path k n [] = refl
lookup-without_other path k n ((j, w) ∷ m) =
    ground (arith, lookup-without_other path k n m, eqb→eq j k, n)
