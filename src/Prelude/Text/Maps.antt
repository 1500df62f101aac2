-- ===== src/Prelude/Text/Maps.antt =====
-- The laws of a map after an insert.
use mathlib.Core.Path.{◌≡◌, refl, sym, subst}
use mathlib.Core.Logic.{◌⊎◌, inl, inr}
use mathlib.Core.Bool.{false, ◌||◌}
use mathlib.Core.List.{List, [], ◌∷◌, ◌++◌}
use mathlib.Core.Option.{some}
use native.Mathlib.Omega.{arith}
use open_whisker.Prelude.Tests.{Bool-cases}
use open_whisker.Prelude.Text.{Str, eqb, elem}
use open_whisker.Prelude.Text.Laws.{eqb→eq, eqb_refl}
use open_whisker.Prelude.Text.Pieces.{lookup, insert}

pub same_or_not : (s t : Str) → (s ≡ t) ⊎ (eqb s t ≡ false)
same_or_not s t = elim (Bool-cases (eqb s t)) [ inl e ↦ inl (eqb→eq s t e) | inr n ↦ inr n ]

pub differ_sym : (s t : Str) → eqb s t ≡ false → eqb t s ≡ false
differ_sym s t n = elim (same_or_not t s) [
  | inl e ↦ absurd (let f = subst (λ x. eqb x t ≡ false) (sym e) n in let g = eqb_refl t in cc)
  | inr m ↦ m
]

module _ {V : Type 0} (k : Str) (v : V) where
  pub lookup-insert_same : (m : List (Str × V)) → lookup k (insert k v m) ≡ some v
  unfolding lookup insert
  lookup-insert_same [] = ground (arith, eqb_refl k)
  lookup-insert_same ((j, w) ∷ m) = ground (arith, lookup-insert_same m, eqb→eq j k, eqb_refl k)

  pub lookup-insert_other :
      (path : Str)
      → eqb k path ≡ false
      → (m : List (Str × V)) → lookup path (insert k v m) ≡ lookup path m
  unfolding lookup insert
  lookup-insert_other path n [] = ground (arith)
  lookup-insert_other path n ((j, w) ∷ m) =
      ground (arith, lookup-insert_other path n m, eqb→eq j k, n)

pub elem-append : (s : Str) (xs ys : List Str) → elem s (xs ++ ys) ≡ elem s xs || elem s ys
unfolding elem
elem-append s [] ys = refl
elem-append s (x ∷ xs) ys = ground (arith, elem-append s xs ys)
