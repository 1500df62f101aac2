-- ===== src/Prelude/Text/Search.antt =====
-- Where a text occurs in another, and membership of a text in a list.
use mathlib.Core.Path.{◌≡◌, ap}
use mathlib.Core.Logic.{◌↔◌, inl, inr}
use mathlib.Core.Bool.{true}
use mathlib.Core.List.{List, [], ◌∷◌, ◌++◌, Memᴰ}
use native.Mathlib.Omega.{arith}
use open_whisker.Prelude.Tests.{Bool-cases}
use open_whisker.Prelude.Text.{Str, eqb, has_prefix, contains, elem}
use open_whisker.Prelude.Text.Laws.{eqb→eq, eqb_refl, has_prefix→StartsWith, has_prefix-append}

-- `s` is a text before `p`, then `p`, then a text after it.
abbrev pub Occurs : Str → Str → Type 0
Occurs p s = (before after : Str) × (s ≡ before ++ (p ++ after))

Occurs-of_contains : (s p : Str) → contains s p ≡ true → Occurs p s
unfolding contains
Occurs-of_contains [] p h = let (rest, e) = has_prefix→StartsWith [] p h in ([], rest, e)
Occurs-of_contains (c ∷ s) p h = elim (Bool-cases (has_prefix (c ∷ s) p)) [
  | inl here ↦ let (rest, e) = has_prefix→StartsWith (c ∷ s) p here in ([], rest, e)
  | inr no_prefix ↦
      let (before, after, e) = Occurs-of_contains s p (rw no_prefix at h) in
      (c ∷ before, after, ap (λ x. c ∷ x) e)
]

contains_prefix : (p after : Str) → contains (p ++ after) p ≡ true
unfolding contains
contains_prefix [] [] = ground (arith, has_prefix-append [] [])
contains_prefix [] (c ∷ after) = ground (arith, has_prefix-append [] (c ∷ after))
contains_prefix (c ∷ p) after = ground (arith, has_prefix-append (c ∷ p) after)

contains_middle : (before p after : Str) → contains (before ++ (p ++ after)) p ≡ true
unfolding contains
contains_middle [] p after = contains_prefix p after
contains_middle (c ∷ before) p after = ground (arith, contains_middle before p after)

pub contains-Occurs : (s p : Str) → (contains s p ≡ true) ↔ Occurs p s
contains-Occurs s p =
    (Occurs-of_contains s p, λ (before, after, e). rw e (contains_middle before p after))

Memᴰ_of_elem : (x : Str) (xs : List Str) → elem x xs ≡ true → Memᴰ x xs
unfolding elem
Memᴰ_of_elem x [] h = absurd (cc h)
Memᴰ_of_elem x (y ∷ ys) h = elim (Bool-cases (eqb x y)) [
  | inl e ↦ Memᴰ.head (eqb→eq x y e)
  | inr n ↦ Memᴰ.tail (Memᴰ_of_elem x ys (rw n at h))
]

elem_of_Memᴰ : (x : Str) (xs : List Str) → Memᴰ x xs → elem x xs ≡ true
unfolding elem
elem_of_Memᴰ x [] m = elim m [ ]
elem_of_Memᴰ x (y ∷ ys) (Memᴰ.head e) = ground (arith, eqb_refl x, ap (eqb x) e)
elem_of_Memᴰ x (y ∷ ys) (Memᴰ.tail m) = ground (arith, elem_of_Memᴰ x ys m)

pub elem-Memᴰ : (x : Str) (xs : List Str) → (elem x xs ≡ true) ↔ Memᴰ x xs
elem-Memᴰ x xs = (Memᴰ_of_elem x xs, elem_of_Memᴰ x xs)
