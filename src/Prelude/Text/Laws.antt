-- ===== src/Prelude/Text/Laws.antt =====
-- The laws of the string functions.
use mathlib.Core.List.{cons-ne-nil}
use Prim.Native.Nat.{ℕ}
use mathlib.Core.Path.{◌≡◌, refl, ap, ◌∙◌}
use mathlib.Core.Logic.{◌↔◌, ◌≢◌}
use mathlib.Core.Bool.{true}
use mathlib.Core.List.{append_assoc, List, [], ◌∷◌, ◌++◌}
use native.Mathlib.Omega.{arith}
use open_whisker.Prelude.Lists.{All}
use open_whisker.Prelude.Text.{Str, eqb, has_prefix, push, split, glue, join}

pub eqb→eq : (s t : Str) → eqb s t ≡ true → s ≡ t
unfolding eqb
eqb→eq [] [] h = refl
eqb→eq [] (d ∷ t) h = cc
eqb→eq (c ∷ s) [] h = cc
eqb→eq (c ∷ s) (d ∷ t) h = ground (arith, eqb→eq s t)

pub eqb_refl : (s : Str) → eqb s s ≡ true
unfolding eqb
eqb_refl [] = refl
eqb_refl (c ∷ s) = ground (arith, eqb_refl s)

pub eqb_iff : (s t : Str) → (eqb s t ≡ true) ↔ (s ≡ t)
eqb_iff s t = (eqb→eq s t, λ e. rw e (eqb_refl t))

-- `s` begins with `p`
abbrev pub StartsWith : Str → Str → Type 0
StartsWith p s = (rest : Str) × (s ≡ p ++ rest)

pub has_prefix→StartsWith : (s p : Str) → has_prefix s p ≡ true → StartsWith p s
unfolding has_prefix
has_prefix→StartsWith s [] h = (s, refl)
has_prefix→StartsWith [] (d ∷ p) h = cc
has_prefix→StartsWith (c ∷ s) (d ∷ p) h = ground (arith, has_prefix→StartsWith s p)

pub has_prefix-append : (p rest : Str) → has_prefix (p ++ rest) p ≡ true
unfolding has_prefix
has_prefix-append [] rest = refl
has_prefix-append (c ∷ p) rest = ground (arith, has_prefix-append p rest)

module _ (sep : ℕ) where
  abbrev pub Lacks : Str → Type 0
  Lacks = All (λ c. c ≢ sep)

  push-ne-nil : (c : ℕ) (ps : List Str) → push c ps ≢ []
  unfolding push
  push-ne-nil c [] h = cc
  push-ne-nil c (p ∷ ps) h = cc

  pub split-ne-nil : (s : Str) → split sep s ≢ []
  unfolding split
  split-ne-nil [] h = cc
  split-ne-nil (c ∷ s) h = ground (arith, push-ne-nil c (split sep s))

  join-push : (c : ℕ) (ps : List Str) → ps ≢ [] → join sep (push c ps) ≡ c ∷ join sep ps
  unfolding join push
  join-push c [] h = absurd (h refl)
  join-push c (p ∷ []) h = refl
  join-push c (p ∷ q ∷ ps) h = refl

  join-cons : (ps : List Str) → ps ≢ [] → join sep ([] ∷ ps) ≡ sep ∷ join sep ps
  unfolding join
  join-cons [] h = absurd (h refl)
  join-cons (p ∷ ps) h = refl

  join-split-cons :
      (c : ℕ) (s : Str) → join sep (split sep s) ≡ s → join sep (split sep (c ∷ s)) ≡ c ∷ s
  unfolding split
  join-split-cons c s ih =
      let e = split-ne-nil s in
      ground (arith, join-cons (split sep s) e, join-push c (split sep s) e)

  pub join-split : (s : Str) → join sep (split sep s) ≡ s
  join-split [] = unfold split join in refl
  join-split (c ∷ s) = join-split-cons c s (join-split s)

  push-Lacks : (c : ℕ) (ps : List Str) → c ≢ sep → All Lacks ps → All Lacks (push c ps)
  unfolding push
  push-Lacks c [] h a = ((h, tt), tt)
  push-Lacks c (p ∷ ps) h a = ((h, a.0), a.1)

  pub split-Lacks : (s : Str) → All Lacks (split sep s)
  unfolding split
  split-Lacks [] = (tt, tt)
  split-Lacks (c ∷ s) = ground (arith, split-Lacks s, push-Lacks c (split sep s))

  split-append : (p s : Str) → Lacks p → split sep (p ++ sep ∷ s) ≡ p ∷ split sep s
  unfolding split
  split-append [] s h = ground arith
  split-append (c ∷ p) s h = ground (arith, split-append p s)

  split_of_Lacks : (p : Str) → Lacks p → split sep p ≡ p ∷ []
  unfolding split
  split_of_Lacks [] h = refl
  split_of_Lacks (c ∷ p) h = ground (arith, split_of_Lacks p)

  pub split-join : (ps : List Str) → ps ≢ [] → All Lacks ps → split sep (join sep ps) ≡ ps
  unfolding join
  split-join [] h a = absurd (h refl)
  split-join (p ∷ []) h a = split_of_Lacks p a.0
  split-join (p ∷ q ∷ ps) h a =
      split-append p (glue sep q ps) a.0
      ∙ ap (λ x. p ∷ x) (split-join (q ∷ ps) (cons-ne-nil q ps) a.1)

  push-append : (c : ℕ) (ps qs : List Str) → ps ≢ [] → push c (ps ++ qs) ≡ push c ps ++ qs
  unfolding push
  push-append c [] qs h = absurd (h refl)
  push-append c (p ∷ ps) qs h = refl

  pub split-append_sep : (p s : Str) → split sep (p ++ sep ∷ s) ≡ split sep p ++ split sep s
  unfolding split
  split-append_sep [] s = ground arith
  split-append_sep (c ∷ p) s =
      ground
        (arith, split-append_sep p s, push-append c (split sep p) (split sep s) (split-ne-nil p))

  glue-append :
      (p q : Str) (ps qs : List Str)
      → glue sep p (ps ++ q ∷ qs) ≡ glue sep p ps ++ sep ∷ glue sep q qs
  unfolding glue
  glue-append p q [] qs = refl
  glue-append p q (r ∷ ps) qs = rw (glue-append r q ps qs, append_assoc)

  pub join-append :
      (ps : List Str) (q : Str) (qs : List Str)
      → ps ≢ []
      → join sep (ps ++ q ∷ qs) ≡ join sep ps ++ sep ∷ join sep (q ∷ qs)
  unfolding join
  join-append [] q qs h = absurd (h refl)
  join-append (p ∷ ps) q qs h = glue-append p q ps qs
