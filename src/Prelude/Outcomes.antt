-- ===== src/Prelude/Outcomes.antt =====
-- When a check returns no error: one rule for each way to build a check.
use mathlib.Core.Path.{◌≡◌, refl}
use mathlib.Core.Logic.{◌↔◌}
use mathlib.Core.Bool.{Bool, true, false}
use mathlib.Core.List.{List, [], ◌∷◌}
use open_whisker.Prelude.Errors.{
  Check, ok, err, ◌>>◌, require, refuse, wrap, each, >>-ok, require-ok, refuse-ok,
}
use open_whisker.Prelude.Tests.{if◌then◌else◌}
use open_whisker.Prelude.Lists.{All}

abbrev pub Passes : {E : Type 0} → Check E → Type 0
Passes m = m ≡ ok tt

module _ {E : Type 0} where
  pub Passes-require : (t : Bool) (e : E) → Passes (require t e) ↔ (t ≡ true)
  Passes-require t e = (require-ok t e, λ p. rw p)

  pub Passes-refuse : (t : Bool) (e : E) → Passes (refuse t e) ↔ (t ≡ false)
  Passes-refuse t e = (refuse-ok t e, λ p. rw p)

  pub Passes-seq :
      {P Q : Type 0} (m k : Check E) → Passes m ↔ P → Passes k ↔ Q → Passes (m >> k) ↔ (P × Q)
  Passes-seq m k f g =
      (λ h. let (a, b) = >>-ok m k h in (f.0 a, g.0 b), λ (p, q). rw (f.1 p) (g.1 q))

  pub Passes-wrap : {F : Type 0} (f : F → E) (m : Check F) → Passes (wrap f m) ↔ Passes m
  Passes-wrap f (ok a) = (λ h. refl, λ h. refl)
  Passes-wrap f (err e) = (λ h. cc, λ h. cc)

  pub Passes-each :
      {A : Type 0} {P : A → Type 0} (f : A → Check E)
      → ((x : A) → Passes (f x) ↔ P x)
      → (xs : List A) → Passes (each f xs) ↔ All P xs
  Passes-each f h [] = (λ p. tt, λ p. refl)
  Passes-each f h (x ∷ xs) = Passes-seq (f x) (each f xs) (h x) (Passes-each f h xs)

-- a check that is made only where a test holds
pub Passes-if :
    {E : Type 0} {P : Type 0} (b : Bool) (m : Check E)
    → Passes m ↔ P
    → Passes (if b then m else ok tt) ↔ (b ≡ true → P)
Passes-if true m f = (λ h t. f.0 h, λ k. f.1 (k refl))
Passes-if false m f = (λ h t. cc, λ k. refl)

pub ↔-trans : {P Q R : Type 0} → P ↔ Q → Q ↔ R → P ↔ R
↔-trans f g = (λ p. g.0 (f.0 p), λ r. f.1 (g.1 r))
