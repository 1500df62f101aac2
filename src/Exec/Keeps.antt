-- ===== src/Exec/Keeps.antt =====
-- Invariants of actions, one rule for each way to build an action.
use open_whisker.Prelude.{Bool, true, false, Result, ok, err, if◌then◌else◌}
use open_whisker.Exec.{
  Exec, pure, raise, gets, continue, ◌>>=◌, ignore, handled, on_error, when, lift, attempt,
}

-- `m` keeps `P`, whether it returns or raises.
pub record Keeps {S E A : Type 0} (P : S → Type 0) (m : Exec S E A) : Type 0 where
  pub at : (s : S) → P s → P (m s).1

module _ {S E : Type 0} {P : S → Type 0} where
  pub Keeps-pure : {A : Type 0} (a : A) → Keeps {E = E} P (pure a)
  unfolding pure
  Keeps-pure a = record { at = λ s h. h }

  pub Keeps-raise : {A : Type 0} (e : E) → Keeps {A = A} P (raise e)
  unfolding raise
  Keeps-raise e = record { at = λ s h. h }

  pub Keeps-gets : {A : Type 0} (f : S → A) → Keeps {E = E} P (gets f)
  unfolding gets
  Keeps-gets f = record { at = λ s h. h }

  pub Keeps-ignore : {A : Type 0} (m : Exec S E A) → Keeps P m → Keeps P (ignore m)
  unfolding ignore
  Keeps-ignore m k = record { at = k.at }

  pub Keeps-when : (b : Bool) (m : Exec S E Unit) → Keeps P m → Keeps P (when b m)
  Keeps-when true m k = k
  Keeps-when false m k = Keeps-pure tt

  pub Keeps-if :
      {A : Type 0} (b : Bool) (m n : Exec S E A)
      → Keeps P m
      → Keeps P n
      → Keeps P (if b then m else n)
  Keeps-if true m n km kn = km
  Keeps-if false m n km kn = kn

  Keeps-continue :
      {A B : Type 0} (f : A → Exec S E B) (r : Result E A)
      → ((a : A) → Keeps P (f a))
      → Keeps P (continue f r)
  unfolding continue
  Keeps-continue f (ok a) k = record { at = (k a).at }
  Keeps-continue f (err e) k = record { at = λ s h. h }

  pub Keeps-bind :
      {A B : Type 0} (m : Exec S E A) (f : A → Exec S E B)
      → Keeps P m
      → ((a : A) → Keeps P (f a))
      → Keeps P (m >>= f)
  unfolding ◌>>=◌
  Keeps-bind m f km kf = record { at = λ s h. (Keeps-continue f (m s).0 kf).at (m s).1 (km.at s h) }

  Keeps-handled :
      {A : Type 0} (h : E → Exec S E Unit) (r : Result E A)
      → ((e : E) → Keeps P (h e))
      → Keeps P (handled h r)
  unfolding handled
  Keeps-handled h (ok a) k = record { at = λ s p. p }
  Keeps-handled h (err e) k = record { at = (k e).at }

  pub Keeps-on_error :
      {A : Type 0} (m : Exec S E A) (h : E → Exec S E Unit)
      → Keeps P m
      → ((e : E) → Keeps P (h e))
      → Keeps P (on_error m h)
  unfolding on_error
  Keeps-on_error m h km kh = record {
    at = λ s p. (Keeps-handled h (m s).0 kh).at (m s).1 (km.at s p);
  }

pub Keeps-lift :
    {S E F A : Type 0} {P : S → Type 0} (f : E → F) (m : Exec S E A)
    → Keeps P m
    → Keeps P (lift f m)
unfolding lift
Keeps-lift f m k = record { at = k.at }

pub Keeps-attempt :
    {S E F A : Type 0} {P : S → Type 0} (m : Exec S E A) → Keeps P m → Keeps {E = F} P (attempt m)
unfolding attempt
Keeps-attempt m k = record { at = k.at }

pub ruleset keeps_rules = (
  Keeps-pure, Keeps-raise, Keeps-gets, Keeps-ignore, Keeps-when, Keeps-if, Keeps-bind,
  Keeps-on_error, Keeps-lift, Keeps-attempt,
)
