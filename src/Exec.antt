-- ===== src/Exec.antt =====
-- Methods that change a state and may return an error. What was written before the error stays
-- written, so the state comes back beside the error too.
pub mod Keeps
pub mod Triples
use open_whisker.Prelude.{Result, ok, err, wrap, Bool, true, false}

abbrev pub Exec : Type 0 → Type 0 → Type 0 → Type 0
Exec S E A = S → Result E A × S

module _ {S E : Type 0} where
  unfoldable pub pure : {A : Type 0} → A → Exec S E A
  pure a s = (ok a, s)

  unfoldable pub raise : {A : Type 0} → E → Exec S E A
  raise e s = (err e, s)

  -- a value that is computed from the state
  unfoldable pub gets : {A : Type 0} → (S → A) → Exec S E A
  gets f s = (ok (f s), s)

  unfoldable pub modify : (S → S) → Exec S E Unit
  modify f s = (ok tt, f s)

  unfoldable pub continue : {A B : Type 0} → (A → Exec S E B) → Result E A → Exec S E B
  continue f (ok a) s = f a s
  continue f (err e) s = (err e, s)

  infixl 5 ◌>>=◌ ◌>>◌
  -- `x, err := m; if err != nil { return err }`
  unfoldable pub ◌>>=◌ : {A B : Type 0} → Exec S E A → (A → Exec S E B) → Exec S E B
  unfolding continue
  ◌>>=◌ m f s = continue f (m s).0 (m s).1

  abbrev pub ◌>>◌ : {B : Type 0} → Exec S E Unit → Exec S E B → Exec S E B
  m >> k = m >>= λ _. k

  -- `_ = m`: the error is dropped
  unfoldable pub ignore : {A : Type 0} → Exec S E A → Exec S E Unit
  ignore m s = (ok tt, (m s).1)

  -- `if err != nil { handle(err); return err }`
  unfoldable pub handled : {A : Type 0} → (E → Exec S E Unit) → Result E A → Exec S E A
  handled h (ok a) s = (ok a, s)
  handled h (err e) s = (err e, (h e s).1)

  unfoldable pub on_error : {A : Type 0} → Exec S E A → (E → Exec S E Unit) → Exec S E A
  unfolding handled
  on_error m h s = handled h (m s).0 (m s).1

  -- `if test { m }`
  abbrev pub when : Bool → Exec S E Unit → Exec S E Unit
  when true m = m
  when false m = pure tt

-- the error in the caller's type: `return fmt.Errorf("…: %w", err)`
unfoldable pub lift : {S E F A : Type 0} → (E → F) → Exec S E A → Exec S F A
lift f m s = (wrap f (m s).0, (m s).1)

-- the result as a value, for a caller that looks at the error itself
unfoldable pub attempt : {S E F A : Type 0} → Exec S E A → Exec S F (Result E A)
attempt m s = (ok (m s).0, (m s).1)
