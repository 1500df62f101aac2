-- ===== src/Exec/Triples.antt =====
-- What an action leaves behind when it returns and when it raises, one rule for each way to build
-- an action.
use open_whisker.Prelude.{◌≡◌, refl, Bool, true, false, Result, ok, err, wrap, if◌then◌else◌}
use open_whisker.Exec.{Exec, pure, raise, continue, ◌>>=◌, handled, on_error, lift, attempt}
use open_whisker.Exec.Keeps.{Keeps}

abbrev pub Post : {S E A : Type 0} → (A → S → Type 0) → (E → S → Type 0) → Result E A → S → Type 0
Post Q R (ok a) s = Q a s
Post Q R (err e) s = R e s

-- From a state in `P`, `m` returns in a state in `Q` or raises in a state in `R`.
pub record Triple {S E A : Type 0} (P : S → Type 0) (m : Exec S E A) (Q : A → S → Type 0)
    (R : E → S → Type 0) : Type 0 where
  pub at : (s : S) → P s → Post Q R (m s).0 (m s).1

module _ {S E : Type 0} (R : E → S → Type 0) where
  Post-Keeps :
      {A : Type 0} (P : S → Type 0) (r : Result E A) (s : S)
      → P s
      → ((e : E) → P s → R e s)
      → Post (λ _. P) R r s
  Post-Keeps P (ok a) s p f = p
  Post-Keeps P (err e) s p f = f e p

  continue-Post :
      {A B : Type 0} (Q : A → S → Type 0) (Q' : B → S → Type 0) (f : A → Exec S E B)
      → ((a : A) → Triple (Q a) (f a) Q' R)
      → (r : Result E A) (s : S) → Post Q R r s
      → Post Q' R (continue f r s).0 (continue f r s).1
  unfolding continue
  continue-Post Q Q' f t (ok a) s p = (t a).at s p
  continue-Post Q Q' f t (err e) s p = p

  Post-handled :
      {A : Type 0} (Q : A → S → Type 0) (R' : E → S → Type 0) (h : E → Exec S E Unit)
      → ((e : E) (s : S) → R' e s → R e (h e s).1)
      → (r : Result E A) (s : S) → Post Q R' r s
      → Post Q R (handled h r s).0 (handled h r s).1
  unfolding handled
  Post-handled Q R' h f (ok a) s p = p
  Post-handled Q R' h f (err e) s p = f e s p

  Post-wrap :
      {F A : Type 0} (Q : A → S → Type 0) (g : F → E) (r : Result F A) (s : S)
      → Post Q (λ e. R (g e)) r s
      → Post Q R (wrap g r) s
  Post-wrap Q g (ok a) s p = p
  Post-wrap Q g (err e) s p = p

module _ {S E : Type 0} {P : S → Type 0} {R : E → S → Type 0} where
  pub Triple-Keeps :
      {A : Type 0} {m : Exec S E A}
      → Keeps P m
      → ((e : E) (s : S) → P s → R e s)
      → Triple P m (λ _. P) R
  Triple-Keeps {m = m} k f = record {
    at = λ s p. Post-Keeps R P (m s).0 (m s).1 (k.at s p) (λ e. f e (m s).1);
  }

  pub Triple-pure :
      {A : Type 0} {Q : A → S → Type 0} (a : A) → ((s : S) → P s → Q a s) → Triple P (pure a) Q R
  unfolding pure
  Triple-pure a f = record { at = f }

  pub Triple-raise :
      {A : Type 0} {Q : A → S → Type 0} (e : E) → ((s : S) → P s → R e s) → Triple P (raise e) Q R
  unfolding raise
  Triple-raise e f = record { at = f }

  pub Triple-if :
      {A : Type 0} {Q : A → S → Type 0} (b : Bool) (m n : Exec S E A)
      → Triple P m Q R
      → Triple P n Q R
      → Triple P (if b then m else n) Q R
  Triple-if true m n tm tn = tm
  Triple-if false m n tm tn = tn

  pub Triple-bind :
      {A B : Type 0} {Q : A → S → Type 0} {Q' : B → S → Type 0} {m : Exec S E A}
      {f : A → Exec S E B}
      → Triple P m Q R
      → ((a : A) → Triple (Q a) (f a) Q' R)
      → Triple P (m >>= f) Q' R
  unfolding ◌>>=◌
  Triple-bind {Q = Q} {Q' = Q'} {m = m} {f = f} tm tf = record {
    at = λ s p. continue-Post R Q Q' f tf (m s).0 (m s).1 (tm.at s p);
  }

  pub Triple-on_error :
      {A : Type 0} {Q : A → S → Type 0} {R' : E → S → Type 0} (m : Exec S E A)
      (h : E → Exec S E Unit)
      → Triple P m Q R'
      → ((e : E) (s : S) → R' e s → R e (h e s).1)
      → Triple P (on_error m h) Q R
  unfolding on_error
  Triple-on_error {Q = Q} {R' = R'} m h tm f = record {
    at = λ s p. Post-handled R Q R' h f (m s).0 (m s).1 (tm.at s p);
  }

  pub Triple-lift :
      {F A : Type 0} {Q : A → S → Type 0} (g : F → E) (m : Exec S F A)
      → Triple P m Q (λ e. R (g e))
      → Triple P (lift g m) Q R
  unfolding lift
  Triple-lift {Q = Q} g m t = record { at = λ s p. Post-wrap R Q g (m s).0 (m s).1 (t.at s p) }

  pub Triple-attempt :
      {F A : Type 0} {Q : Result F A → S → Type 0} (m : Exec S F A)
      → ((s : S) → P s → Q (m s).0 (m s).1)
      → Triple P (attempt m) Q R
  unfolding attempt
  Triple-attempt m f = record { at = f }

Post-weaken :
    {S E A : Type 0} (Q Q' : A → S → Type 0) (R R' : E → S → Type 0) (r : Result E A) (s : S)
    → ((a : A) → Q a s → Q' a s)
    → ((e : E) → R e s → R' e s)
    → Post Q R r s
    → Post Q' R' r s
Post-weaken Q Q' R R' (ok a) s f g p = f a p
Post-weaken Q Q' R R' (err e) s f g p = g e p

module _ {S E : Type 0} {P : S → Type 0} {R : E → S → Type 0} where
  pub Triple-weaken :
      {A : Type 0} {Q Q' : A → S → Type 0} {R' : E → S → Type 0} {m : Exec S E A}
      → Triple P m Q R
      → ((a : A) (s : S) → Q a s → Q' a s)
      → ((e : E) (s : S) → R e s → R' e s)
      → Triple P m Q' R'
  Triple-weaken {Q = Q} {Q' = Q'} {R' = R'} {m = m} t f g = record {
    at = λ s p.
        Post-weaken Q Q' R R' (m s).0 (m s).1 (λ a. f a (m s).1) (λ e. g e (m s).1) (t.at s p);
  }

-- The same property of the state, whether the action returns or raises.
Post-state :
    {S E A : Type 0} (G : S → Type 0) (r : Result E A) (s : S) → Post (λ a. G) (λ e. G) r s → G s
Post-state G (ok a) s p = p
Post-state G (err e) s p = p

pub Triple-state :
    {S E A : Type 0} {P G : S → Type 0} {m : Exec S E A}
    → Triple P m (λ a. G) (λ e. G)
    → (s : S) → P s
    → G (m s).1
Triple-state {G = G} {m = m} t s p = Post-state G (m s).0 (m s).1 (t.at s p)

continue-after :
    {S E A B : Type 0} (f : A → Exec S E B) (G : S → Type 0) (r : Result E A) (s : S)
    → ((a : A) → r ≡ ok a → G (f a s).1)
    → ((e : E) → r ≡ err e → G s)
    → G (continue f r s).1
unfolding continue
continue-after f G (ok a) s k h = k a refl
continue-after f G (err e) s k h = h e refl

pub after-bind :
    {S E A B : Type 0} (m : Exec S E A) (f : A → Exec S E B) (G : S → Type 0) (s : S)
    → ((a : A) → (m s).0 ≡ ok a → G (f a (m s).1).1)
    → ((e : E) → (m s).0 ≡ err e → G (m s).1)
    → G ((m >>= f) s).1
unfolding ◌>>=◌
after-bind m f G s = continue-after f G (m s).0 (m s).1
