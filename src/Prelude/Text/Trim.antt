-- ===== src/Prelude/Text/Trim.antt =====
-- Texts that begin and end with a printable ASCII byte that is no quote: trimming leaves them.
use Prim.Native.Nat.{ℕ, ◌≤◌}
use mathlib.Core.Path.{◌≡◌, refl, ap, sym, ◌∙◌}
use mathlib.Core.Logic.{◌≢◌}
use mathlib.Core.Bool.{Bool, false, true}
use mathlib.Core.List.{[], ◌∷◌, ◌++◌, reverse, reverse-append, reverse-reverse, append-nil}
use native.Mathlib.Omega.{arith}
use open_whisker.Prelude.Text.{
  Str, drop_prefix, trim_prefix, has_prefix, drop_while, trim_right_of, trim_left_of, trim_of,
  is_space_2, is_space_3, trim_runes, trim_space_left, trim_space_right, trim_space,
}
use open_whisker.Prelude.Text.Laws.{has_prefix-append}

abbrev pub IsPlain : ℕ → Type 0
IsPlain c = (33 ≤ c) × (c ≤ 126) × (c ≢ 34) × (c ≢ 39)

abbrev pub Starts : Str → Type 0
Starts [] = ⊥
Starts (c ∷ s) = IsPlain c

abbrev pub IsTrimmed : Str → Type 0
IsTrimmed s = Starts s × Starts (reverse s)

pub Starts-append : (s t : Str) → Starts s → Starts (s ++ t)
Starts-append [] t h = absurd h
Starts-append (c ∷ s) t h = h

pub Starts-reverse_append : (s t : Str) → Starts (reverse t) → Starts (reverse (s ++ t))
Starts-reverse_append s t h = rw (reverse-append s t) (Starts-append (reverse t) (reverse s) h)

module _ (two : ℕ → ℕ → Bool) (three : ℕ → ℕ → ℕ → Bool)
    (no_two : (a b : ℕ) → IsPlain a → two a b ≡ false)
    (no_three : (a b c : ℕ) → IsPlain a → three a b c ≡ false) where
  trim_runes-Starts : (s : Str) → Starts s → trim_runes two three s ≡ s
  unfolding trim_runes
  trim_runes-Starts [] h = refl
  trim_runes-Starts (a ∷ []) h = ground arith
  trim_runes-Starts (a ∷ b ∷ []) h = ground (arith, no_two a b h)
  trim_runes-Starts (a ∷ b ∷ c ∷ s) h = ground (arith, no_two a b h, no_three a b c h)

trim_space_left-Starts : (s : Str) → Starts s → trim_space_left s ≡ s
unfolding trim_space_left
trim_space_left-Starts =
    trim_runes-Starts is_space_2 is_space_3 (λ a b h. ground arith) (λ a b c h. ground arith)

trim_space_right-Starts : (s : Str) → Starts (reverse s) → trim_space_right s ≡ s
unfolding trim_space_right
trim_space_right-Starts s h =
    ap reverse (
      trim_runes-Starts (λ a b. is_space_2 b a) (λ a b c. is_space_3 c b a) (λ a b h. ground arith)
        (λ a b c h. ground arith) (reverse s) h)
    ∙ reverse-reverse s

pub trim_space-IsTrimmed : (s : Str) → IsTrimmed s → trim_space s ≡ s
unfolding trim_space
trim_space-IsTrimmed s h = rw (trim_space_left-Starts s h.0) (trim_space_right-Starts s h.1)

trim_runes-space :
    (two : ℕ → ℕ → Bool) (three : ℕ → ℕ → ℕ → Bool) (s : Str)
    → trim_runes two three (32 ∷ s) ≡ trim_runes two three s
unfolding trim_runes
trim_runes-space two three [] = refl
trim_runes-space two three (b ∷ []) = refl
trim_runes-space two three (b ∷ c ∷ s) = refl

-- a leading blank is trimmed
pub trim_space-space : (s : Str) → trim_space (32 ∷ s) ≡ trim_space s
unfolding trim_space trim_space_left
trim_space-space s = ap trim_space_right (trim_runes-space is_space_2 is_space_3 s)

drop_while-Starts :
    (f : ℕ → Bool) → ((c : ℕ) → IsPlain c → f c ≡ false) → (s : Str) → Starts s → drop_while f s ≡ s
unfolding drop_while
drop_while-Starts f keeps [] h = refl
drop_while-Starts f keeps (c ∷ s) h = rw (keeps c h) refl

pub trim_of-IsTrimmed :
    (f : ℕ → Bool) → ((c : ℕ) → IsPlain c → f c ≡ false) → (s : Str) → IsTrimmed s → trim_of f s ≡ s
unfolding trim_of trim_right_of trim_left_of
trim_of-IsTrimmed f keeps s h =
    rw (drop_while-Starts f keeps s h.0, drop_while-Starts f keeps (reverse s) h.1)
      (reverse-reverse s)

drop_prefix-all : (p : Str) → drop_prefix p p ≡ []
unfolding drop_prefix
drop_prefix-all [] = refl
drop_prefix-all (c ∷ p) = drop_prefix-all p

pub has_prefix_refl : (p : Str) → has_prefix p p ≡ true
has_prefix_refl p = sym (ap (λ s. has_prefix s p) (append-nil p)) ∙ has_prefix-append p []

pub trim_prefix-all : (p : Str) → trim_prefix p p ≡ []
unfolding trim_prefix
trim_prefix-all p = rw (has_prefix_refl p) (drop_prefix-all p)

drop_prefix-append : (p s : Str) → drop_prefix (p ++ s) p ≡ s
unfolding drop_prefix
drop_prefix-append [] s = refl
drop_prefix-append (c ∷ p) s = drop_prefix-append p s

pub trim_prefix-append : (p s : Str) → trim_prefix (p ++ s) p ≡ s
unfolding trim_prefix
trim_prefix-append p s = rw (has_prefix-append p s) (drop_prefix-append p s)
