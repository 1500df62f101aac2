-- ===== src/VaultPath/Segments.antt =====
-- What `filepath.Clean` does to paths whose segments need no cleaning.
use mathlib.Core.List.{reverse-reverse, reverse-append}
use open_whisker.Prelude.{
  Bool, false, List, [], ◌∷◌, ◌++◌, reverse, ◌≡◌, ◌≢◌, refl, arith, All, append_assoc, append-nil,
}
use open_whisker.Prelude.Text.{Str, split}
use open_whisker.Prelude.Text.Laws.{join-split}
use open_whisker.VaultPath.{slash, dot, is_abs, clean_step, clean_parts, clean, or_dot}

-- A segment that is not empty and does not begin with a dot.
abbrev pub IsSafeSegment : Str → Type 0
IsSafeSegment [] = ⊥
IsSafeSegment (c ∷ s) = c ≢ dot

clean_step_safe :
    (rooted : Bool) (stack : List Str) (p : Str)
    → IsSafeSegment p
    → clean_step rooted stack p ≡ p ∷ stack
unfolding clean_step
clean_step_safe rooted stack [] h = absurd h
clean_step_safe rooted stack (c ∷ s) h = ground arith

clean_parts_safe :
    (rooted : Bool) (stack ps : List Str)
    → All IsSafeSegment ps
    → clean_parts rooted stack ps ≡ reverse ps ++ stack
unfolding clean_parts
clean_parts_safe rooted stack [] h = refl
clean_parts_safe rooted stack (p ∷ ps) h = rw (
  clean_step_safe rooted stack p h.0,
  clean_parts_safe rooted (p ∷ stack) ps h.1,
  reverse-append (p ∷ []) ps,
  append_assoc,
)

safe_segment_nonempty : (s : Str) → IsSafeSegment s → s ≢ []
safe_segment_nonempty [] h e = h
safe_segment_nonempty (c ∷ s) h e = cc

-- A text whose segments are safe is not empty and does not begin with a slash.
pub safe-is_abs : (s : Str) → All IsSafeSegment (split slash s) → is_abs s ≡ false
unfolding is_abs split
safe-is_abs [] h = refl
safe-is_abs (c ∷ s) h = ground arith

or_dot-safe : (s : Str) → All IsSafeSegment (split slash s) → or_dot s ≡ s
unfolding or_dot split
or_dot-safe [] h = absurd h.0
or_dot-safe (c ∷ s) h = refl

-- Cleaning changes nothing where every segment is safe.
pub clean_safe : (s : Str) → All IsSafeSegment (split slash s) → clean s ≡ s
unfolding clean
clean_safe s h =
    rw
      (
        safe-is_abs s h,
        clean_parts_safe false [] (split slash s) h,
        append-nil,
        reverse-reverse,
        join-split slash s,
      )
      (or_dot-safe s h)
