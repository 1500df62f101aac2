-- ===== src/Cron/Loop.antt =====
-- The loop of parseCronField over the values of a range.
use open_whisker.Prelude.{
  ◌≡◌, subst, ◌⊎◌, inl, inr, ℕ, zero, suc, ◌+◌, ◌-◌, ◌%◌, ◌≤◌, ◌<◌, true, false, some, List, [],
  ◌∷◌, arith,
}
use open_whisker.Cron.{loop, word, max_int, int_leb, loop_fuel}

abbrev pub Ends : ℕ → ℕ → ℕ → ℕ → Type 0
Ends fuel step last value = (vs : List ℕ) × (loop fuel step last value ≡ some vs)

above : (a b : ℕ) → b < a → a ≤ max_int → int_leb a b ≡ false
above a b h k = ground arith

loop-stop :
    (fuel step last value : ℕ)
    → last < value
    → value ≤ max_int
    → loop (suc fuel) step last value ≡ some []
unfolding loop
loop-stop fuel step last value h k = rw (above value last h k)

loop-next :
    (fuel step last value next : ℕ) (vs : List ℕ)
    → int_leb value last ≡ true
    → (value + step) % word ≡ next
    → loop fuel step last next ≡ some vs
    → loop (suc fuel) step last value ≡ some (value ∷ vs)
unfolding loop
loop-next fuel step last value next vs h e k = rw (h, e, k)

Ends-next :
    (fuel step last value next : ℕ)
    → int_leb value last ≡ true
    → (value + step) % word ≡ next
    → Ends fuel step last next
    → Ends (suc fuel) step last value
Ends-next fuel step last value next h e (vs, k) =
    (value ∷ vs, loop-next fuel step last value next vs h e k)

sum_fits : (a b : ℕ) → a + b < word → (a + b) % word ≡ a + b
sum_fits a b h = omega arith

at_most : (a b : ℕ) → a ≤ b → int_leb a b ≡ true
at_most a b h = ground arith

below_zero : (a b : ℕ) → max_int < a → int_leb a b ≡ true
below_zero a b h = ground arith

Nat-cases : (a b : ℕ) → (a ≤ b) ⊎ (b < a)
Nat-cases a b = ground arith

-- Without overflow.
loop_plain :
    (fuel step last value : ℕ)
    → 1 ≤ step
    → last + step ≤ max_int
    → value ≤ last + step
    → 1 ≤ fuel
    → last + 2 ≤ fuel + value
    → Ends fuel step last value
loop_plain zero step last value h s v g f = absurd (omega arith)
loop_plain (suc fuel) step last value h s v g f = elim (Nat-cases value last) [
  | inr k ↦ ([], loop-stop fuel step last value k (omega arith))
  | inl k ↦
      Ends-next fuel step last value (value + step) (at_most value last k)
        (sum_fits value step (omega arith))
        (loop_plain fuel step last (value + step) h s (omega arith) (omega arith) (omega arith))
]

-- A step so large that the sum overflows: two steps take the value down.
loop_wrapping :
    (fuel d last value : ℕ)
    → 1 ≤ d
    → d ≤ 59
    → last ≤ 59
    → value ≤ last
    → value + 5 ≤ fuel
    → Ends fuel (0x8000000000000000 - d) last value
loop_wrapping zero d last value p q l v f = absurd (omega arith)
loop_wrapping (suc zero) d last value p q l v f = absurd (omega arith)
loop_wrapping (suc (suc zero)) d last value p q l v f = absurd (omega arith)
loop_wrapping (suc (suc (suc zero))) d last value p q l v f = absurd (omega arith)
loop_wrapping (suc (suc (suc (suc fuel)))) d last value p q l v f =
    let step = 0x8000000000000000 - d in
    Ends-next (suc (suc (suc fuel))) step last value (value + step) (at_most value last v)
      (sum_fits value step (omega arith))
      (elim (Nat-cases d value) [
        | inr k ↦
            ([], loop-stop (suc (suc fuel)) step last (value + step) (omega arith) (omega arith))
        | inl k ↦ elim (Nat-cases (d + d) value) [
          | inl m ↦
              Ends-next (suc (suc fuel)) step last (value + step) (value - (d + d))
                (below_zero (value + step) last (omega arith)) (omega arith)
                (loop_wrapping (suc (suc fuel)) d last (value - (d + d)) p q l (omega arith)
                  (omega arith))
          | inr m ↦
              Ends-next (suc (suc fuel)) step last (value + step) (value + step + step)
                (below_zero (value + step) last (omega arith))
                (sum_fits (value + step) step (omega arith))
                (Ends-next (suc fuel) step last (value + step + step)
                  (value + 0x8000000000000000 - (d + d + d))
                  (below_zero (value + step + step) last (omega arith)) (omega arith)
                  (
                    [],
                    loop-stop fuel step last (value + 0x8000000000000000 - (d + d + d))
                        (omega arith) (omega arith),
                  ))
        ]
      ])

-- The loop of `parseCronField` ends for every step that an `int` holds, an overflow included: between
-- two values of a field `loop_fuel` rounds are enough.
pub loop-Ends :
    (start last step : ℕ)
    → start ≤ last
    → last ≤ 59
    → 1 ≤ step
    → step ≤ max_int
    → Ends loop_fuel step last start
loop-Ends start last step h l p q = elim (Nat-cases (last + step) max_int) [
  | inl k ↦ loop_plain loop_fuel step last start p k (omega arith) (omega arith) (omega arith)
  | inr k ↦
      subst (λ x. Ends loop_fuel x last start) (omega arith)
        (loop_wrapping loop_fuel (0x8000000000000000 - step) last start (omega arith) (omega arith)
          l h (omega arith))
]
