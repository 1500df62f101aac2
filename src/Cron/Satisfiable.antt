-- ===== src/Cron/Satisfiable.antt =====
-- validateCronSatisfiable: which schedules have a day.
use open_whisker.Prelude.{
  ◌≡◌, refl, ap, ◌↔◌, ◌⊎◌, inl, inr, ℕ, zero, suc, ◌%◌, ◌≤◌, leb, Bool, true, false, ◌&&◌, ◌||◌,
  List, [], ◌∷◌, arith, Passes, Passes-require, ↔-trans,
}
use mathlib.Core.List.{Memᴰ}
use open_whisker.Cron.{
  CronSchedule, has_key, days_per_month, any_day, any_month, validate_cron_satisfiable,
  unsatisfiable,
}

abbrev IsLeap : ℕ → Type 0
IsLeap year = (year % 4 ≡ 0) × ((1 ≤ year % 100) ⊎ (year % 400 ≡ 0))

-- the months of a year of the Gregorian calendar, with the numbers of their days
pub data Month (year : ℕ) : ℕ → ℕ → Type 0 where
  january : Month year 1 31
  february : Month year 2 28
  leap_february : IsLeap year → Month year 2 29
  march : Month year 3 31
  april : Month year 4 30
  may : Month year 5 31
  june : Month year 6 30
  july : Month year 7 31
  august : Month year 8 31
  september : Month year 9 30
  october : Month year 10 31
  november : Month year 11 30
  december : Month year 12 31

-- the month of the number has the day in some year
abbrev pub IsDate : ℕ → ℕ → Type 0
IsDate m d = (year most : ℕ) × Month year m most × (1 ≤ d) × (d ≤ most)

-- one of the months has one of the days
abbrev pub HasDate : List ℕ → List ℕ → Type 0
HasDate days months = (m d : ℕ) × Memᴰ m months × Memᴰ d days × IsDate m d

-- the months of a leap year
leap_year-Month : (m : ℕ) → 1 ≤ days_per_month m → Month 2000 m (days_per_month m)
unfolding has_key
leap_year-Month zero h = absurd (omega arith)
leap_year-Month (suc zero) h = Month.january
leap_year-Month (suc (suc zero)) h = Month.leap_february (refl, inr refl)
leap_year-Month (suc (suc (suc zero))) h = Month.march
leap_year-Month (suc (suc (suc (suc zero)))) h = Month.april
leap_year-Month (suc (suc (suc (suc (suc zero))))) h = Month.may
leap_year-Month (suc (suc (suc (suc (suc (suc zero)))))) h = Month.june
leap_year-Month (suc (suc (suc (suc (suc (suc (suc zero))))))) h = Month.july
leap_year-Month (suc (suc (suc (suc (suc (suc (suc (suc zero)))))))) h = Month.august
leap_year-Month (suc (suc (suc (suc (suc (suc (suc (suc (suc zero))))))))) h = Month.september
leap_year-Month (suc (suc (suc (suc (suc (suc (suc (suc (suc (suc zero)))))))))) h = Month.october
leap_year-Month (suc (suc (suc (suc (suc (suc (suc (suc (suc (suc (suc zero))))))))))) h =
    Month.november
leap_year-Month (suc (suc (suc (suc (suc (suc (suc (suc (suc (suc (suc (suc zero)))))))))))) h =
    Month.december
leap_year-Month (suc (suc (suc (suc (suc (suc (suc (suc (suc (suc (suc (suc (suc m))))))))))))) h =
    absurd (ground arith)

Month-longest : (year m most : ℕ) → Month year m most → most ≤ days_per_month m
unfolding has_key
Month-longest year m most january = omega arith
Month-longest year m most february = omega arith
Month-longest year m most (leap_february leap) = omega arith
Month-longest year m most march = omega arith
Month-longest year m most april = omega arith
Month-longest year m most may = omega arith
Month-longest year m most june = omega arith
Month-longest year m most july = omega arith
Month-longest year m most august = omega arith
Month-longest year m most september = omega arith
Month-longest year m most october = omega arith
Month-longest year m most november = omega arith
Month-longest year m most december = omega arith

-- a day that the table allows for one of the months
abbrev HasDay : List ℕ → List ℕ → Type 0
HasDay days months = (m d : ℕ) × Memᴰ m months × Memᴰ d days × (1 ≤ d) × (d ≤ days_per_month m)

HasDay-HasDate : (days months : List ℕ) → HasDay days months ↔ HasDate days months
HasDay-HasDate days months = (
  λ (m, d, x, y, p, q).
      (m, d, x, y, (2000, days_per_month m, leap_year-Month m (omega arith), p, q)),
  λ (m, d, x, y, (year, most, z, p, q)).
      (m, d, x, y, p, omega (arith, Month-longest year m most z)),
)

and_true : (a b : Bool) → (a && b) ≡ true → (a ≡ true) × (b ≡ true)
and_true true b h = (refl, h)
and_true false b h = cc

or_true : (a b : Bool) → (a || b) ≡ true → (a ≡ true) ⊎ (b ≡ true)
or_true true b h = inl refl
or_true false b h = inr h

day_test : (d most : ℕ) → (leb 1 d && leb d most) ≡ true → (1 ≤ d) × (d ≤ most)
day_test d most h = ground arith

any_day→ :
    (most : ℕ) (days : List ℕ)
    → any_day most days ≡ true
    → (d : ℕ) × Memᴰ d days × (1 ≤ d) × (d ≤ most)
unfolding any_day
any_day→ most [] h = cc
any_day→ most (d ∷ days) h = elim (or_true (leb 1 d && leb d most) (any_day most days) h) [
  | inl here ↦ let (a, b) = day_test d most here in (d, Memᴰ.head refl, a, b)
  | inr later ↦ let (e, m, p, q) = any_day→ most days later in (e, Memᴰ.tail m, p, q)
]

any_day← :
    (most : ℕ) (days : List ℕ) (d : ℕ) → Memᴰ d days → 1 ≤ d → d ≤ most → any_day most days ≡ true
unfolding any_day
any_day← most [] d x h k = elim x [ ]
any_day← most (e ∷ days) d (Memᴰ.head p) h k = ground (arith, p)
any_day← most (e ∷ days) d (Memᴰ.tail m) h k = ground (arith, any_day← most days d m h k)

any_month→ : (days months : List ℕ) → any_month days months ≡ true → HasDay days months
unfolding any_month
any_month→ days [] h = cc
any_month→ days (m ∷ months) h =
    elim (or_true (any_day (days_per_month m) days) (any_month days months) h) [
      | inl here ↦
          let (d, x, p, q) = any_day→ (days_per_month m) days here in
          (m, d, Memᴰ.head refl, x, p, q)
      | inr later ↦
          let (n, d, x, y, p, q) = any_month→ days months later in (n, d, Memᴰ.tail x, y, p, q)
    ]

or_intro : (a b : Bool) → (a ≡ true) ⊎ (b ≡ true) → (a || b) ≡ true
or_intro a b (inl h) = rw h refl
or_intro true b (inr h) = refl
or_intro false b (inr h) = h

any_month← : (days months : List ℕ) → HasDay days months → any_month days months ≡ true
unfolding any_month
any_month← days [] (m, d, x, y, p, q) = elim x [ ]
any_month← days (n ∷ months) (m, d, Memᴰ.head e, x, p, q) =
    or_intro _ _ (inl (any_day← (days_per_month n) days d x p (rw (ap days_per_month e) at q)))
any_month← days (n ∷ months) (m, d, Memᴰ.tail y, x, p, q) =
    or_intro _ _ (inr (any_month← days months (m, d, y, x, p, q)))

-- `validateCronSatisfiable` accepts a schedule exactly if one of its months has, in some year of the
-- Gregorian calendar, one of its days of the month.
pub validate_cron_satisfiable-HasDate :
    (c : CronSchedule) → Passes (validate_cron_satisfiable c) ↔ HasDate c.day_of_month c.month
unfolding validate_cron_satisfiable
validate_cron_satisfiable-HasDate c =
    ↔-trans (Passes-require (any_month c.day_of_month c.month) unsatisfiable) (
      ↔-trans (any_month→ c.day_of_month c.month, any_month← c.day_of_month c.month)
        (HasDay-HasDate c.day_of_month c.month))
