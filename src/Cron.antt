-- ===== src/Cron.antt =====
-- internal/scheduler/cron.go: cron expressions. An `int` is the 64-bit word of its two's complement,
-- a number below `2 ^ 64`; `values[v] = true` is `v` at the head of the list of keys. The calls of
-- `time.Time` stand as the fields of the local time.
pub mod Loop
pub mod Satisfiable
use open_whisker.Prelude.{
  ℕ, zero, suc, ◌+◌, ◌-◌, ◌*◌, ◌%◌, ltb, leb, ◌==◌, Bool, true, false, ◌&&◌, ◌||◌, not, Option,
  none, some, List, [], ◌∷◌, ◌++◌, length, Result, ok, err, Check, require, refuse, wrap, ◌>>=◌,
  ◌>>◌, if◌then◌else◌,
}
use open_whisker.Prelude.Text.Pieces.{cut}
use open_whisker.Prelude.Text.{Str, codes, eqb, is_empty, contains, split, trim_space, fields}

-- the errors of `ParseCron`, with the texts that they quote
pub data CronError : Type 0 where
  field_count : ℕ → CronError
  in_field : Str → CronError → CronError
  empty_token unsatisfiable no_end : CronError
  invalid_step invalid_value : Str → CronError
  outside : Str → ℕ → ℕ → CronError
  range_reversed : ℕ → ℕ → CronError

pub record CronSchedule : Type 0 where
  pub minute : List ℕ
  pub hour : List ℕ
  pub day_of_month : List ℕ
  pub month : List ℕ
  pub day_of_week : List ℕ

abbrev pub word : ℕ
word = 0x10000000000000000

abbrev pub max_int : ℕ
max_int = 0x7fffffffffffffff

-- the key of a `map[int]bool`
unfoldable pub has_key : ℕ → List ℕ → Bool
has_key x [] = false
has_key x (y ∷ ys) = x == y || has_key x ys

abbrev is_digit : ℕ → Bool
is_digit c = leb 48 c && leb c 57

-- the value of decimal digits behind those that were read
unfoldable pub digits : ℕ → Str → Option ℕ
digits n [] = some n
digits n (c ∷ s) = let rest = digits (n * 10 + (c - 48)) s in if is_digit c then rest else none

abbrev nonempty_digits : Str → Option ℕ
nonempty_digits [] = none
nonempty_digits (c ∷ s) = digits 0 (c ∷ s)

abbrev in_range : ℕ → Option ℕ → Option ℕ
in_range most none = none
in_range most (some n) = if leb n most then some n else none

abbrev negated : Option ℕ → Option ℕ
negated none = none
negated (some n) = some ((word - n) % word)

-- strconv.Atoi: the word of the number
unfoldable pub atoi : Str → Option ℕ
atoi [] = none
atoi (c ∷ s) =
    if c == 45
    then negated (in_range (suc max_int) (nonempty_digits s))
    else if c == 43
    then in_range max_int (nonempty_digits s)
    else in_range max_int (nonempty_digits (c ∷ s))

-- `a <= b` where `b` is not negative
abbrev pub int_leb : ℕ → ℕ → Bool
int_leb a b = leb a b || ltb max_int a

-- parseCronInt; the bounds are not negative
unfoldable pub parse_cron_int : Str → ℕ → ℕ → Result CronError ℕ
parse_cron_int value min_value max_value = elim (atoi (trim_space value)) [
  | none ↦ err (invalid_value value)
  | some n ↦
      if leb min_value n && leb n max_value then ok n else err (outside value min_value max_value)
]

unfoldable pub parse_range_ends : Str × Str → ℕ → ℕ → Result CronError (ℕ × ℕ)
parse_range_ends (left, right) min_value max_value = do
  start ← parse_cron_int left min_value max_value
  last ← parse_cron_int right min_value max_value
  refuse (ltb last start) (range_reversed start last)
  ok (start, last)

-- parseCronRange
unfoldable pub parse_cron_range : Str → ℕ → ℕ → Result CronError (ℕ × ℕ)
parse_cron_range part min_value max_value =
    if eqb part (codes "*") then ok (min_value, max_value) else elim (cut 45 part) [
      | some ends ↦ parse_range_ends ends min_value max_value
      | none ↦ parse_cron_int part min_value max_value >>= λ value. ok (value, value)
    ]

-- `for value := start; value <= end; value += step`: the values, the last at the head; `none` when
-- the fuel is used up
unfoldable pub loop : ℕ → ℕ → ℕ → ℕ → Option (List ℕ)
loop zero step last value = none
loop (suc fuel) step last value =
    let rest = loop fuel step last ((value + step) % word) in
    if int_leb value last then before value rest else some []
  where
    before : ℕ → Option (List ℕ) → Option (List ℕ)
    before value none = none
    before value (some values) = some (value ∷ values)

abbrev pub loop_fuel : ℕ
loop_fuel = 200

abbrev pub sunday : Bool → ℕ → ℕ
sunday normalize_sunday value = if normalize_sunday && value == 7 then 0 else value

-- the step of a token and the text before it
unfoldable pub parse_step : Str → Result CronError (Str × ℕ)
parse_step part = elim (cut 47 part) [
  | none ↦ ok (part, 1)
  | some (left, right) ↦ elim (atoi (trim_space right)) [
    | none ↦ err (invalid_step right)
    | some n ↦
        if leb 1 n && leb n max_int then ok (trim_space left, n) else err (invalid_step right)
  ]
]

abbrev or_no_end : Option (List ℕ) → Result CronError (List ℕ)
or_no_end none = err no_end
or_no_end (some values) = ok values

abbrev sundays : Bool → List ℕ → List ℕ
sundays b [] = []
sundays b (v ∷ vs) = sunday b v ∷ sundays b vs

-- the body of the loop over the tokens
unfoldable pub parse_token : ℕ → ℕ → Bool → Str → Result CronError (List ℕ)
parse_token min_value max_value normalize_sunday token = do
  let part = trim_space token
  refuse (is_empty part) empty_token
  (range, step) ← parse_step part
  (start, last) ← parse_cron_range range min_value max_value
  values ← or_no_end (loop loop_fuel step last start)
  ok (sundays normalize_sunday values)

unfoldable pub parse_tokens : ℕ → ℕ → Bool → List Str → Result CronError (List ℕ)
parse_tokens min_value max_value normalize_sunday [] = ok []
parse_tokens min_value max_value normalize_sunday (token ∷ tokens) = do
  values ← parse_token min_value max_value normalize_sunday token
  later ← parse_tokens min_value max_value normalize_sunday tokens
  ok (values ++ later)

-- parseCronField
unfoldable pub parse_cron_field : Str → ℕ → ℕ → Bool → Result CronError (List ℕ)
parse_cron_field field min_value max_value normalize_sunday =
    parse_tokens min_value max_value normalize_sunday (split 44 field)

-- `daysPerMonth`
abbrev pub days_per_month : ℕ → ℕ
days_per_month month =
    if month == 2
    then 29
    else if has_key month (4 ∷ 6 ∷ 9 ∷ 11 ∷ [])
    then 30
    else if leb 1 month && leb month 12
    then 31
    else 0

unfoldable pub any_day : ℕ → List ℕ → Bool
any_day most [] = false
any_day most (day ∷ days) = leb 1 day && leb day most || any_day most days

unfoldable pub any_month : List ℕ → List ℕ → Bool
any_month days [] = false
any_month days (month ∷ months) = any_day (days_per_month month) days || any_month days months

-- validateCronSatisfiable
unfoldable pub validate_cron_satisfiable : CronSchedule → Check CronError
validate_cron_satisfiable c = require (any_month c.day_of_month c.month) unsatisfiable

unfoldable pub parse_fields : List Str → Result CronError CronSchedule
parse_fields (f₀ ∷ f₁ ∷ f₂ ∷ f₃ ∷ f₄ ∷ []) = do
  minute ← wrap (in_field (codes "minute")) (parse_cron_field f₀ 0 59 false)
  hour ← wrap (in_field (codes "hour")) (parse_cron_field f₁ 0 23 false)
  day_of_month ← wrap (in_field (codes "day-of-month")) (parse_cron_field f₂ 1 31 false)
  month ← wrap (in_field (codes "month")) (parse_cron_field f₃ 1 12 false)
  day_of_week ← wrap (in_field (codes "day-of-week")) (parse_cron_field f₄ 0 7 true)
  let schedule : CronSchedule = record {
    minute = minute;
    hour = hour;
    day_of_month = day_of_month;
    month = month;
    day_of_week = day_of_week;
  }
  validate_cron_satisfiable schedule
  ok schedule
parse_fields fs = err (field_count (length fs))

-- ParseCron
unfoldable pub parse_cron : Str → Result CronError CronSchedule
parse_cron expr = parse_fields (fields expr)

-- the fields of a local time that `Matches` reads
pub record LocalTime : Type 0 where
  pub at_minute : ℕ
  pub at_hour : ℕ
  pub at_day : ℕ
  pub at_month : ℕ
  pub at_weekday : ℕ

-- Matches
unfoldable pub matches : CronSchedule → LocalTime → Bool
matches c t =
    has_key t.at_minute c.minute
    && has_key t.at_hour c.hour
    && has_key t.at_day c.day_of_month
    && has_key t.at_month c.month
    && has_key t.at_weekday c.day_of_week
