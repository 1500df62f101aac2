-- ===== src/Tests/Schedules.antt =====
-- Cron expressions.
use open_whisker.Prelude.{◌≡◌, refl, ◌↔◌, false, arith, [], ◌∷◌, ok, Passes}
use open_whisker.Prelude.Text.{codes, split, trim_space, eqb, is_empty}
use open_whisker.Prelude.Text.Pieces.{cut}
use open_whisker.Cron.{
  CronSchedule, parse_cron_field, parse_tokens, parse_token, parse_step, parse_cron_range,
  parse_range_ends, parse_cron_int, atoi, digits, loop, loop_fuel, validate_cron_satisfiable,
}
use open_whisker.Cron.Loop.{Ends, loop-Ends}
use open_whisker.Cron.Satisfiable.{HasDate, validate_cron_satisfiable-HasDate}

abbrev leap_days : CronSchedule
leap_days = record {
  minute = 0 ∷ [];
  hour = 0 ∷ [];
  day_of_month = 29 ∷ [];
  month = 2 ∷ [];
  day_of_week = 1 ∷ [];
}

quarters : parse_cron_field (codes "*/15") 0 59 false ≡ ok (0 ∷ 15 ∷ 30 ∷ 45 ∷ [])
unfolding parse_cron_field parse_tokens parse_token parse_step parse_cron_range parse_range_ends
    parse_cron_int atoi digits cut loop split trim_space eqb is_empty
quarters = refl

-- A step near the largest `int` overflows, and the values below the start are set too.
overflow :
    parse_cron_field (codes "5/9223372036854775807") 0 59 false
    ≡ ok (
        5 ∷ 0x8000000000000004 ∷ 3 ∷ 0x8000000000000002 ∷ 1 ∷ 0x8000000000000000
        ∷ 0xffffffffffffffff ∷ [])
unfolding parse_cron_field parse_tokens parse_token parse_step parse_cron_range parse_range_ends
    parse_cron_int atoi digits cut loop split trim_space eqb is_empty
overflow = refl

loop-Ends_example : Ends loop_fuel 9223372036854775807 5 5
loop-Ends_example =
    loop-Ends 5 5 9223372036854775807 (omega arith) (omega arith) (omega arith) (omega arith)

validate_cron_satisfiable-HasDate_example :
    Passes (validate_cron_satisfiable leap_days) ↔ HasDate (29 ∷ []) (2 ∷ [])
validate_cron_satisfiable-HasDate_example = validate_cron_satisfiable-HasDate leap_days
