-- ===== src/Cron/Examples.antt =====
-- Cron expressions at concrete times.
use agent_working_memory.Base.{◌&&◌, ◌≡◌, refl, true, false, [], ◌∷◌, codes, text_eq, ◌==◌, arith}
use agent_working_memory.Cron.{Moment, cron_matches, parse_cron_field, up_by}
use agent_working_memory.Cron.Times.{IsDate, default_cron}

-- A Sunday in March.
abbrev now : Moment
now = record { minutes = 0; hours = 3; date = 8; month = 2; day = 0 }

now-IsDate : IsDate now
now-IsDate = record {
  minutes = omega arith;
  hours = omega arith;
  date_from = omega arith;
  date_to = omega arith;
  month = omega arith;
  day = omega arith;
}

default_cron_example :
    cron_matches now (codes "0 3 * * *") ≡ ((now.minutes == 0) && (now.hours == 3))
default_cron_example = default_cron now now-IsDate

quarters : parse_cron_field (codes "*/15") 0 59 ≡ 0 ∷ 15 ∷ 30 ∷ 45 ∷ []
unfolding parse_cron_field text_eq up_by
quarters = refl

mixed : parse_cron_field (codes "1-3,20,50-70/7,x") 0 59 ≡ 1 ∷ 2 ∷ 3 ∷ 20 ∷ 50 ∷ 57 ∷ []
unfolding parse_cron_field text_eq up_by
mixed = refl

sundays : cron_matches now (codes " 0  3 * 1-6 7 ") ≡ true
unfolding cron_matches text_eq up_by
sundays = refl

four_fields : cron_matches now (codes "0 3 * *") ≡ false
unfolding cron_matches text_eq up_by
four_fields = refl
