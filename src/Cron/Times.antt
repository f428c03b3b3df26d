-- ===== src/Cron/Times.antt =====
-- The times that a cron expression of src/engine/consolidation-scheduler.ts names.
use agent_working_memory.Base.{
  ℕ, zero, suc, ◌+◌, ◌≤◌, ◌<◌, ◌≡◌, refl, ap, ◌∙◌, true, ◌&&◌, List, [], ◌∷◌, any, text_eq, Text,
  codes, leb, ◌==◌, arith,
}
use mathlib.Core.List.{append-nil}
use agent_working_memory.Cron.{
  up_by, within, has, star, parse_cron_field, sunday, Moment, fields_match, cron_matches,
}

has-up_by :
    (fuel lo hi n : ℕ) → hi < lo + fuel → has n (up_by fuel lo hi 1) ≡ (leb lo n && leb n hi)
unfolding up_by
has-up_by zero lo hi n h = ground arith
has-up_by (suc fuel) lo hi n h = ground (arith, has-up_by fuel (lo + 1) hi n)

has-within :
    (lo hi n : ℕ) (xs : List ℕ) → has n (within lo hi xs) ≡ (has n xs && (leb lo n && leb n hi))
has-within lo hi n [] = refl
has-within lo hi n (x ∷ xs) = ground (arith, has-within lo hi n xs)

star_field : (lo hi : ℕ) → parse_cron_field star lo hi ≡ up_by (suc hi) lo hi 1
unfolding parse_cron_field text_eq
star_field lo hi = append-nil (up_by (suc hi) lo hi 1)

has-star : (lo hi n : ℕ) → has n (parse_cron_field star lo hi) ≡ (leb lo n && leb n hi)
has-star lo hi n = ap (has n) (star_field lo hi) ∙ has-up_by (suc hi) lo hi n (omega arith)

any-sunday : (n : ℕ) (xs : List ℕ) → n < 7 → has n xs ≡ true → any (λ x. sunday x == n) xs ≡ true
any-sunday n [] h k = cc
any-sunday n (x ∷ xs) h k = ground (arith, any-sunday n xs)

-- A date as the platform gives it.
pub record IsDate (now : Moment) : Type 0 where
  pub minutes : now.minutes < 60
  pub hours : now.hours < 24
  pub date_from : 1 ≤ now.date
  pub date_to : now.date ≤ 31
  pub month : now.month < 12
  pub day : now.day < 7

fields_at :
    (now : Moment) (a b : Text)
    → IsDate now
    → fields_match now (a ∷ b ∷ star ∷ star ∷ star ∷ [])
      ≡ (has now.minutes (parse_cron_field a 0 59) && has now.hours (parse_cron_field b 0 23))
fields_at now a b d = ground (
  arith,
  has-star 1 31 now.date,
  has-star 1 12 (now.month + 1),
  any-sunday now.day (parse_cron_field star 0 7),
  has-star 0 7 now.day,
)

default_split :
    (now : Moment)
    → cron_matches now (codes "0 3 * * *")
      ≡ fields_match now (codes "0" ∷ codes "3" ∷ star ∷ star ∷ star ∷ [])
unfolding cron_matches
default_split now = refl

minute_zero : (n : ℕ) → has n (parse_cron_field (codes "0") 0 59) ≡ (n == 0)
unfolding parse_cron_field text_eq
minute_zero n = ground arith

hour_three : (n : ℕ) → has n (parse_cron_field (codes "3") 0 23) ≡ (n == 3)
unfolding parse_cron_field text_eq
hour_three n = ground arith

-- The default expression `0 3 * * *` matches exactly the first minute after three o'clock of every day.
pub default_cron :
    (now : Moment)
    → IsDate now
    → cron_matches now (codes "0 3 * * *") ≡ ((now.minutes == 0) && (now.hours == 3))
default_cron now d =
    default_split now
    ∙ fields_at now (codes "0") (codes "3") d
    ∙ rw (minute_zero now.minutes, hour_three now.hours) refl
