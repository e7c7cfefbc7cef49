-- ===== src/Core/Cron/Tests.antt =====
-- Runs of a schedule.
use qwen_claw.Base.{ℕ, zero, suc, ◌+◌, ◌<◌, ◌≡◌, refl, false, [], ◌∷◌, arith}
use qwen_claw.Base.Int.{pos}
use qwen_claw.Core.Cron.{CronExpression, Tm, cron_matches, field_matches, next_after}
use qwen_claw.Core.Cron.Search.{IsFirst, next_after-first}

-- Three minutes past every hour.
abbrev third_minute : CronExpression
third_minute = record {
  minute = pos 3 ∷ [];
  hour = [];
  day_of_month = [];
  month = [];
  day_of_week = [];
}

-- The minutes of the first hour of a year that begins on a Monday.
abbrev first_hour : ℕ → Tm
first_hour n = record { tm_min = n; tm_hour = 0; tm_mday = 1; tm_mon = 0; tm_wday = 1 }

third_minute-IsFirst : IsFirst first_hour third_minute 0 3
unfolding cron_matches field_matches
third_minute-IsFirst = (refl, before)
  where
    before : (j : ℕ) → j < 3 → cron_matches third_minute (first_hour (j + 0)) ≡ false
    before zero h = refl
    before (suc zero) h = refl
    before (suc (suc zero)) h = refl
    before (suc (suc (suc j))) h = absurd (omega (arith, h))

next_after-first_example : next_after first_hour (λ n. n) third_minute 0 ≡ 3
next_after-first_example =
    next_after-first first_hour (λ n. n) third_minute 0 3 (omega arith) third_minute-IsFirst
