-- ===== src/Core/Cron/Search.antt =====
-- The next run of a schedule.
use qwen_claw.Base.{
  ℕ, zero, suc, ◌+◌, ◌<◌, ◌≡◌, ◌∙◌, ap, true, false, none, some, arith, if_true, if_false,
}
use qwen_claw.Core.Cron.{CronExpression, Tm, cron_matches, next_match, next_after}

-- The minute `k` is the first that matches.
abbrev pub IsFirst : (ℕ → Tm) → CronExpression → ℕ → ℕ → Type 0
IsFirst calendar e n k =
    (cron_matches e (calendar (k + n)) ≡ true)
    × ((j : ℕ) → j < k → cron_matches e (calendar (j + n)) ≡ false)

next_match-first :
    (calendar : ℕ → Tm) (e : CronExpression) (rounds n k : ℕ)
    → k < rounds
    → IsFirst calendar e n k
    → next_match calendar e rounds n ≡ some (k + n)
unfolding next_match
next_match-first calendar e zero n k h first = absurd (omega (arith, h))
next_match-first calendar e (suc rounds) n zero h first =
    if_true _ _ (ap (λ m. cron_matches e (calendar m)) {x = n} {y = 0 + n} (omega arith) ∙ first.0)
    ∙ ap some {x = n} {y = 0 + n} (omega arith)
next_match-first calendar e (suc rounds) n (suc k) h first =
    if_false _ _ (
      ap (λ m. cron_matches e (calendar m)) {x = n} {y = 0 + n} (omega arith)
      ∙ first.1 0 (omega arith))
    ∙ next_match-first calendar e rounds (suc n) k (omega (arith, h)) (
      ap (λ m. cron_matches e (calendar m)) {x = k + suc n} {y = suc k + n} (omega arith) ∙ first.0,
      λ j below.
          ap (λ m. cron_matches e (calendar m)) {x = j + suc n} {y = suc j + n} (omega arith)
          ∙ first.1 (suc j) (omega (arith, below)),
    )
    ∙ ap some {x = k + suc n} {y = suc k + n} (omega arith)

-- Where one of the next 525,960 minutes, which are 365.25 days, matches, the next run is at the first
-- such minute.
pub next_after-first :
    (calendar : ℕ → Tm) (time_of : ℕ → ℕ) (e : CronExpression) (after k : ℕ)
    → k < 525960
    → IsFirst calendar e 0 k
    → next_after calendar time_of e after ≡ time_of k
unfolding next_after
next_after-first calendar time_of e after k h first =
    ap (λ o. elim o [ none ↦ after + 3600 | some n ↦ time_of n ])
      (next_match-first calendar e 525960 0 k h first)
    ∙ ap time_of {x = k + 0} {y = k} (omega arith)
