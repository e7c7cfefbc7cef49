-- ===== src/Core/Usage/Tests.antt =====
-- The theorem on usage at a short history.
use qwen_claw.Base.{◌≡◌, refl, List, [], ◌∷◌, some, arith}
use qwen_claw.Base.Text.{codes}
use qwen_claw.Core.Usage.{UsageAccumulator, no_stats}
use qwen_claw.Core.Usage.Totals.{
  Call, record_call, reset_session_call, run, IsSummed, sum_of, run-IsSummed,
}

abbrev empty_usage : UsageAccumulator
empty_usage = record { sessions = []; global = no_stats }

abbrev history : List Call
history =
    record_call (codes "a") 100 20
    ∷ record_call (codes "b") 7 0
    ∷ reset_session_call (codes "a")
    ∷ []

run-IsSummed_example : (v : UsageAccumulator) × (run history empty_usage ≡ some v) × IsSummed v
unfolding sum_of
run-IsSummed_example =
    run-IsSummed history empty_usage (omega arith, (omega arith, (tt, tt)))
      (omega arith, refl, omega arith, tt)
